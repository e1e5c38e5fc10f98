-- ===== src/Prelude/Counts.antt =====
-- How many rows pass a test after an update or a deletion.
use Prim.Native.Nat.{◌+◌, ◌≤◌}
use mathlib.Core.Path.{◌≡◌, refl}
use mathlib.Core.List.{List, [], ◌∷◌}
use mathlib.Core.Bool.{Bool, true, false}
use native.Mathlib.Omega.{arith}
use web_bijin.Prelude.Lists.{length, update_where, delete_where, count_where}

module _ {ℓ} {A : Type ℓ} where
  pub count_where-update_keeps :
      (q p : A → Bool) (f : A → A) (xs : List A)
      → ((x : A) → p x ≡ true → q (f x) ≡ q x)
      → count_where q (update_where p f xs) ≡ count_where q xs
  count_where-update_keeps q p f [] h = refl
  count_where-update_keeps q p f (x ∷ xs) h =
      ground (arith, h x, count_where-update_keeps q p f xs h)

  -- At most the rows that the update touches are new to the test.
  pub count_where-update_le :
      (q p : A → Bool) (f : A → A) (xs : List A)
      → count_where q (update_where p f xs) ≤ count_where q xs + count_where p xs
  count_where-update_le q p f [] = omega arith
  count_where-update_le q p f (x ∷ xs) = ground (arith, count_where-update_le q p f xs)

  -- An update that makes the test fail takes out what it touches.
  pub count_where-update_drops :
      (q p : A → Bool) (f : A → A) (xs : List A)
      → ((x : A) → p x ≡ true → q (f x) ≡ false)
      → count_where q (update_where p f xs) ≤ count_where q xs
  count_where-update_drops q p f [] h = omega arith
  count_where-update_drops q p f (x ∷ xs) h =
      ground (arith, h x, count_where-update_drops q p f xs h)

  pub count_where-delete_le :
      (q p : A → Bool) (xs : List A) → count_where q (delete_where p xs) ≤ count_where q xs
  count_where-delete_le q p [] = omega arith
  count_where-delete_le q p (x ∷ xs) = ground (arith, count_where-delete_le q p xs)

  -- Every row passes a test that the update establishes on the rows that failed it.
  pub count_where-update_all :
      (q p : A → Bool) (f : A → A) (xs : List A)
      → ((x : A) → p x ≡ true → q (f x) ≡ true)
      → ((x : A) → p x ≡ false → q x ≡ true)
      → count_where q (update_where p f xs) ≡ length xs
  count_where-update_all q p f [] h k = refl
  count_where-update_all q p f (x ∷ xs) h k =
      ground (arith, h x, k x, count_where-update_all q p f xs h k)

  pub count_where-update_none :
      (q : A → Bool) (f : A → A) (xs : List A)
      → ((x : A) → q x ≡ true → q (f x) ≡ false)
      → count_where q (update_where q f xs) ≡ 0
  count_where-update_none q f [] h = refl
  count_where-update_none q f (x ∷ xs) h = ground (arith, h x, count_where-update_none q f xs h)
