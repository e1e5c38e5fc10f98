-- ===== src/Prelude/Lists.antt =====
-- Lists measured by native numbers, and the selections that a `WHERE` clause or a loop over a
-- slice makes.
use Prim.Native.Nat.{ℕ, zero, suc, ◌-◌, ◌+◌, ◌≤◌, ◌<◌}
use mathlib.Core.Path.{◌≡◌, refl, ap, subst}
use mathlib.Core.Logic.{inl, inr}
use mathlib.Core.List.{List, [], ◌∷◌, ◌++◌}
use mathlib.Core.Bool.{Bool, true, false, ◌||◌}
use mathlib.Core.Option.{Option, none, some}
use mathlib.Core.Option
use native.Mathlib.Omega.{arith}
use web_bijin.Prelude.Tests.{if◌then◌else◌, Bool-cases}

module _ {ℓ} {A : Type ℓ} where
  abbrev pub length : List A → ℕ
  length [] = 0
  length (x ∷ xs) = suc (length xs)

  -- The first row that passes the test.
  abbrev pub find_where : (A → Bool) → List A → Option A
  find_where p [] = none
  find_where p (x ∷ xs) = if p x then some x else find_where p xs

  -- `UPDATE … WHERE`.
  abbrev pub update_where : (A → Bool) → (A → A) → List A → List A
  update_where p f [] = []
  update_where p f (x ∷ xs) = (if p x then f x else x) ∷ update_where p f xs

  -- `DELETE … WHERE`.
  abbrev pub delete_where : (A → Bool) → List A → List A
  delete_where p [] = []
  delete_where p (x ∷ xs) = if p x then delete_where p xs else x ∷ delete_where p xs

  -- `SELECT … WHERE`, and a Go loop that keeps what passes.
  abbrev pub keep_where : (A → Bool) → List A → List A
  keep_where p [] = []
  keep_where p (x ∷ xs) = if p x then x ∷ keep_where p xs else keep_where p xs

  -- `SELECT COUNT(*) … WHERE`, and the number of rows that an `UPDATE` affects.
  abbrev pub count_where : (A → Bool) → List A → ℕ
  count_where p [] = 0
  count_where p (x ∷ xs) = (if p x then 1 else 0) + count_where p xs

  abbrev pub any_where : (A → Bool) → List A → Bool
  any_where p [] = false
  any_where p (x ∷ xs) = p x || any_where p xs

  -- The slices `xs[:n]` and `xs[n:]`, which stop at the end.
  abbrev pub take : ℕ → List A → List A
  take zero xs = []
  take (suc n) [] = []
  take (suc n) (x ∷ xs) = x ∷ take n xs

  abbrev pub drop : ℕ → List A → List A
  drop zero xs = xs
  drop (suc n) [] = []
  drop (suc n) (x ∷ xs) = drop n xs

  abbrev pub All {κ} : (A → Type κ) → List A → Type κ
  All P [] = Unit
  All P (x ∷ xs) = P x × All P xs

module _ {ℓ} {A : Type ℓ} where
  pub length-append : (xs ys : List A) → length (xs ++ ys) ≡ length xs + length ys
  length-append [] ys = omega arith
  length-append (x ∷ xs) ys = omega (arith, length-append xs ys)

  pub length-update_where :
      (p : A → Bool) (f : A → A) (xs : List A) → length (update_where p f xs) ≡ length xs
  length-update_where p f [] = refl
  length-update_where p f (x ∷ xs) = ap suc (length-update_where p f xs)

  pub length-delete_where : (p : A → Bool) (xs : List A) → length (delete_where p xs) ≤ length xs
  length-delete_where p [] = omega arith
  length-delete_where p (x ∷ xs) = ground (arith, length-delete_where p xs)

  pub take-drop : (n : ℕ) (xs : List A) → take n xs ++ drop n xs ≡ xs
  take-drop zero xs = refl
  take-drop (suc n) [] = refl
  take-drop (suc n) (x ∷ xs) = ap (λ ys. x ∷ ys) (take-drop n xs)

  pub length-take_le : (n : ℕ) (xs : List A) → length (take n xs) ≤ n
  length-take_le zero xs = omega arith
  length-take_le (suc n) [] = omega arith
  length-take_le (suc n) (x ∷ xs) = omega (arith, length-take_le n xs)

  pub length-drop : (n : ℕ) (xs : List A) → length (drop n xs) ≡ length xs - n
  length-drop zero xs = omega arith
  length-drop (suc n) [] = omega arith
  length-drop (suc n) (x ∷ xs) = omega (arith, length-drop n xs)

  pub length-keep_where : (p : A → Bool) (xs : List A) → length (keep_where p xs) ≤ length xs
  length-keep_where p [] = omega arith
  length-keep_where p (x ∷ xs) = ground (arith, length-keep_where p xs)

  -- A selection from a weaker one.
  pub keep-keep :
      (p q : A → Bool) (xs : List A)
      → ((x : A) → p x ≡ true → q x ≡ true)
      → keep_where p (keep_where q xs) ≡ keep_where p xs
  keep-keep p q [] h = refl
  keep-keep p q (x ∷ xs) h = ground (arith, h x, keep-keep p q xs h)

  pub count_where-le : (p : A → Bool) (xs : List A) → count_where p xs ≤ length xs
  count_where-le p [] = omega arith
  count_where-le p (x ∷ xs) = ground (arith, count_where-le p xs)

module _ {ℓ κ} {A : Type ℓ} (P : A → Type κ) where
  pub All-update_where :
      (p : A → Bool) (f : A → A) (xs : List A)
      → ((x : A) → p x ≡ true → P x → P (f x))
      → All P xs
      → All P (update_where p f xs)
  All-update_where p f [] h a = a
  All-update_where p f (x ∷ xs) h a = (ground (arith, h x), All-update_where p f xs h a.1)

  pub All-delete_where : (p : A → Bool) (xs : List A) → All P xs → All P (delete_where p xs)
  All-delete_where p [] a = a
  All-delete_where p (x ∷ xs) a = ground (arith, All-delete_where p xs a.1)

  -- What is selected passes the test.
  pub All-keep_where :
      (p : A → Bool) (xs : List A) → All P xs → All (λ x. (p x ≡ true) × P x) (keep_where p xs)
  All-keep_where p [] a = tt
  All-keep_where p (x ∷ xs) a = ground (arith, All-keep_where p xs a.1, a.0)

  pub All-append : (xs ys : List A) → All P xs → All P ys → All P (xs ++ ys)
  All-append [] ys a b = b
  All-append (x ∷ xs) ys a b = (a.0, All-append xs ys a.1 b)

  -- What all rows satisfy, a row that was found satisfies.
  pub All-find_where :
      (p : A → Bool) (xs : List A) {x : A} → find_where p xs ≡ some x → All P xs → P x
  All-find_where p [] e a = cc
  All-find_where p (y ∷ xs) {x} e a = elim (Bool-cases (p y)) [
    | inl t ↦ let same : y ≡ x = ground arith in subst P same a.0
    | inr t ↦ All-find_where p xs {x = x} (ground arith) a.1
  ]

  pub All-mono {ι} : (Q : A → Type ι) (xs : List A) → ((x : A) → P x → Q x) → All P xs → All Q xs
  All-mono Q [] h a = tt
  All-mono Q (x ∷ xs) h a = (h x a.0, All-mono Q xs h a.1)

module _ {ℓ κ ι} {A : Type ℓ} (P : A → Type κ) (Q : A → Type ι) where
  pub All-both : (xs : List A) → All P xs → All Q xs → All (λ x. P x × Q x) xs
  All-both [] a b = tt
  All-both (x ∷ xs) a b = ((a.0, b.0), All-both xs a.1 b.1)

  -- What is left did not pass the test.
  pub All-delete_knowing :
      (p : A → Bool) (xs : List A)
      → ((x : A) → p x ≡ false → P x → Q x)
      → All P xs
      → All Q (delete_where p xs)
  All-delete_knowing p [] h a = tt
  All-delete_knowing p (x ∷ xs) h a = ground (arith, h x, All-delete_knowing p xs h a.1, a.0)

  -- An update where more is known of every row.
  pub All-update_knowing :
      (p : A → Bool) (f : A → A) (xs : List A)
      → ((x : A) → p x ≡ true → Q x → P x → P (f x))
      → All Q xs
      → All P xs
      → All P (update_where p f xs)
  All-update_knowing p f [] h b a = tt
  All-update_knowing p f (x ∷ xs) h b a = (ground (arith, h x), All-update_knowing p f xs h b.1 a.1)

module _ {ℓ} {A : Type ℓ} where
  pub find_where-holds :
      (p : A → Bool) (xs : List A) {x : A} → find_where p xs ≡ some x → p x ≡ true
  find_where-holds p [] e = cc
  find_where-holds p (y ∷ xs) {x} e = ground (arith, find_where-holds p xs {x = x})

  pub find_where-none-All :
      (p : A → Bool) (xs : List A) → find_where p xs ≡ none → All (λ x. p x ≡ false) xs
  find_where-none-All p [] e = tt
  find_where-none-All p (x ∷ xs) e = (ground arith, find_where-none-All p xs (ground arith))

  pub All-find_where-none :
      (p : A → Bool) (xs : List A) → All (λ x. p x ≡ false) xs → find_where p xs ≡ none
  All-find_where-none p [] a = refl
  All-find_where-none p (x ∷ xs) a = ground (arith, All-find_where-none p xs a.1, a.0)

  -- A row found by a test that an update spares is found unchanged.
  pub find_where-update_ne :
      (q p : A → Bool) (f : A → A) (xs : List A)
      → ((x : A) → p x ≡ true → (q x ≡ false) × (q (f x) ≡ false))
      → find_where q (update_where p f xs) ≡ find_where q xs
  find_where-update_ne q p f [] h = refl
  find_where-update_ne q p f (x ∷ xs) h = ground (arith, h x, find_where-update_ne q p f xs h)

  -- A row found by a test that the update keeps is found updated.
  pub find_where-update_eq :
      (p : A → Bool) (f : A → A) (xs : List A)
      → ((x : A) → p x ≡ true → p (f x) ≡ true)
      → find_where p (update_where p f xs) ≡ Option.map f (find_where p xs)
  find_where-update_eq p f [] h = refl
  find_where-update_eq p f (x ∷ xs) h = ground (arith, h x, find_where-update_eq p f xs h)

  pub find_where-delete_ne :
      (q p : A → Bool) (xs : List A)
      → ((x : A) → p x ≡ true → q x ≡ false)
      → find_where q (delete_where p xs) ≡ find_where q xs
  find_where-delete_ne q p [] h = refl
  find_where-delete_ne q p (x ∷ xs) h = ground (arith, h x, find_where-delete_ne q p xs h)

  pub find_where-delete_self :
      (p : A → Bool) (xs : List A) → find_where p (delete_where p xs) ≡ none
  find_where-delete_self p [] = refl
  find_where-delete_self p (x ∷ xs) = ground (arith, find_where-delete_self p xs)

  pub count_where-zero :
      (p : A → Bool) (xs : List A) → find_where p xs ≡ none → count_where p xs ≡ 0
  count_where-zero p [] e = refl
  count_where-zero p (x ∷ xs) e = ground (arith, count_where-zero p xs)

  pub count_where-pos :
      (p : A → Bool) (xs : List A) {x : A} → find_where p xs ≡ some x → 0 < count_where p xs
  count_where-pos p [] e = cc
  count_where-pos p (y ∷ xs) {x} e = ground (arith, count_where-pos p xs {x = x})

  -- An update of no row changes nothing.
  pub update_where-none :
      (p : A → Bool) (f : A → A) (xs : List A) → find_where p xs ≡ none → update_where p f xs ≡ xs
  update_where-none p f [] e = refl
  update_where-none p f (x ∷ xs) e = ground (arith, update_where-none p f xs)

  pub delete_where-none :
      (p : A → Bool) (xs : List A) → find_where p xs ≡ none → delete_where p xs ≡ xs
  delete_where-none p [] e = refl
  delete_where-none p (x ∷ xs) e = ground (arith, delete_where-none p xs)

  -- A search that the update does not mislead finds the row as the update left it.
  pub find_where-update :
      (q p : A → Bool) (f : A → A) (xs : List A)
      → ((x : A) → p x ≡ true → q (f x) ≡ q x)
      → find_where q (update_where p f xs)
        ≡ Option.map (λ x. if p x then f x else x) (find_where q xs)
  find_where-update q p f [] h = refl
  find_where-update q p f (x ∷ xs) h = ground (arith, h x, find_where-update q p f xs h)
