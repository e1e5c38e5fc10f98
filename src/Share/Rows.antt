-- ===== src/Share/Rows.antt =====
-- The keys of `photo_shares`: photo_id is its primary key and token is UNIQUE. What the statements
-- of share_store.go do to them.
use web_bijin.Prelude.{
  ℕ, ◌≡◌, refl, inl, inr, Bool, true, false, Option, none, some, List, [], ◌∷◌, Text, arith, nat_eq,
  text_eq, text_beq_iff, Bool-cases, find_where, update_where, any_where, update_where-none, sym,
  nat_beq_iff, Option-cases,
}
use web_bijin.Store.{Share, has_photo, retired, insert_share}
use web_bijin.Share.{has_token}
use web_bijin.Share.Writes.{is_taken, put_share}

abbrev pub DistinctIds : List Share → Type 0
DistinctIds [] = Unit {0}
DistinctIds (x ∷ xs) = (find_where (has_photo x.photo_id) xs ≡ none) × DistinctIds xs

-- No link leads to two photos.
abbrev pub DistinctTokens : List Share → Type 0
DistinctTokens [] = Unit {0}
DistinctTokens (x ∷ xs) = (is_taken x.token xs ≡ false) × DistinctTokens xs

-- An update that keeps the photo ids.
module _ (p : Share → Bool) (f : Share → Share)
    (keeps : (x : Share) → p x ≡ true → (f x).photo_id ≡ x.photo_id) where
  find_where-update_keeps :
      (id : ℕ) (xs : List Share)
      → find_where (has_photo id) xs ≡ none
      → find_where (has_photo id) (update_where p f xs) ≡ none
  find_where-update_keeps id [] e = refl
  find_where-update_keeps id (x ∷ xs) e = ground (arith, keeps x, find_where-update_keeps id xs)

  pub DistinctIds-update : (xs : List Share) → DistinctIds xs → DistinctIds (update_where p f xs)
  DistinctIds-update [] d = tt
  DistinctIds-update (x ∷ xs) d =
      ground (arith, keeps x, find_where-update_keeps x.photo_id xs d.0, DistinctIds-update xs d.1)

module _ (p : Share → Bool) where
  any_where-retired :
      (t : Text) (xs : List Share)
      → any_where (has_token t) xs ≡ false
      → any_where (has_token t) (update_where p retired xs) ≡ false
  unfolding has_token
  any_where-retired t [] e = refl
  any_where-retired t (x ∷ xs) e = ground (arith, any_where-retired t xs)

  is_taken-retired :
      (o : Option Text) (xs : List Share)
      → is_taken o xs ≡ false
      → is_taken o (update_where p retired xs) ≡ false
  is_taken-retired none xs e = refl
  is_taken-retired (some t) xs e = any_where-retired t xs e

  -- A link that is retired is free for nobody else.
  pub DistinctTokens-retired :
      (xs : List Share) → DistinctTokens xs → DistinctTokens (update_where p retired xs)
  DistinctTokens-retired [] d = tt
  DistinctTokens-retired (x ∷ xs) d =
      ground (arith, is_taken-retired x.token xs d.0, DistinctTokens-retired xs d.1)

pub DistinctIds-insert_share :
    (id : ℕ) (xs : List Share) → DistinctIds xs → DistinctIds (insert_share id xs)
unfolding insert_share
DistinctIds-insert_share id xs d = ground arith

pub DistinctTokens-insert_share :
    (id : ℕ) (xs : List Share) → DistinctTokens xs → DistinctTokens (insert_share id xs)
unfolding insert_share
DistinctTokens-insert_share id xs d = ground arith

pub DistinctIds-put_share :
    (sh : Share) (xs : List Share) → DistinctIds xs → DistinctIds (put_share sh xs)
unfolding put_share
DistinctIds-put_share sh xs d = ground (
  arith,
  DistinctIds-update (has_photo sh.photo_id) (λ _. sh) (λ x h. sym ((nat_beq_iff _ _).0 h)) xs d,
)

any_where-replaced :
    (t : Text) (sh : Share) (xs : List Share)
    → has_token t sh ≡ false
    → any_where (has_token t) xs ≡ false
    → any_where (has_token t) (update_where (has_photo sh.photo_id) (λ _. sh) xs) ≡ false
any_where-replaced t sh [] h e = refl
any_where-replaced t sh (x ∷ xs) h e = ground (arith, any_where-replaced t sh xs h)

is_taken-replaced :
    (o : Option Text) (sh : Share) (xs : List Share)
    → ((t : Text) → o ≡ some t → has_token t sh ≡ false)
    → is_taken o xs ≡ false
    → is_taken o (update_where (has_photo sh.photo_id) (λ _. sh) xs) ≡ false
is_taken-replaced none sh xs h e = refl
is_taken-replaced (some t) sh xs h e = any_where-replaced t sh xs (h t refl) e

is_taken-tail :
    (o : Option Text) (x : Share) (xs : List Share)
    → is_taken o (x ∷ xs) ≡ false
    → is_taken o xs ≡ false
is_taken-tail none x xs e = refl
is_taken-tail (some t) x xs e = ground arith

has_token-clash :
    (x sh : Share) (xs : List Share)
    → is_taken sh.token (x ∷ xs) ≡ false
    → (t : Text) → x.token ≡ some t
    → has_token t sh ≡ false
unfolding has_token
has_token-clash x sh xs free t e = elim (Option-cases sh.token) [
  | inl n ↦ rw (n, has_token)
  | inr (u, o) ↦ ground (arith, text_beq_iff u t, text_beq_iff t u)
]

DistinctTokens-replaced :
    (sh : Share) (xs : List Share)
    → is_taken sh.token xs ≡ false
    → DistinctIds xs
    → DistinctTokens xs
    → DistinctTokens (update_where (has_photo sh.photo_id) (λ _. sh) xs)
DistinctTokens-replaced sh [] free ids d = tt
DistinctTokens-replaced sh (x ∷ xs) free ids d = elim (Bool-cases (has_photo sh.photo_id x)) [
  | inl same ↦
      let e : x.photo_id ≡ sh.photo_id = (nat_beq_iff _ _).0 same in
      rw same (
        rw (update_where-none (has_photo sh.photo_id) (λ _. sh) xs (rw e at ids.0))
          (is_taken-tail sh.token x xs free, d.1))
  | inr other ↦ rw other (
    is_taken-replaced x.token sh xs (λ t e. has_token-clash x sh xs free t e) d.0,
    DistinctTokens-replaced sh xs (is_taken-tail sh.token x xs free) ids.1 d.1,
  )
]

pub DistinctTokens-put_share :
    (sh : Share) (xs : List Share)
    → is_taken sh.token xs ≡ false
    → DistinctIds xs
    → DistinctTokens xs
    → DistinctTokens (put_share sh xs)
unfolding put_share
DistinctTokens-put_share sh xs free ids d = ground (arith, DistinctTokens-replaced sh xs free ids d)
