-- ===== src/Process/Stages.antt =====
-- What the writes of photo_processing.go leave under a key, and among the thumbnails.
use web_bijin.Prelude.{
  ℕ, ◌≡◌, ◌≢◌, refl, sym, ap, subst, ◌∙◌, inl, inr, Bool, true, false, ◌||◌, some, List, [], ◌∷◌,
  Text, arith, Bool-cases, Option-cases, text_eq, ◌==◌, nat_eq, nat_beq_iff, text_beq, text_beq_iff,
  text_beq_refl, find_where, find_where-holds, update_where,
}
use web_bijin.Store.{Photo, Store, has_id}
use web_bijin.Store.Photos.{
  has_key, get_by_source_key, upsert, upsert_key, update_photo, insert_photo, written,
}
use web_bijin.Process.Photo.{Thumb, Fixed, thumb_of, same_thumb, thumb_exists, remove_old}
use web_bijin.Process.Publish.{save_thumb}

find_where-update_const {ℓ} :
    {A : Type ℓ} (q p : A → Bool) (row : A) (xs : List A) {e : A}
    → find_where q xs ≡ some e
    → p e ≡ true
    → q row ≡ true
    → find_where q (update_where p (λ _. row) xs) ≡ some row
find_where-update_const q p row [] h k l = cc
find_where-update_const q p row (x ∷ xs) {e} h k l = elim (Bool-cases (p x)) [
  | inl t ↦ ground arith
  | inr t ↦ elim (Bool-cases (q x)) [
    | inl u ↦ let same : x ≡ e = ground arith in absurd (clash (rw same at t) k)
    | inr u ↦
        let later = find_where-update_const q p row xs {e = e} (ground arith) k l in
        ground (arith, later)
  ]
]
  where
    clash : {b : Bool} → b ≡ false → b ≡ true → ⊥
    clash f g = ground arith

key_of : (p : Photo) → p.source_key ≢ [] → upsert_key p ≡ p.source_key
key_of p h = elim (Bool-cases (text_beq p.source_key [])) [
  | inl t ↦ absurd (h ((text_beq_iff p.source_key []).0 t))
  | inr t ↦ rw t refl
]

pub upsert-id :
    (new_id : ℕ) (p : Photo) (s : Store) {e : Photo}
    → p.source_key ≢ []
    → get_by_source_key p.source_key s ≡ some e
    → (upsert new_id p s).0 ≡ e.id
unfolding upsert
upsert-id new_id p s {e} h k =
    let found = ap (λ key. get_by_source_key key s) (key_of p h) ∙ k in rw (upsert, found) refl

pub get_by_source_key-upsert :
    (new_id : ℕ) (p : Photo) (s : Store)
    → p.source_key ≢ []
    → get_by_source_key p.source_key (upsert new_id p s).1
      ≡ some (record p { id = (upsert new_id p s).0 })
unfolding upsert get_by_source_key update_photo insert_photo text_beq
get_by_source_key-upsert new_id p s h = elim (Option-cases (get_by_source_key p.source_key s)) [
  | inl k ↦
      let found = ap (λ key. get_by_source_key key s) (key_of p h) ∙ k in
      rw (upsert, found) (inserted (upsert_key p) (key_of p h))
  | inr (e, k) ↦
      let holds = find_where-holds (has_key p.source_key) s.photos k in
      let same : e.source_key ≡ p.source_key = (text_beq_iff e.source_key p.source_key).0 holds in
      let updated =
        find_where-update_const (has_key p.source_key) (has_id e.id) (written p e) s.photos k
          ((nat_beq_iff e.id e.id).1 refl) holds in
      let found = ap (λ key. get_by_source_key key s) (key_of p h) ∙ k in
      rw (upsert, found)
        (updated ∙ ap (λ (key : Text). some (record p { id = e.id; source_key = key })) same)
]
  where
    inserted :
        (key : Text)
        → key ≡ p.source_key
        → get_by_source_key p.source_key (insert_photo new_id key p s)
          ≡ some (record p { id = new_id })
    inserted key e =
        subst
          (λ k.
            get_by_source_key p.source_key (insert_photo new_id k p s)
            ≡ some (record p { id = new_id }))
          (sym e) (rw (get_by_source_key, insert_photo, text_beq_refl p.source_key) refl)

same_thumb_refl : (t : Thumb) → same_thumb t t ≡ true
unfolding same_thumb
same_thumb_refl t = rw (same_thumb, (nat_beq_iff t.id t.id).1 refl, text_beq_refl t.version) refl

pub thumb_exists-saved :
    (x : Fixed) (p previous : Photo) (thumbs : List Thumb)
    → thumb_exists x p (remove_old x p previous (save_thumb (thumb_of x p) thumbs)) ≡ true
unfolding thumb_exists remove_old
thumb_exists-saved x p previous thumbs =
    let here = same_thumb_refl (thumb_of x p) in
    elim (Bool-cases (previous.id == 0 || same_thumb (thumb_of x previous) (thumb_of x p))) [
      | inl t ↦ rw (t, thumb_exists, remove_old) (ground (arith, here))
      | inr t ↦
          let other : same_thumb (thumb_of x previous) (thumb_of x p) ≡ false = ground arith in
          rw (t, thumb_exists, remove_old) (ground (arith, here, other))
    ]
