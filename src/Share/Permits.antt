-- ===== src/Share/Permits.antt =====
-- What every active permit promises, kept by all writes of photos and permits.
use mathlib.Core.Option
use web_bijin.Prelude.{
  none, ℕ, ◌≡◌, inl, inr, Bool, true, false, some, List, [], ◌∷◌, arith, nat_eq, text_eq,
  text_beq_iff, nat_beq_iff, Bool-cases, All, All-update_where, find_where, update_where,
  delete_where, find_where-update_ne, find_where-update_eq, find_where-delete_ne, sym, ◌∙◌, ap,
  some_injective,
}
use web_bijin.Store.{
  Photo, Share, Store, has_id, has_photo, photo_visible, retired, retire_photo, share_broken,
}
use web_bijin.Share.{is_active}
use web_bijin.Share.Rows.{DistinctIds, DistinctTokens}

-- The photo of a permit is there, visible, and still the original that the permit was given for.
pub record Backed (photos : List Photo) (sh : Share) : Type 0 where
  pub photo : Photo
  pub found : find_where (has_id sh.photo_id) photos ≡ some photo
  pub key : photo.source_key ≡ sh.source_key
  pub version : photo.source_version ≡ sh.source_version
  pub visible : photo_visible photo ≡ true

abbrev pub Permitted : List Photo → Share → Type 0
Permitted photos sh = is_active sh ≡ true → Backed photos sh

-- `id INTEGER PRIMARY KEY` of `photos`.
abbrev pub DistinctPhotos : List Photo → Type 0
DistinctPhotos [] = Unit {0}
DistinctPhotos (x ∷ xs) = (find_where (has_id x.id) xs ≡ none) × DistinctPhotos xs

pub record IsSound (s : Store) : Type 0 where
  pub permits : All (Permitted s.photos) s.shares
  pub ids : DistinctIds s.shares
  pub tokens : DistinctTokens s.shares
  pub photos : DistinctPhotos s.photos

pub retired-Permitted : (photos : List Photo) (sh : Share) → Permitted photos (retired sh)
retired-Permitted photos sh h = absurd (ground arith)

-- Permits of other photos are not concerned by a change of one photo.
pub Permitted-other :
    (before after : List Photo) (sh : Share)
    → find_where (has_id sh.photo_id) after ≡ find_where (has_id sh.photo_id) before
    → Permitted before sh
    → Permitted after sh
Permitted-other before after sh e h active =
    let b : Backed before sh = h active in
    record {
      photo = b.photo;
      found = e ∙ b.found;
      key = b.key;
      version = b.version;
      visible = b.visible;
    }

-- A change of one photo that ends its permit.
pub retire-All :
    (before after : List Photo) (id : ℕ) (xs : List Share)
    → ((sh : Share)
        → has_photo id sh ≡ false
        → find_where (has_id sh.photo_id) after ≡ find_where (has_id sh.photo_id) before)
    → All (Permitted before) xs
    → All (Permitted after) (retire_photo id xs)
retire-All before after id [] h a = tt
retire-All before after id (x ∷ xs) h a = (
  elim (Bool-cases (has_photo id x)) [
    | inl e ↦ rw e (retired-Permitted after x)
    | inr e ↦ rw e (Permitted-other before after x (h x e) a.0)
  ],
  retire-All before after id xs h a.1,
)

pub retired-All :
    (photos : List Photo) (p : Share → Bool) (xs : List Share)
    → All (Permitted photos) xs
    → All (Permitted photos) (update_where p retired xs)
retired-All photos p xs =
    All-update_where (Permitted photos) p retired xs (λ x h b. retired-Permitted photos x)

pub other-photo :
    (id : ℕ) (row : Photo) (photos : List Photo) (sh : Share)
    → row.id ≡ id
    → has_photo id sh ≡ false
    → find_where (has_id sh.photo_id) (update_where (has_id id) (λ _. row) photos)
      ≡ find_where (has_id sh.photo_id) photos
other-photo id row photos sh e h =
    find_where-update_ne (has_id sh.photo_id) (has_id id) (λ _. row) photos
      (λ x hx. (ground arith, ground arith))

-- The permit of a photo that was written with no reason to end it.
pub kept-Permitted :
    (existing row : Photo) (photos : List Photo) (sh : Share)
    → find_where (has_id existing.id) photos ≡ some existing
    → row.id ≡ existing.id
    → share_broken existing row ≡ false
    → Permitted photos sh
    → Permitted (update_where (has_id existing.id) (λ _. row) photos) sh
unfolding share_broken
kept-Permitted existing row photos sh found same intact h active =
    let b : Backed photos sh = h active in
    elim (Bool-cases (has_photo existing.id sh)) [
      | inr e ↦ Permitted-other photos _ sh (other-photo existing.id row photos sh same e) h active
      | inl e ↦
          let at : sh.photo_id ≡ existing.id = (nat_beq_iff _ _).0 e in
          let was : b.photo ≡ existing =
            some_injective (sym b.found ∙ ap (λ i. find_where (has_id i) photos) at ∙ found) in
          record {
            photo = row;
            found =
                ap
                  (λ i. find_where (has_id i) (update_where (has_id existing.id) (λ _. row) photos))
                  at
                ∙ find_where-update_eq (has_id existing.id) (λ _. row) photos (λ x hx. ground arith)
                ∙ ap (Option.map (λ _. row)) found;
            key = ground (
              arith,
              text_beq_iff existing.source_key row.source_key,
              b.key,
              ap (λ (p : Photo). p.source_key) was,
            );
            version = ground (
              arith,
              text_beq_iff existing.source_version row.source_version,
              b.version,
              ap (λ (p : Photo). p.source_version) was,
            );
            visible = ground arith;
          }
    ]

pub delete-Permitted :
    (id : ℕ) (photos : List Photo) (xs : List Share)
    → All (Permitted photos) xs
    → All (Permitted (delete_where (has_id id) photos)) (retire_photo id xs)
delete-Permitted id photos xs =
    retire-All photos (delete_where (has_id id) photos) id xs
      (λ sh h. find_where-delete_ne (has_id sh.photo_id) (has_id id) photos (λ x hx. ground arith))
