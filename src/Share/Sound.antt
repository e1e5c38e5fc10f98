-- ===== src/Share/Sound.antt =====
-- The writes of store.go and share_store.go keep the tables sound.
use web_bijin.Prelude.{
  ℕ, ◌≡◌, refl, inl, inr, Bool, true, false, Option, none, some, List, [], ◌∷◌, arith, nat_eq,
  text_eq, nat_beq_iff, Bool-cases, Option-cases, All, All-mono, find_where, update_where,
  delete_where, subst,
}
use web_bijin.Store.{
  Photo, Share, Store, has_id, has_photo, retired, retire_photo, insert_share, share_broken,
}
use web_bijin.Store.Photos.{written, update_photo, insert_photo}
use web_bijin.Share.{note_change}
use web_bijin.Share.Rows.{
  DistinctIds-update, DistinctTokens-retired, DistinctIds-insert_share, DistinctTokens-insert_share,
}
use web_bijin.Share.Permits.{
  Backed, Permitted, DistinctPhotos, IsSound, Permitted-other, retire-All, retired-All,
  kept-Permitted, other-photo,
}

pub clash : {o : Option Photo} {p : Photo} → o ≡ none → o ≡ some p → ⊥
clash e h = cc

-- A row that any test finds is the row of its id.
pub find_where-has_id :
    (p : Photo → Bool) (photos : List Photo) {row : Photo}
    → DistinctPhotos photos
    → find_where p photos ≡ some row
    → find_where (has_id row.id) photos ≡ some row
find_where-has_id p [] d e = cc
find_where-has_id p (x ∷ photos) {row} d e = elim (Bool-cases (p x)) [
  | inl h ↦ let same : x ≡ row = ground arith in ground arith
  | inr h ↦
      let later : find_where (has_id row.id) photos ≡ some row =
        find_where-has_id p photos d.1 (ground arith) in
      elim (Bool-cases (has_id row.id x)) [
        | inl at ↦
            let e : x.id ≡ row.id = (nat_beq_iff _ _).0 at in
            absurd (clash (subst (λ i. find_where (has_id i) photos ≡ none) e d.0) later)
        | inr at ↦ rw at later
      ]
]

update-absent :
    (i id : ℕ) (row : Photo) (photos : List Photo)
    → row.id ≡ id
    → find_where (has_id i) photos ≡ none
    → find_where (has_id i) (update_where (has_id id) (λ _. row) photos) ≡ none
update-absent i id row [] e h = refl
update-absent i id row (x ∷ photos) e h = ground (arith, update-absent i id row photos e)

delete-absent :
    (q p : Photo → Bool) (photos : List Photo)
    → find_where q photos ≡ none
    → find_where q (delete_where p photos) ≡ none
delete-absent q p [] h = refl
delete-absent q p (x ∷ photos) h = ground (arith, delete-absent q p photos)

DistinctPhotos-update :
    (id : ℕ) (row : Photo) (photos : List Photo)
    → row.id ≡ id
    → DistinctPhotos photos
    → DistinctPhotos (update_where (has_id id) (λ _. row) photos)
DistinctPhotos-update id row [] e d = tt
DistinctPhotos-update id row (x ∷ photos) e d =
    ground
      (arith, update-absent x.id id row photos e d.0, DistinctPhotos-update id row photos e d.1)

pub DistinctPhotos-delete :
    (p : Photo → Bool) (photos : List Photo)
    → DistinctPhotos photos
    → DistinctPhotos (delete_where p photos)
DistinctPhotos-delete p [] d = tt
DistinctPhotos-delete p (x ∷ photos) d =
    ground (arith, delete-absent (has_id x.id) p photos d.0, DistinctPhotos-delete p photos d.1)

pub retired-keeps : (p : Share → Bool) (x : Share) → p x ≡ true → (retired x).photo_id ≡ x.photo_id
retired-keeps p x h = refl

-- The rows that the triggers leave.
pub retire_photo-IsSound :
    (s : Store) (id : ℕ) → IsSound s → IsSound (record s { shares = retire_photo id s.shares })
retire_photo-IsSound s id v = record {
  permits = retired-All s.photos (has_photo id) s.shares v.permits;
  ids = DistinctIds-update (has_photo id) retired (retired-keeps (has_photo id)) s.shares v.ids;
  tokens = DistinctTokens-retired (has_photo id) s.shares v.tokens;
  photos = v.photos;
}

pub note_change-IsSound : (b : Bool) (s : Store) → IsSound s → IsSound (note_change b s)
note_change-IsSound true s v = record {
  permits = v.permits;
  ids = v.ids;
  tokens = v.tokens;
  photos = v.photos;
}
note_change-IsSound false s v = v

-- `UPDATE photos`, for a row that is there.
pub update_photo-IsSound :
    (existing p : Photo) (s : Store)
    → find_where (has_id existing.id) s.photos ≡ some existing
    → IsSound s
    → IsSound (update_photo existing p s)
unfolding update_photo
update_photo-IsSound existing p s found v =
    let row = written p existing in
    let photos = DistinctPhotos-update existing.id row s.photos refl v.photos in
    elim (Bool-cases (share_broken existing row)) [
      | inl e ↦
          let w = retire_photo-IsSound s existing.id v in
          rw (e, update_photo)
            (record {
              permits =
                  retire-All s.photos (update_where (has_id existing.id) (λ _. row) s.photos)
                    existing.id s.shares (λ sh h. other-photo existing.id row s.photos sh refl h)
                    v.permits;
              ids = w.ids;
              tokens = w.tokens;
              photos = photos;
            })
      | inr e ↦
          rw (e, update_photo)
            (record {
              permits =
                  All-mono (Permitted s.photos)
                    (Permitted (update_where (has_id existing.id) (λ _. row) s.photos)) s.shares
                    (λ sh h. kept-Permitted existing row s.photos sh found refl e h) v.permits;
              ids = v.ids;
              tokens = v.tokens;
              photos = photos;
            })
    ]

inserted-Permitted :
    (row : Photo) (photos : List Photo) (sh : Share)
    → find_where (has_id row.id) photos ≡ none
    → Permitted photos sh
    → Permitted (row ∷ photos) sh
inserted-Permitted row photos sh absent h active =
    let b : Backed photos sh = h active in
    elim (Bool-cases (has_id sh.photo_id row)) [
      | inl e ↦
          let same : row.id ≡ sh.photo_id = (nat_beq_iff _ _).0 e in
          absurd (clash (subst (λ i. find_where (has_id i) photos ≡ none) same absent) b.found)
      | inr e ↦ Permitted-other photos (row ∷ photos) sh (rw e) h active
    ]

insert_share-All :
    (photos : List Photo) (id : ℕ) (xs : List Share)
    → All (Permitted photos) xs
    → All (Permitted photos) (insert_share id xs)
unfolding insert_share
insert_share-All photos id xs a = elim (Option-cases (find_where (has_photo id) xs)) [
  | inl e ↦ rw (e, insert_share) ((λ h. absurd (ground arith)), a)
  | inr (x, e) ↦ rw (e, insert_share) a
]

-- `INSERT INTO photos`, under an id that no row has.
pub insert_photo-IsSound :
    (new_id : ℕ) (key : List ℕ) (p : Photo) (s : Store)
    → find_where (has_id new_id) s.photos ≡ none
    → IsSound s
    → IsSound (insert_photo new_id key p s)
unfolding insert_photo
insert_photo-IsSound new_id key p s absent v =
    let row : Photo = record p { id = new_id; source_key = key } in
    record {
      permits = insert_share-All (row ∷ s.photos) new_id s.shares (
          All-mono (Permitted s.photos) (Permitted (row ∷ s.photos)) s.shares
            (λ sh h. inserted-Permitted row s.photos sh absent h) v.permits);
      ids = DistinctIds-insert_share new_id s.shares v.ids;
      tokens = DistinctTokens-insert_share new_id s.shares v.tokens;
      photos = (absent, v.photos);
    }
