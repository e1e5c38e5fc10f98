-- ===== src/Gallery/Indexed.antt =====
-- The ids in an index that query_photos.go just built are those of the rows.
use web_bijin.Prelude.{
  ℕ, ◌≡◌, ◌≢◌, ◌≤◌, refl, Bool, false, ◌&&◌, ◌||◌, none, some, List, [], ◌∷◌, Text, arith, length,
  All, All-mono, if◌then◌else◌, find_where, keep_where, ◌==◌, nat_eq, text_eq, text_beq,
  nat_beq_iff, All-both, nat_beq, if-both,
}
use web_bijin.Paths.{photo_album_id}
use web_bijin.Store.{Photo, has_id}
use web_bijin.Share.Permits.{DistinctPhotos}
use web_bijin.Gallery.{PhotoIndex, add_rows}
use web_bijin.Gallery.Sorted.{DistinctNumbers}

pub absent-All :
    (id : ℕ) (photos : List Photo)
    → find_where (has_id id) photos ≡ none
    → All (λ (p : Photo). nat_beq id p.id ≡ false) photos
absent-All id [] h = tt
absent-All id (p ∷ photos) h =
    (ground (arith, nat_beq_iff id p.id), absent-All id photos (ground arith))

-- A row is found by its id, and by nothing else.
absent-none :
    (w : Photo → Bool) (id : ℕ) (photos : List Photo)
    → find_where (has_id id) photos ≡ none
    → find_where (λ (q : Photo). q.id == id && w q) photos ≡ none
absent-none w id [] h = refl
absent-none w id (p ∷ photos) h = ground (arith, absent-none w id photos)

pub found_by_id :
    (w : Photo → Bool) (photos : List Photo)
    → DistinctPhotos photos
    → All
        (λ (p : Photo).
          find_where (λ (q : Photo). q.id == p.id && w q) photos ≡ (if w p then some p else none))
        photos
found_by_id w [] d = tt
found_by_id w (x ∷ photos) d = (
  ground (arith, absent-none w x.id photos d.0),
  All-mono
      (λ (p : Photo).
        (nat_beq x.id p.id ≡ false)
        × (find_where (λ (q : Photo). q.id == p.id && w q) photos ≡ (if w p then some p else none)))
      _ photos (λ p h. rw (h.0) h.1)
      (All-both _ _ photos (absent-All x.id photos d.0) (found_by_id w photos d.1)),
)

-- The ids that `photo_order` puts in order.
abbrev pub ids_of : Text → PhotoIndex → List ℕ
ids_of album index = if album == [] then index.ids else index.albums album

module _ (album : Text) (shared : Bool) where
  pub All-ids_of :
      (P : ℕ → Type 0) (rows : List Photo)
      → All (λ (p : Photo). P p.id) rows
      → All P (ids_of album (add_rows shared rows))
  unfolding add_rows text_beq
  All-ids_of P [] a = ground arith
  All-ids_of P (p ∷ rows) a = ground (arith, a.0, All-ids_of P rows a.1)

  pub length-ids_of :
      (rows : List Photo) → length (ids_of album (add_rows shared rows)) ≤ length rows
  unfolding add_rows text_beq
  length-ids_of [] = ground arith
  length-ids_of (p ∷ rows) = ground (arith, length-ids_of rows)

  ids_of-cons :
      (p : Photo) (rows : List Photo)
      → ids_of album (add_rows shared (p ∷ rows)) ≡ (
          if album == [] || album == photo_album_id p.rel_path
          then p.id ∷ ids_of album (add_rows shared rows)
          else ids_of album (add_rows shared rows))
  unfolding add_rows text_beq
  ids_of-cons p rows = ground arith

  pub ids_of-DistinctNumbers :
      (rows : List Photo)
      → DistinctPhotos rows
      → DistinctNumbers (ids_of album (add_rows shared rows))
  unfolding add_rows text_beq
  ids_of-DistinctNumbers [] d = ground arith
  ids_of-DistinctNumbers (p ∷ rows) d =
      let others : All (λ (q : Photo). p.id ≢ q.id) rows =
        All-mono (λ (q : Photo). nat_beq p.id q.id ≡ false) (λ q. p.id ≢ q.id) rows
          (λ q h. ground (arith, nat_beq_iff p.id q.id)) (absent-All p.id rows d.0) in
      rw (ids_of-cons p rows) (
        if-both DistinctNumbers (album == [] || album == photo_album_id p.rel_path)
          (All-ids_of (λ other. p.id ≢ other) rows others, ids_of-DistinctNumbers rows d.1)
          (ids_of-DistinctNumbers rows d.1))

  pub shared-add_rows : (rows : List Photo) → (add_rows shared rows).shared ≡ shared
  unfolding add_rows
  shared-add_rows [] = refl
  shared-add_rows (p ∷ rows) = refl

absent-keep :
    (id : ℕ) (l : Photo → Bool) (photos : List Photo)
    → find_where (has_id id) photos ≡ none
    → find_where (has_id id) (keep_where l photos) ≡ none
absent-keep id l [] h = refl
absent-keep id l (p ∷ photos) h = ground (arith, absent-keep id l photos)

pub DistinctPhotos-keep :
    (l : Photo → Bool) (photos : List Photo)
    → DistinctPhotos photos
    → DistinctPhotos (keep_where l photos)
DistinctPhotos-keep l [] d = tt
DistinctPhotos-keep l (p ∷ photos) d =
    ground (arith, absent-keep p.id l photos d.0, DistinctPhotos-keep l photos d.1)
