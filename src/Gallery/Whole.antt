-- ===== src/Gallery/Whole.antt =====
-- The pages of query_photos.go, on an index that was just built, show every photo once.
use web_bijin.Prelude.{
  ℕ, ◌+◌, ◌^◌, ◌≡◌, ◌∙◌, ◌<◌, refl, subst, inl, inr, Bool, true, Option, none, some, List, [], ◌∷◌,
  Text, arith, length, All, All-mono, Bool-cases, if◌then◌else◌, keep_where, ◌==◌, nat_eq, text_eq,
  text_beq, All-keep_where, length-keep_where, keep-keep,
}
use mathlib.Core.List.{Perm}
use mathlib.Core.List.Perm
use web_bijin.Store.{Photo, Store}
use web_bijin.Share.Permits.{DistinctPhotos}
use web_bijin.Order.Cursor.{parse_cursor-empty}
use web_bijin.Gallery.{
  RankedPhoto, is_listed, add_rows, load_index, before, insert_ranked, ranked, photo_order,
  is_wanted, photo_by_id, prepend, gather, start_behind,
}
use web_bijin.Gallery.Sorted.{ranked-IsSorted, All-ranked, length-ranked}
use web_bijin.Gallery.Starts.{IsEntry}
use web_bijin.Gallery.Indexed.{
  ids_of, found_by_id, All-ids_of, length-ids_of, ids_of-DistinctNumbers, shared-add_rows,
  DistinctPhotos-keep,
}
use web_bijin.Gallery.Pages.{browse, browse_from}

prepend-swap :
    (a b : Option Photo) (photos : List Photo)
    → Perm (prepend a (prepend b photos)) (prepend b (prepend a photos))
prepend-swap none b photos = Perm.refl _
prepend-swap (some p) none photos = Perm.refl _
prepend-swap (some p) (some q) photos = Perm.swap q p photos

prepend-Perm :
    (a : Option Photo) {xs ys : List Photo} → Perm xs ys → Perm (prepend a xs) (prepend a ys)
prepend-Perm none h = h
prepend-Perm (some p) h = Perm.cons p h

module _ (s : Store) (album : Text) (shared : Bool) where
  -- The photos with these ids that are wanted, in the order of the ids.
  abbrev found : List ℕ → List Photo
  found [] = []
  found (id ∷ ids) = prepend (photo_by_id s album shared id) (found ids)

  gather-insert_ranked :
      (e : RankedPhoto) (order : List RankedPhoto)
      → Perm
          (gather s album shared (insert_ranked e order))
          (prepend (photo_by_id s album shared e.id) (gather s album shared order))
  unfolding gather insert_ranked
  gather-insert_ranked e [] = Perm.refl _
  gather-insert_ranked e (f ∷ order) = elim (Bool-cases (before e f)) [
    | inl t ↦ rw (t, insert_ranked) (Perm.refl _)
    | inr t ↦
        rw (t, insert_ranked)
          (Perm.trans
            (prepend-Perm (photo_by_id s album shared f.id) (gather-insert_ranked e order))
            (prepend-swap (photo_by_id s album shared f.id) (photo_by_id s album shared e.id)
              (gather s album shared order)))
  ]

  gather-ranked :
      (seed : ℕ) (ids : List ℕ) → Perm (gather s album shared (ranked seed ids)) (found ids)
  unfolding gather ranked
  gather-ranked seed [] = Perm.refl _
  gather-ranked seed (id ∷ ids) =
      Perm.trans (gather-insert_ranked _ (ranked seed ids))
        (prepend-Perm (photo_by_id s album shared id) (gather-ranked seed ids))

  -- Building the index of rows that the reading finds again keeps what is wanted of them.
  found-add_rows :
      (rows : List Photo)
      → All (λ p. is_listed shared s p ≡ true) rows
      → All
          (λ p.
            photo_by_id s album shared p.id ≡ (if is_wanted s album shared p then some p else none))
          rows
      → found
          (if album == [] then (add_rows shared rows).ids else (add_rows shared rows).albums album)
        ≡ keep_where (is_wanted s album shared) rows
  unfolding add_rows text_beq is_wanted is_listed
  found-add_rows [] a b = ground arith
  found-add_rows (p ∷ rows) a b = ground (arith, found-add_rows rows a.1 b.1, a.0, b.0)

module _ (s : Store) (shared : Bool) (seed : ℕ) (album : Text) (distinct : DistinctPhotos s.photos)
    (within : All (λ (p : Photo). (0 < p.id) × (p.id < 2 ^ 63)) s.photos) where
  rows : List Photo
  rows = keep_where (is_listed shared s) s.photos

  chosen : List ℕ
  chosen = ids_of album (add_rows shared rows)

  -- The order of the index consists of entries that the cursors can name.
  chosen-IsEntry : All (IsEntry seed) (ranked seed chosen)
  unfolding chosen rows
  chosen-IsEntry =
      All-mono _ (IsEntry seed) (ranked seed chosen) (λ e h. (h.0.0, h.0.1, h.1))
        (All-ranked (λ id. (0 < id) × (id < 2 ^ 63)) seed chosen
          (All-ids_of album shared (λ id. (0 < id) × (id < 2 ^ 63)) rows
            (All-mono _ _ rows (λ p h. h.1)
              (All-keep_where _ (is_listed shared s) s.photos within))))

  -- What is gathered from it is what is wanted, in another order.
  gather-chosen :
      Perm
        (gather s album shared (ranked seed chosen))
        (keep_where (is_wanted s album shared) s.photos)
  unfolding chosen rows photo_by_id is_wanted is_listed
  gather-chosen =
      let known =
        All-keep_where _ (is_listed shared s) s.photos
          (found_by_id (is_wanted s album shared) s.photos distinct) in
      subst (Perm (gather s album shared (ranked seed chosen)))
        (found-add_rows s album shared rows (All-mono _ _ rows (λ p h. h.0) known)
            (All-mono _ _ rows (λ p h. h.1) known)
          ∙ keep-keep (is_wanted s album shared) (is_listed shared s) s.photos
              (λ p h. ground arith))
        (gather-ranked s album shared seed chosen)

  chosen-browse :
      (limit : ℕ)
      → seed < 2 ^ 64
      → browse (length s.photos + 1) s (load_index shared s) seed album limit []
        ≡ some (gather s album shared (ranked seed chosen))
  unfolding chosen rows photo_order start_behind load_index
  chosen-browse limit small =
      let kept = DistinctPhotos-keep (is_listed shared s) s.photos distinct in
      let same = shared-add_rows album shared rows in
      subst
        (λ flag.
          browse (length s.photos + 1) s (load_index shared s) seed album limit []
          ≡ some (gather s album flag (ranked seed chosen)))
        same
        (browse_from s (load_index shared s) seed album limit small
          (ranked-IsSorted seed chosen (ids_of-DistinctNumbers album shared rows kept))
          chosen-IsEntry (length s.photos + 1) [] (ranked seed chosen) []
          (omega (
            arith,
            length-ranked seed chosen,
            length-ids_of album shared rows,
            length-keep_where (is_listed shared s) s.photos,
          ))
          refl (rw (parse_cursor-empty) refl))

-- With a seed that is a 64-bit pattern, and photos whose ids are distinct, positive and int64s: a
-- client that starts without a cursor and follows each `next` on the index as just built gets to
-- the last page after at most one page for each photo and one more, for every page size, and the
-- photos of its pages are the wanted rows of the table, each once, in some order.
pub browse-Perm :
    (s : Store) (shared : Bool) (seed : ℕ) (album : Text) (limit : ℕ)
    → seed < 2 ^ 64
    → DistinctPhotos s.photos
    → All (λ (p : Photo). (0 < p.id) × (p.id < 2 ^ 63)) s.photos
    → (photos : List Photo) × (browse
          (length s.photos + 1)
          s
          (load_index shared s)
          seed
          album
          limit
          []
        ≡ some photos)
      × Perm photos (keep_where (is_wanted s album shared) s.photos)
browse-Perm s shared seed album limit small d within = (
  gather s album shared (ranked seed (chosen s shared seed album d within)),
  chosen-browse s shared seed album d within limit small,
  gather-chosen s shared seed album d within,
)
