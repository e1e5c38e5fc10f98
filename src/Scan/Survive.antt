-- ===== src/Scan/Survive.antt =====
-- What the cleanup of scan.go leaves alone.
use web_bijin.Prelude.{
  ℕ, ◌<◌, ◌≡◌, ◌≢◌, ◌⊎◌, refl, sym, ap, subst, ◌∙◌, inl, inr, Bool, true, false, not, ◌&&◌, ◌||◌,
  Option, none, some, List, [], ◌∷◌, arith, Bool-cases, All, All-mono, All-keep_where, text_eq,
  ◌==◌, nat_eq, nat_beq, nat_beq_iff, leb, any_where, find_where, find_where-none-All,
  find_where-delete_ne,
}
use web_bijin.Store.{Photo, has_id}
use web_bijin.Store.Photos.{get_by_id, missing_photos, delete_by_id}
use web_bijin.Share.Permits.{DistinctPhotos}
use web_bijin.Process.Photo.{Seen, Library, Fixed}
use web_bijin.Process.Publish.{remove, remove_if_unchanged}
use web_bijin.Process.Removal.{is_absent, IsRemoval, remove_if_unchanged-IsRemoval}
use web_bijin.Scan.Protected.{
  is_newer, is_listed_by, is_failed_for, is_protected, listed_objects-any, failed_sources-any,
  max_id-any,
}
use web_bijin.Scan.{
  Listing, Work, listed_objects, keys_of, failed_sources, max_id, run_work, clean_up, gone_photos,
  walk, key_owner,
}

-- The store's row is the same after a removal of another id.
remove-keeps :
    (row : Photo) (id : ℕ) (w : Library)
    → row.id ≢ id
    → get_by_id id (remove row w).store ≡ get_by_id id w.store
unfolding remove delete_by_id
remove-keeps row id w ne =
    find_where-delete_ne (has_id id) (has_id row.id) w.store.photos
      (λ p h. ground (arith, h, nat_beq_iff p.id row.id, nat_beq_iff p.id id))

-- The candidate may not be removed under this id.
abbrev Spared : (Photo → Seen) → ℕ → Photo → Type 0
Spared now id c = (c.id ≢ id) ⊎ (is_absent (now c) ≡ false)

removal-keeps :
    (c : Photo) (now : Seen) (id : ℕ) (w : Library) (y : Option Bool × Library)
    → IsRemoval c now w y
    → (c.id ≢ id) ⊎ (is_absent now ≡ false)
    → get_by_id id y.1.store ≡ get_by_id id w.store
removal-keeps c now id w (none, after) h s = ap (λ (v : Library). get_by_id id v.store) h.0
removal-keeps c now id w (some false, after) h s = ap (λ (v : Library). get_by_id id v.store) h.0
removal-keeps c now id w (some true, after) h (inl ne) =
    ap (λ (v : Library). get_by_id id v.store) h.removed
    ∙ remove-keeps h.row id w (λ e. ne (sym h.same_id ∙ e))
removal-keeps c now id w (some true, after) h (inr present) =
    absurd (ground (arith, h.absent, present))

clean_up-keeps :
    (now : Photo → Seen) (id : ℕ) (gone : List Photo) (w : Library)
    → All (Spared now id) gone
    → get_by_id id (clean_up now gone w).2.store ≡ get_by_id id w.store
unfolding clean_up
clean_up-keeps now id [] w a = refl
clean_up-keeps now id (c ∷ gone) w a =
    clean_up-keeps now id gone (remove_if_unchanged c (now c) w).1 a.1
    ∙ removal-keeps c (now c) id w (remove_if_unchanged c (now c) w)
        (remove_if_unchanged-IsRemoval c (now c) w) a.0

-- The row of an id is the only one with it.
only_row :
    (id : ℕ) (photos : List Photo) {p : Photo}
    → DistinctPhotos photos
    → find_where (has_id id) photos ≡ some p
    → All (λ (c : Photo). c.id ≡ id → c ≡ p) photos
only_row id [] d e = tt
only_row id (c ∷ photos) {p} d e = elim (Bool-cases (nat_beq c.id id)) [
  | inl t ↦
      let same : c ≡ p = ground arith in
      let at_id = (nat_beq_iff c.id id).0 t in
      (
        λ _. same,
        All-mono (λ (q : Photo). nat_beq q.id id ≡ false) _ photos
            (λ q no e. absurd (ground (arith, nat_beq_iff q.id id)))
            (find_where-none-All (has_id id) photos
              (subst (λ i. find_where (has_id i) photos ≡ none) at_id d.0)),
      )
  | inr t ↦ (
    λ (h : c.id ≡ id). absurd (ground (arith, nat_beq_iff c.id id)),
    only_row id photos {p = p} d.1 (ground arith),
  )
]

-- The WHERE of `missingPhotos` in this scan.
abbrev is_gone : List Listing → Library → Photo → Bool
is_gone listings start c =
    leb c.id (max_id start.store.photos)
    && not (any_where (λ key. key == c.source_key) (keys_of (listed_objects listings)))
    && not (any_where (λ id. id == key_owner c.source_key) (failed_sources listings))

gone_parts :
    (old listed failed : Bool)
    → (old && not listed && not failed) ≡ true
    → (old ≡ true) × (listed ≡ false) × (failed ≡ false)
gone_parts old listed failed h = (ground arith, ground arith, ground arith)

not_absent :
    (newer listed failed absent : Bool)
    → newer ≡ false
    → listed ≡ false
    → failed ≡ false
    → (newer || listed || failed || not absent) ≡ true
    → absent ≡ false
not_absent newer listed failed absent h k l m = ground arith

gone-Spared :
    (listings : List Listing) (now : Photo → Seen) (start w : Library) (id : ℕ) (p : Photo)
    → DistinctPhotos w.store.photos
    → get_by_id id w.store ≡ some p
    → 0 < p.id
    → is_protected listings start now p ≡ true
    → All (Spared now id) (gone_photos listings start w)
unfolding gone_photos missing_photos
gone-Spared listings now start w id p d e pos h =
    All-mono _ (Spared now id) (gone_photos listings start w) (λ c known. spared c known.0 known.1)
      (All-keep_where (λ (c : Photo). c.id ≡ id → c ≡ p) (is_gone listings start) w.store.photos
        (only_row id w.store.photos {p = p} d e))
  where
    present : is_gone listings start p ≡ true → is_absent (now p) ≡ false
    present t =
        let (old, listed, failed) = gone_parts _ _ _ t in
        not_absent (is_newer start.store.photos p) (any_where (is_listed_by p.source_key) listings)
          (any_where (is_failed_for p.source_key) listings) (is_absent (now p))
          (max_id-any p start.store.photos pos old)
          (sym (listed_objects-any p.source_key listings) ∙ listed)
          (sym (failed_sources-any p.source_key listings) ∙ failed) h

    spared : (c : Photo) → is_gone listings start c ≡ true → (c.id ≡ id → c ≡ p) → Spared now id c
    spared c t only = elim (Bool-cases (nat_beq c.id id)) [
      | inl at ↦
          let same = only ((nat_beq_iff c.id id).0 at) in
          inr (
            subst (λ (q : Photo). is_absent (now q) ≡ false) (sym same)
              (present (subst (λ (q : Photo). is_gone listings start q ≡ true) same t)))
      | inr other ↦ inl (ground (arith, nat_beq_iff c.id id))
    ]

-- Where ids are distinct once all work of the scan is done: a photo with a positive id that came after
-- the scan began, or was listed, or is of a source that could not be listed, or whose source is still
-- configured and does not answer that it is absent, is in the table after the scan as it was.
pub walk-spares :
    (x : Fixed) (listings : List Listing) (work : List Work) (now : Photo → Seen) (w : Library)
    (id : ℕ) (p : Photo)
    → DistinctPhotos (run_work x work w).1.store.photos
    → get_by_id id (run_work x work w).1.store ≡ some p
    → 0 < p.id
    → is_protected listings w now p ≡ true
    → get_by_id id (walk x listings work now w).library.store ≡ some p
unfolding walk
walk-spares x listings work now w id p d e pos h =
    clean_up-keeps now id (gone_photos listings w (run_work x work w).1) (run_work x work w).1
      (gone-Spared listings now w (run_work x work w).1 id p d e pos h)
    ∙ e
