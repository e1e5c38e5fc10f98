-- ===== src/Scan/Removed.antt =====
-- What the cleanup of scan.go does remove.
use web_bijin.Prelude.{
  ◌≡◌, ◌≢◌, ◌⊎◌, refl, sym, ap, subst, ◌∙◌, inl, inr, Bool, true, false, not, ◌&&◌, ◌||◌, Option,
  none, some, List, [], ◌∷◌, arith, Bool-cases, text_eq, keep_where, nat_eq, nat_beq_iff, leb,
  any_where, find_where, delete_where, text_beq, text_beq_iff, find_where-delete_self,
}
use web_bijin.Store.{Photo, has_id, source_key}
use web_bijin.Store.Photos.{get_by_id, get_by_source_key, has_key, missing_photos, delete_by_id}
use web_bijin.Process.Photo.{Seen, seen, not_found, not_configured, unreachable, Library, Fixed}
use web_bijin.Process.Publish.{remove, remove_if_unchanged}
use web_bijin.Process.Removal.{is_absent, IsRemoval, remove_if_unchanged-IsRemoval}
use web_bijin.Scan.Protected.{
  is_newer, is_listed_by, is_failed_for, is_protected, listed_objects-any, failed_sources-any,
}
use web_bijin.Scan.{Listing, Work, max_id, run_work, clean_up, gone_photos, walk}

-- A row that a search finds first is found also once others are deleted.
find_where-delete_other {ℓ} :
    {A : Type ℓ} (q test : A → Bool) (xs : List A) {p : A}
    → find_where q xs ≡ some p
    → test p ≡ false
    → find_where q (delete_where test xs) ≡ some p
find_where-delete_other q test [] e h = cc
find_where-delete_other q test (x ∷ xs) {p} e h = elim (Bool-cases (q x)) [
  | inl t ↦
      let same : x ≡ p = ground arith in
      let spared : test x ≡ false = subst (λ y. test y ≡ false) (sym same) h in ground arith
  | inr t ↦
      let later = find_where-delete_other q test xs {p = p} (ground arith) h in
      ground (arith, later)
]

absent-delete {ℓ} :
    {A : Type ℓ} (q test : A → Bool) (xs : List A)
    → find_where q xs ≡ none
    → find_where q (delete_where test xs) ≡ none
absent-delete q test [] e = refl
absent-delete q test (x ∷ xs) e = ground (arith, absent-delete q test xs)

abbrev IsIn : Photo → List Photo → Type 0
IsIn p [] = ⊥
IsIn p (c ∷ gone) = (c ≡ p) ⊎ IsIn p gone

keep_where-IsIn :
    (q test : Photo → Bool) (photos : List Photo) {p : Photo}
    → find_where q photos ≡ some p
    → test p ≡ true
    → IsIn p (keep_where test photos)
keep_where-IsIn q test [] e h = cc
keep_where-IsIn q test (c ∷ photos) {p} e h = elim (Bool-cases (q c)) [
  | inl t ↦
      let same : c ≡ p = ground arith in
      let kept : test c ≡ true = subst (λ y. test y ≡ true) (sym same) h in rw kept (inl same)
  | inr t ↦
      let later = keep_where-IsIn q test photos {p = p} (ground arith) h in
      elim (Bool-cases (test c)) [ inl k ↦ rw k (inr later) | inr k ↦ rw k later ]
]

-- The photo is gone, or its key still leads to it.
abbrev IsPending : Photo → Library → Type 0
IsPending p w = (get_by_id p.id w.store ≡ none) ⊎ (get_by_source_key p.source_key w.store ≡ some p)

remove-IsPending : (p row : Photo) (w : Library) → IsPending p w → IsPending p (remove row w)
unfolding remove delete_by_id get_by_source_key
remove-IsPending p row w (inl e) =
    inl (absent-delete (has_id p.id) (has_id row.id) w.store.photos e)
remove-IsPending p row w (inr e) = elim (Bool-cases (has_id row.id p)) [
  | inl t ↦
      let same : p.id ≡ row.id = (nat_beq_iff p.id row.id).0 t in
      inl (
        subst (λ i. find_where (has_id i) (delete_where (has_id row.id) w.store.photos) ≡ none)
          (sym same) (find_where-delete_self (has_id row.id) w.store.photos))
  | inr t ↦ inr (find_where-delete_other (has_key p.source_key) (has_id row.id) w.store.photos e t)
]

removal-IsPending :
    (p c : Photo) (now : Seen) (w : Library) (y : Option Bool × Library)
    → IsRemoval c now w y
    → IsPending p w
    → IsPending p y.1
removal-IsPending p c now w (none, after) h i = subst (IsPending p) (sym h.0) i
removal-IsPending p c now w (some false, after) h i = subst (IsPending p) (sym h.0) i
removal-IsPending p c now w (some true, after) h i =
    subst (IsPending p) (sym h.removed) (remove-IsPending p h.row w i)

removal-absent :
    (p c : Photo) (now : Seen) (w : Library) (y : Option Bool × Library)
    → IsRemoval c now w y
    → get_by_id p.id w.store ≡ none
    → get_by_id p.id y.1.store ≡ none
unfolding remove delete_by_id
removal-absent p c now w (none, after) h e = ap (λ (v : Library). get_by_id p.id v.store) h.0 ∙ e
removal-absent p c now w (some false, after) h e =
    ap (λ (v : Library). get_by_id p.id v.store) h.0 ∙ e
removal-absent p c now w (some true, after) h e =
    ap (λ (v : Library). get_by_id p.id v.store) h.removed
    ∙ absent-delete (has_id p.id) (has_id h.row.id) w.store.photos e

clean_up-absent :
    (now : Photo → Seen) (p : Photo) (gone : List Photo) (w : Library)
    → get_by_id p.id w.store ≡ none
    → get_by_id p.id (clean_up now gone w).2.store ≡ none
unfolding clean_up
clean_up-absent now p [] w e = e
clean_up-absent now p (c ∷ gone) w e =
    clean_up-absent now p gone (remove_if_unchanged c (now c) w).1 (
      removal-absent p c (now c) w (remove_if_unchanged c (now c) w)
        (remove_if_unchanged-IsRemoval c (now c) w) e)

remove_self :
    (p : Photo) (now : Seen) (w : Library)
    → get_by_source_key (source_key p) w.store ≡ some p
    → is_absent now ≡ true
    → remove_if_unchanged p now w ≡ (some true, remove p w)
unfolding remove_if_unchanged text_beq
remove_self p (seen object) w e a = cc
remove_self p unreachable w e a = cc
remove_self p not_found w e a =
    rw
      (
        remove_if_unchanged,
        e,
        (nat_beq_iff p.id p.id).1 refl,
        (text_beq_iff p.source_version p.source_version).1 refl,
      )
      refl
remove_self p not_configured w e a =
    rw
      (
        remove_if_unchanged,
        e,
        (nat_beq_iff p.id p.id).1 refl,
        (text_beq_iff p.source_version p.source_version).1 refl,
      )
      refl

remove-gone : (p : Photo) (w : Library) → get_by_id p.id (remove p w).store ≡ none
unfolding remove delete_by_id
remove-gone p w = find_where-delete_self (has_id p.id) w.store.photos

-- The candidate itself goes when its turn comes.
own_turn :
    (p : Photo) (now : Seen) (w : Library)
    → source_key p ≡ p.source_key
    → is_absent now ≡ true
    → IsPending p w
    → get_by_id p.id (remove_if_unchanged p now w).1.store ≡ none
own_turn p now w k a (inl e) =
    removal-absent p p now w (remove_if_unchanged p now w) (remove_if_unchanged-IsRemoval p now w) e
own_turn p now w k a (inr e) =
    ap (λ (y : Option Bool × Library). get_by_id p.id y.1.store)
      (remove_self p now w (subst (λ key. get_by_source_key key w.store ≡ some p) (sym k) e) a)
    ∙ remove-gone p w

clean_up-removes :
    (now : Photo → Seen) (p : Photo) (gone : List Photo) (w : Library)
    → source_key p ≡ p.source_key
    → is_absent (now p) ≡ true
    → IsPending p w
    → IsIn p gone
    → get_by_id p.id (clean_up now gone w).2.store ≡ none
unfolding clean_up
clean_up-removes now p [] w k a i nowhere = absurd nowhere
clean_up-removes now p (c ∷ gone) w k a i (inl same) =
    clean_up-absent now p gone (remove_if_unchanged c (now c) w).1 (
      subst (λ (d : Photo). get_by_id p.id (remove_if_unchanged d (now d) w).1.store ≡ none)
        (sym same) (own_turn p (now p) w k a i))
clean_up-removes now p (c ∷ gone) w k a i (inr later) =
    clean_up-removes now p gone (remove_if_unchanged c (now c) w).1 k a
      (removal-IsPending p c (now c) w (remove_if_unchanged c (now c) w)
        (remove_if_unchanged-IsRemoval c (now c) w) i)
      later

newer_or_old :
    (p : Photo) (photos : List Photo) → is_newer photos p ≡ false → leb p.id (max_id photos) ≡ true
unfolding max_id
newer_or_old p [] h = cc
newer_or_old p (q ∷ photos) h = ground (arith, newer_or_old p photos)

source_key_lem : (p : Photo) → p.source_key ≢ [] → source_key p ≡ p.source_key
unfolding source_key text_beq
source_key_lem p ne = elim (Bool-cases (text_beq p.source_key [])) [
  | inl t ↦ absurd (ne ((text_beq_iff p.source_key []).0 t))
  | inr t ↦ rw t refl
]

unprotected :
    (newer listed failed absent : Bool)
    → (newer || listed || failed || not absent) ≡ false
    → (newer ≡ false) × (listed ≡ false) × (failed ≡ false) × (absent ≡ true)
unprotected newer listed failed absent h = (ground arith, ground arith, ground arith, ground arith)

all_parts :
    (old listed failed : Bool)
    → old ≡ true
    → listed ≡ false
    → failed ≡ false
    → (old && not listed && not failed) ≡ true
all_parts old listed failed h k l = ground arith

gone-IsIn :
    (listings : List Listing) (start w : Library) (p : Photo)
    → get_by_source_key p.source_key w.store ≡ some p
    → is_newer start.store.photos p ≡ false
    → any_where (is_listed_by p.source_key) listings ≡ false
    → any_where (is_failed_for p.source_key) listings ≡ false
    → IsIn p (gone_photos listings start w)
unfolding gone_photos missing_photos get_by_source_key
gone-IsIn listings start w p e old listed failed =
    keep_where-IsIn (has_key p.source_key) _ w.store.photos {p = p} e (
      all_parts _ _ _ (newer_or_old p start.store.photos old)
        (listed_objects-any p.source_key listings ∙ listed)
        (failed_sources-any p.source_key listings ∙ failed))

-- A photo that is in the table under its own source key once all work of the scan is done is not in it
-- after the scan, where it was not newer than the scan, no source listed it, its source is none that
-- could not be listed, and its source answers that it is absent or is no longer configured.
pub walk-removes :
    (x : Fixed) (listings : List Listing) (work : List Work) (now : Photo → Seen) (w : Library)
    (p : Photo)
    → p.source_key ≢ []
    → get_by_source_key p.source_key (run_work x work w).1.store ≡ some p
    → is_protected listings w now p ≡ false
    → get_by_id p.id (walk x listings work now w).library.store ≡ none
unfolding walk
walk-removes x listings work now w p ne e h =
    let (old, listed, failed, absent) = unprotected _ _ _ _ h in
    clean_up-removes now p (gone_photos listings w (run_work x work w).1) (run_work x work w).1
      (source_key_lem p ne) absent (inr e)
      (gone-IsIn listings w (run_work x work w).1 p e old listed failed)
