-- ===== src/Batch/Kept.antt =====
-- Tasks over any order of requests, restarts and rounds: what was checked and what succeeded stays.
use mathlib.Core.Option
use web_bijin.Prelude.{
  ◌⊎◌, ℕ, ◌≡◌, refl, inl, inr, Bool, true, false, not, ◌||◌, Option, none, some, List, [], ◌∷◌,
  Text, arith, if◌then◌else◌, nat_beq, text_beq_iff, Bool-cases, Option-cases, find_where,
  update_where, delete_where, find_where-update, find_where-holds, some_injective, sym, ◌∙◌, subst,
  ap,
}
use web_bijin.Store.{Share}
use web_bijin.Batch.{
  Batch, BatchStatus, completed, cancelled, interrupted, Item, Db, Mode, has_batch, is_attempt,
  is_running, is_pending, read_batch, stopped_as, interrupt_running_batches, cleanup_batches,
}
use web_bijin.Batch.Range.{create_batch, new_batch}
use web_bijin.Batch.Attempt.{
  started, begun, begin_batch_attempt, begin_from, end_attempt, cancel_batch, interrupt_batch, over,
  next_batch_item, next_from,
}
use web_bijin.Batch.Commit.{
  ItemError, with_result, put_result, settle, commit_from, commit_batch_item, is_gone,
  retire_swapped,
}
use web_bijin.Batch.Valid.{IsValid, DistinctBatches, delete-absent, has_batch-eq}
use web_bijin.Batch.Later.{
  IsLaterTask, KeepsChecked, same-Task, Task-trans, begun-Later, stopped-Later, put_result-Later,
}
use web_bijin.Batch.Lifecycle.{
  Step, prepares, begins, cancels, finishes, commits, interrupts, restarts, forgets, elsewhere,
  Reach, here, next, Reach-IsValid,
}

-- A task that is in both is the later record of the same task.
abbrev KeepsTasks : Db → Db → Type 0
KeepsTasks d e =
    (j : Text) (b b' : Batch)
    → read_batch j d ≡ some b
    → read_batch j e ≡ some b'
    → IsLaterTask b b'

unchanged : (d e : Db) → d.batches ≡ e.batches → KeepsTasks d e
unchanged d e same j b b' before after =
    let one : b ≡ b' =
      some_injective
        (sym before ∙ ap (λ (bs : List Batch). find_where (has_batch j) bs) same ∙ after) in
    subst (IsLaterTask b) one (same-Task b)

-- An UPDATE whose rows become later records.
update-Keeps :
    (p : Batch → Bool) (f : Batch → Batch) (d e : Db)
    → ((x : Batch) → (f x).id ≡ x.id)
    → ((j : Text) (x : Batch) → read_batch j d ≡ some x → p x ≡ true → IsLaterTask x (f x))
    → update_where p f d.batches ≡ e.batches
    → KeepsTasks d e
unfolding has_batch
update-Keeps p f d e ids grows same j b b' before after =
    let found : some (if p b then f b else b) ≡ some b' =
      ap (Option.map (λ x. if p x then f x else x)) (sym before)
      ∙ sym (find_where-update (has_batch j) p f d.batches (λ x h. ground (arith, ids x)))
      ∙ ap (λ (bs : List Batch). find_where (has_batch j) bs) same
      ∙ after in
    elim (Bool-cases (p b)) [
      | inl t ↦
          let one : f b ≡ b' = ground (arith, t, found) in
          subst (IsLaterTask b) one (grows j b before t)
      | inr t ↦
          let one : b ≡ b' = ground (arith, t, found) in subst (IsLaterTask b) one (same-Task b)
    ]

begin-Keeps :
    (id : Text) (revision : ℕ) (retry : Bool) (db : Db) {n : ℕ} {db' : Db}
    → begin_batch_attempt id revision retry db ≡ started n db'
    → KeepsTasks db db'
unfolding begin_batch_attempt begin_from
begin-Keeps id revision retry db {n} {db'} e =
    update-Keeps (has_batch id) (begun retry) db db' (λ x. refl) (λ j x at h. begun-Later retry x)
      (ap (λ (d : Db). d.batches) same)
  where
    same : record db { batches = update_where (has_batch id) (begun retry) db.batches } ≡ db'
    same = ground arith

attempt-runs :
    (id : Text) (revision : ℕ) (b : Batch) → is_attempt id revision b ≡ true → is_running b ≡ true
unfolding is_attempt
attempt-runs id revision b h = ground arith

end-Keeps :
    (status : BatchStatus) (id : Text) (revision now : ℕ) (db : Db)
    → KeepsTasks db (end_attempt status id revision now db)
unfolding end_attempt
end-Keeps status id revision now db =
    update-Keeps (is_attempt id revision) (stopped_as status now) db
      (end_attempt status id revision now db) (λ x. refl)
      (λ j x at h. stopped-Later status now x (attempt-runs id revision x h)) refl

next-Keeps :
    (id : Text) (revision now : ℕ) (db : Db) {db' : Db}
    → next_batch_item id revision now db ≡ over db'
    → KeepsTasks db db'
unfolding next_batch_item next_from
next-Keeps id revision now db {db'} e = elim (Option-cases (read_batch id db)) [
  | inl miss ↦ absurd (ground arith)
  | inr (b, found) ↦ elim (Option-cases (find_where is_pending b.items)) [
    | inr (it, more) ↦
        let same : db ≡ db' = ground arith in unchanged db db' (ap (λ (d : Db). d.batches) same)
    | inl idle ↦ elim (Bool-cases (not (is_running b) || not (nat_beq b.revision revision))) [
      | inl gone ↦
          let same : db ≡ db' = ground arith in unchanged db db' (ap (λ (d : Db). d.batches) same)
      | inr ours ↦
          let same : end_attempt completed id revision now db ≡ db' = ground arith in
          subst (KeepsTasks db) same (end-Keeps completed id revision now db)
    ]
  ]
]

with_result-Keeps :
    (mode : Mode) (sh : Share) (e : Option ItemError) → KeepsChecked (with_result mode sh e)
with_result-Keeps mode sh none x = (refl, refl, refl)
with_result-Keeps mode sh (some e) x = (refl, refl, refl)

-- Rows that both ids name are one task.
only_named :
    (id j : Text) (db : Db) {b x : Batch}
    → read_batch id db ≡ some b
    → read_batch j db ≡ some x
    → has_batch id x ≡ true
    → x ≡ b
unfolding has_batch
only_named id j db {b} {x} found at h =
    let one : x.id ≡ id = (text_beq_iff x.id id).0 h in
    let two : x.id ≡ j = (text_beq_iff x.id j).0 (find_where-holds (has_batch j) db.batches at) in
    some_injective (sym at ∙ ap (λ i. read_batch i db) (sym two ∙ one) ∙ found)

commit_from-Keeps :
    (id : Text) (mode : Mode) (it : Item) (fresh : Share) (e : Option ItemError) (db : Db)
    (b : Batch)
    → read_batch id db ≡ some b
    → is_running b ≡ true
    → KeepsTasks db (commit_from id mode it fresh e db)
unfolding commit_from
commit_from-Keeps id mode it fresh e db b found active =
    let (w, e') = settle mode db.store it fresh e in
    let w' = if is_gone e' then retire_swapped it w else w in
    let f = with_result mode w'.share e' in
    update-Keeps (has_batch id) (put_result it f) db (commit_from id mode it fresh e db) (λ x. refl)
      (λ j x at h.
        put_result-Later it f x
          (subst (λ (y : Batch). is_running y ≡ true)
            (sym (only_named id j db {b = b} {x = x} found at h)) active)
          (with_result-Keeps mode w'.share e'))
      refl

commit-Keeps :
    (id : Text) (revision : ℕ) (mode : Mode) (it : Item) (fresh : Share) (e : Option ItemError)
    (db : Db) {db' : Db}
    → commit_batch_item id revision mode it fresh e db ≡ some db'
    → KeepsTasks db db'
unfolding commit_batch_item
commit-Keeps id revision mode it fresh e db {db'} done = elim (Option-cases (read_batch id db)) [
  | inl miss ↦ absurd (ground arith)
  | inr (b, found) ↦ elim (Bool-cases (not (is_running b) || not (nat_beq b.revision revision))) [
    | inl gone ↦
        let same : db ≡ db' = ground arith in unchanged db db' (ap (λ (d : Db). d.batches) same)
    | inr ours ↦
        let same : commit_from id mode it fresh e db ≡ db' = ground arith in
        subst (KeepsTasks db) same (commit_from-Keeps id mode it fresh e db b found (ground arith))
  ]
]

-- A new task has an id that no task has.
create-Keeps :
    (id : Text) (mode : Mode) (albums : List Text) (now : ℕ) (db : Db) {db' : Db}
    → read_batch id db ≡ none
    → create_batch id mode albums now db ≡ some db'
    → KeepsTasks db db'
unfolding create_batch new_batch has_batch
create-Keeps id mode albums now db {db'} absent h j b b' before after =
    let same : record db { batches = new_batch id mode albums now db.store ∷ db.batches } ≡ db' =
      ground arith in
    let shown : read_batch j
          (record db { batches = new_batch id mode albums now db.store ∷ db.batches })
        ≡ some b' =
      ap (λ (d : Db). read_batch j d) same ∙ after in
    elim (Bool-cases (has_batch j (new_batch id mode albums now db.store))) [
      | inl t ↦
          let one : id ≡ j = (text_beq_iff id j).0 t in
          absurd (ground (arith, subst (λ i. read_batch i db ≡ none) one absent, before))
      | inr t ↦
          let one : b ≡ b' = ground (arith, t, shown, before) in
          subst (IsLaterTask b) one (same-Task b)
    ]

deleted-same :
    (j : Text) (p : Batch → Bool) (bs : List Batch) {b b' : Batch}
    → DistinctBatches bs
    → find_where (has_batch j) bs ≡ some b
    → find_where (has_batch j) (delete_where p bs) ≡ some b'
    → b ≡ b'
deleted-same j p [] d e h = cc
deleted-same j p (x ∷ bs) {b} {b'} d e h = elim (Bool-cases (has_batch j x)) [
  | inr other ↦ deleted-same j p bs d.1 (ground (arith, other)) (skip (Bool-cases (p x)) other)
  | inl named ↦ elim (Bool-cases (p x)) [
    | inl gone ↦
        let absent : find_where (has_batch j) bs ≡ none =
          subst (λ i. find_where (has_batch i) bs ≡ none) (has_batch-eq j x named) d.0 in
        absurd (ground (arith, gone, h, delete-absent j p bs absent))
    | inr stays ↦ ground (arith, stays, named, e, h)
  ]
]
  where
    skip :
        (p x ≡ true) ⊎ (p x ≡ false)
        → has_batch j x ≡ false
        → find_where (has_batch j) (delete_where p bs) ≡ some b'
    skip (inl gone) other = ground (arith, gone, h)
    skip (inr stays) other = ground (arith, stays, other, h)

Step-Keeps : {d e : Db} → Step d e → IsValid d → KeepsTasks d e
unfolding interrupt_running_batches cleanup_batches cancel_batch interrupt_batch
Step-Keeps {d} (prepares id mode albums now absent h) v = create-Keeps id mode albums now d absent h
Step-Keeps {d} (begins id revision retry h) v = begin-Keeps id revision retry d h
Step-Keeps {d} (cancels id revision now) v = end-Keeps cancelled id revision now d
Step-Keeps {d} (finishes id revision now h) v = next-Keeps id revision now d h
Step-Keeps {d} (commits id revision mode it fresh e h) v =
    commit-Keeps id revision mode it fresh e d h
Step-Keeps {d} (interrupts id revision now) v = end-Keeps interrupted id revision now d
Step-Keeps {d} (restarts now) v =
    update-Keeps is_running (stopped_as interrupted now) d (interrupt_running_batches now d)
      (λ x. refl) (λ j x at h. stopped-Later interrupted now x h) refl
Step-Keeps {d} (forgets now) v = λ j b b' before after.
    subst (IsLaterTask b) (deleted-same j _ d.batches v.ids before after) (same-Task b)
Step-Keeps {d} (elsewhere s) v = unchanged d (record d { store = s }) refl

-- The task was not forgotten in between.
abbrev pub Lives : (j : Text) {d e : Db} → Reach d e → Type 0
Lives j here = Unit {0}
Lives j (next {d} r st) = Lives j r × ((b : Batch) × (read_batch j d ≡ some b))

-- Whatever happens to valid records, a task that is there all the time keeps what was checked: its
-- mode, albums and counts, and the order, the photos and the generations of their permits. A photo that
-- has succeeded stays so, with its link. The task's revision never falls, and while it does not run, it
-- changes only by an attempt with a later revision.
pub Reach-Keeps :
    (j : Text) {d e : Db} (r : Reach d e) (b b' : Batch)
    → IsValid d
    → Lives j r
    → read_batch j d ≡ some b
    → read_batch j e ≡ some b'
    → IsLaterTask b b'
Reach-Keeps j here b b' v l before after =
    subst (IsLaterTask b) (some_injective (sym before ∙ after)) (same-Task b)
Reach-Keeps j (next r st) b b' v (l, (m, at)) before after =
    Task-trans b m b' (Reach-Keeps j r b m v l before at)
      (Step-Keeps st (Reach-IsValid r v) j m b' at after)
