-- ===== src/Batch/Retries.antt =====
-- Second clicks, lost answers and cancellations: an attempt's revision keeps its late writes out.
use mathlib.Core.Option
use web_bijin.Prelude.{
  ℕ, ◌+◌, ◌≡◌, refl, inl, inr, Bool, true, not, ◌&&◌, ltb→lt, Option, none, some, List, [], ◌∷◌,
  Text, arith, nat_beq, Option-cases, find_where, update_where, count_where, length,
  find_where-update_eq, find_where-holds, subst, ◌∙◌, ap,
}
use web_bijin.Store.{Share}
use web_bijin.Batch.{
  Batch, Item, Db, Mode, cancelled, has_batch, is_attempt, is_running, is_pending, is_success,
  read_batch,
}
use web_bijin.Batch.Attempt.{
  started, begun, begin_from, begin_batch_attempt, to_pending, cancel_batch,
}
use web_bijin.Batch.Commit.{ItemError, commit_batch_item}
use web_bijin.Batch.Later.{Later, reset-Later}
use web_bijin.Batch.Finish.{end_attempt-batch}

begun-batch :
    (id : Text) (retry : Bool) (db : Db) {b : Batch}
    → read_batch id db ≡ some b
    → read_batch id (record db { batches = update_where (has_batch id) (begun retry) db.batches })
      ≡ some (begun retry b)
unfolding has_batch
begun-batch id retry db found =
    find_where-update_eq (has_batch id) (begun retry) db.batches (λ x h. h)
    ∙ ap (Option.map (begun retry)) found

begin-found :
    (id : Text) (revision : ℕ) (retry : Bool) (db : Db) {n : ℕ} {db' : Db}
    → begin_batch_attempt id revision retry db ≡ started n db'
    → (b : Batch) × (read_batch id db ≡ some b)
      × (b.revision ≡ revision)
      × (n ≡ revision + 1)
      × (read_batch id db' ≡ some (begun retry b))
unfolding begin_batch_attempt begin_from
begin-found id revision retry db {n} {db'} e = elim (Option-cases (read_batch id db)) [
  | inl miss ↦ absurd (ground arith)
  | inr (b, found) ↦
      let same : record db { batches = update_where (has_batch id) (begun retry) db.batches }
          ≡ db' =
        ground arith in
      (
        b,
        found,
        ground arith,
        ground arith,
        subst (λ (d : Db). read_batch id d ≡ some (begun retry b)) same
            (begun-batch id retry db found),
      )
]

reset_counts :
    (items : List Item)
    → (count_where is_success (update_where (λ it. not (is_success it)) to_pending items)
        ≡ count_where is_success items)
      × (count_where is_pending (update_where (λ it. not (is_success it)) to_pending items)
            + count_where is_success items
          ≡ length items)
reset_counts [] = (refl, omega arith)
reset_counts (x ∷ items) =
    let (a, b) = reset_counts items in (ground (arith, a), ground (arith, a, b))

-- A retry that begins runs under the next revision; every item keeps its photo and the generation that
-- was checked, those that have succeeded are left as they are, with their links, and all others are
-- pending.
pub retry_keeps_successes :
    (id : Text) (revision : ℕ) (db : Db) {n : ℕ} {db' : Db}
    → begin_batch_attempt id revision true db ≡ started n db'
    → (b b' : Batch) × (read_batch id db ≡ some b)
      × (read_batch id db' ≡ some b')
      × (n ≡ b'.revision)
      × (b'.revision ≡ b.revision + 1)
      × (is_running b' ≡ true)
      × Later b.items b'.items
      × (count_where is_success b'.items ≡ count_where is_success b.items)
      × (count_where is_pending b'.items + count_where is_success b.items ≡ length b.items)
retry_keeps_successes id revision db {n} {db'} e =
    let (b, found, same, next, after) = begin-found id revision true db {n = n} {db' = db'} e in
    let (kept, others) = reset_counts b.items in
    (b, begun true b, found, after, omega arith, refl, refl, reset-Later b.items, kept, others)

absent-attempt :
    (id : Text) (revision : ℕ) (bs : List Batch)
    → find_where (has_batch id) bs ≡ none
    → count_where (is_attempt id revision) bs ≡ 0
unfolding is_attempt
absent-attempt id revision [] e = refl
absent-attempt id revision (b ∷ bs) e = ground (arith, absent-attempt id revision bs)

attempt-parts :
    (id : Text) (revision : ℕ) (b : Batch)
    → has_batch id b ≡ true
    → is_attempt id revision b ≡ (is_running b && nat_beq b.revision revision)
unfolding is_attempt
attempt-parts id revision b h = ground arith

-- After a cancellation that took effect, the attempt writes no result any more: a result that the
-- worker was still computing leaves all records and permits as they are.
pub cancelled_commit :
    (id : Text) (revision now : ℕ) (db : Db) (mode : Mode) (it : Item) (fresh : Share)
    (e : Option ItemError)
    → (cancel_batch id revision now db).0 ≡ true
    → commit_batch_item id revision mode it fresh e (cancel_batch id revision now db).1
      ≡ some (cancel_batch id revision now db).1
unfolding cancel_batch commit_batch_item
cancelled_commit id revision now db mode it fresh e took = elim (Option-cases (read_batch id db)) [
  | inl miss ↦ absurd (omega (arith, ltb→lt _ _ took, absent-attempt id revision db.batches miss))
  | inr (b, found) ↦ ground (
    arith,
    end_attempt-batch cancelled id revision now db found,
    attempt-parts id revision b (find_where-holds (has_batch id) db.batches found),
  )
]
