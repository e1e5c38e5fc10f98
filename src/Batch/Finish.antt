-- ===== src/Batch/Finish.antt =====
-- The worker of a task ends: left alone, it settles every pending photo and completes the task.
use mathlib.Core.Option
use web_bijin.Prelude.{
  ℕ, zero, suc, ◌<◌, ◌≡◌, refl, inl, inr, true, false, Option, none, some, List, [], ◌∷◌, Text,
  arith, Bool-cases, Option-cases, find_where, update_where, count_where, length,
  length-update_where, find_where-update_eq, find_where-holds, subst, ◌∙◌, ap, count_where-zero,
  count_where-update_drops, find_where-update, if◌then◌else◌,
}
use web_bijin.Store.{Photo, Share}
use web_bijin.Batch.{
  Batch, BatchStatus, Item, Db, Mode, interrupted, completed, running, has_batch, is_attempt,
  is_pending, read_batch, stopped_as,
}
use web_bijin.Batch.Attempt.{next_batch_item, next_from, interrupt_batch, end_attempt, take}
use web_bijin.Batch.Commit.{
  ItemError, is_item, with_result, put_result, commit_from, commit_batch_item, settle, is_gone,
  retire_swapped,
}
use web_bijin.Batch.Run.{Snapshot, prepare_item, run_round, run}

-- A result takes its photo out of the pending ones.
settled-count :
    (it : Item) (f : Item → Item) (items : List Item)
    → ((x : Item) → is_pending (f x) ≡ false)
    → find_where is_pending items ≡ some it
    → count_where is_pending (update_where (is_item it) f items) < count_where is_pending items
settled-count it f [] done e = absurd (ground arith)
settled-count it f (x ∷ items) done e = elim (Bool-cases (is_pending x)) [
  | inl here ↦
      ground
        (arith, done x, count_where-update_drops is_pending (is_item it) f items (λ y h. done y))
  | inr later ↦ ground (arith, settled-count it f items done)
]

with_result-done :
    (mode : Mode) (sh : Share) (e : Option ItemError) (it : Item)
    → is_pending (with_result mode sh e it) ≡ false
with_result-done mode sh none it = refl
with_result-done mode sh (some x) it = refl

commit-batch :
    (id : Text) (mode : Mode) (it : Item) (fresh : Share) (e : Option ItemError) (db : Db)
    {b : Batch}
    → read_batch id db ≡ some b
    → (f : Item → Item) × ((x : Item) → is_pending (f x) ≡ false)
      × (read_batch id (commit_from id mode it fresh e db) ≡ some (put_result it f b))
unfolding commit_from has_batch
commit-batch id mode it fresh e db {b} found =
    let (w, e') = settle mode db.store it fresh e in
    let w' = if is_gone e' then retire_swapped it w else w in
    let f = with_result mode w'.share e' in
    (
      f,
      with_result-done mode w'.share e',
      find_where-update_eq (has_batch id) (put_result it f) db.batches (λ x h. h)
          ∙ ap (Option.map (put_result it f)) found,
    )

pub end_attempt-batch :
    (status : BatchStatus) (id : Text) (revision now : ℕ) (db : Db) {b : Batch}
    → read_batch id db ≡ some b
    → read_batch id (end_attempt status id revision now db)
      ≡ some (if is_attempt id revision b then stopped_as status now b else b)
unfolding end_attempt has_batch
end_attempt-batch status id revision now db {b} found =
    find_where-update (has_batch id) (is_attempt id revision) (stopped_as status now) db.batches
      (λ x h. refl)
    ∙ ap (Option.map (λ x. if is_attempt id revision x then stopped_as status now x else x)) found

-- The task that the worker has completed.
pub record IsComplete (id : Text) (n : ℕ) (db : Db) : Type 0 where
  pub batch : Batch
  pub found : read_batch id db ≡ some batch
  pub status : batch.status ≡ completed
  pub settled : count_where is_pending batch.items ≡ 0
  pub kept : length batch.items ≡ n

module _ (id : Text) (revision now : ℕ) (db : Db) (b : Batch) (found : read_batch id db ≡ some b)
    (active : b.status ≡ running) (ours : b.revision ≡ revision) where
  ours-attempt : is_attempt id revision b ≡ true
  unfolding is_attempt
  ours-attempt = ground (arith, active, ours, find_where-holds (has_batch id) db.batches found)

  completed-over : is_attempt id revision (stopped_as completed now b) ≡ false
  unfolding is_attempt
  completed-over = ground arith

  -- Nothing is pending: the task is completed, and the deferred interruption finds it so.
  last-round :
      find_where is_pending b.items ≡ none
      → IsComplete id
          (length b.items)
          (interrupt_batch id revision now (end_attempt completed id revision now db))
  unfolding interrupt_batch
  last-round idle =
      let ended : read_batch id (end_attempt completed id revision now db)
          ≡ some (stopped_as completed now b) =
        rw ours-attempt at (end_attempt-batch completed id revision now db found) in
      record {
        batch = stopped_as completed now b;
        found = rw completed-over at (
            end_attempt-batch interrupted id revision now (end_attempt completed id revision now db)
              ended);
        status = refl;
        settled = count_where-zero is_pending b.items idle;
        kept = refl;
      }

  next-round :
      (it : Item)
      → find_where is_pending b.items ≡ some it
      → next_batch_item id revision now db ≡ take b.mode it
  unfolding next_batch_item next_from
  next-round it more = ground (arith, active, ours, found, more)

module _ (version : Photo → Text) (snapshot : Item → Snapshot) where
  -- One round settles one photo of the running attempt, or ends it.
  round-progress :
      (id : Text) (revision now : ℕ) (db : Db) (b : Batch) (it : Item)
      → read_batch id db ≡ some b
      → b.status ≡ running
      → b.revision ≡ revision
      → find_where is_pending b.items ≡ some it
      → (db' : Db) × (f : Item → Item) × (run_round version snapshot id revision now db ≡ inr db')
        × ((x : Item) → is_pending (f x) ≡ false)
        × (read_batch id db' ≡ some (put_result it f b))
  unfolding run_round commit_batch_item
  round-progress id revision now db b it found active ours more =
      let (fresh, e) = prepare_item version snapshot db.store b.mode it in
      let (f, settles, after) = commit-batch id b.mode it fresh e db found in
      (
        commit_from id b.mode it fresh e db,
        f,
        rw (next-round id revision now db b found active ours it more, run_round)
            (ground (arith, found, active, ours)),
        settles,
        after,
      )

  last-run :
      (fuel : ℕ) (id : Text) (revision now : ℕ) (db : Db) (b : Batch)
      → read_batch id db ≡ some b
      → b.status ≡ running
      → b.revision ≡ revision
      → find_where is_pending b.items ≡ none
      → run version snapshot (suc fuel) id revision now db
        ≡ some (interrupt_batch id revision now (end_attempt completed id revision now db))
  unfolding run run_round next_batch_item next_from
  last-run fuel id revision now db b found active ours idle = ground arith

  -- Let the worker of a running attempt run alone. With fuel above the number of pending photos it
  -- ends, and it leaves the task completed, with none of its photos pending and none lost, however
  -- the reading of the originals goes.
  pub run-completes :
      (fuel : ℕ) (id : Text) (revision now : ℕ) (db : Db) (b : Batch)
      → read_batch id db ≡ some b
      → b.status ≡ running
      → b.revision ≡ revision
      → count_where is_pending b.items < fuel
      → (db' : Db) × (run version snapshot fuel id revision now db ≡ some db')
        × IsComplete id (length b.items) db'
  unfolding run
  run-completes zero id revision now db b found active ours h = elim h [ ]
  run-completes (suc fuel) id revision now db b found active ours h =
      elim (Option-cases (find_where is_pending b.items)) [
        | inl idle ↦ (
          _,
          last-run fuel id revision now db b found active ours idle,
          last-round id revision now db b found active ours idle,
        )
        | inr (it, more) ↦
            let (db', f, step, settles, after) =
              round-progress id revision now db b it found active ours more in
            let (end, ran, complete) =
              run-completes fuel id revision now db' (put_result it f b) after active ours
                (omega (arith, settled-count it f b.items settles more)) in
            (
              end,
              rw (step, run) ran,
              subst (λ n. IsComplete id n end) (length-update_where (is_item it) f b.items)
                  complete,
            )
      ]
