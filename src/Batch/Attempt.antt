-- ===== src/Batch/Attempt.antt =====
-- The attempts of a task in batch_store.go: `beginBatchAttempt`, `cancelBatch`, `interruptBatch`
-- and `nextBatchItem`. An attempt is named by the task's revision.
use web_bijin.Prelude.{
  ℕ, ◌+◌, Bool, not, ◌&&◌, ◌||◌, none, some, List, [], Text, ltb, if◌then◌else◌, ◌==◌, nat_eq,
  find_where, update_where, count_where,
}
use web_bijin.Batch.{
  Batch, Item, Db, BatchStatus, ItemStatus, Mode, has_batch, is_attempt, is_running, is_prepared,
  is_pending, is_success, read_batch, stopped_as,
}

-- `no_rows` is sql.ErrNoRows, `conflict` errBatchConflict.
pub data BatchError : Type 0 where
  no_rows conflict : BatchError

pub data Begun : Type 0 where
  started : ℕ → Db → Begun
  as_before : Begun
  refused : BatchError → Begun

abbrev pub to_pending : Item → Item
to_pending it = record it { status = ItemStatus.pending; error = none; path = [] }

-- The UPDATE of the items where a stopped task is retried.
abbrev pub reset_items : Bool → List Item → List Item
reset_items retry items =
    if retry then update_where (λ it. not (is_success it)) to_pending items else items

abbrev pub begun : Bool → Batch → Batch
begun retry b = record b {
  status = BatchStatus.running;
  revision = b.revision + 1;
  finished = 0;
  items = reset_items retry b.items;
}

-- A lost answer or a second click: another attempt has begun since, or this one has.
abbrev pub already_begun : ℕ → Bool → Batch → Bool
already_begun revision retry b =
    not (b.revision == revision) || (not retry && not (is_prepared b)) || (retry && is_running b)

unfoldable pub begin_from : Text → ℕ → Bool → Db → Batch → Begun
unfolding has_batch
begin_from id revision retry db b =
    if already_begun revision retry b
    then as_before
    else if retry && is_prepared b
    then refused conflict
    else if ltb 0 (count_where is_running db.batches)
    then refused conflict
    else started (b.revision + 1)
        (record db { batches = update_where (has_batch id) (begun retry) db.batches })

unfoldable pub begin_batch_attempt : Text → ℕ → Bool → Db → Begun
unfolding begin_from
begin_batch_attempt id revision retry db = elim (read_batch id db) [
  | none ↦ refused no_rows
  | some b ↦ begin_from id revision retry db b
]

-- The UPDATE of `cancelBatch`, `interruptBatch` and the end of `nextBatchItem`.
unfoldable pub end_attempt : BatchStatus → Text → ℕ → ℕ → Db → Db
unfolding is_attempt
end_attempt status id revision now db = record db {
  batches = update_where (is_attempt id revision) (stopped_as status now) db.batches;
}

unfoldable pub cancel_batch : Text → ℕ → ℕ → Db → Bool × Db
unfolding end_attempt
cancel_batch id revision now db = (
  ltb 0 (count_where (is_attempt id revision) db.batches),
  end_attempt BatchStatus.cancelled id revision now db,
)

unfoldable pub interrupt_batch : Text → ℕ → ℕ → Db → Db
unfolding end_attempt
interrupt_batch = end_attempt BatchStatus.interrupted

-- `next`: the item to take. `over`: the attempt has ended, by this call or before.
pub data Next : Type 0 where
  take : Mode → Item → Next
  over : Db → Next
  missing : Next

unfoldable pub next_from : Text → ℕ → ℕ → Db → Batch → Next
unfolding end_attempt
next_from id revision now db b =
    if not (is_running b) || not (b.revision == revision)
    then over db
    else elim (find_where is_pending b.items) [
      | some it ↦ take b.mode it
      | none ↦ over (end_attempt BatchStatus.completed id revision now db)
    ]

unfoldable pub next_batch_item : Text → ℕ → ℕ → Db → Next
unfolding next_from
next_batch_item id revision now db = elim (read_batch id db) [
  | none ↦ missing
  | some b ↦ next_from id revision now db b
]
