-- ===== src/Batch.antt =====
-- batch_store.go: the records of batch sharing tasks. The tables share_batches and
-- share_batch_items are one list of tasks with their items. Times are Unix seconds.
pub mod Range
pub mod Attempt
pub mod Commit
pub mod Run
pub mod Valid
pub mod Steps
pub mod Later
pub mod Kept
pub mod Lifecycle
pub mod Permits
pub mod Finish
pub mod Retries
mod Tests
use web_bijin.Prelude.{
  ℕ, zero, suc, ◌+◌, ◌-◌, Bool, true, false, not, ◌&&◌, ◌||◌, Option, none, some, List, [], ◌∷◌,
  ◌++◌, Text, ltb, leb, if◌then◌else◌, text_eq, ◌==◌, nat_eq, text_beq, map, find_where,
  update_where, delete_where, keep_where, count_where, any_where,
}
use web_bijin.Store.{Photo, Store}

pub data Mode : Type 0 where
  opens stops : Mode

pub data BatchStatus : Type 0 where
  prepared running completed cancelled interrupted : BatchStatus

pub data ItemStatus : Type 0 where
  pending success failed : ItemStatus

-- The texts that `batchFailure` answers.
pub data Failure : Type 0 where
  newer_action original_changed read_timeout unreadable : Failure

-- `batchItem`, a row of share_batch_items.
pub record Item : Type 0 where
  pub ordinal : ℕ
  pub photo : Photo
  pub generation : ℕ
  pub status : ItemStatus
  pub error : Option Failure
  pub path : Text

-- `shareBatch`, a row of share_batches with its items.
pub record Batch : Type 0 where
  pub id : Text
  pub mode : Mode
  pub albums : List Text
  pub status : BatchStatus
  pub revision : ℕ
  pub created : ℕ
  pub finished : ℕ
  pub total : ℕ
  pub shared : ℕ
  pub items : List Item

pub record Db : Type 0 where
  pub store : Store
  pub batches : List Batch

abbrev pub batch_retention : ℕ
batch_retention = 172800

abbrev pub batch_prepare_ttl : ℕ
batch_prepare_ttl = 600

abbrev pub batch_prepared_max : ℕ
batch_prepared_max = 16

abbrev pub runs : BatchStatus → Bool
runs status = elim status [ running ↦ true | _ ↦ false ]

abbrev pub is_running : Batch → Bool
is_running b = runs b.status

abbrev pub is_prepared : Batch → Bool
is_prepared b = elim b.status [ prepared ↦ true | _ ↦ false ]

abbrev pub is_pending : Item → Bool
is_pending it = elim it.status [ pending ↦ true | _ ↦ false ]

abbrev pub is_success : Item → Bool
is_success it = elim it.status [ success ↦ true | _ ↦ false ]

abbrev pub is_failed : Item → Bool
is_failed it = elim it.status [ failed ↦ true | _ ↦ false ]

-- `WHERE id=?`
unfoldable pub has_batch : Text → Batch → Bool
unfolding text_beq
has_batch id b = b.id == id

-- `WHERE id=? AND status='running' AND revision=?`
unfoldable pub is_attempt : Text → ℕ → Batch → Bool
unfolding has_batch
is_attempt id revision b = has_batch id b && is_running b && b.revision == revision

-- `readBatch`, and the first statement of `loadBatch`.
abbrev pub read_batch : Text → Db → Option Batch
read_batch id db = find_where (has_batch id) db.batches

-- What `loadBatch` derives: `b.Changes`, `b.Succeeded`, `b.Failed`, `b.Done`.
abbrev pub changes : Batch → ℕ
changes b = elim b.mode [ opens ↦ b.total - b.shared | stops ↦ b.shared ]

abbrev pub succeeded : Batch → ℕ
succeeded b = count_where is_success b.items

abbrev pub failures : Batch → ℕ
failures b = count_where is_failed b.items

abbrev pub done : Batch → ℕ
done b = succeeded b + failures b

-- `interruptRunningBatches`.
abbrev pub stopped_as : BatchStatus → ℕ → Batch → Batch
stopped_as status now b = record b { status = status; finished = now }

unfoldable pub interrupt_running_batches : ℕ → Db → Db
interrupt_running_batches now db = record db {
  batches = update_where is_running (stopped_as interrupted now) db.batches;
}

-- `batchExpired`.
unfoldable pub batch_expired : ℕ → Batch → Bool
batch_expired now b =
    (ltb 0 b.finished && ltb (b.finished + batch_retention) now)
    || (is_prepared b && ltb (b.created + batch_prepare_ttl) now)

-- `ORDER BY created DESC`.
insert_newest : Batch → List Batch → List Batch
insert_newest b [] = b ∷ []
insert_newest b (x ∷ xs) =
    let later = insert_newest b xs in if ltb x.created b.created then b ∷ x ∷ xs else x ∷ later

unfoldable pub newest_first : List Batch → List Batch
unfolding insert_newest
newest_first [] = []
newest_first (b ∷ bs) = insert_newest b (newest_first bs)

-- `OFFSET ?`.
unfoldable pub beyond : ℕ → List Batch → List Batch
beyond zero bs = bs
beyond (suc n) [] = []
beyond (suc n) (b ∷ bs) = beyond n bs

-- The checked ranges that are too many, the oldest ones.
unfoldable pub is_surplus : List Batch → Batch → Bool
unfolding newest_first beyond has_batch
is_surplus batches b =
    any_where (λ old. has_batch old.id b)
      (beyond batch_prepared_max (newest_first (keep_where is_prepared batches)))

-- `cleanupBatches`. The permits stay.
unfoldable pub cleanup_batches : ℕ → Db → Db
unfolding batch_expired is_surplus
cleanup_batches now db = record db {
  batches = delete_where (λ b. batch_expired now b || is_surplus db.batches b) db.batches;
}
