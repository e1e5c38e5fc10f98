-- ===== src/Batch/Commit.antt =====
-- `commitBatchItem`, `batchItemCurrent` and `batchFailure` of batch_store.go.
use web_bijin.Prelude.{
  ℕ, Bool, true, false, not, ◌&&◌, ◌||◌, Option, none, some, [], ◌++◌, Text, ltb, if◌then◌else◌,
  text_eq, ◌==◌, nat_eq, text_beq, codes, update_where, count_where,
}
use web_bijin.Store.{Share, Store, source_key, has_photo, retired, empty_share}
use web_bijin.Store.Photos.{get_by_id}
use web_bijin.Share.{is_active, share_for_photo, note_change, path}
use web_bijin.Share.Writes.{ShareError, Written, write_share, write_stop_share}
use web_bijin.Batch.{
  Batch, Item, Db, Mode, ItemStatus, Failure, has_batch, is_running, is_pending, read_batch,
}

-- The errors of one photo, as far as `batchFailure` tells them apart. `original_gone` is every
-- error that `shareSourceChanged` accepts.
pub data ItemError : Type 0 where
  state_changed original_gone timed_out other_error : ItemError

-- `batchFailure`.
abbrev pub batch_failure : ItemError → Failure
batch_failure state_changed = Failure.newer_action
batch_failure original_gone = Failure.original_changed
batch_failure timed_out = Failure.read_timeout
batch_failure other_error = Failure.unreadable

abbrev pub from_share : ShareError → ItemError
from_share ShareError.source_changed = original_gone
from_share ShareError.share_state_changed = state_changed
from_share ShareError.token_taken = other_error

abbrev pub is_gone : Option ItemError → Bool
is_gone e = elim e [ none ↦ false | some x ↦ elim x [ original_gone ↦ true | _ ↦ false ] ]

-- The text that `batchItemCurrent` compares: key and version joined by a colon.
abbrev pub identity : Text → Text → Text
identity key version = key ++ (codes ":" ++ version)

-- `batchItemCurrent`.
unfoldable pub batch_item_current : Store → Item → Option ItemError
unfolding source_key text_beq share_for_photo
batch_item_current s it = elim (get_by_id it.photo.id s) [
  | none ↦ some original_gone
  | some row ↦
      if not (
        identity row.source_key row.source_version
        == identity (source_key it.photo) it.photo.source_version)
      then some original_gone
      else if not ((share_for_photo it.photo.id s).generation == it.generation)
      then some state_changed
      else none
]

-- The permit change of one photo: `writeShare` without convergence, or `writeStopShare`.
unfoldable pub write_item : Mode → Store → Item → Share → Written
unfolding write_share write_stop_share
write_item Mode.opens s it fresh = write_share s it.photo it.generation fresh false
write_item Mode.stops s it fresh = write_stop_share s it.photo.id it.generation

-- Where a swap is seen, the old permit of the same generation ends too.
abbrev pub is_old_permit : Item → Share → Bool
is_old_permit it sh = has_photo it.photo.id sh && sh.generation == it.generation && is_active sh

unfoldable pub retire_swapped : Item → Written → Written
retire_swapped it w = record w {
  store = record (w.store) { shares = update_where (is_old_permit it) retired w.store.shares };
  changed = w.changed || ltb 0 (count_where (is_old_permit it) w.store.shares);
}

abbrev pub write_error : Written → Option ItemError
write_error w = elim w.error [ none ↦ none | some e ↦ some (from_share e) ]

abbrev pub nothing_written : Store → Written
nothing_written s = record { store = s; share = empty_share 0; changed = false; error = none }

-- The permit and the error of one photo, before its result is written.
unfoldable pub settle : Mode → Store → Item → Share → Option ItemError → Written × Option ItemError
unfolding batch_item_current write_item
settle mode s it fresh (some e) = (nothing_written s, some e)
settle mode s it fresh none = elim (batch_item_current s it) [
  | some e ↦ (nothing_written s, some e)
  | none ↦ (write_item mode s it fresh, write_error (write_item mode s it fresh))
]

abbrev pub with_result : Mode → Share → Option ItemError → Item → Item
with_result mode sh (some e) it = record it {
  status = ItemStatus.failed;
  error = some (batch_failure e);
  path = [];
}
with_result mode sh none it = record it {
  status = ItemStatus.success;
  error = none;
  path = elim mode [ Mode.opens ↦ path sh | Mode.stops ↦ [] ];
}

-- `WHERE … ordinal=? AND status='pending'`
abbrev pub is_item : Item → Item → Bool
is_item it row = row.ordinal == it.ordinal && is_pending row

abbrev pub put_result : Item → (Item → Item) → Batch → Batch
put_result it f b = record b { items = update_where (is_item it) f b.items }

unfoldable pub commit_from : Text → Mode → Item → Share → Option ItemError → Db → Db
unfolding settle retire_swapped has_batch path
commit_from id mode it fresh item_error db =
    let (w, e) = settle mode db.store it fresh item_error in
    let w' = if is_gone e then retire_swapped it w else w in
    record db {
      store = note_change w'.changed w'.store;
      batches =
          update_where (has_batch id) (put_result it (with_result mode w'.share e)) db.batches;
    }

-- `none` is sql.ErrNoRows. An attempt that was cancelled or replaced writes nothing.
unfoldable pub commit_batch_item :
    Text → ℕ → Mode → Item → Share → Option ItemError → Db → Option Db
unfolding commit_from
commit_batch_item id revision mode it fresh item_error db = elim (read_batch id db) [
  | none ↦ none
  | some b ↦
      if not (is_running b) || not (b.revision == revision)
      then some db
      else some (commit_from id mode it fresh item_error db)
]
