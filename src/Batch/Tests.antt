-- ===== src/Batch/Tests.antt =====
-- A task with one photo that is prepared, begun, worked off, cancelled and retried.
use web_bijin.Prelude.{
  ℕ, ◌+◌, ◌≡◌, ◌≢◌, refl, true, false, none, some, [], ◌∷◌, Text, codes, arith, text_beq,
  count_where, length,
}
use web_bijin.Paths.{photo_album_id, clean, dir}
use web_bijin.Store.{Photo, Share, Store, source_key, empty_share}
use web_bijin.Share.{share_for_photo, has_token, is_active, is_shared, path}
use web_bijin.Share.Writes.{
  is_same_photo, is_current, same_original, put_share, open_share, reuse_share, write_share,
  is_stopped, write_stop_share,
}
use web_bijin.Share.Permits.{IsSound}
use web_bijin.Batch.{
  Mode, BatchStatus, ItemStatus, Item, Batch, Db, has_batch, is_attempt, read_batch, is_running,
  is_success, is_pending, interrupt_running_batches,
}
use web_bijin.Batch.Range.{
  create_batch, new_batch, range_photos, in_range, in_order, items_from, text_before, photo_before,
}
use web_bijin.Batch.Attempt.{
  started, begin_batch_attempt, begin_from, cancel_batch, end_attempt, interrupt_batch,
  next_batch_item, next_from,
}
use web_bijin.Batch.Commit.{
  settle, batch_item_current, write_item, retire_swapped, commit_from, commit_batch_item,
}
use web_bijin.Batch.Run.{verified, run}
use web_bijin.Batch.Valid.{IsValid}
use web_bijin.Batch.Lifecycle.{
  Reach, here, next, prepares, begins, cancels, restarts, Reach-IsValid,
}
use web_bijin.Batch.Later.{Later, IsLaterTask}
use web_bijin.Batch.Kept.{Lives, Reach-Keeps}
use web_bijin.Batch.Permits.{commit_batch_item-IsSound, newer_action_wins}
use web_bijin.Batch.Finish.{IsComplete, run-completes}
use web_bijin.Batch.Retries.{retry_keeps_successes, cancelled_commit}

program : Unit {0}
unfolding photo_album_id clean dir source_key share_for_photo has_token is_shared path is_same_photo
    is_current same_original put_share open_share reuse_share write_share is_stopped
    write_stop_share has_batch is_attempt create_batch new_batch range_photos in_range in_order
    items_from text_before photo_before begin_batch_attempt begin_from cancel_batch end_attempt
    interrupt_batch next_batch_item next_from settle batch_item_current write_item retire_swapped
    commit_from commit_batch_item text_beq
program = tt

abbrev photo_one : Photo
photo_one = record {
  id = 1;
  source_key = codes "a/x.jpg";
  rel_path = codes "a/x.jpg";
  size = 9;
  mtime_unix = 5;
  width = 4;
  height = 3;
  broken = false;
  invalid_reason = [];
  source_version = codes "v";
}

abbrev link_one : Share
link_one = record {
  photo_id = 1;
  token = some (codes "t");
  generation = 0;
  source_key = codes "a/x.jpg";
  source_version = codes "v";
  scope = [];
  digest = codes "d";
  mime = codes "image/jpeg";
  extension = codes "jpg";
  size = 9;
}

abbrev store_with : ℕ → Store
store_with generation = record {
  photos = photo_one ∷ [];
  shares = record (empty_share 1) { generation = generation } ∷ [];
  revisions = record { index = 0; source = 0; album = 0; wall = 0; people = 0; share = 0 };
}

abbrev task : Text
task = codes "b"

abbrev item_one : Item
item_one = record {
  ordinal = 0;
  photo = photo_one;
  generation = 0;
  status = ItemStatus.pending;
  error = none;
  path = [];
}

abbrev batch_in : BatchStatus → ℕ → Batch
batch_in status revision = record {
  id = task;
  mode = Mode.opens;
  albums = codes "a" ∷ [];
  status = status;
  revision = revision;
  created = 100;
  finished = 0;
  total = 1;
  shared = 0;
  items = item_one ∷ [];
}

abbrev with_task : BatchStatus → ℕ → ℕ → Db
with_task status revision generation = record {
  store = store_with generation;
  batches = batch_in status revision ∷ [];
}

abbrev empty_db : Db
empty_db = record { store = store_with 0; batches = [] }

empty-IsValid : IsValid empty_db
empty-IsValid = record { ids = tt; one = omega arith; each = tt }

prepared_then_cancelled :
    Reach empty_db (cancel_batch task 1 120 (with_task BatchStatus.running 1 0)).1
unfolding program
prepared_then_cancelled =
    next
      (next (next here (prepares task Mode.opens (codes "a" ∷ []) 100 refl refl))
        (begins task 0 false {n = 1} refl))
      (cancels task 1 120)

Reach-IsValid_example : IsValid (cancel_batch task 1 120 (with_task BatchStatus.running 1 0)).1
Reach-IsValid_example = Reach-IsValid prepared_then_cancelled empty-IsValid

running-IsValid : IsValid (with_task BatchStatus.running 1 0)
unfolding program
running-IsValid = record {
  ids = (refl, tt);
  one = omega arith;
  each = (record { whole = refl; facts = refl }, tt);
}

-- A task with a finished photo that a restart interrupts and a retry takes up again.
abbrev half_done : BatchStatus → ℕ → Batch
half_done status revision = record (batch_in status revision) {
  items = record item_one { status = ItemStatus.success; path = codes "/s/t.jpg" } ∷ [];
}

abbrev half_done_db : Db
half_done_db = record (with_task BatchStatus.running 1 0) {
  batches = half_done BatchStatus.running 1 ∷ [];
}

abbrev retried_db : Db
retried_db = record (with_task BatchStatus.running 1 0) {
  batches = half_done BatchStatus.running 2 ∷ [];
}

restarted_then_retried : Reach half_done_db retried_db
unfolding program interrupt_running_batches
restarted_then_retried = next (next here (restarts 150)) (begins task 1 true {n = 2} refl)

half_done_facts :
    IsValid half_done_db
    × Lives task restarted_then_retried
    × (read_batch task half_done_db ≡ some (half_done BatchStatus.running 1))
    × (read_batch task retried_db ≡ some (half_done BatchStatus.running 2))
unfolding program interrupt_running_batches restarted_then_retried
half_done_facts = (
  record {
    ids = (refl, tt);
    one = omega arith;
    each = (record { whole = refl; facts = refl }, tt);
  },
  ((tt, (half_done BatchStatus.running 1, refl)), (_, refl)),
  refl,
  refl,
)

Reach-Keeps_example :
    IsLaterTask (half_done BatchStatus.running 1) (half_done BatchStatus.running 2)
Reach-Keeps_example =
    Reach-Keeps task restarted_then_retried (half_done BatchStatus.running 1)
      (half_done BatchStatus.running 2) half_done_facts.0 half_done_facts.1 half_done_facts.2
      half_done_facts.3

-- The photo's permit was stopped or opened on its own since: generation 2, not 0.
abbrev overtaken : Db
overtaken = commit_from task Mode.opens item_one link_one none (with_task BatchStatus.running 1 2)

overtaken_commit :
    commit_batch_item task 1 Mode.opens item_one link_one none (with_task BatchStatus.running 1 2)
    ≡ some overtaken
unfolding program
overtaken_commit = refl

newer_generation : (share_for_photo 1 (store_with 2)).generation ≢ 0
unfolding program
newer_generation e = absurd (omega (arith, e))

newer_action_wins_example : share_for_photo 1 overtaken.store ≡ share_for_photo 1 (store_with 2)
newer_action_wins_example =
    newer_action_wins task 1 Mode.opens item_one link_one none (with_task BatchStatus.running 1 2)
      {db' = overtaken} overtaken_commit newer_generation 1

abbrev committed : Db
committed = commit_from task Mode.opens item_one link_one none (with_task BatchStatus.running 1 0)

committed_facts :
    (commit_batch_item task 1 Mode.opens item_one link_one none (with_task BatchStatus.running 1 0)
      ≡ some committed)
    × IsSound (store_with 0)
    × (is_active (share_for_photo 1 committed.store) ≡ true)
unfolding program
committed_facts = (
  refl,
  record {
    permits = ((λ h. absurd (ground (arith, h))), tt);
    ids = (refl, tt);
    tokens = (refl, tt);
    photos = (refl, tt);
  },
  refl,
)

commit_batch_item-IsSound_example : IsSound committed.store
unfolding program
commit_batch_item-IsSound_example =
    commit_batch_item-IsSound task 1 Mode.opens item_one link_one none
      (with_task BatchStatus.running 1 0) {db' = committed} committed_facts.0
      (λ h. record { key = refl; version = refl }) committed_facts.1

version_of : Photo → Text
version_of p = p.source_version

found_running :
    read_batch task (with_task BatchStatus.running 1 0) ≡ some (batch_in BatchStatus.running 1)
unfolding program
found_running = refl

run-completes_example :
    (db' : Db) × (run version_of
        (λ it. verified link_one)
        2
        task
        1
        200
        (with_task BatchStatus.running 1 0)
      ≡ some db')
    × IsComplete task 1 db'
run-completes_example =
    run-completes version_of (λ it. verified link_one) 2 task 1 200
      (with_task BatchStatus.running 1 0) (batch_in BatchStatus.running 1) found_running refl refl
      (omega arith)

begun_facts :
    (begin_batch_attempt task 0 false (with_task BatchStatus.prepared 0 0)
      ≡ started 1 (with_task BatchStatus.running 1 0))
    × (begin_batch_attempt task 1 true (with_task BatchStatus.interrupted 1 0)
        ≡ started 2 (with_task BatchStatus.running 2 0))
    × ((cancel_batch task 1 120 (with_task BatchStatus.running 1 0)).0 ≡ true)
unfolding program
begun_facts = (refl, refl, refl)

retry_keeps_successes_example :
    (b b' : Batch) × (read_batch task (with_task BatchStatus.interrupted 1 0) ≡ some b)
    × (read_batch task (with_task BatchStatus.running 2 0) ≡ some b')
    × (2 ≡ b'.revision)
    × (b'.revision ≡ b.revision + 1)
    × (is_running b' ≡ true)
    × Later b.items b'.items
    × (count_where is_success b'.items ≡ count_where is_success b.items)
    × (count_where is_pending b'.items + count_where is_success b.items ≡ length b.items)
retry_keeps_successes_example =
    retry_keeps_successes task 1 (with_task BatchStatus.interrupted 1 0) {n = 2}
      {db' = with_task BatchStatus.running 2 0} begun_facts.1

cancelled_commit_example :
    commit_batch_item task 1 Mode.opens item_one link_one none
      (cancel_batch task 1 120 (with_task BatchStatus.running 1 0)).1
    ≡ some (cancel_batch task 1 120 (with_task BatchStatus.running 1 0)).1
cancelled_commit_example =
    cancelled_commit task 1 120 (with_task BatchStatus.running 1 0) Mode.opens item_one link_one
      none begun_facts.2
