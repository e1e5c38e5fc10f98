-- ===== src/Batch/Range.antt =====
-- `createBatch` of batch_store.go: every visible photo directly in the chosen albums, with the
-- generation of its permit.
use web_bijin.Prelude.{
  ℕ, ◌+◌, Bool, true, false, not, ◌&&◌, ◌||◌, Option, none, some, List, [], ◌∷◌, ◌++◌, Text, ltb,
  nat_beq, if◌then◌else◌, text_eq, ◌==◌, nat_eq, text_beq, keep_where, count_where, any_where,
  length,
}
use web_bijin.Paths.{photo_album_id}
use web_bijin.Store.{Photo, Store, photo_visible}
use web_bijin.Share.{share_for_photo, is_shared}
use web_bijin.Batch.{Batch, Mode, Item, Db, ItemStatus, BatchStatus, is_prepared, is_running}

-- `ORDER BY` on text: the bytes from the left.
unfoldable pub text_before : Text → Text → Bool
text_before s [] = false
text_before [] (b ∷ t) = true
text_before (a ∷ s) (b ∷ t) = ltb a b || (nat_beq a b && text_before s t)

unfoldable pub photo_before : Photo → Photo → Bool
unfolding text_before text_beq photo_album_id
photo_before p q =
    let a = photo_album_id p.rel_path in
    let b = photo_album_id q.rel_path in
    text_before a b
    || (a == b
        && (text_before p.rel_path q.rel_path || (p.rel_path == q.rel_path && ltb p.id q.id)))

insert_photo : Photo → List Photo → List Photo
unfolding photo_before
insert_photo p [] = p ∷ []
insert_photo p (q ∷ qs) =
    let later = insert_photo p qs in if photo_before p q then p ∷ q ∷ qs else q ∷ later

unfoldable pub in_order : List Photo → List Photo
unfolding insert_photo
in_order [] = []
in_order (p ∷ ps) = insert_photo p (in_order ps)

-- The rows of the query; a photo has a permit row by the trigger on its insertion.
unfoldable pub in_range : List Text → Photo → Bool
unfolding text_beq photo_album_id
in_range albums p =
    photo_visible p && any_where (λ album. album == photo_album_id p.rel_path) albums

-- The columns of the row that the SELECT reads; the others are zero values.
abbrev pub selected : Photo → Photo
selected p = record p { broken = false; invalid_reason = [] }

unfoldable pub items_from : Store → ℕ → List Photo → List Item
unfolding share_for_photo
items_from s n [] = []
items_from s n (p ∷ ps) =
    record {
      ordinal = n;
      photo = selected p;
      generation = (share_for_photo p.id s).generation;
      status = ItemStatus.pending;
      error = none;
      path = [];
    }
    ∷ items_from s (n + 1) ps

-- `found[album]`
abbrev pub album_found : List Photo → Text → Bool
album_found photos album = any_where (λ p. album == photo_album_id p.rel_path) photos

-- The photos of the range, in the order of its items.
unfoldable pub range_photos : List Text → Store → List Photo
unfolding in_range in_order
range_photos albums s = in_order (keep_where (in_range albums) s.photos)

-- The rows of a new task.
unfoldable pub new_batch : Text → Mode → List Text → ℕ → Store → Batch
unfolding range_photos items_from is_shared
new_batch id mode albums now s = record {
  id = id;
  mode = mode;
  albums = albums;
  status = BatchStatus.prepared;
  revision = 0;
  created = now;
  finished = 0;
  total = length (range_photos albums s);
  shared = count_where (is_shared s) (range_photos albums s);
  items = items_from s 0 (range_photos albums s);
}

-- `none` is errBatchConflict: an album of the range has no photo any more. The handler passes each
-- album once.
unfoldable pub create_batch : Text → Mode → List Text → ℕ → Db → Option Db
unfolding range_photos new_batch text_beq photo_album_id
create_batch id mode albums now db =
    if not (count_where (album_found (range_photos albums db.store)) albums == length albums)
    then none
    else some (record db { batches = new_batch id mode albums now db.store ∷ db.batches })

-- `ORDER BY … created DESC,id`.
abbrev pub listed_before : Batch → Batch → Bool
listed_before b x = ltb x.created b.created || (b.created == x.created && text_before b.id x.id)

insert_listed : Batch → List Batch → List Batch
unfolding text_before
insert_listed b [] = b ∷ []
insert_listed b (x ∷ xs) =
    let later = insert_listed b xs in if listed_before b x then b ∷ x ∷ xs else x ∷ later

unfoldable pub listed : List Batch → List Batch
unfolding insert_listed
listed [] = []
listed (b ∷ bs) = insert_listed b (listed bs)

-- `listBatches`: every started task, the running one first, then newest.
unfoldable pub list_batches : Db → List Batch
unfolding listed
list_batches db =
    let started = keep_where (λ b. not (is_prepared b)) db.batches in
    keep_where is_running (listed started) ++ keep_where (λ b. not (is_running b)) (listed started)
