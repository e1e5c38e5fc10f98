-- ===== src/Batch/Lifecycle.antt =====
-- Any order of requests, restarts and rounds of the worker on the task records: batch_sharing.go
-- takes one lock for each of them.
use web_bijin.Prelude.{
  ℕ, ◌+◌, ◌≡◌, refl, Bool, Option, none, some, List, [], ◌∷◌, Text, arith, count_where, length,
  subst, sym,
}
use web_bijin.Store.{Photo, Share, Store}
use web_bijin.Batch.{
  Item, Db, Mode, is_pending, read_batch, interrupt_running_batches, cleanup_batches,
}
use web_bijin.Batch.Range.{create_batch, new_batch, range_photos, items_from}
use web_bijin.Batch.Attempt.{
  started, begin_batch_attempt, cancel_batch, interrupt_batch, over, next_batch_item,
}
use web_bijin.Batch.Commit.{ItemError, commit_batch_item}
use web_bijin.Batch.Valid.{IsValid, interrupt_running-IsValid, cleanup_batches-IsValid}
use web_bijin.Batch.Steps.{
  begin-IsValid, cancel-IsValid, interrupt-IsValid, next-IsValid, commit-IsValid,
}

items_from_counts :
    (s : Store) (n : ℕ) (ps : List Photo)
    → (length (items_from s n ps) ≡ length ps)
      × (count_where is_pending (items_from s n ps) ≡ length (items_from s n ps))
unfolding items_from
items_from_counts s n [] = (refl, refl)
items_from_counts s n (p ∷ ps) =
    let (a, b) = items_from_counts s (n + 1) ps in (omega arith, omega arith)

-- A new range is a valid record.
create-IsValid :
    (id : Text) (mode : Mode) (albums : List Text) (now : ℕ) (db : Db) {db' : Db}
    → read_batch id db ≡ none
    → create_batch id mode albums now db ≡ some db'
    → IsValid db
    → IsValid db'
unfolding create_batch new_batch
create-IsValid id mode albums now db {db'} absent e v =
    let same : record db { batches = new_batch id mode albums now db.store ∷ db.batches } ≡ db' =
      ground arith in
    let (kept, all_pending) = items_from_counts db.store 0 (range_photos albums db.store) in
    subst IsValid same (record {
      ids = (absent, v.ids);
      one = omega arith;
      each = (record { whole = sym kept; facts = (refl, all_pending) }, v.each);
    })

-- A transaction on `db.store` alone, of a request for one photo or of a scan.
pub data Step (db : Db) : Db → Type 0 where
  prepares :
      (id : Text) (mode : Mode) (albums : List Text) (now : ℕ) {db' : Db}
      → read_batch id db ≡ none
      → create_batch id mode albums now db ≡ some db'
      → Step db db'
  begins :
      (id : Text) (revision : ℕ) (retry : Bool) {n : ℕ} {db' : Db}
      → begin_batch_attempt id revision retry db ≡ started n db'
      → Step db db'
  cancels : (id : Text) (revision now : ℕ) → Step db (cancel_batch id revision now db).1
  finishes :
      (id : Text) (revision now : ℕ) {db' : Db}
      → next_batch_item id revision now db ≡ over db'
      → Step db db'
  commits :
      (id : Text) (revision : ℕ) (mode : Mode) (it : Item) (fresh : Share) (e : Option ItemError)
      {db' : Db}
      → commit_batch_item id revision mode it fresh e db ≡ some db'
      → Step db db'
  interrupts : (id : Text) (revision now : ℕ) → Step db (interrupt_batch id revision now db)
  restarts : (now : ℕ) → Step db (interrupt_running_batches now db)
  forgets : (now : ℕ) → Step db (cleanup_batches now db)
  elsewhere : (s : Store) → Step db (record db { store = s })

pub data Reach (db : Db) : Db → Type 0 where
  here : Reach db db
  next : {d e : Db} → Reach db d → Step d e → Reach db e

Step-IsValid : {d e : Db} → Step d e → IsValid d → IsValid e
Step-IsValid {d} (prepares id mode albums now absent h) v =
    create-IsValid id mode albums now d absent h v
Step-IsValid {d} (begins id revision retry h) v = begin-IsValid id revision retry d h v
Step-IsValid {d} (cancels id revision now) v = cancel-IsValid id revision now d v
Step-IsValid {d} (finishes id revision now h) v = next-IsValid id revision now d h v
Step-IsValid {d} (commits id revision mode it fresh e h) v =
    commit-IsValid id revision mode it fresh e d h v
Step-IsValid {d} (interrupts id revision now) v = interrupt-IsValid id revision now d v
Step-IsValid {d} (restarts now) v = interrupt_running-IsValid now d v
Step-IsValid {d} (forgets now) v = cleanup_batches-IsValid now d v
Step-IsValid (elsewhere s) v = record { ids = v.ids; one = v.one; each = v.each }

-- Whatever order ranges are prepared, attempts begun, cancelled, interrupted and finished, photos
-- committed and old records forgotten in, also across restarts, valid task records stay valid: at
-- most one task runs, a prepared task has all its photos pending, a completed one has none
-- pending, and the total of a task is the number of its photos.
pub Reach-IsValid : {d e : Db} → Reach d e → IsValid d → IsValid e
Reach-IsValid here v = v
Reach-IsValid (next r st) v = Step-IsValid st (Reach-IsValid r v)
