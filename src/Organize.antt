-- ===== src/Organize.antt =====
-- organize_receipts.go: a change of the organize page is executed at most once, and a receipt answers
-- its repetitions. Times are milliseconds since 1970.
pub mod Normal
pub mod Receipts
pub mod Outcomes
pub mod Settled
pub mod Once
pub mod Room
pub mod Persons
pub mod Repeats
mod Tests
use web_bijin.Prelude.{
  ℕ, zero, suc, ◌+◌, ◌-◌, ◌*◌, Bool, true, false, not, ◌&&◌, ◌||◌, Option, none, some, List, [],
  ◌∷◌, ◌++◌, Text, if◌then◌else◌, text_eq, ◌==◌, nat_eq, text_beq, codes, leb, ltb, nat_beq, length,
  find_where, keep_where, delete_where, length,
}
use web_bijin.People.{
  Person, People, PersonRef, Renamed, set_album_people, rename_person, delete_person,
  delete_album_people,
}
use web_bijin.People.Names.{
  Refusal, bad_operation_id, bad_clock, changed_content, receipt_expired, unknown_kind,
  person_not_found, Result, ok, refused, ◌>>=◌, ◌>>◌, refuse_if, clean_person_name,
}
use web_bijin.People.View.{
  AlbumPeople, PeopleView, Joined, load_rows, linked_albums, load_album_people, list_people,
  people_view_of, is_current,
}
use web_bijin.Organize.Normal.{OrganizeChange, Assignment, normalize_album_assignment}
use web_bijin.Organize.Receipts.{
  Receipt, Kept, organize_issued, prune_organize_receipts, organize_receipt_ttl,
}

pub record OrganizeAlbum : Type 0 where
  pub id : Text
  pub people : AlbumPeople

pub record OrganizeResult : Type 0 where
  pub operation_id : Text
  pub albums : List OrganizeAlbum
  pub view : PeopleView
  pub person : Option PersonRef
  pub merged : Bool
  pub removed : ℕ

-- What the code takes from elsewhere: Unicode's NFC, SQLite's choice of a new id, the digest of the
-- JSON text of a change, and the JSON text of a result.
pub record Outside : Type 0 where
  pub nfc : Text → Text
  pub fresh : List Person → ℕ
  pub fingerprint : OrganizeChange → Text
  pub encode : OrganizeResult → Text

-- The tables that a change reads and writes, and `peopleRevision`.
pub record OrganizeDb : Type 0 where
  pub tables : People
  pub kept : Kept
  pub revision : ℕ

-- `receiptExpired`
unfoldable pub receipt_expired_at : ℕ → ℕ → ℕ → Bool
receipt_expired_at floor issued now = leb issued floor || leb issued (now - organize_receipt_ttl)

-- What a change did to the tables, with its part of the result.
pub record Changed : Type 0 where
  pub tables : People
  pub person : Option PersonRef
  pub merged : Bool
  pub removed : ℕ

abbrev pub only : People → Changed
only t = record { tables = t; person = none; merged = false; removed = 0 }

abbrev pub or_not_found {ℓ} : {A : Type ℓ} → Option A → Result A
or_not_found none = refused person_not_found
or_not_found (some a) = ok a

-- The albums of `cleanStale`.
unfoldable pub stale_albums : List Text → People → List Text
unfolding linked_albums load_rows is_current
stale_albums current t =
    keep_where (λ album. not (is_current current album)) (linked_albums (load_rows t))

-- The cases of the switch of `applyOrganize`.
unfoldable pub assign_people : Outside → OrganizeChange → List Text → People → Result Changed
unfolding normalize_album_assignment set_album_people
assign_people o c current t = do
  a ← normalize_album_assignment o.nfc c current
  ok (only (set_album_people o.fresh a.albums a.author a.models t))

unfoldable pub rename_case : Outside → OrganizeChange → People → Result Changed
unfolding clean_person_name rename_person
rename_case o c t = do
  name ← clean_person_name o.nfc c.name
  r ← or_not_found (rename_person c.person name t)
  ok (record { tables = r.after; person = some r.person; merged = r.merged; removed = 0 })

unfoldable pub remove_case : OrganizeChange → People → Result Changed
unfolding delete_person
remove_case c t = do after ← or_not_found (delete_person c.person t); ok (only after)

unfoldable pub clean_stale : List Text → People → Changed
unfolding stale_albums delete_album_people
clean_stale current t = record {
  tables = delete_album_people (stale_albums current t) t;
  person = none;
  merged = false;
  removed = length (stale_albums current t);
}

unfoldable pub change_tables : Outside → OrganizeChange → List Text → People → Result Changed
unfolding text_beq assign_people rename_case remove_case clean_stale
change_tables o c current t =
    if c.kind == codes "assign"
    then assign_people o c current t
    else if c.kind == codes "rename"
    then rename_case o c t
    else if c.kind == codes "remove"
    then remove_case c t
    else if c.kind == codes "cleanStale"
    then ok (clean_stale current t)
    else refused unknown_kind

abbrev pub album_views : People → List Text → List OrganizeAlbum
album_views t [] = []
album_views t (id ∷ ids) = record { id = id; people = load_album_people t id } ∷ album_views t ids

-- The answer that is built before the commit.
unfoldable pub answer : OrganizeChange → List Text → Changed → OrganizeResult
unfolding load_album_people people_view_of list_people linked_albums load_rows
answer c current done = record {
  operation_id = c.operation_id;
  albums = album_views done.tables current;
  view =
      people_view_of (list_people done.tables.people) (linked_albums (load_rows done.tables))
        (load_album_people done.tables) current;
  person = done.person;
  merged = done.merged;
  removed = done.removed;
}

abbrev pub is_receipt : Text → Receipt → Bool
is_receipt id r = r.operation_id == id

abbrev pub new_receipt : Outside → ℕ → OrganizeChange → Text → Receipt
new_receipt o issued c result = record {
  operation_id = c.operation_id;
  issued = issued;
  fingerprint = o.fingerprint c;
  result = result;
}

-- The answer and the tables that are committed behind a change.
unfoldable pub commit_change :
    Outside → ℕ → OrganizeChange → List Text → ℕ → OrganizeDb → Changed → Text × OrganizeDb
unfolding answer prune_organize_receipts
commit_change o issued c current now db done =
    let result = o.encode (answer c current done) in
    (
      result,
      record {
        tables = done.tables;
        kept =
            prune_organize_receipts now
              (record db.kept { receipts = new_receipt o issued c result ∷ db.kept.receipts });
        revision = db.revision + 1;
      },
    )

-- `applyOrganize` where there is no receipt, up to the commit.
unfoldable pub execute :
    Outside → ℕ → OrganizeChange → List Text → ℕ → OrganizeDb → Result (Text × OrganizeDb)
unfolding receipt_expired_at change_tables commit_change
execute o issued c current now db = do
  refuse_if (receipt_expired_at db.kept.floor issued now) receipt_expired
  done ← change_tables o c current db.tables
  ok (commit_change o issued c current now db done)

-- The answer of a receipt.
abbrev pub replay : Text → Receipt → Result Text
replay fingerprint r = if r.fingerprint == fingerprint then ok r.result else refused changed_content

-- What `applyOrganize` does with the receipt that it finds, or with none.
abbrev pub replay_or_execute :
    Outside
    → ℕ
    → OrganizeChange
    → List Text
    → ℕ
    → OrganizeDb
    → Option Receipt
    → Result (Text × OrganizeDb)
replay_or_execute o issued c current now db (some r) = do
  result ← replay (o.fingerprint c) r
  ok (result, db)
replay_or_execute o issued c current now db none = execute o issued c current now db

-- `applyOrganize` up to the commit.
unfoldable pub commit_organize :
    Outside → OrganizeChange → List Text → ℕ → OrganizeDb → Result (Text × OrganizeDb)
unfolding organize_issued execute text_beq
commit_organize o c current now db = do
  issued ← organize_issued c.operation_id
  refuse_if (ltb (now + 5 * 60 * 1000) issued) bad_clock
  replay_or_execute o issued c current now db
      (find_where (is_receipt c.operation_id) db.kept.receipts)

-- An error rolls the transaction back.
abbrev pub or_roll_back : OrganizeDb → Result (Text × OrganizeDb) → Result Text × OrganizeDb
or_roll_back db (ok (result, after)) = (ok result, after)
or_roll_back db (refused e) = (refused e, db)

-- `applyOrganize`. The ids of the current albums come in the order in which `sort.Strings` puts them.
unfoldable pub apply_organize :
    Outside → OrganizeChange → List Text → ℕ → OrganizeDb → Result Text × OrganizeDb
unfolding commit_organize
apply_organize o c current now db = or_roll_back db (commit_organize o c current now db)

pub data ReceiptState : Type 0 where
  committed : Text → ReceiptState
  missing expired : ReceiptState

-- The handler `receipt`, behind the session's check.
unfoldable pub receipt : Text → ℕ → OrganizeDb → Result ReceiptState
unfolding organize_issued receipt_expired_at text_beq
receipt id now db = do
  issued ← organize_issued id
  elim (find_where (is_receipt id) db.kept.receipts) [
    | some r ↦ ok (committed r.result)
    | none ↦ ok (if receipt_expired_at db.kept.floor issued now then expired else missing)
  ]
