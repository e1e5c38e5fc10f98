-- ===== src/People.antt =====
-- organize.go: the authors and models of albums. The tables `people` and `album_people` are lists of
-- their rows; a transaction is a function on them.
pub mod Names
pub mod View
pub mod Rows
pub mod Sound
pub mod Writes
pub mod Renames
pub mod Merges
use web_bijin.Prelude.{
  ℕ, zero, suc, ◌+◌, Bool, true, false, not, ◌&&◌, ◌||◌, Option, none, some, List, [], ◌∷◌, ◌++◌,
  Text, if◌then◌else◌, text_eq, ◌==◌, nat_eq, text_beq, codes, leb, find_where, update_where,
  delete_where, any_where,
}

-- A row of `people`.
pub record Person : Type 0 where
  pub id : ℕ
  pub role : Text
  pub name : Text

-- A row of `album_people`.
pub record Link : Type 0 where
  pub album : Text
  pub person : ℕ
  pub position : ℕ

pub record People : Type 0 where
  pub people : List Person
  pub links : List Link

abbrev pub role_author : Text
role_author = codes "author"

abbrev pub role_model : Text
role_model = codes "model"

abbrev pub fold_letter : ℕ → ℕ
fold_letter r = if leb b'A' r && leb r b'Z' then r + 32 else r

-- `nameKey`, which is also how the column's NOCASE compares.
abbrev pub name_key : Text → Text
name_key [] = []
name_key (r ∷ name) = fold_letter r ∷ name_key name

unfoldable pub same_name : Text → Text → Bool
unfolding text_beq
same_name a b = name_key a == name_key b

abbrev pub has_person : ℕ → Person → Bool
has_person id p = p.id == id

-- The WHERE of `personID`.
unfoldable pub is_named : Text → Text → Person → Bool
unfolding text_beq same_name
is_named role name p = p.role == role && same_name p.name name

-- `personID`, with SQLite's choice of the id of a new row.
unfoldable pub person_id : (List Person → ℕ) → Text → Text → List Person → ℕ × List Person
unfolding is_named
person_id fresh role name people = elim (find_where (is_named role name) people) [
  | some p ↦ (p.id, people)
  | none ↦ (fresh people, record { id = fresh people; role = role; name = name } ∷ people)
]

-- `authorIDs` of `setAlbumPeopleTx`.
unfoldable pub author_ids : (List Person → ℕ) → Option Text → List Person → List ℕ × List Person
unfolding person_id
author_ids fresh none people = ([], people)
author_ids fresh (some []) people = ([], people)
author_ids fresh (some (r ∷ name)) people =
    let (id, later) = person_id fresh role_author (r ∷ name) people in (id ∷ [], later)

-- `modelIDs` of `setAlbumPeopleTx`.
unfoldable pub model_ids : (List Person → ℕ) → List Text → List Person → List ℕ × List Person
unfolding person_id
model_ids fresh [] people = ([], people)
model_ids fresh (name ∷ models) people =
    let (id, more) = person_id fresh role_model name people in
    let (ids, later) = model_ids fresh models more in (id ∷ ids, later)

-- `person_id IN (SELECT id FROM people WHERE role = ?)`
unfoldable pub is_of_role : List Person → Text → ℕ → Bool
unfolding text_beq
is_of_role people role id = any_where (λ (p : Person). p.id == id && p.role == role) people

unfoldable pub has_link : Text → ℕ → List Link → Bool
unfolding text_beq
has_link album id links = any_where (λ (l : Link). l.album == album && l.person == id) links

-- `INSERT OR IGNORE`, for the ids from this position on.
unfoldable pub insert_links : Text → ℕ → List ℕ → List Link → List Link
unfolding has_link
insert_links album i [] links = links
insert_links album i (id ∷ ids) links = insert_links album (i + 1) ids (
    if has_link album id links
    then links
    else links ++ (record { album = album; person = id; position = i } ∷ []))

-- `replace` of `setAlbumPeopleTx`.
unfoldable pub replace : List Person → Text → Text → List ℕ → List Link → List Link
unfolding text_beq is_of_role insert_links
replace people album role ids links =
    insert_links album 0 ids
      (delete_where (λ (l : Link). l.album == album && is_of_role people role l.person) links)

-- The loop of `setAlbumPeopleTx` over the albums; `none` leaves a field as it is.
unfoldable pub set_albums :
    List Person → List Text → Option (List ℕ) → Option (List ℕ) → List Link → List Link
unfolding replace
set_albums people [] authors models links = links
set_albums people (album ∷ albums) authors models links =
    let first : List Link = elim authors [
      | none ↦ links
      | some ids ↦ replace people album role_author ids links
    ] in
    let second : List Link = elim models [
      | none ↦ first
      | some ids ↦ replace people album role_model ids first
    ] in
    set_albums people albums authors models second

-- `setAlbumPeopleTx`. `none` is a nil author, and nil models.
unfoldable pub set_album_people :
    (List Person → ℕ) → List Text → Option Text → Option (List Text) → People → People
unfolding author_ids model_ids set_albums
set_album_people fresh albums author models t =
    let (authors, more) = author_ids fresh author t.people in
    let named : List Text = elim models [ none ↦ [] | some names ↦ names ] in
    let (ids, later) = model_ids fresh named more in
    record {
      people = later;
      links =
          set_albums later albums (elim author [ none ↦ none | some _ ↦ some authors ])
            (elim models [ none ↦ none | some _ ↦ some ids ]) t.links;
    }

pub record PersonRef : Type 0 where
  pub id : ℕ
  pub name : Text

pub record Renamed : Type 0 where
  pub person : PersonRef
  pub merged : Bool
  pub after : People

-- `UPDATE OR IGNORE album_people`: a row stays where the album has the target already.
unfoldable pub move_links : ℕ → ℕ → List Link → List Link
unfolding has_link
move_links id target links =
    update_where (λ (l : Link). l.person == id && not (has_link l.album target links))
      (λ l. record l { person = target }) links

abbrev pub is_linked : ℕ → Link → Bool
is_linked id l = l.person == id

-- The steps of a merge, but for the new spelling.
unfoldable pub merge : ℕ → ℕ → People → People
unfolding move_links
merge id target t = record {
  people = delete_where (has_person id) t.people;
  links = delete_where (is_linked id) (move_links id target t.links);
}

abbrev pub respell : ℕ → Text → People → People
respell id name t = record t {
  people = update_where (has_person id) (λ p. record p { name = name }) t.people;
}

-- `renamePersonTx`: `none` is errPersonNotFound.
unfoldable pub rename_person : ℕ → Text → People → Option Renamed
unfolding is_named merge
rename_person id name t = elim (find_where (has_person id) t.people) [
  | none ↦ none
  | some p ↦ elim (find_where (λ q. is_named p.role name q && not (q.id == id)) t.people) [
    | none ↦ some (record {
      person = record { id = id; name = name };
      merged = false;
      after = respell id name t;
    })
    | some q ↦ some (record {
      person = record { id = q.id; name = name };
      merged = true;
      after = respell q.id name (merge id q.id t);
    })
  ]
]

-- `deletePersonTx`: `none` is errPersonNotFound.
unfoldable pub delete_person : ℕ → People → Option People
delete_person id t = elim (find_where (has_person id) t.people) [
  | none ↦ none
  | some _ ↦ some (record {
    people = delete_where (has_person id) t.people;
    links = delete_where (is_linked id) t.links;
  })
]

-- `deleteAlbumPeopleTx`
unfoldable pub delete_album_people : List Text → People → People
unfolding text_beq
delete_album_people [] t = t
delete_album_people (album ∷ albums) t =
    delete_album_people albums
      (record t { links = delete_where (λ (l : Link). l.album == album) t.links })
