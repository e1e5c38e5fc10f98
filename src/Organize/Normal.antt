-- ===== src/Organize/Normal.antt =====
-- The checks on an assignment: `normalizeAlbumAssignment` of organize_receipts.go.
use web_bijin.Prelude.{
  ℕ, Bool, true, false, not, ◌||◌, Option, none, some, List, [], ◌∷◌, Text, if◌then◌else◌, text_eq,
  ◌==◌, nat_eq, text_beq, ltb, nat_beq, length, any_where,
}
use web_bijin.Paths.{valid_album_id}
use web_bijin.People.{name_key}
use web_bijin.People.Names.{
  nothing_to_change, bad_album_count, unknown_album, too_many_models, Result, ok, refused, ◌>>=◌,
  ◌>>◌, refuse_if, clean_person_name, has_text,
}
use web_bijin.People.View.{is_current}

-- `organizeChange`. No field of JSON is `none`; an id that is not positive is 0, which no row has.
pub record OrganizeChange : Type 0 where
  pub operation_id : Text
  pub kind : Text
  pub albums : List Text
  pub author : Option Text
  pub models : Option (List Text)
  pub person : ℕ
  pub name : Text

pub record Assignment : Type 0 where
  pub albums : List Text
  pub author : Option Text
  pub models : Option (List Text)

abbrev pub max_models_per_album : ℕ
max_models_per_album = 10

abbrev pub max_albums_per_request : ℕ
max_albums_per_request = 500

abbrev pub is_seen : Text → List Text → Bool
is_seen id = any_where (λ other. other == id)

-- The loop over the albums, behind those seen.
unfoldable pub normal_albums : List Text → List Text → List Text → Result (List Text)
unfolding valid_album_id is_current text_beq
normal_albums current seen [] = ok []
normal_albums current seen (raw ∷ albums) = elim (valid_album_id raw) [
  | none ↦ refused unknown_album
  | some id ↦ do
    refuse_if (not (is_current current id)) unknown_album
    let fresh = not (is_seen id seen)
    later ← normal_albums current (if fresh then id ∷ seen else seen) albums
    ok (if fresh then id ∷ later else later)
]

unfoldable pub normal_author : (Text → Text) → Option Text → Result (Option Text)
unfolding clean_person_name
normal_author nfc none = ok none
normal_author nfc (some raw) =
    if has_text raw then clean_person_name nfc raw >>= (λ name. ok (some name)) else ok (some [])

-- The loop over the models, behind the keys seen.
unfoldable pub normal_models : (Text → Text) → List Text → List Text → Result (List Text)
unfolding clean_person_name text_beq
normal_models nfc keys [] = ok []
normal_models nfc keys (raw ∷ models) = do
  name ← clean_person_name nfc raw
  let fresh = not (is_seen (name_key name) keys)
  later ← normal_models nfc (if fresh then name_key name ∷ keys else keys) models
  ok (if fresh then name ∷ later else later)

unfoldable pub checked_models : (Text → Text) → Option (List Text) → Result (Option (List Text))
unfolding normal_models
checked_models nfc none = ok none
checked_models nfc (some models) = do
  names ← normal_models nfc [] models
  refuse_if (ltb max_models_per_album (length names)) too_many_models
  ok (some names)

abbrev pub changes_nothing : OrganizeChange → Bool
changes_nothing c = elim c.author [
  | some _ ↦ false
  | none ↦ elim c.models [ some _ ↦ false | none ↦ true ]
]

-- `normalizeAlbumAssignment`
unfoldable pub normalize_album_assignment :
    (Text → Text) → OrganizeChange → List Text → Result Assignment
unfolding normal_albums normal_author checked_models
normalize_album_assignment nfc c current = do
  refuse_if (changes_nothing c) nothing_to_change
  refuse_if (nat_beq (length c.albums) 0 || ltb max_albums_per_request (length c.albums))
      bad_album_count
  albums ← normal_albums current [] c.albums
  author ← normal_author nfc c.author
  models ← checked_models nfc c.models
  ok (record { albums = albums; author = author; models = models })
