-- ===== src/Process/Photo.antt =====
-- photo_processing.go: one photo processed behind its lock, with `retryRejected` of photo_recovery.go.
-- What the source, the file system and the decoder answer is an `Attempt`; the database is taken not
-- to fail. The thumbnails are the files `id-version.jpg`; the wallpapers' table and files are left out.
use web_bijin.Prelude.{
  ℕ, ◌+◌, ◌*◌, Bool, true, false, not, ◌&&◌, ◌||◌, Option, none, some, List, [], ◌++◌, Text,
  if◌then◌else◌, text_eq, ◌==◌, nat_eq, text_beq, codes, ltb, delete_where, any_where,
}
use web_bijin.Prelude.Decimal.{to_decimal}
use web_bijin.Store.{Photo, Store}
use web_bijin.Upload.Files.{image_budget, pixel_limit}

-- `photoResult`; an error is told as `failed`.
pub record PhotoResult : Type 0 where
  pub version : Text
  pub album_usable : Bool
  pub wallpapers_ready : Bool
  pub invalid : Bool
  pub invalid_reason : Text
  pub missing : Bool
  pub retryable : Bool
  pub failed : Bool

abbrev pub result_of : Text → PhotoResult
result_of version = record {
  version = version;
  album_usable = false;
  wallpapers_ready = false;
  invalid = false;
  invalid_reason = [];
  missing = false;
  retryable = false;
  failed = false;
}

-- `fail` of `process`.
abbrev pub failing : PhotoResult → PhotoResult
failing r = record r { failed = true; retryable = true }

-- `processingFailure`
abbrev pub processing_failure : Text → PhotoResult
processing_failure version = failing (result_of version)

-- `sourceObject`
pub record SourceObject : Type 0 where
  pub key : Text
  pub rel_path : Text
  pub size : ℕ
  pub mtime : ℕ
  pub version : Text

-- What `sources.Stat` answers; a cancelled context is `unreachable`, and `not_configured` is
-- errSourceNotConfigured.
pub data Seen : Type 0 where
  seen : SourceObject → Seen
  not_found not_configured unreachable : Seen

-- `validate`
unfoldable pub validate : SourceObject → Seen → Bool
unfolding text_beq
validate object (seen current) = current.version == object.version
validate object not_found = false
validate object not_configured = false
validate object unreachable = false

-- `classifyDecodeError`: an error of the file is not the image's.
pub data DecodeError : Type 0 where
  of_file of_image : DecodeError

pub data Header : Type 0 where
  no_header : DecodeError → Header
  header : (width height : ℕ) (format : Text) → Header

pub data Decoding : Type 0 where
  undecoded : DecodeError → Decoding
  decoded : (width height : ℕ) → Decoding

-- The answers in the order in which `process` asks. `none` is a failed look at the wallpapers.
pub record Attempt : Type 0 where
  pub walls_before : Option Bool
  pub spool : Bool
  pub stat_first : Seen
  pub read : Bool
  pub image : Header
  pub slots : Bool
  pub stat_reading : Seen
  pub decoding : Decoding
  pub stat_publishing : Seen
  pub new_id : ℕ
  pub saved : Bool
  pub stat_saved : Seen
  pub walls_after : Option Bool
  pub walls_saved : Bool

-- A thumbnail file.
pub record Thumb : Type 0 where
  pub id : ℕ
  pub version : Text

pub record Library : Type 0 where
  pub store : Store
  pub thumbs : List Thumb

-- Settings and functions that do not change: the first bytes of SHA-256 in hex, the wording of
-- imagePixelLimitError, and the limit of pixels.
pub record Fixed : Type 0 where
  pub digest : Text → Text
  pub pixel_message : ℕ → ℕ → Text
  pub max_pixels : ℕ

abbrev bar : Text
bar = codes "|"

-- `photoVersion`
unfoldable pub photo_version : Fixed → Photo → Text
photo_version x p =
    x.digest (p.source_version ++ bar ++ to_decimal p.size ++ bar ++ to_decimal p.mtime_unix)

-- `thumbs.path`
abbrev pub thumb_of : Fixed → Photo → Thumb
thumb_of x p = record { id = p.id; version = photo_version x p }

unfoldable pub same_thumb : Thumb → Thumb → Bool
unfolding text_beq
same_thumb t u = t.id == u.id && t.version == u.version

-- `thumbs.exists`
unfoldable pub thumb_exists : Fixed → Photo → List Thumb → Bool
unfolding same_thumb
thumb_exists x p thumbs = any_where (same_thumb (thumb_of x p)) thumbs

abbrev pub remove_thumb : Thumb → List Thumb → List Thumb
remove_thumb t = delete_where (same_thumb t)

-- `thumbs.remove`
abbrev pub remove_thumbs : ℕ → List Thumb → List Thumb
remove_thumbs id = delete_where (λ (t : Thumb). t.id == id)

-- `thumbs.removeOld`
unfoldable pub remove_old : Fixed → Photo → Photo → List Thumb → List Thumb
unfolding same_thumb
remove_old x p previous thumbs =
    if previous.id == 0 || same_thumb (thumb_of x previous) (thumb_of x p)
    then thumbs
    else remove_thumb (thumb_of x previous) thumbs

-- `deleteWallpapers` as far as this model sees it.
abbrev pub delete_wallpapers : Store → Store
delete_wallpapers s = record s { revisions = record s.revisions { wall = s.revisions.wall + 1 } }

-- `processErr`, or that `process` has failed before it is known.
pub data Judged : Type 0 where
  aborted : Judged
  bad_file : Judged
  bad_image : Text → Judged
  good : (width height : ℕ) → Judged

abbrev judge_error : DecodeError → Judged
judge_error of_file = bad_file
judge_error of_image = bad_image []

abbrev judge_decoding : Decoding → Judged
judge_decoding (undecoded e) = judge_error e
judge_decoding (decoded width height) = good width height

-- From DecodeConfig to the decoded image.
unfoldable pub inspect : Fixed → SourceObject → Attempt → Judged
unfolding image_budget pixel_limit validate
inspect x object a = elim a.image [
  | no_header e ↦ judge_error e
  | header width height format ↦ elim (image_budget width height format x.max_pixels) [
    | none ↦ bad_image (
        if ltb 0 width && ltb 0 height
        then x.pixel_message (width * height) (pixel_limit format x.max_pixels)
        else [])
    | some _ ↦
        if not a.slots || not (validate object a.stat_reading)
        then aborted
        else judge_decoding a.decoding
  ]
]
