-- ===== src/Store.antt =====
-- store.go, the `photos` and `photo_shares` tables of share_store.go with their triggers, and the
-- cache revisions of query_cache.go. A table is the list of its rows; an id is a native number.
pub mod Photos
use web_bijin.Prelude.{
  ℕ, ◌+◌, Bool, true, false, not, ◌&&◌, ◌||◌, Option, none, some, List, [], ◌∷◌, Text, ltb,
  if◌then◌else◌, text_eq, ◌==◌, nat_eq, find_where, update_where, text_beq,
}
use web_bijin.Paths.{photo_album_id}

-- `photo`. `source_key` is the column rel_path, `rel_path` the column display_path.
pub record Photo : Type 0 where
  pub id : ℕ
  pub source_key : Text
  pub rel_path : Text
  pub size : ℕ
  pub mtime_unix : ℕ
  pub width : ℕ
  pub height : ℕ
  pub broken : Bool
  pub invalid_reason : Text
  pub source_version : Text

-- `photo{}`.
abbrev pub no_photo : Photo
no_photo = record {
  id = 0;
  source_key = [];
  rel_path = [];
  size = 0;
  mtime_unix = 0;
  width = 0;
  height = 0;
  broken = false;
  invalid_reason = [];
  source_version = [];
}

-- `sourceKey`.
unfoldable pub source_key : Photo → Text
unfolding text_beq
source_key p = if p.source_key == [] then p.rel_path else p.source_key

-- `photoVisible`, and the SQL text `visiblePhotos`.
abbrev pub photo_visible : Photo → Bool
photo_visible p = not p.broken && ltb 0 p.width && ltb 0 p.height

-- `photoShare`, and a row of `photo_shares`. No token (NULL in the table, "" in Go) is `none`.
pub record Share : Type 0 where
  pub photo_id : ℕ
  pub token : Option Text
  pub generation : ℕ
  pub source_key : Text
  pub source_version : Text
  pub scope : Text
  pub digest : Text
  pub mime : Text
  pub extension : Text
  pub size : ℕ

-- A row that `INSERT OR IGNORE` makes, and the value that `scanShare` gives for a missing one.
abbrev pub empty_share : ℕ → Share
empty_share id = record {
  photo_id = id;
  token = none;
  generation = 0;
  source_key = [];
  source_version = [];
  scope = [];
  digest = [];
  mime = [];
  extension = [];
  size = 0;
}

-- The counters of `queryCaches`; a writer advances one, and a cached value of an older one is
-- not used.
pub record Revisions : Type 0 where
  pub index : ℕ
  pub source : ℕ
  pub album : ℕ
  pub wall : ℕ
  pub people : ℕ
  pub share : ℕ

pub record Store : Type 0 where
  pub photos : List Photo
  pub shares : List Share
  pub revisions : Revisions

abbrev pub has_id : ℕ → Photo → Bool
has_id id p = p.id == id

abbrev pub has_photo : ℕ → Share → Bool
has_photo id sh = sh.photo_id == id

-- `retireShares`: the address stops working and the generation moves on.
abbrev pub retired : Share → Share
retired sh = record sh { token = none; generation = sh.generation + 1 }

abbrev pub retire_photo : ℕ → List Share → List Share
retire_photo id = update_where (has_photo id) retired

-- `INSERT OR IGNORE INTO photo_shares (photo_id)`, the trigger `photos_insert_shares`.
unfoldable pub insert_share : ℕ → List Share → List Share
insert_share id shares = elim (find_where (has_photo id) shares) [
  | none ↦ empty_share id ∷ shares
  | some _ ↦ shares
]

-- The WHEN clause of the trigger `photos_change_shares`.
unfoldable pub share_broken : Photo → Photo → Bool
unfolding text_beq
share_broken old new =
    not (old.source_key == new.source_key)
    || not (old.source_version == new.source_version)
    || not (old.size == new.size)
    || not (old.mtime_unix == new.mtime_unix)
    || not (old.rel_path == new.rel_path)
    || new.broken
    || not (ltb 0 new.width)
    || not (ltb 0 new.height)

-- `photoChanged`.
unfoldable pub photo_changed : Photo → Photo → Revisions → Revisions
unfolding text_beq photo_album_id
photo_changed before after r =
    let old_visible = photo_visible before in
    let new_visible = photo_visible after in
    let moved = not (photo_album_id before.rel_path == photo_album_id after.rel_path) in
    record r {
      share = r.share + 1;
      source = r.source + 1;
      index =
          if (old_visible && not new_visible)
            || (not old_visible && new_visible)
            || (old_visible && new_visible && moved)
          then r.index + 1
          else r.index;
      album = if old_visible || new_visible then r.album + 1 else r.album;
      wall = r.wall + 1;
    }
