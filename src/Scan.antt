-- ===== src/Scan.antt =====
-- `walk` of scan.go: what the sources list is processed, and the photos that none lists are removed.
pub mod Protected
pub mod Removed
pub mod Survive
mod Tests
use web_bijin.Prelude.{
  ℕ, ◌+◌, Bool, true, false, Option, none, some, List, [], ◌∷◌, ◌++◌, Text, if◌then◌else◌, ltb,
  length, codes, drop, has_prefix, nat_beq,
}
use web_bijin.Store.{Photo, Store}
use web_bijin.Store.Photos.{missing_photos}
use web_bijin.Process.Photo.{PhotoResult, SourceObject, Seen, Attempt, Library, Fixed}
use web_bijin.Process.Publish.{process, remove_if_unchanged}

-- What `Src.Walk` of one source hands out before it ends, and whether it fails.
pub record Listing : Type 0 where
  pub id : Text
  pub prefix : Text
  pub objects : List SourceObject
  pub failed : Bool

-- `object.Key = src.Prefix + object.RelPath`
abbrev pub keyed : Text → List SourceObject → List SourceObject
keyed prefix [] = []
keyed prefix (object ∷ objects) =
    record object { key = prefix ++ object.rel_path } ∷ keyed prefix objects

unfoldable pub listed_objects : List Listing → List SourceObject
listed_objects [] = []
listed_objects (l ∷ listings) = keyed l.prefix l.objects ++ listed_objects listings

-- `keep`
abbrev pub keys_of : List SourceObject → List Text
keys_of [] = []
keys_of (object ∷ objects) = object.key ∷ keys_of objects

-- `failedSources`
unfoldable pub failed_sources : List Listing → List Text
failed_sources [] = []
failed_sources (l ∷ listings) =
    let later = failed_sources listings in if l.failed then l.id ∷ later else later

abbrev pub local_source_id : Text
local_source_id = codes "local"

abbrev pub source_key_root : Text
source_key_root = codes ".bijin-source/"

-- `strings.Cut(rest, "/")`
abbrev pub until_slash : Text → Text
until_slash [] = []
until_slash (c ∷ rest) = let head = until_slash rest in if nat_beq c b'/' then [] else c ∷ head

-- `keyOwner`
unfoldable pub key_owner : Text → Text
unfolding has_prefix
key_owner key =
    if has_prefix key source_key_root
    then until_slash (drop (length source_key_root) key)
    else local_source_id

-- `maxID`
unfoldable pub max_id : List Photo → ℕ
max_id [] = 0
max_id (p ∷ photos) = let rest = max_id photos in if ltb rest p.id then p.id else rest

-- One photo processed while the scan runs: by the scan itself, or by anything else, which may also
-- process objects that are not listed. The photo's lock makes it one step.
pub record Work : Type 0 where
  pub object : SourceObject
  pub attempt : Attempt

-- The goroutines of the scan in the order in which they get their locks: the failures, and the library.
unfoldable pub run_work : Fixed → List Work → Library → ℕ × Library
unfolding process
run_work x [] w = (0, w)
run_work x (work ∷ later) w =
    let (r, after) = process x work.object true false work.attempt w in
    let (failures, last) = run_work x later after in
    ((if r.failed then failures + 1 else failures), last)

-- `deleted`, and `err != nil`.
abbrev pub is_removed : Option Bool → Bool
is_removed deleted = elim deleted [ none ↦ false | some b ↦ b ]

abbrev pub is_error : Option Bool → Bool
is_error deleted = elim deleted [ none ↦ true | some b ↦ false ]

-- The loop over the missing photos, with what the source answers for each: removed, kept, and the
-- library.
unfoldable pub clean_up : (Photo → Seen) → List Photo → Library → ℕ × ℕ × Library
unfolding remove_if_unchanged
clean_up now [] w = (0, 0, w)
clean_up now (candidate ∷ gone) w =
    let (deleted, after) = remove_if_unchanged candidate (now candidate) w in
    let (removed, kept, last) = clean_up now gone after in
    (
      if is_removed deleted then removed + 1 else removed,
      if is_error deleted then kept + 1 else kept,
      last,
    )

pub record ScanReport : Type 0 where
  pub seen : ℕ
  pub failed : ℕ
  pub removed : ℕ
  pub library : Library

-- The photos that `walk` takes to be gone.
unfoldable pub gone_photos : List Listing → Library → Library → List Photo
unfolding missing_photos listed_objects failed_sources max_id key_owner
gone_photos listings start w =
    missing_photos key_owner (keys_of (listed_objects listings)) (failed_sources listings)
      (max_id start.store.photos) w.store

-- `walk`, where the context is not cancelled.
unfoldable pub walk : Fixed → List Listing → List Work → (Photo → Seen) → Library → ScanReport
unfolding run_work gone_photos clean_up listed_objects
walk x listings work now w =
    let (failures, mid) = run_work x work w in
    let (removed, kept, after) = clean_up now (gone_photos listings w mid) mid in
    record {
      seen = length (listed_objects listings);
      failed = failures + kept;
      removed = removed;
      library = after;
    }
