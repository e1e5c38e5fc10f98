-- ===== src/Process/Publish.antt =====
-- The stages of `process` in photo_processing.go, and the operations that call it.
use web_bijin.Prelude.{
  ℕ, Bool, true, false, not, ◌&&◌, ◌||◌, Option, none, some, List, [], ◌∷◌, Text, if◌then◌else◌,
  text_eq, ◌==◌, nat_eq, text_beq, ltb,
}
use web_bijin.Store.{Photo, Store, no_photo, source_key}
use web_bijin.Store.Photos.{get_by_source_key, upsert, delete_by_id}
use web_bijin.Process.Photo.{
  PhotoResult, result_of, failing, processing_failure, SourceObject, Seen, seen, not_found,
  not_configured, unreachable, validate, Attempt, Thumb, Library, Fixed, thumb_of, thumb_exists,
  remove_thumb, remove_thumbs, remove_old, delete_wallpapers, Judged, aborted, bad_file, bad_image,
  good, inspect,
}

-- `target` before its sides are known.
abbrev pub target_of : SourceObject → Photo → Photo
target_of object existing = record {
  id = existing.id;
  source_key = object.key;
  rel_path = object.rel_path;
  size = object.size;
  mtime_unix = object.mtime;
  width = 0;
  height = 0;
  broken = false;
  invalid_reason = [];
  source_version = object.version;
}

-- The image was found bad: the photo is marked, and its files are removed.
unfoldable pub reject :
    SourceObject → Attempt → Photo → Text → PhotoResult → Library → PhotoResult × Library
unfolding upsert
reject object a existing reason r w =
    let target : Photo = record (target_of object existing) {
      broken = true;
      invalid_reason = reason;
    } in
    let (id, after) = upsert a.new_id target w.store in
    (
      record r {
        album_usable = false;
        wallpapers_ready = false;
        invalid = true;
        invalid_reason = reason;
        failed = true;
      },
      record { store = delete_wallpapers after; thumbs = remove_thumbs id w.thumbs },
    )

-- Behind the publication: the wallpapers.
unfoldable pub finish_wallpapers : Bool → Attempt → PhotoResult → PhotoResult
finish_wallpapers wallpapers a r =
    let usable : PhotoResult = record r { album_usable = true } in
    elim a.walls_after [
      | none ↦ failing (record usable { wallpapers_ready = false })
      | some ready ↦
          if wallpapers && not ready
          then (if a.walls_saved
              then record usable { wallpapers_ready = true }
              else failing (record usable { wallpapers_ready = false }))
          else record usable { wallpapers_ready = ready }
    ]

-- The store and the id of a photo that gets its first row: pending, and hidden.
unfoldable pub with_row : Attempt → Option Photo → Photo → Store → ℕ × Store
unfolding upsert
with_row a (some existing) target s = (target.id, s)
with_row a none target s = upsert a.new_id (record target { broken = true; source_version = [] }) s

-- `thumbs.save` writes or replaces the file.
abbrev pub save_thumb : Thumb → List Thumb → List Thumb
save_thumb t thumbs = t ∷ remove_thumb t thumbs

-- A thumbnail is written, checked against the source once more, and published.
unfoldable pub publish :
    Fixed
    → SourceObject
    → Bool
    → Attempt
    → Option Photo
    → Photo
    → PhotoResult
    → Library
    → PhotoResult × Library
unfolding with_row validate upsert remove_old finish_wallpapers
publish x object wallpapers a found target r w =
    let (id, rowed) = with_row a found target w.store in
    let numbered : Photo = record target { id = id } in
    let existing : Photo = elim found [ none ↦ no_photo | some p ↦ p ] in
    let thumbs = save_thumb (thumb_of x numbered) w.thumbs in
    if not a.saved
    then (failing r, record { store = rowed; thumbs = w.thumbs })
    else if not (validate object a.stat_saved)
    then (failing r, record { store = rowed; thumbs = remove_thumb (thumb_of x numbered) thumbs })
    else (
      finish_wallpapers wallpapers a r,
      record {
        store = (upsert a.new_id numbered rowed).1;
        thumbs = remove_old x numbered existing thumbs;
      },
    )

-- Behind the third validation.
unfoldable pub conclude :
    Fixed
    → SourceObject
    → Bool
    → Attempt
    → Bool
    → Option Photo
    → Judged
    → PhotoResult
    → Library
    → PhotoResult × Library
unfolding reject publish finish_wallpapers
conclude x object wallpapers a cached found j r w =
    let existing : Photo = elim found [ none ↦ no_photo | some p ↦ p ] in
    elim j [
      | aborted ↦ (failing r, w)
      | bad_file ↦ (failing r, w)
      | bad_image reason ↦ reject object a existing reason r w
      | good width height ↦
          if cached
          then (finish_wallpapers wallpapers a r, w)
          else publish x object wallpapers a found
              (record (target_of object existing) { width = width; height = height }) r w
    ]

abbrev pub is_aborted : Judged → Bool
is_aborted j = elim j [ aborted ↦ true | _ ↦ false ]

-- The third validation, which good and bad bytes alike wait for.
abbrev pub confirm :
    Fixed
    → SourceObject
    → Bool
    → Attempt
    → Bool
    → Option Photo
    → PhotoResult
    → Library
    → Judged
    → PhotoResult × Library
confirm x object wallpapers a cached found r w j =
    if is_aborted j || not (validate object a.stat_publishing)
    then (failing r, w)
    else conclude x object wallpapers a cached found j r w

-- The original is read: from the first wait on.
unfoldable pub read_original :
    Fixed
    → SourceObject
    → Bool
    → Attempt
    → Bool
    → Option Photo
    → PhotoResult
    → Library
    → PhotoResult × Library
unfolding validate inspect conclude
read_original x object wallpapers a cached found r w =
    if not a.spool || not (validate object a.stat_first) || not a.read
    then (failing r, w)
    else confirm x object wallpapers a cached found r w (inspect x object a)

abbrev pub is_same : SourceObject → Option Photo → Bool
is_same object found = elim found [ none ↦ false | some p ↦ p.source_version == object.version ]

abbrev pub is_known_bad : Option Photo → Bool
is_known_bad found = elim found [ none ↦ false | some p ↦ p.broken ]

-- `cached`
unfoldable pub is_cached : Fixed → SourceObject → Option Photo → List Thumb → Bool
unfolding thumb_exists text_beq
is_cached x object found thumbs = elim found [
  | none ↦ false
  | some p ↦
      p.source_version == object.version
      && ltb 0 p.width
      && ltb 0 p.height
      && thumb_exists x p thumbs
]

abbrev pub known_reason : Option Photo → Text
known_reason found = elim found [ none ↦ [] | some p ↦ p.invalid_reason ]

-- What is done where the thumbnail is there: the wallpapers are looked at first.
abbrev pub with_thumb :
    Fixed
    → SourceObject
    → Bool
    → Attempt
    → Option Photo
    → Library
    → Option Bool
    → PhotoResult × Library
with_thumb x object wallpapers a found w none =
    (failing (record (result_of object.version) { album_usable = true }), w)
with_thumb x object wallpapers a found w (some ready) =
    if not wallpapers || ready
    then (record (result_of object.version) { album_usable = true; wallpapers_ready = ready }, w)
    else read_original x object wallpapers a true found
        (record (result_of object.version) { album_usable = true }) w

-- `process`
unfoldable pub process :
    Fixed → SourceObject → Bool → Bool → Attempt → Library → PhotoResult × Library
unfolding get_by_source_key is_cached read_original text_beq
process x object wallpapers retry_invalid a w =
    let found = get_by_source_key object.key w.store in
    if is_same object found && is_known_bad found && not retry_invalid
    then (
      record (result_of object.version) { invalid = true; invalid_reason = known_reason found },
      w,
    )
    else if is_cached x object found w.thumbs
    then with_thumb x object wallpapers a found w a.walls_before
    else read_original x object wallpapers a false found (result_of object.version) w

-- `remove`
unfoldable pub remove : Photo → Library → Library
unfolding delete_by_id
remove p w = record { store = delete_by_id p.id w.store; thumbs = remove_thumbs p.id w.thumbs }

-- `sync`, with the source's answer first.
unfoldable pub sync : Fixed → Text → Bool → Seen → Attempt → Library → PhotoResult × Library
unfolding get_by_source_key process remove
sync x key wallpapers now a w = elim now [
  | seen object ↦ process x object wallpapers false a w
  | not_found ↦ (
    record (result_of []) { missing = true },
    elim (get_by_source_key key w.store) [ none ↦ w | some p ↦ remove p w ],
  )
  | not_configured ↦ (processing_failure [], w)
  | unreachable ↦ (processing_failure [], w)
]

-- `RemoveIfUnchanged` behind the lock. `none` is its error.
unfoldable pub remove_if_unchanged : Photo → Seen → Library → Option Bool × Library
unfolding get_by_source_key source_key text_beq remove
remove_if_unchanged expected now w = elim (get_by_source_key (source_key expected) w.store) [
  | none ↦ (some false, w)
  | some p ↦
      if not (p.id == expected.id) || not (p.source_version == expected.source_version)
      then (some false, w)
      else elim now [
        | seen object ↦ (some false, w)
        | not_found ↦ (some true, remove p w)
        | not_configured ↦ (some true, remove p w)
        | unreachable ↦ (none, w)
      ]
]

-- `retryRejected` behind the lock. `none` is an entry that is skipped.
unfoldable pub retry_rejected :
    Fixed → Text → Text → Seen → Attempt → Library → Option PhotoResult × Library
unfolding get_by_source_key text_beq process
retry_rejected x key version now a w = elim (get_by_source_key key w.store) [
  | none ↦ (none, w)
  | some p ↦ if not p.broken || not (p.source_version == version) then (none, w) else elim now [
    | not_found ↦ (none, w)
    | not_configured ↦ (some (processing_failure version), w)
    | unreachable ↦ (some (processing_failure version), w)
    | seen object ↦
        if not (object.version == version)
        then (none, w)
        else let (r, after) = process x object true true a w in (some r, after)
  ]
]
