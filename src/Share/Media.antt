-- ===== src/Share/Media.antt =====
-- sharing.go: the reading of an original for a link, the answer to a visitor of a link, and the
-- owner's requests. What the sources answer is an argument; a visitor's request is two steps on the
-- store, with the reading of the original between them.
use web_bijin.Prelude.{
  ℕ, Bool, not, ◌||◌, Option, none, some, List, ◌++◌, Text, ltb, if◌then◌else◌, text_eq, ◌==◌,
  nat_eq, text_beq, codes,
}
use web_bijin.Store.{Photo, Share, Store, source_key, photo_visible}
use web_bijin.Store.Photos.{get_by_id}
use web_bijin.Share.{is_active, share_for_photo, share_for_token, retire_share}
use web_bijin.Share.Writes.{Written, save_share}

-- `source_gone` is every error that `shareSourceChanged` accepts, `other_failure` any other one.
pub data ReadError : Type 0 where
  source_gone other_failure : ReadError

-- An answer of a source, or its error.
pub data Answer (A : Type 0) : Type 0 where
  answered : A → Answer A
  wrong : ReadError → Answer A

-- `Stat`'s object: its version and its size.
pub record Object : Type 0 where
  pub version : Text
  pub size : ℕ

-- `shareSnapshot`, with the bytes of the anonymous file.
pub record ShareSnapshot : Type 0 where
  pub bytes : List ℕ
  pub digest : Text
  pub scope : Text
  pub mime : Text
  pub extension : Text
  pub size : ℕ

-- What `snapshot` meets, in its order: the scope and the object before and after the copy, whether
-- the copy was made and its bytes, the format that `image.DecodeConfig` reads, and `ctx.Err`.
pub record Reading : Type 0 where
  pub scope : Answer Text
  pub object : Answer Object
  pub opened : Answer (List ℕ)
  pub object_after : Answer Object
  pub scope_after : Answer Text
  pub rewound : Bool
  pub format : Option Text
  pub in_time : Bool

-- The map of extensions.
unfoldable pub extension_of : Text → Option Text
unfolding text_beq
extension_of format =
    if format == codes "jpeg"
    then some (codes "jpg")
    else if format == codes "png" || format == codes "gif" || format == codes "webp"
    then some format
    else none

-- `sha` is SHA-256 in hexadecimal; `count` the length of a file.
module _ (sha : List ℕ → Text) (count : List ℕ → ℕ) where
  -- The last part of `snapshot`, once the copy is known to be of one version.
  unfoldable pub snapshot_of : Text → List ℕ → Reading → Answer ShareSnapshot
  unfolding extension_of
  snapshot_of scope bytes r = if not r.rewound then wrong other_failure else elim r.format [
    | none ↦ wrong source_gone
    | some format ↦ elim (extension_of format) [
      | none ↦ wrong source_gone
      | some extension ↦
          if not r.in_time
          then wrong other_failure
          else answered (record {
            bytes = bytes;
            digest = sha bytes;
            scope = scope;
            mime = codes "image/" ++ format;
            extension = extension;
            size = count bytes;
          })
    ]
  ]

  -- The checks after the copy.
  unfoldable pub check_copy : Text → Object → List ℕ → Reading → Answer ShareSnapshot
  unfolding snapshot_of text_beq
  check_copy scope object bytes r =
      if not (count bytes == object.size) then wrong source_gone else elim r.object_after [
        | wrong e ↦ wrong e
        | answered current ↦
            if not (current.version == object.version) || not (current.size == object.size)
            then wrong source_gone
            else elim r.scope_after [
              | wrong e ↦ wrong e
              | answered scope_after ↦
                  if not (scope_after == scope)
                  then wrong source_gone
                  else snapshot_of scope bytes r
            ]
      ]

  -- `snapshot`.
  unfoldable pub snapshot : Photo → Reading → Answer ShareSnapshot
  unfolding check_copy text_beq
  snapshot p r = elim r.scope [
    | wrong e ↦ wrong e
    | answered scope ↦ elim r.object [
      | wrong e ↦ wrong e
      | answered object ↦
          if not (object.version == p.source_version)
            || not (object.size == p.size)
            || not (ltb 0 object.size)
          then wrong source_gone
          else elim r.opened [
            | wrong e ↦ wrong e
            | answered bytes ↦ check_copy scope object bytes r
          ]
    ]
  ]

-- `sourceCheck`.
pub data SourceCheck : Type 0 where
  source_unknown source_current source_changed : SourceCheck

-- `checkSource`. Its test for a changed source is narrower than `shareSourceChanged`; `wrong
-- source_gone` stands for the errors that it accepts.
unfoldable pub check_source : Answer Text → Answer Object → Share → SourceCheck
unfolding text_beq
check_source (wrong source_gone) object sh = source_changed
check_source (wrong other_failure) (wrong source_gone) sh = source_changed
check_source (wrong other_failure) (wrong other_failure) sh = source_unknown
check_source (wrong other_failure) (answered o) sh = source_unknown
check_source (answered scope) (wrong source_gone) sh = source_changed
check_source (answered scope) (wrong other_failure) sh = source_unknown
check_source (answered scope) (answered o) sh =
    if not (scope == sh.scope) || not (o.version == sh.source_version) || not (o.size == sh.size)
    then source_changed
    else source_current

unfoldable pub checked_share : SourceCheck → Text → ℕ → Store → Share × Store
unfolding share_for_photo retire_share
checked_share source_changed token id s =
    (share_for_photo id (retire_share token s), retire_share token s)
checked_share source_unknown token id s = (share_for_photo id s, s)
checked_share source_current token id s = (share_for_photo id s, s)

-- `get`, behind the check of the photo: a permit whose source changed is ended first.
unfoldable pub get_share : SourceCheck → ℕ → Store → Share × Store
unfolding share_for_photo checked_share
get_share check id s = elim (share_for_photo id s).token [
  | none ↦ (share_for_photo id s, s)
  | some token ↦ checked_share check token id s
]

-- The permit that `create` asks for.
abbrev pub asked_for : Photo → Text → ShareSnapshot → Share
asked_for p token snap = record {
  photo_id = 0;
  token = some token;
  generation = 0;
  source_key = source_key p;
  source_version = p.source_version;
  scope = snap.scope;
  digest = snap.digest;
  mime = snap.mime;
  extension = snap.extension;
  size = snap.size;
}

-- `create`, once the photo is the selected one: the stored permit, or `none` where the original
-- could not be read, which ends an old permit if the original has changed.
unfoldable pub create_share :
    Photo → ℕ → Text → Answer ShareSnapshot → Store → Option Written × Store
unfolding share_for_photo retire_share save_share
create_share p expected token (answered snap) s = (
  some (save_share s p expected (asked_for p token snap)),
  (save_share s p expected (asked_for p token snap)).store,
)
create_share p expected token (wrong other_failure) s = (none, s)
create_share p expected token (wrong source_gone) s =
    (none, elim (share_for_photo p.id s).token [ none ↦ s | some old ↦ retire_share old s ])

-- What a visitor gets: the bytes under a permit, nothing there, or no answer for now.
pub data Served : Type 0 where
  sent : Share → ShareSnapshot → Served
  not_found unavailable : Served

-- The first step of `media`, for a name that is well formed: the photo to read, or the answer.
pub data Looked : Type 0 where
  reads : Share → Photo → Looked
  refused : Store → Looked

unfoldable pub look_up : Text → Text → Store → Looked
unfolding share_for_token source_key retire_share text_beq
look_up token extension s =
    let sh = share_for_token token s in
    if not (is_active sh) || not (sh.extension == extension)
    then refused s
    else elim (get_by_id sh.photo_id s) [
      | none ↦ refused (retire_share token s)
      | some p ↦
          if not (photo_visible p)
            || not (source_key p == sh.source_key)
            || not (p.source_version == sh.source_version)
          then refused (retire_share token s)
          else reads sh p
    ]

-- The permit is for another original than the one that was read.
unfoldable pub is_other : Share → ShareSnapshot → Bool
unfolding text_beq
is_other sh snap =
    not (snap.digest == sh.digest)
    || not (snap.scope == sh.scope)
    || not (snap.size == sh.size)
    || not (snap.mime == sh.mime)

-- The second step of `media`, on the store as it is by then.
unfoldable pub serve : Text → Share → Answer ShareSnapshot → Store → Served × Store
unfolding share_for_token retire_share is_other
serve token sh (wrong source_gone) s = (not_found, retire_share token s)
serve token sh (wrong other_failure) s = (unavailable, s)
serve token sh (answered snap) s =
    if is_other sh snap
    then (not_found, retire_share token s)
    else if not (is_active (share_for_token token s))
    then (not_found, s)
    else (sent sh snap, s)
