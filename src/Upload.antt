-- ===== src/Upload.antt =====
-- upload.go and image_limits.go: the tasks of the upload page. Messages to the visitor are left
-- out. What the file system and the object storage answer are arguments.
pub mod Files
pub mod Saved
pub mod Room
pub mod Names
mod Tests
use web_bijin.Prelude.{
  ℕ, ◌+◌, ◌*◌, ◌/◌, Bool, true, false, not, ◌&&◌, ◌||◌, Option, none, some, List, [], ◌∷◌, ◌++◌,
  Text, ltb, leb, if◌then◌else◌, text_eq, ◌==◌, nat_eq, text_beq, codes, find_where, update_where,
  delete_where, any_where, has_prefix, contains_byte, split_on, to_lower, length,
}
use web_bijin.Paths.{clean, dir, ext, dot, slash}

abbrev pub upload_max_bytes : ℕ
upload_max_bytes = 50000000

-- In seconds, as all times here.
abbrev pub upload_task_ttl : ℕ
upload_task_ttl = 3600

abbrev pub max_tasks : ℕ
max_tasks = 10000

-- `uploadInput`; `local_target` is `Target == localSourceID`. A size below 1 is 0.
pub record UploadInput : Type 0 where
  pub local_target : Bool
  pub path : Text
  pub size : ℕ

pub data Phase : Type 0 where
  waiting uploading processing finished skipped error : Phase

pub data Code : Type 0 where
  no_code transfer_failed invalid_file : Code

-- `uploadTask`; `is_local` is `src == nil`.
pub record UploadTask : Type 0 where
  pub id : Text
  pub is_local : Bool
  pub path : Text
  pub phase : Phase
  pub saved : Bool
  pub retryable : Bool
  pub transfer_retryable : Bool
  pub code : Code
  pub size : ℕ
  pub kind : Text
  pub created : ℕ

-- `uploadAPI`: the map of tasks, and `sweepAt`.
pub record Uploads : Type 0 where
  pub tasks : List UploadTask
  pub sweep_at : ℕ

abbrev pub is_waiting : Phase → Bool
is_waiting p = elim p [ waiting ↦ true | _ ↦ false ]

abbrev pub is_uploading : Phase → Bool
is_uploading p = elim p [ uploading ↦ true | _ ↦ false ]

abbrev pub is_processing : Phase → Bool
is_processing p = elim p [ processing ↦ true | _ ↦ false ]

abbrev pub is_skipped : Phase → Bool
is_skipped p = elim p [ skipped ↦ true | _ ↦ false ]

abbrev pub is_finished : Phase → Bool
is_finished p = elim p [ finished ↦ true | _ ↦ false ]

abbrev pub is_error : Phase → Bool
is_error p = elim p [ error ↦ true | _ ↦ false ]

abbrev pub bad_part : Text → Bool
bad_part part = has_prefix part dot || contains_byte 13 part || contains_byte 10 part

-- The map of the known extensions; "" is the answer for another one.
unfoldable pub image_kind : Text → Text
unfolding text_beq
image_kind e =
    if e == codes ".jpg" || e == codes ".jpeg"
    then codes "image/jpeg"
    else if e == codes ".png"
    then codes "image/png"
    else if e == codes ".webp"
    then codes "image/webp"
    else if e == codes ".gif"
    then codes "image/gif"
    else []

-- `valid` in `uploadPath`; `valid_utf8` is `utf8.ValidString`.
module _ (valid_utf8 : Text → Bool) where
  unfoldable pub valid_path : Text → Bool
  unfolding clean has_prefix split_on text_beq
  valid_path v =
      not (v == [])
      && valid_utf8 v
      && not (contains_byte b'\\' v)
      && not (contains_byte 0 v)
      && not (has_prefix v (slash ∷ []))
      && clean v == v
      && not (any_where bad_part (split_on slash v))

  -- `uploadPath`: the path and the kind, or `none` for an input that is refused.
  unfoldable pub upload_path : UploadInput → Option (Text × Text)
  unfolding valid_path image_kind split_on ext to_lower text_beq
  upload_path x =
      if not (valid_path x.path) || ltb 2 (length (split_on slash x.path))
      then none
      else if image_kind (to_lower (ext x.path)) == []
      then none
      else if ltb x.size 1 || ltb upload_max_bytes x.size
      then none
      else if ltb 1024 (length x.path)
      then none
      else some (x.path, image_kind (to_lower (ext x.path)))

-- `fail`.
abbrev pub fail : Bool → UploadTask → UploadTask
fail retryable t = record t { phase = error; retryable = retryable }

-- `failTransfer`.
abbrev pub fail_transfer : Bool → UploadTask → UploadTask
fail_transfer retryable t = record t {
  phase = error;
  retryable = false;
  transfer_retryable = retryable;
  code = if retryable then transfer_failed else invalid_file;
}

-- The locked part of `start`; what runs after it is `finish`.
abbrev pub start : UploadTask → UploadTask
start t = if is_processing t.phase || is_finished t.phase then t else record t {
  phase = processing;
  saved = true;
  retryable = true;
  transfer_retryable = false;
  code = no_code;
}

-- What `SyncKey` answers, as far as `start` reads it.
pub record SyncResult : Type 0 where
  pub failed : Bool
  pub retryable : Bool
  pub invalid_reason : Text
  pub album_usable : Bool
  pub wallpapers_ready : Bool
  pub invalid : Bool
  pub missing : Bool

-- The background part of `start`.
unfoldable pub finish : SyncResult → UploadTask → UploadTask
unfolding text_beq
finish r t =
    if r.failed || not (r.invalid_reason == [])
    then fail r.retryable t
    else if not r.album_usable || not r.wallpapers_ready
    then fail (if r.invalid || r.missing then r.retryable else true) t
    else record t { phase = finished }

-- `retry`; `none` is the conflict.
unfoldable pub retry : UploadTask → Option UploadTask
retry t = if not (is_error t.phase) || not t.saved || not t.retryable then none else some (start t)

pub data SavedState : Type 0 where
  saved_state skipped_state rejected pending absent : SavedState

-- `StatObject`: the object's mark of the upload and its size.
pub data Object : Type 0 where
  no_object unreachable : Object
  object : Text → ℕ → Object

-- The first part of `verifySaved`, on the snapshot: an answer, or the storage is asked.
unfoldable pub verify_snapshot : UploadTask → Option SavedState
verify_snapshot t =
    if t.saved
    then some saved_state
    else if is_skipped t.phase
    then some skipped_state
    else elim t.code [
      | invalid_file ↦ some rejected
      | _ ↦ if t.is_local then some (if is_uploading t.phase then pending else absent) else none
    ]

-- The rest, on what the storage answered; the task may have changed since. `none` is an error.
unfoldable pub verify_object : Object → UploadTask → Option SavedState × UploadTask
unfolding text_beq
verify_object unreachable t = (none, t)
verify_object no_object t = (some absent, t)
verify_object (object mark size) t =
    if not (mark == t.id)
    then (some skipped_state, if t.saved then t else record t { phase = skipped })
    else if not (size == t.size)
    then (some rejected, fail_transfer false t)
    else (some saved_state, start t)
