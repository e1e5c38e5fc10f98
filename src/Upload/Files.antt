-- ===== src/Upload/Files.antt =====
-- `imageBudget` of image_limits.go, and the handlers `local` and `prepare` of upload.go.
use web_bijin.Prelude.{
  ℕ, ◌+◌, ◌/◌, Bool, true, false, not, ◌&&◌, ◌||◌, Option, none, some, List, [], ◌∷◌, ◌++◌, Text,
  ltb, leb, if◌then◌else◌, text_eq, ◌==◌, nat_eq, text_beq, codes, delete_where, length,
}
use web_bijin.Paths.{dir, dot}
use web_bijin.Upload.{
  waiting, uploading, skipped, no_code, UploadInput, UploadTask, Uploads, is_waiting, is_processing,
  is_finished, is_skipped, fail, fail_transfer, start, upload_path, upload_task_ttl, max_tasks,
}

abbrev pub default_max_pixels : ℕ
default_max_pixels = 64000000

abbrev pub jpeg_max_pixels : ℕ
jpeg_max_pixels = 110000000

abbrev pub normal_limit : ℕ → ℕ
normal_limit limit = if limit == 0 then default_max_pixels else limit

-- The most pixels that an image of this format may have.
unfoldable pub pixel_limit : Text → ℕ → ℕ
unfolding text_beq
pixel_limit format limit =
    if format == codes "jpeg" && normal_limit limit == default_max_pixels
    then jpeg_max_pixels
    else normal_limit limit

-- `imageBudget`: whether all slots are needed, or `none` for an error. A limit or a dimension
-- that is not positive is 0.
unfoldable pub image_budget : ℕ → ℕ → Text → ℕ → Option Bool
unfolding pixel_limit
image_budget width height format limit =
    if width == 0 || height == 0
    then none
    else if ltb (pixel_limit format limit / height) width
    then none
    else some (ltb (normal_limit limit / height) width)

pub data Linked : Type 0 where
  linked name_taken not_linked : Linked

-- What the steps of `local` find, in their order. `copied` is the number of bytes, `config` what
-- `image.DecodeConfig` reads.
pub record LocalWrite : Type 0 where
  pub content_length : ℕ
  pub opened : Bool
  pub parents_real : Bool
  pub directory_made : Bool
  pub temporary_made : Bool
  pub copied : Option ℕ
  pub rewound : Bool
  pub config : Option (Text × ℕ × ℕ)
  pub synced : Bool
  pub readable : Bool
  pub link : Linked

-- The guard of `local`; `none` is the conflict.
unfoldable pub begin_local : UploadTask → Option UploadTask
begin_local t =
    if not t.is_local || not (is_waiting t.phase)
    then none
    else some (record t { phase = uploading })

-- The last steps, once the whole file is there and its header is read.
unfoldable pub link_local : LocalWrite → UploadTask → UploadTask
link_local w t = if not w.synced || not w.readable then fail_transfer true t else elim w.link [
  | linked ↦ start t
  | name_taken ↦ record t { phase = skipped }
  | not_linked ↦ fail_transfer true t
]

unfoldable pub check_image : ℕ → LocalWrite → UploadTask → UploadTask
unfolding image_budget link_local text_beq
check_image max_pixels w t = elim w.config [
  | none ↦ fail_transfer false t
  | some (format, width, height) ↦
      if not (codes "image/" ++ format == t.kind)
      then fail_transfer false t
      else elim (image_budget width height format max_pixels) [
        | none ↦ fail_transfer false t
        | some _ ↦ link_local w t
      ]
]

-- The rest of `local` on the task.
unfoldable pub end_local : ℕ → LocalWrite → UploadTask → UploadTask
unfolding check_image dir text_beq
end_local max_pixels w t =
    let nested = not (dir t.path == dot) in
    if not (w.content_length == t.size)
    then fail_transfer false t
    else if not w.opened
    then fail_transfer true t
    else if nested && not w.parents_real
    then fail_transfer false t
    else if nested && not w.directory_made
    then fail_transfer true t
    else if not w.temporary_made
    then fail_transfer true t
    else if not (elim w.copied [ none ↦ false | some n ↦ n == t.size ]) || not w.rewound
    then fail_transfer true t
    else check_image max_pixels w t

-- `Lstat` or `Stat` of the destination.
pub data Destination : Type 0 where
  taken free unknown : Destination

pub data Prepared : Type 0 where
  bad_input no_target no_answer too_many : Prepared
  task_made : UploadTask → Prepared

-- The sweep of `prepare`.
unfoldable pub sweep : ℕ → Uploads → Uploads
sweep now a =
    if ltb a.sweep_at now
    then record {
      tasks =
          delete_where (λ t. not (is_processing t.phase) && ltb (t.created + upload_task_ttl) now)
            a.tasks;
      sweep_at = now + 60;
    }
    else a

-- One task that is over makes room; which one is the map's choice, here the first.
unfoldable pub drop_first_over : List UploadTask → List UploadTask
drop_first_over [] = []
drop_first_over (t ∷ tasks) =
    let rest = drop_first_over tasks in
    if is_finished t.phase || is_skipped t.phase then tasks else t ∷ rest

unfoldable pub make_room : Uploads → Uploads
unfolding drop_first_over
make_room a =
    if leb max_tasks (length a.tasks) then record a { tasks = drop_first_over a.tasks } else a

unfoldable pub has_task : Text → UploadTask → Bool
unfolding text_beq
has_task id t = t.id == id

abbrev pub new_task : Text → UploadInput → Text → Destination → ℕ → UploadTask
new_task id x kind found now = record {
  id = id;
  is_local = x.local_target;
  path = x.path;
  phase = elim found [ taken ↦ skipped | _ ↦ waiting ];
  saved = false;
  retryable = true;
  transfer_retryable = true;
  code = no_code;
  size = x.size;
  kind = kind;
  created = now;
}

-- `prepare`: `target_known` tells that the target can be opened, `signed` that the address for
-- the object storage was made. `id` is the random number.
unfoldable pub prepare :
    (Text → Bool)
    → UploadInput
    → Bool
    → Destination
    → Bool
    → Text
    → ℕ
    → Uploads
    → Prepared × Uploads
unfolding upload_path sweep make_room
prepare valid_utf8 x target_known found signed id now a = elim (upload_path valid_utf8 x) [
  | none ↦ (bad_input, a)
  | some (rel, kind) ↦
      let room = make_room (sweep now a) in
      let t = new_task id x kind found now in
      let made = if is_skipped t.phase || x.local_target || signed then t else fail false t in
      if not target_known then (no_target, a) else elim found [
        | unknown ↦ (no_answer, a)
        | _ ↦
            if leb max_tasks (length room.tasks)
            then (too_many, room)
            else (task_made made, record room { tasks = made ∷ room.tasks })
      ]
]
