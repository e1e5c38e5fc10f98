-- ===== src/Upload/Tests.antt =====
-- A local file that is prepared, transferred and processed.
use web_bijin.Prelude.{
  ◌≤◌, ◌≡◌, refl, true, false, Bool, none, some, [], Text, codes, arith, text_beq, count_where,
  length, has_prefix, split_on, to_lower,
}
use web_bijin.Paths.{clean, dir, ext}
use web_bijin.Upload.{
  Phase, waiting, uploading, processing, no_code, UploadInput, UploadTask, Uploads, upload_path,
  valid_path, image_kind, finish, max_tasks,
}
use web_bijin.Upload.Files.{
  LocalWrite, linked, free, prepare, sweep, make_room, begin_local, end_local, check_image,
  link_local, image_budget, pixel_limit,
}
use web_bijin.Upload.Saved.{
  Reach, here, next, begins, ends, IsConsistent, Reach-Saved, one_local_write,
}
use web_bijin.Upload.Room.{works, prepare-bound}
use web_bijin.Upload.Names.{IsStorable, upload_path-IsStorable}

program : Unit {0}
unfolding clean dir ext upload_path valid_path image_kind finish prepare sweep make_room begin_local
    end_local check_image link_local image_budget pixel_limit text_beq has_prefix split_on to_lower
program = tt

abbrev any_utf8 : Text → Bool
any_utf8 s = true

abbrev photo_input : UploadInput
photo_input = record { local_target = true; path = codes "a/x.jpg"; size = 9 }

abbrev task_in : Phase → UploadTask
task_in phase = record {
  id = codes "t";
  is_local = true;
  path = codes "a/x.jpg";
  phase = phase;
  saved = false;
  retryable = true;
  transfer_retryable = true;
  code = no_code;
  size = 9;
  kind = codes "image/jpeg";
  created = 100;
}

abbrev good_write : LocalWrite
good_write = record {
  content_length = 9;
  opened = true;
  parents_real = true;
  directory_made = true;
  temporary_made = true;
  copied = some 9;
  rewound = true;
  config = some (codes "jpeg", 4, 3);
  synced = true;
  readable = true;
  link = linked;
}

abbrev saved_task : UploadTask
saved_task = record (task_in processing) {
  saved = true;
  retryable = true;
  transfer_retryable = false;
}

waiting-IsConsistent : IsConsistent (task_in waiting)
waiting-IsConsistent = record {
  processing_saved = λ h. absurd (ground (arith, h));
  finished_saved = λ h. absurd (ground (arith, h));
  skipped_unsaved = λ h. absurd (ground (arith, h));
  waiting_unsaved = λ h. refl;
  uploading_unsaved = λ h. absurd (ground (arith, h));
  uploading_local = λ h. absurd (ground (arith, h));
}

write_facts :
    (begin_local (task_in waiting) ≡ some (task_in uploading))
    × (end_local 64000000 good_write (task_in uploading) ≡ saved_task)
    × (upload_path any_utf8 photo_input ≡ some (codes "a/x.jpg", codes "image/jpeg"))
    × (image_budget 20000 5500 (codes "jpeg") 0 ≡ some true)
    × (image_budget 20000 5500 (codes "png") 0 ≡ none)
unfolding program
write_facts = (refl, refl, refl, refl, refl)

transfer : Reach 64000000 (task_in uploading) saved_task
unfolding program
transfer = next here (ends good_write refl)

whole_life : Reach 64000000 (task_in waiting) saved_task
unfolding program
whole_life = next (next here (begins refl)) (ends good_write refl)

Reach-Saved_example :
    IsConsistent saved_task × ((task_in waiting).saved ≡ true → saved_task.saved ≡ true)
Reach-Saved_example = Reach-Saved whole_life waiting-IsConsistent

one_local_write_example : begin_local saved_task ≡ none
one_local_write_example = one_local_write waiting-IsConsistent write_facts.0 transfer

abbrev no_tasks : Uploads
no_tasks = record { tasks = []; sweep_at = 0 }

prepare-bound_example :
    let (answer, after) = prepare any_utf8 photo_input true free true (codes "t") 100 no_tasks in
    (length after.tasks ≤ max_tasks) × (count_where works after.tasks ≡ 0)
prepare-bound_example =
    prepare-bound any_utf8 photo_input true free true (codes "t") 100 no_tasks (omega arith)

upload_path-IsStorable_example : (codes "a/x.jpg" ≡ codes "a/x.jpg") × IsStorable photo_input
upload_path-IsStorable_example = upload_path-IsStorable any_utf8 photo_input write_facts.2
