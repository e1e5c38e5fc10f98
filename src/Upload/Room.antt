-- ===== src/Upload/Room.antt =====
-- The table of upload tasks that `prepare` keeps.
use web_bijin.Prelude.{
  ℕ, ◌∙◌, ◌+◌, ◌≤◌, ◌≡◌, refl, inl, inr, Bool, true, false, not, ◌&&◌, ◌||◌, List, [], ◌∷◌, Text,
  arith, ltb, leb, if◌then◌else◌, Bool-cases, Option-cases, count_where, delete_where, length,
  length-delete_where,
}
use web_bijin.Upload.{
  UploadInput, UploadTask, Uploads, is_processing, is_finished, is_skipped, upload_path, max_tasks,
  upload_task_ttl, fail,
}
use web_bijin.Upload.Files.{
  Destination, taken, free, unknown, Prepared, no_answer, too_many, task_made, sweep,
  drop_first_over, make_room, prepare, new_task,
}

abbrev pub works : UploadTask → Bool
works t = is_processing t.phase

count_where-spared :
    (q : UploadTask → Bool) (tasks : List UploadTask)
    → ((t : UploadTask) → q t ≡ true → works t ≡ false)
    → count_where works (delete_where q tasks) ≡ count_where works tasks
count_where-spared q [] h = refl
count_where-spared q (t ∷ tasks) h = ground (arith, h t, count_where-spared q tasks h)

drop_first_over-facts :
    (tasks : List UploadTask)
    → (length (drop_first_over tasks) ≤ length tasks)
      × (count_where works (drop_first_over tasks) ≡ count_where works tasks)
unfolding drop_first_over
drop_first_over-facts [] = (omega arith, refl)
drop_first_over-facts (t ∷ tasks) =
    let (small, kept) = drop_first_over-facts tasks in
    elim (Bool-cases (is_finished t.phase || is_skipped t.phase)) [
      | inl e ↦ rw (e, drop_first_over) (omega arith, ground arith)
      | inr e ↦ rw (e, drop_first_over) (omega arith, ground arith)
    ]

abbrev is_old : ℕ → UploadTask → Bool
is_old now t = not (is_processing t.phase) && ltb (t.created + upload_task_ttl) now

sweep-facts :
    (now : ℕ) (a : Uploads)
    → (length (sweep now a).tasks ≤ length a.tasks)
      × (count_where works (sweep now a).tasks ≡ count_where works a.tasks)
unfolding sweep
sweep-facts now a = elim (Bool-cases (ltb a.sweep_at now)) [
  | inl e ↦
      rw (e, sweep)
        (
          length-delete_where (is_old now) a.tasks,
          count_where-spared (is_old now) a.tasks (λ t h. ground arith),
        )
  | inr e ↦ rw (e, sweep) (omega arith, refl)
]

make_room-facts :
    (a : Uploads)
    → (length (make_room a).tasks ≤ length a.tasks)
      × (count_where works (make_room a).tasks ≡ count_where works a.tasks)
unfolding make_room
make_room-facts a = elim (Bool-cases (leb max_tasks (length a.tasks))) [
  | inl e ↦ rw (e, make_room) (drop_first_over-facts a.tasks)
  | inr e ↦ rw (e, make_room) (omega arith, refl)
]

made-idle :
    (b : Bool) (id : Text) (x : UploadInput) (kind : Text) (found : Destination) (now : ℕ)
    → let t = new_task id x kind found now in works (if b then t else fail false t) ≡ false
made-idle true id x kind taken now = refl
made-idle true id x kind free now = refl
made-idle true id x kind unknown now = refl
made-idle false id x kind found now = refl

-- What a preparation may do to the table.
abbrev Roomy : Uploads → Prepared × Uploads → Type 0
Roomy a r =
    (length r.1.tasks ≤ max_tasks) × (count_where works r.1.tasks ≡ count_where works a.tasks)

made-room_known :
    (a room : Uploads) (made : UploadTask)
    → length a.tasks ≤ max_tasks
    → length room.tasks ≤ length a.tasks
    → count_where works room.tasks ≡ count_where works a.tasks
    → works made ≡ false
    → Roomy a (
        if leb max_tasks (length room.tasks)
        then (too_many, room)
        else (task_made made, record room { tasks = made ∷ room.tasks }))
made-room_known a room made h k s idle = elim (Bool-cases (leb max_tasks (length room.tasks))) [
  | inl e ↦ rw e (omega arith, s)
  | inr e ↦ rw e (ground arith, ground arith)
]

made-room :
    (found : Destination) (a room : Uploads) (made : UploadTask)
    → length a.tasks ≤ max_tasks
    → length room.tasks ≤ length a.tasks
    → count_where works room.tasks ≡ count_where works a.tasks
    → works made ≡ false
    → Roomy a (elim found [
      | unknown ↦ (no_answer, a)
      | _ ↦
          if leb max_tasks (length room.tasks)
          then (too_many, room)
          else (task_made made, record room { tasks = made ∷ room.tasks })
    ])
made-room taken a room made h k s idle = made-room_known a room made h k s idle
made-room free a room made h k s idle = made-room_known a room made h k s idle
made-room unknown a room made h k s idle = (h, refl)

-- Preparing an upload never lets the table grow beyond its ten thousand tasks, and neither the
-- sweep nor making room ever forgets a task whose photo is being processed.
pub prepare-bound :
    (valid_utf8 : Text → Bool) (x : UploadInput) (target_known : Bool) (found : Destination)
    (signed : Bool) (id : Text) (now : ℕ) (a : Uploads)
    → length a.tasks ≤ max_tasks
    → let (answer, after) = prepare valid_utf8 x target_known found signed id now a in
      (length after.tasks ≤ max_tasks) × (count_where works after.tasks ≡ count_where works a.tasks)
unfolding prepare
prepare-bound valid_utf8 x target_known found signed id now a h =
    elim (Option-cases (upload_path valid_utf8 x)) [
      | inl e ↦ rw (e, prepare) (h, refl)
      | inr ((rel, kind), e) ↦
          let (s1, s2) = sweep-facts now a in
          let (m1, m2) = make_room-facts (sweep now a) in
          rw (e, prepare)
            (elim (Bool-cases target_known) [
              | inr f ↦ rw f (h, refl)
              | inl f ↦ rw f (
                  made-room found a (make_room (sweep now a))
                    (let t = new_task id x kind found now in
                      if is_skipped t.phase || x.local_target || signed then t else fail false t)
                    h (omega arith) (m2 ∙ s2)
                    (made-idle
                      (is_skipped (new_task id x kind found now).phase || x.local_target || signed)
                      id x kind found now))
            ])
    ]
