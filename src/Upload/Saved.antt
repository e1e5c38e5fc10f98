-- ===== src/Upload/Saved.antt =====
-- The life of one upload task: requests, the background work and the storage's answers in any
-- order.
use web_bijin.Prelude.{
  ℕ, [], sym, ◌==◌, nat_eq, ◌≡◌, refl, inl, inr, Bool, true, false, not, ◌&&◌, none, some, arith,
  Bool-cases, text_eq, text_beq, Option-cases, if◌then◌else◌, subst, if-both, ◌||◌, nat_beq,
}
use web_bijin.Paths.{dir, dot}
use web_bijin.Upload.{
  uploading, finished, skipped, UploadTask, SyncResult, Object, object, no_object, unreachable,
  is_waiting, is_uploading, is_processing, is_finished, is_skipped, is_error, fail, fail_transfer,
  start, finish, retry, verify_object,
}
use web_bijin.Upload.Files.{
  LocalWrite, linked, name_taken, not_linked, begin_local, end_local, check_image, link_local,
  image_budget,
}

-- What a task is at all times: an original is saved where processing has begun, a saved one is
-- not to be sent again, and one that was not stored is not called saved.
pub record IsConsistent (t : UploadTask) : Type 0 where
  pub processing_saved : (is_processing t.phase ≡ true) → t.saved ≡ true
  pub finished_saved : (is_finished t.phase ≡ true) → t.saved ≡ true
  pub skipped_unsaved : is_skipped t.phase ≡ true → t.saved ≡ false
  pub waiting_unsaved : is_waiting t.phase ≡ true → t.saved ≡ false
  pub uploading_unsaved : is_uploading t.phase ≡ true → t.saved ≡ false
  pub uploading_local : is_uploading t.phase ≡ true → t.is_local ≡ true

-- One step on a task. The background work runs only once an original is saved, and a write ends
-- only where it has begun.
pub data Step (max_pixels : ℕ) (t : UploadTask) : UploadTask → Type 0 where
  begins : {u : UploadTask} → begin_local t ≡ some u → Step max_pixels t u
  ends :
      (w : LocalWrite) → is_uploading t.phase ≡ true → Step max_pixels t (end_local max_pixels w t)
  sees : (o : Object) → t.is_local ≡ false → Step max_pixels t (verify_object o t).1
  finishes : (r : SyncResult) → t.saved ≡ true → Step max_pixels t (finish r t)
  retries : {u : UploadTask} → retry t ≡ some u → Step max_pixels t u

pub data Reach (max_pixels : ℕ) (t : UploadTask) : UploadTask → Type 0 where
  here : Reach max_pixels t t
  next : {u v : UploadTask} → Reach max_pixels t u → Step max_pixels u v → Reach max_pixels t v

-- A write of a local file ends in one of three ways.
module _ (t : UploadTask) (P : UploadTask → Type 0)
    (fails : (again : Bool) → P (fail_transfer again t)) (starts : P (start t))
    (skips : P (record t { phase = skipped })) where
  link_local-cases : (w : LocalWrite) → P (link_local w t)
  unfolding link_local
  link_local-cases w =
      if-both P _ (fails true)
        (elim w.link
          as (λ l. P (elim l [
            | linked ↦ start t
            | name_taken ↦ record t { phase = skipped }
            | not_linked ↦ fail_transfer true t
          ])) [ linked ↦ starts | name_taken ↦ skips | not_linked ↦ fails true ])

  check_image-cases : (max_pixels : ℕ) (w : LocalWrite) → P (check_image max_pixels w t)
  unfolding check_image
  check_image-cases max_pixels w = elim (Option-cases w.config) [
    | inl e ↦ rw (e, check_image) (fails false)
    | inr ((format, width, height), e) ↦
        elim (Option-cases (image_budget width height format max_pixels)) [
          | inl f ↦ rw (e, f, check_image) (if-both P _ (fails false) (fails false))
          | inr (b, f) ↦ rw (e, f, check_image) (if-both P _ (fails false) (link_local-cases w))
        ]
  ]

  end_local-cases : (max_pixels : ℕ) (w : LocalWrite) → P (end_local max_pixels w t)
  unfolding end_local text_beq dir
  end_local-cases max_pixels w =
      let nested = not (dir t.path == dot) in
      if-both P (not (w.content_length == t.size)) (fails false) (
        if-both P (not w.opened) (fails true) (
          if-both P (nested && not w.parents_real) (fails false) (
            if-both P (nested && not w.directory_made) (fails true) (
              if-both P (not w.temporary_made) (fails true) (
                if-both P
                  (not (elim w.copied [ none ↦ false | some n ↦ n == t.size ]) || not w.rewound)
                  (fails true) (check_image-cases max_pixels w))))))

-- What a step may do to a task.
record Kept (t u : UploadTask) : Type 0 where
  consistent : IsConsistent u
  saved : t.saved ≡ true → u.saved ≡ true
  moved : is_waiting t.phase ≡ false → is_waiting u.phase ≡ false

start-Kept : (t : UploadTask) → IsConsistent t → Kept t (start t)
start-Kept t c = elim (Bool-cases (is_processing t.phase || is_finished t.phase)) [
  | inl e ↦ rw e (record { consistent = c; saved = λ h. h; moved = λ h. h })
  | inr e ↦ rw e (record {
    consistent = record {
      processing_saved = λ h. refl;
      finished_saved = λ h. refl;
      skipped_unsaved = λ h. absurd (ground arith);
      waiting_unsaved = λ h. absurd (ground arith);
      uploading_unsaved = λ h. absurd (ground arith);
      uploading_local = λ h. absurd (ground arith);
    };
    saved = λ h. refl;
    moved = λ h. refl;
  })
]

fail_transfer-Kept :
    (again : Bool) (t : UploadTask) → IsConsistent t → Kept t (fail_transfer again t)
fail_transfer-Kept again t c = record {
  consistent = record {
    processing_saved = λ h. absurd (ground arith);
    finished_saved = λ h. absurd (ground arith);
    skipped_unsaved = λ h. absurd (ground arith);
    waiting_unsaved = λ h. absurd (ground arith);
    uploading_unsaved = λ h. absurd (ground arith);
    uploading_local = λ h. absurd (ground arith);
  };
  saved = λ h. h;
  moved = λ h. refl;
}

fail-Kept : (again : Bool) (t : UploadTask) → IsConsistent t → Kept t (fail again t)
fail-Kept again t c = record {
  consistent = record {
    processing_saved = λ h. absurd (ground arith);
    finished_saved = λ h. absurd (ground arith);
    skipped_unsaved = λ h. absurd (ground arith);
    waiting_unsaved = λ h. absurd (ground arith);
    uploading_unsaved = λ h. absurd (ground arith);
    uploading_local = λ h. absurd (ground arith);
  };
  saved = λ h. h;
  moved = λ h. refl;
}

skip-Kept : (t : UploadTask) → t.saved ≡ false → Kept t (record t { phase = skipped })
skip-Kept t unsaved = record {
  consistent = record {
    processing_saved = λ h. absurd (ground arith);
    finished_saved = λ h. absurd (ground arith);
    skipped_unsaved = λ h. unsaved;
    waiting_unsaved = λ h. unsaved;
    uploading_unsaved = λ h. unsaved;
    uploading_local = λ h. absurd (ground arith);
  };
  saved = λ h. h;
  moved = λ h. refl;
}

self-Kept : (t : UploadTask) → IsConsistent t → Kept t t
self-Kept t c = record { consistent = c; saved = λ h. h; moved = λ h. h }

done-Kept : (t : UploadTask) → t.saved ≡ true → Kept t (record t { phase = finished })
done-Kept t was = record {
  consistent = record {
    processing_saved = λ h. was;
    finished_saved = λ h. was;
    skipped_unsaved = λ h. absurd (ground arith);
    waiting_unsaved = λ h. absurd (ground arith);
    uploading_unsaved = λ h. absurd (ground arith);
    uploading_local = λ h. absurd (ground arith);
  };
  saved = λ h. h;
  moved = λ h. refl;
}

unmarked-Kept :
    (t : UploadTask) → IsConsistent t → Kept t (if t.saved then t else record t { phase = skipped })
unmarked-Kept t c = elim (Bool-cases t.saved) [
  | inl f ↦
      subst (λ b. Kept t (if b then t else record t { phase = skipped })) (sym f) (self-Kept t c)
  | inr f ↦
      subst (λ b. Kept t (if b then t else record t { phase = skipped })) (sym f) (skip-Kept t f)
]

verify_object-Kept : (o : Object) (t : UploadTask) → IsConsistent t → Kept t (verify_object o t).1
unfolding verify_object
verify_object-Kept unreachable t c = self-Kept t c
verify_object-Kept no_object t c = self-Kept t c
verify_object-Kept (object mark size) t c = elim (Bool-cases (text_beq mark t.id)) [
  | inr e ↦ rw (e, verify_object) (unmarked-Kept t c)
  | inl e ↦ elim (Bool-cases (nat_beq size t.size)) [
    | inl f ↦ rw (e, f, verify_object) (start-Kept t c)
    | inr f ↦ rw (e, f, verify_object) (fail_transfer-Kept false t c)
  ]
]

begin_local-Kept :
    (t : UploadTask) {u : UploadTask} → begin_local t ≡ some u → IsConsistent t → Kept t u
unfolding begin_local
begin_local-Kept t {u} e c = elim (Bool-cases (not t.is_local || not (is_waiting t.phase))) [
  | inl f ↦ absurd (ground arith)
  | inr f ↦
      let unsaved : t.saved ≡ false = c.waiting_unsaved (ground arith) in
      let local : t.is_local ≡ true = ground arith in
      let same : record t { phase = uploading } ≡ u = ground arith in
      subst (Kept t) same (record {
        consistent = record {
          processing_saved = λ h. absurd (ground arith);
          finished_saved = λ h. absurd (ground arith);
          skipped_unsaved = λ h. unsaved;
          waiting_unsaved = λ h. unsaved;
          uploading_unsaved = λ h. unsaved;
          uploading_local = λ h. local;
        };
        saved = λ h. h;
        moved = λ h. refl;
      })
]

retry-Kept : (t : UploadTask) {u : UploadTask} → retry t ≡ some u → IsConsistent t → Kept t u
unfolding retry
retry-Kept t {u} e c =
    elim (Bool-cases (not (is_error t.phase) || not t.saved || not t.retryable)) [
      | inl f ↦ absurd (ground arith)
      | inr f ↦ let same : start t ≡ u = ground arith in subst (Kept t) same (start-Kept t c)
    ]

finish-Kept :
    (r : SyncResult) (t : UploadTask) → t.saved ≡ true → IsConsistent t → Kept t (finish r t)
unfolding finish text_beq
finish-Kept r t was c =
    if-both (Kept t) (r.failed || not (r.invalid_reason == [])) (fail-Kept r.retryable t c) (
      if-both (Kept t) (not r.album_usable || not r.wallpapers_ready)
        (fail-Kept (if r.invalid || r.missing then r.retryable else true) t c) (done-Kept t was))

Step-Kept : {max_pixels : ℕ} {t u : UploadTask} → Step max_pixels t u → IsConsistent t → Kept t u
Step-Kept {t = t} (begins e) c = begin_local-Kept t e c
Step-Kept {max_pixels} {t = t} (ends w active) c =
    end_local-cases t (Kept t) (λ again. fail_transfer-Kept again t c) (start-Kept t c)
      (skip-Kept t (c.uploading_unsaved active)) max_pixels w
Step-Kept {t = t} (sees o away) c = verify_object-Kept o t c
Step-Kept {t = t} (finishes r was) c = finish-Kept r t was c
Step-Kept {t = t} (retries e) c = retry-Kept t e c

-- Whatever order the requests for a task, the answers of the storage and the background work come
-- in, a consistent task stays consistent, and an original that was saved stays saved: no late or
-- repeated answer makes the site take it for missing or for skipped.
pub Reach-Saved :
    {max_pixels : ℕ} {t u : UploadTask}
    → Reach max_pixels t u
    → IsConsistent t
    → IsConsistent u × (t.saved ≡ true → u.saved ≡ true)
Reach-Saved here c = (c, λ h. h)
Reach-Saved (next r st) c =
    let (d, kept) = Reach-Saved r c in
    let k = Step-Kept st d in (k.consistent, λ h. k.saved (kept h))

Reach-moved :
    {max_pixels : ℕ} {t u : UploadTask}
    → Reach max_pixels t u
    → IsConsistent t
    → is_waiting t.phase ≡ false
    → is_waiting u.phase ≡ false
Reach-moved here c was = was
Reach-moved (next r st) c was = (Step-Kept st (Reach-Saved r c).0).moved (Reach-moved r c was)

begin_local-moved :
    (t : UploadTask) {u : UploadTask} → begin_local t ≡ some u → is_waiting u.phase ≡ false
unfolding begin_local
begin_local-moved t {u} e = elim (Bool-cases (not t.is_local || not (is_waiting t.phase))) [
  | inl f ↦ absurd (ground arith)
  | inr f ↦
      let same : record t { phase = uploading } ≡ u = ground arith in
      subst (λ (x : UploadTask). is_waiting x.phase ≡ false) same refl
]

moved-refused : (t : UploadTask) → is_waiting t.phase ≡ false → begin_local t ≡ none
unfolding begin_local
moved-refused t was = ground arith

-- Once the transfer of a local file has begun, no later request can write to the task again,
-- however the transfer ends.
pub one_local_write :
    {max_pixels : ℕ} {t u v : UploadTask}
    → IsConsistent t
    → begin_local t ≡ some u
    → Reach max_pixels u v
    → begin_local v ≡ none
one_local_write {t = t} {u} {v} c e r =
    moved-refused v (Reach-moved r (begin_local-Kept t e c).consistent (begin_local-moved t e))
