-- ===== src/Batch/Valid.antt =====
-- What holds of the task records at all times.
use web_bijin.Prelude.{
  ℕ, ◌≤◌, ◌≡◌, refl, inl, inr, Bool, true, ◌||◌, none, some, List, [], ◌∷◌, Text, arith, nat_eq,
  text_eq, text_beq_iff, Bool-cases, All, All-update_where, All-delete_where, find_where,
  update_where, delete_where, count_where, length, subst, sym, All-update_knowing,
  count_where-update_keeps, count_where-delete_le, count_where-update_none,
}
use web_bijin.Batch.{
  Batch, Db, BatchStatus, prepared, running, completed, cancelled, interrupted, has_batch,
  is_running, is_pending, read_batch, stopped_as, interrupt_running_batches, batch_expired,
  is_surplus, cleanup_batches,
}

abbrev pub DistinctBatches : List Batch → Type 0
DistinctBatches [] = Unit {0}
DistinctBatches (b ∷ bs) = (find_where (has_batch b.id) bs ≡ none) × DistinctBatches bs

-- What the status of a task says of its items and of its end.
abbrev pub StatusFacts : BatchStatus → Batch → Type 0
StatusFacts prepared b = (b.finished ≡ 0) × (count_where is_pending b.items ≡ length b.items)
StatusFacts running b = b.finished ≡ 0
StatusFacts completed b = count_where is_pending b.items ≡ 0
StatusFacts cancelled b = Unit {0}
StatusFacts interrupted b = Unit {0}

pub record IsConsistent (b : Batch) : Type 0 where
  pub whole : b.total ≡ length b.items
  pub facts : StatusFacts b.status b

pub record IsValid (db : Db) : Type 0 where
  pub ids : DistinctBatches db.batches
  pub one : count_where is_running db.batches ≤ 1
  pub each : All IsConsistent db.batches

pub has_batch-eq : (id : Text) (b : Batch) → has_batch id b ≡ true → b.id ≡ id
unfolding has_batch
has_batch-eq id b h = (text_beq_iff b.id id).0 h

update-absent :
    (id : Text) (p : Batch → Bool) (f : Batch → Batch) (bs : List Batch)
    → ((b : Batch) → (f b).id ≡ b.id)
    → find_where (has_batch id) bs ≡ none
    → find_where (has_batch id) (update_where p f bs) ≡ none
unfolding has_batch
update-absent id p f [] keeps e = refl
update-absent id p f (b ∷ bs) keeps e = ground (arith, keeps b, update-absent id p f bs keeps)

pub DistinctBatches-update :
    (p : Batch → Bool) (f : Batch → Batch) (bs : List Batch)
    → ((b : Batch) → (f b).id ≡ b.id)
    → DistinctBatches bs
    → DistinctBatches (update_where p f bs)
DistinctBatches-update p f [] keeps d = tt
DistinctBatches-update p f (b ∷ bs) keeps d =
    ground
      (arith, keeps b, update-absent b.id p f bs keeps d.0, DistinctBatches-update p f bs keeps d.1)

pub delete-absent :
    (id : Text) (p : Batch → Bool) (bs : List Batch)
    → find_where (has_batch id) bs ≡ none
    → find_where (has_batch id) (delete_where p bs) ≡ none
delete-absent id p [] e = refl
delete-absent id p (b ∷ bs) e = ground (arith, delete-absent id p bs)

pub DistinctBatches-delete :
    (p : Batch → Bool) (bs : List Batch) → DistinctBatches bs → DistinctBatches (delete_where p bs)
DistinctBatches-delete p [] d = tt
DistinctBatches-delete p (b ∷ bs) d =
    ground (arith, delete-absent b.id p bs d.0, DistinctBatches-delete p bs d.1)

absent-count :
    (id : Text) (bs : List Batch)
    → find_where (has_batch id) bs ≡ none
    → count_where (has_batch id) bs ≡ 0
absent-count id [] e = refl
absent-count id (b ∷ bs) e = ground (arith, absent-count id bs)

-- A statement `WHERE id=?` concerns one task.
pub one-batch :
    (id : Text) (bs : List Batch) → DistinctBatches bs → count_where (has_batch id) bs ≤ 1
one-batch id [] d = omega arith
one-batch id (b ∷ bs) d = elim (Bool-cases (has_batch id b)) [
  | inl e ↦ rw e (omega (arith, absent-count id bs (at (has_batch-eq id b e))))
  | inr e ↦ rw e (omega (arith, one-batch id bs d.1))
]
  where
    at : b.id ≡ id → find_where (has_batch id) bs ≡ none
    at e = subst (λ i. find_where (has_batch i) bs ≡ none) e d.0

stopped_as-IsConsistent :
    (now : ℕ) (b : Batch) → IsConsistent b → IsConsistent (stopped_as interrupted now b)
stopped_as-IsConsistent now b c = record { whole = c.whole; facts = tt }

-- At start-up every task that the old process left running is marked.
pub interrupt_running-IsValid :
    (now : ℕ) (db : Db) → IsValid db → IsValid (interrupt_running_batches now db)
unfolding interrupt_running_batches
interrupt_running-IsValid now db v = record {
  ids = DistinctBatches-update is_running (stopped_as interrupted now) db.batches (λ b. refl) v.ids;
  one = omega (
    arith,
    count_where-update_none is_running (stopped_as interrupted now) db.batches (λ b e. refl),
  );
  each =
      All-update_where IsConsistent is_running (stopped_as interrupted now) db.batches
        (λ b e c. stopped_as-IsConsistent now b c) v.each;
}

-- Forgetting old records.
pub cleanup_batches-IsValid : (now : ℕ) (db : Db) → IsValid db → IsValid (cleanup_batches now db)
unfolding cleanup_batches
cleanup_batches-IsValid now db v = record {
  ids = DistinctBatches-delete _ db.batches v.ids;
  one = omega (
    arith,
    count_where-delete_le is_running (λ b. batch_expired now b || is_surplus db.batches b)
        db.batches,
  );
  each = All-delete_where IsConsistent _ db.batches v.each;
}

module _ (id : Text) (b : Batch) where
  absent-All :
      (bs : List Batch)
      → find_where (has_batch id) bs ≡ none
      → All (λ x. has_batch id x ≡ true → x ≡ b) bs
  absent-All [] e = tt
  absent-All (x ∷ bs) e = ((λ h. absurd (ground arith)), absent-All bs (ground arith))

  -- The task that an id names is the only one of that id.
  pub only-batch :
      (bs : List Batch)
      → DistinctBatches bs
      → find_where (has_batch id) bs ≡ some b
      → All (λ x. has_batch id x ≡ true → x ≡ b) bs
  only-batch [] d e = tt
  only-batch (x ∷ bs) d e = elim (Bool-cases (has_batch id x)) [
    | inl h ↦
        let at : find_where (has_batch id) bs ≡ none =
          subst (λ i. find_where (has_batch i) bs ≡ none) (has_batch-eq id x h) d.0 in
        ((λ g. ground arith), absent-All bs at)
    | inr h ↦ ((λ g. absurd (ground arith)), only-batch bs d.1 (ground arith))
  ]

-- A change of the one task that an id names.
pub update-IsValid :
    (id : Text) (f : Batch → Batch) (b : Batch) (db : Db)
    → read_batch id db ≡ some b
    → ((x : Batch) → (f x).id ≡ x.id)
    → ((x : Batch) → is_running (f x) ≡ is_running x)
    → (IsConsistent b → IsConsistent (f b))
    → IsValid db
    → IsValid (record db { batches = update_where (has_batch id) f db.batches })
update-IsValid id f b db found keeps same good v = record {
  ids = DistinctBatches-update (has_batch id) f db.batches keeps v.ids;
  one =
      omega
        (arith, count_where-update_keeps is_running (has_batch id) f db.batches (λ x h. same x));
  each =
      All-update_knowing IsConsistent (λ x. has_batch id x ≡ true → x ≡ b) (has_batch id) f
        db.batches
        (λ x h is c.
          let e : x ≡ b = is h in
          subst (λ y. IsConsistent (f y)) (sym e) (good (subst IsConsistent e c)))
        (only-batch id b db.batches v.ids found) v.each;
}
