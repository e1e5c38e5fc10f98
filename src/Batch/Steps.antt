-- ===== src/Batch/Steps.antt =====
-- Creating, beginning, ending and committing keep the task records valid.
use mathlib.Core.Bool.{false≢true}
use web_bijin.Prelude.{
  if◌then◌else◌, ℕ, ◌≡◌, refl, inl, inr, Bool, true, false, not, Option, some, List, [], ◌∷◌, Text,
  arith, nat_beq, Bool-cases, Option-cases, All, All-update_where, find_where, update_where,
  count_where, length-update_where, count_where-update_le, count_where-update_drops,
  count_where-zero, sym, ◌∙◌, subst, All-update_knowing, All-mono, ◌||◌,
}
use web_bijin.Store.{Share}
use web_bijin.Batch.{
  Batch, Item, Db, Mode, BatchStatus, prepared, running, completed, cancelled, interrupted,
  has_batch, is_attempt, is_running, runs, is_pending, is_success, read_batch, stopped_as,
}
use web_bijin.Batch.Attempt.{
  started, begun, begin_from, begin_batch_attempt, to_pending, end_attempt, cancel_batch,
  interrupt_batch, over, next_from, next_batch_item,
}
use web_bijin.Batch.Commit.{
  ItemError, with_result, put_result, is_item, settle, commit_from, commit_batch_item, is_gone,
  retire_swapped,
}
use web_bijin.Batch.Valid.{
  IsConsistent, IsValid, StatusFacts, DistinctBatches-update, one-batch, only-batch, update-IsValid,
}

-- `beginBatchAttempt` keeps the records valid: in particular no second task runs beside one.
begun-IsConsistent : (retry : Bool) (b : Batch) → IsConsistent b → IsConsistent (begun retry b)
begun-IsConsistent retry b c = record {
  whole =
      ground (arith, c.whole, length-update_where (λ it. not (is_success it)) to_pending b.items);
  facts = refl;
}

pub begin-IsValid :
    (id : Text) (revision : ℕ) (retry : Bool) (db : Db) {n : ℕ} {db' : Db}
    → begin_batch_attempt id revision retry db ≡ started n db'
    → IsValid db
    → IsValid db'
unfolding begin_batch_attempt begin_from
begin-IsValid id revision retry db {n} {db'} e v = subst IsValid same (record {
  ids = DistinctBatches-update (has_batch id) (begun retry) db.batches (λ b. refl) v.ids;
  one = omega (
    arith,
    idle,
    one-batch id db.batches v.ids,
    count_where-update_le is_running (has_batch id) (begun retry) db.batches,
  );
  each =
      All-update_where IsConsistent (has_batch id) (begun retry) db.batches
        (λ b h c. begun-IsConsistent retry b c) v.each;
})
  where
    idle : count_where is_running db.batches ≡ 0
    idle = ground arith

    same : record db { batches = update_where (has_batch id) (begun retry) db.batches } ≡ db'
    same = ground arith

-- The end of an attempt.
pub end-IsValid :
    (status : BatchStatus) (id : Text) (revision now : ℕ) (db : Db)
    → runs status ≡ false
    → All
        (λ b. is_attempt id revision b ≡ true → StatusFacts status (stopped_as status now b))
        db.batches
    → IsValid db
    → IsValid (end_attempt status id revision now db)
unfolding end_attempt
end-IsValid status id revision now db stops facts v = record {
  ids = DistinctBatches-update _ (stopped_as status now) db.batches (λ b. refl) v.ids;
  one = omega (
    arith,
    count_where-update_drops is_running (is_attempt id revision) (stopped_as status now) db.batches
        (λ b h. stops),
  );
  each =
      All-update_knowing IsConsistent
        (λ b. is_attempt id revision b ≡ true → StatusFacts status (stopped_as status now b))
        (is_attempt id revision) (stopped_as status now) db.batches
        (λ b h fact c. record { whole = c.whole; facts = fact h }) facts v.each;
}

All-trivial : (P : Batch → Type 0) (bs : List Batch) → ((b : Batch) → P b) → All P bs
All-trivial P [] h = tt
All-trivial P (b ∷ bs) h = (h b, All-trivial P bs h)

pub cancel-IsValid :
    (id : Text) (revision now : ℕ) (db : Db)
    → IsValid db
    → IsValid (cancel_batch id revision now db).1
unfolding cancel_batch
cancel-IsValid id revision now db =
    end-IsValid cancelled id revision now db refl (All-trivial _ db.batches (λ b h. tt))

pub interrupt-IsValid :
    (id : Text) (revision now : ℕ) (db : Db)
    → IsValid db
    → IsValid (interrupt_batch id revision now db)
unfolding interrupt_batch
interrupt-IsValid id revision now db =
    end-IsValid interrupted id revision now db refl (All-trivial _ db.batches (λ b h. tt))

-- An attempt completes only where no photo is pending.
pub next-IsValid :
    (id : Text) (revision now : ℕ) (db : Db) {db' : Db}
    → next_batch_item id revision now db ≡ over db'
    → IsValid db
    → IsValid db'
unfolding next_batch_item next_from
next-IsValid id revision now db {db'} e v = elim (Option-cases (read_batch id db)) [
  | inl miss ↦ absurd (ground arith)
  | inr (b, found) ↦ elim (Option-cases (find_where is_pending b.items)) [
    | inr (it, more) ↦ let same : db ≡ db' = ground arith in subst IsValid same v
    | inl idle ↦ elim (Bool-cases (not (is_running b) || not (nat_beq b.revision revision))) [
      | inl gone ↦ let same : db ≡ db' = ground arith in subst IsValid same v
      | inr ours ↦
          let same : end_attempt completed id revision now db ≡ db' = ground arith in
          subst IsValid same (
            end-IsValid completed id revision now db refl
              (All-mono (λ x. has_batch id x ≡ true → x ≡ b)
                (λ x. is_attempt id revision x ≡ true → count_where is_pending x.items ≡ 0)
                db.batches
                (λ x is h.
                  let at : x ≡ b = is (ground arith) in
                  subst (λ y. count_where is_pending y.items ≡ 0) (sym at)
                    (count_where-zero is_pending b.items idle))
                (only-batch id b db.batches v.ids found))
              v)
    ]
  ]
]

running-facts :
    (status : BatchStatus) (b b' : Batch)
    → runs status ≡ true
    → b'.finished ≡ b.finished
    → StatusFacts status b
    → StatusFacts status b'
running-facts running b b' active e facts = e ∙ facts
running-facts prepared b b' active e facts = absurd (false≢true active)
running-facts completed b b' active e facts = absurd (false≢true active)
running-facts cancelled b b' active e facts = absurd (false≢true active)
running-facts interrupted b b' active e facts = absurd (false≢true active)

put_result-IsConsistent :
    (it : Item) (f : Item → Item) (b : Batch)
    → is_running b ≡ true
    → IsConsistent b
    → IsConsistent (put_result it f b)
put_result-IsConsistent it f b active c = record {
  whole = omega (arith, c.whole, length-update_where (is_item it) f b.items);
  facts = running-facts b.status b (put_result it f b) active refl c.facts;
}

commit_from-IsValid :
    (id : Text) (mode : Mode) (it : Item) (fresh : Share) (e : Option ItemError) (db : Db)
    (b : Batch)
    → read_batch id db ≡ some b
    → is_running b ≡ true
    → IsValid db
    → IsValid (commit_from id mode it fresh e db)
unfolding commit_from
commit_from-IsValid id mode it fresh e db b found active v =
    let (w, e') = settle mode db.store it fresh e in
    let w' = if is_gone e' then retire_swapped it w else w in
    let u =
      update-IsValid id (put_result it (with_result mode w'.share e')) b db found (λ x. refl)
        (λ x. refl) (put_result-IsConsistent it _ b active) v in
    record { ids = u.ids; one = u.one; each = u.each }

-- The result of one photo.
pub commit-IsValid :
    (id : Text) (revision : ℕ) (mode : Mode) (it : Item) (fresh : Share) (e : Option ItemError)
    (db : Db) {db' : Db}
    → commit_batch_item id revision mode it fresh e db ≡ some db'
    → IsValid db
    → IsValid db'
unfolding commit_batch_item
commit-IsValid id revision mode it fresh e db {db'} done v =
    elim (Option-cases (read_batch id db)) [
      | inl miss ↦ absurd (ground arith)
      | inr (b, found) ↦
          elim (Bool-cases (not (is_running b) || not (nat_beq b.revision revision))) [
            | inl gone ↦ let same : db ≡ db' = ground arith in subst IsValid same v
            | inr ours ↦
                let same : commit_from id mode it fresh e db ≡ db' = ground arith in
                subst IsValid same
                  (commit_from-IsValid id mode it fresh e db b found (ground arith) v)
          ]
    ]
