-- ===== src/Organize/Outcomes.antt =====
-- What `applyOrganize` may do, with what it has checked then.
use web_bijin.Prelude.{
  ℕ, ◌+◌, ◌*◌, ◌≡◌, ◌<◌, refl, inl, inr, Bool, true, false, Option, none, some, List, Text, arith,
  Bool-cases, text_eq, ◌==◌, nat_eq, text_beq, text_beq_iff, find_where, ltb,
}
use web_bijin.People.Names.{
  receipt_expired, bad_clock, Result, ok, refused, Refusal, ◌>>=◌, ◌>>◌, refuse_if,
}
use web_bijin.Organize.{
  Outside, OrganizeDb, apply_organize, commit_organize, execute, is_receipt, change_tables, Changed,
  receipt_expired_at, or_roll_back, commit_change, replay_or_execute,
}
use web_bijin.Organize.Normal.{OrganizeChange}
use web_bijin.Organize.Receipts.{Receipt, organize_issued}

pub data Outcome (o : Outside) (c : OrganizeChange) (current : List Text) (now : ℕ)
    (db : OrganizeDb) : Result Text × OrganizeDb → Type 0 where
  refusal : (e : Refusal) → Outcome o c current now db (refused e, db)
  replayed :
      (issued : ℕ) (r : Receipt)
      → organize_issued c.operation_id ≡ ok issued
      → find_where (is_receipt c.operation_id) db.kept.receipts ≡ some r
      → r.fingerprint ≡ o.fingerprint c
      → Outcome o c current now db (ok r.result, db)
  executed :
      (issued : ℕ) (done : Changed)
      → organize_issued c.operation_id ≡ ok issued
      → find_where (is_receipt c.operation_id) db.kept.receipts ≡ none
      → db.kept.floor < issued
      → change_tables o c current db.tables ≡ ok done
      → Outcome o c current now db
          (or_roll_back db (ok (commit_change o issued c current now db done)))

module _ (o : Outside) (c : OrganizeChange) (current : List Text) (now : ℕ) (db : OrganizeDb) where
  execute-Outcome :
      (issued : ℕ)
      → organize_issued c.operation_id ≡ ok issued
      → find_where (is_receipt c.operation_id) db.kept.receipts ≡ none
      → Outcome o c current now db (or_roll_back db (execute o issued c current now db))
  unfolding execute receipt_expired_at
  execute-Outcome issued dated absent =
      after (receipt_expired_at db.kept.floor issued now) (change_tables o c current db.tables)
        (λ h. ground arith) refl
    where
      after :
          (expired : Bool) (r : Result Changed)
          → (expired ≡ false → db.kept.floor < issued)
          → change_tables o c current db.tables ≡ r
          → Outcome o c current now db (
              or_roll_back db (do
                refuse_if expired receipt_expired
                done ← r
                ok (commit_change o issued c current now db done)))
      after true r h e = refusal receipt_expired
      after false (refused x) h e = refusal x
      after false (ok done) h e = executed issued done dated absent (h refl) e

  replay-Outcome :
      (issued : ℕ) (found : Option Receipt)
      → organize_issued c.operation_id ≡ ok issued
      → find_where (is_receipt c.operation_id) db.kept.receipts ≡ found
      → Outcome o c current now db
          (or_roll_back db (replay_or_execute o issued c current now db found))
  unfolding text_beq
  replay-Outcome issued none dated e = execute-Outcome issued dated e
  replay-Outcome issued (some r) dated e = elim (Bool-cases (r.fingerprint == o.fingerprint c)) [
    | inl t ↦ rw t (replayed issued r dated e ((text_beq_iff r.fingerprint (o.fingerprint c)).0 t))
    | inr t ↦ rw t (refusal _)
  ]

  pub apply_organize-Outcome : Outcome o c current now db (apply_organize o c current now db)
  unfolding apply_organize commit_organize
  apply_organize-Outcome = dated (organize_issued c.operation_id) (ltb (now + 5 * 60 * 1000)) refl
    where
      dated :
          (r : Result ℕ) (ahead : ℕ → Bool)
          → organize_issued c.operation_id ≡ r
          → Outcome o c current now db (
              or_roll_back db (do
                issued ← r
                refuse_if (ahead issued) bad_clock
                replay_or_execute o issued c current now db
                    (find_where (is_receipt c.operation_id) db.kept.receipts)))
      dated (refused e) ahead h = refusal e
      dated (ok issued) ahead h = elim (Bool-cases (ahead issued)) [
        | inl t ↦ rw t (refusal bad_clock)
        | inr t ↦
            rw t (
              replay-Outcome issued (find_where (is_receipt c.operation_id) db.kept.receipts) h
                refl)
      ]
