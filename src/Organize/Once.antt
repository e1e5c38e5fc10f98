-- ===== src/Organize/Once.antt =====
-- However requests of the organize page follow each other, one that was answered is not executed
-- again.
use web_bijin.Prelude.{
  ℕ, ◌≡◌, refl, ap, sym, ◌∙◌, subst, none, List, [], ◌∷◌, Text, arith, All, All-mono,
  All-find_where, text_eq, nat_eq, text_beq_iff, find_where, find_where-holds,
}
use web_bijin.People.Names.{Result, ok}
use web_bijin.Organize.{
  Outside, OrganizeDb, apply_organize, is_receipt, new_receipt, answer, commit_change,
}
use web_bijin.Organize.Outcomes.{Outcome, refusal, replayed, executed, apply_organize-Outcome}
use web_bijin.Organize.Normal.{OrganizeChange}
use web_bijin.Organize.Receipts.{Receipt, organize_issued}
use web_bijin.Organize.Settled.{
  Request, run, DistinctReceipts, IsDated, IsSettled, prune-IsSettled, new-IsSettled,
  other-IsSettled, only_found, ok_injective, ok_text,
}

module _ (o : Outside) (c : OrganizeChange) (current : List Text) (now : ℕ) (db : OrganizeDb)
    (issued : ℕ) (fingerprint result : Text) where
  -- Another request leaves an id settled.
  Outcome-IsSettled :
      (id : Text) {x : Result Text × OrganizeDb}
      → organize_issued id ≡ ok issued
      → Outcome o c current now db x
      → IsSettled id issued fingerprint result db.kept
      → IsSettled id issued fingerprint result x.1.kept
  unfolding commit_change
  Outcome-IsSettled id dated (refusal e) s = s
  Outcome-IsSettled id dated (replayed time r d e same) s = s
  Outcome-IsSettled id dated (executed time done d absent later change) s =
      let row = new_receipt o time c (o.encode (answer c current done)) in
      prune-IsSettled now _ id issued fingerprint result (
        other-IsSettled row db.kept id issued fingerprint result
          (λ (e : c.operation_id ≡ id). absurd (
            omega (
              arith,
              ok_injective (sym d ∙ ap organize_issued e ∙ dated),
              s.gone (subst (λ i. find_where (is_receipt i) db.kept.receipts ≡ none) e absent),
              later,
            )))
          s)

  -- A request with a settled id changes nothing, and has no other answer.
  Outcome-settled :
      {x : Result Text × OrganizeDb}
      → organize_issued c.operation_id ≡ ok issued
      → Outcome o c current now db x
      → IsSettled c.operation_id issued fingerprint result db.kept
      → (x.1 ≡ db)
        × ((again : Text) → x.0 ≡ ok again → (again ≡ result) × (o.fingerprint c ≡ fingerprint))
  Outcome-settled dated (refusal e) s = (refl, λ again h. cc)
  Outcome-settled dated (replayed time r d e same) s =
      let is_id =
        (text_beq_iff r.operation_id c.operation_id).0
          (find_where-holds (is_receipt c.operation_id) db.kept.receipts e) in
      let (_, prints, results) =
        All-find_where _ (is_receipt c.operation_id) db.kept.receipts e s.rows is_id in
      (refl, λ again h. (cc, cc))
  Outcome-settled dated (executed time done d absent later change) s =
      absurd (omega (arith, ok_injective (sym d ∙ dated), s.gone absent, later))

  -- An answer settles the id.
  Outcome-settles :
      {x : Result Text × OrganizeDb}
      → DistinctReceipts db.kept.receipts
      → All IsDated db.kept.receipts
      → Outcome o c current now db x
      → x.0 ≡ ok result
      → (time : ℕ) × (organize_issued c.operation_id ≡ ok time)
        × IsSettled c.operation_id time (o.fingerprint c) result x.1.kept
  unfolding commit_change
  Outcome-settles distinct dates (refusal e) h = cc
  Outcome-settles distinct dates (replayed time r d e same) h =
      let is_id =
        (text_beq_iff r.operation_id c.operation_id).0
          (find_where-holds (is_receipt c.operation_id) db.kept.receipts e) in
      let dated = All-find_where IsDated (is_receipt c.operation_id) db.kept.receipts e dates in
      let timed : r.issued ≡ time = ok_injective (sym dated ∙ ap organize_issued is_id ∙ d) in
      (
        time,
        d,
        record {
          rows =
              All-mono (λ (q : Receipt). q.operation_id ≡ c.operation_id → q ≡ r) _ db.kept.receipts
                (λ q only i. (
                  ap (λ (x : Receipt). x.issued) (only i) ∙ timed,
                  ap (λ (x : Receipt). x.fingerprint) (only i) ∙ same,
                  ap (λ (x : Receipt). x.result) (only i) ∙ ok_text h,
                ))
                (only_found c.operation_id db.kept.receipts distinct e);
          gone = λ absent. cc;
        },
      )
  Outcome-settles distinct dates (executed time done d absent later change) h =
      let row = new_receipt o time c (o.encode (answer c current done)) in
      (
        time,
        d,
        prune-IsSettled now _ c.operation_id time (o.fingerprint c) result (
            subst
              (λ text.
                IsSettled c.operation_id time (o.fingerprint c) text
                  (record db.kept { receipts = row ∷ db.kept.receipts }))
              (ok_text h) (new-IsSettled row db.kept absent)),
      )

run-IsSettled :
    (o : Outside) (requests : List Request) (db : OrganizeDb) (id : Text) (issued : ℕ)
    (fingerprint result : Text)
    → organize_issued id ≡ ok issued
    → IsSettled id issued fingerprint result db.kept
    → IsSettled id issued fingerprint result (run o requests db).kept
unfolding run
run-IsSettled o [] db id issued fingerprint result d s = s
run-IsSettled o (r ∷ requests) db id issued fingerprint result d s =
    run-IsSettled o requests (apply_organize o r.change r.current r.now db).1 id issued fingerprint
      result d
      (Outcome-IsSettled o r.change r.current r.now db issued fingerprint result id d
        (apply_organize-Outcome o r.change r.current r.now db) s)

pub answer-IsSettled :
    (o : Outside) (c : OrganizeChange) (current : List Text) (now : ℕ) (db : OrganizeDb)
    (result : Text) (between : List Request)
    → DistinctReceipts db.kept.receipts
    → All IsDated db.kept.receipts
    → (apply_organize o c current now db).0 ≡ ok result
    → (issued : ℕ) × (organize_issued c.operation_id ≡ ok issued)
      × IsSettled c.operation_id issued
          (o.fingerprint c)
          result
          (run o between (apply_organize o c current now db).1).kept
answer-IsSettled o c current now db result between distinct dates e =
    let (issued, dated, settled) =
      Outcome-settles o c current now db 0 [] result distinct dates
        (apply_organize-Outcome o c current now db) e in
    (
      issued,
      dated,
      run-IsSettled o between (apply_organize o c current now db).1 c.operation_id issued
          (o.fingerprint c) result dated settled,
    )

-- On receipts that have distinct ids and the times of their ids: once a request was answered, then
-- whatever requests follow, with whatever changes, albums and clocks, a request with its operation id
-- leaves the tables and the receipts as they are, and if it is answered, with the same answer and for
-- the same fingerprint.
pub executed_once :
    (o : Outside) (c again : OrganizeChange) (current albums : List Text) (now time : ℕ)
    (db : OrganizeDb) (result : Text) (between : List Request)
    → DistinctReceipts db.kept.receipts
    → All IsDated db.kept.receipts
    → (apply_organize o c current now db).0 ≡ ok result
    → again.operation_id ≡ c.operation_id
    → ((apply_organize o again albums time (run o between (apply_organize o c current now db).1)).1
        ≡ run o between (apply_organize o c current now db).1)
      × ((answered : Text)
          → (apply_organize o again albums time
              (run o between (apply_organize o c current now db).1)).0
            ≡ ok answered
          → (answered ≡ result) × (o.fingerprint again ≡ o.fingerprint c))
executed_once o c again current albums now time db result between distinct dates e same =
    let later = run o between (apply_organize o c current now db).1 in
    let (issued, dated, settled) =
      answer-IsSettled o c current now db result between distinct dates e in
    Outcome-settled o again albums time later issued (o.fingerprint c) result
      (ap organize_issued same ∙ dated) (apply_organize-Outcome o again albums time later)
      (subst (λ id. IsSettled id issued (o.fingerprint c) result later.kept) (sym same) settled)
