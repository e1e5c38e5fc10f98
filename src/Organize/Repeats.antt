-- ===== src/Organize/Repeats.antt =====
-- A lost answer of the organize page is found again while its receipt is kept.
use web_bijin.Prelude.{
  ℕ, ◌+◌, ◌*◌, ◌≡◌, ◌≤◌, refl, ap, ◌∙◌, false, some, List, Text, arith, All, All-find_where,
  text_eq, nat_eq, text_beq, text_beq_iff, find_where, find_where-holds, ltb,
}
use web_bijin.People.Names.{ok}
use web_bijin.Organize.{
  Outside, OrganizeDb, apply_organize, commit_organize, is_receipt, receipt, committed,
}
use web_bijin.Organize.Normal.{OrganizeChange}
use web_bijin.Organize.Settled.{Request, run, DistinctReceipts, IsDated}
use web_bijin.Organize.Once.{answer-IsSettled}
use web_bijin.Organize.Receipts.{Receipt, organize_issued}

not_ahead : (limit issued : ℕ) → issued ≤ limit → ltb limit issued ≡ false
not_ahead limit issued h = ground arith

module _ (o : Outside) (c : OrganizeChange) (db : OrganizeDb) (r : Receipt) (issued : ℕ)
    (dated : organize_issued c.operation_id ≡ ok issued)
    (found : find_where (is_receipt c.operation_id) db.kept.receipts ≡ some r) where
  replay_found :
      (albums : List Text) (time : ℕ)
      → issued ≤ time + 5 * 60 * 1000
      → r.fingerprint ≡ o.fingerprint c
      → apply_organize o c albums time db ≡ (ok r.result, db)
  unfolding apply_organize commit_organize text_beq
  replay_found albums time h same =
      let on_time : ltb (time + 5 * 60 * 1000) issued ≡ false =
        not_ahead (time + 5 * 60 * 1000) issued h in
      let equal = (text_beq_iff r.fingerprint (o.fingerprint c)).1 same in
      rw (apply_organize, commit_organize, dated, on_time, found, equal) refl

  receipt_found : (time : ℕ) → receipt c.operation_id time db ≡ ok (committed r.result)
  unfolding receipt
  receipt_found time = rw (receipt, dated, found) refl

-- Once a request was answered, then whatever requests follow: as long as its receipt is kept, and the
-- clock is not more than five minutes behind its time, repeating it gives the first answer and changes
-- nothing, and asking for its receipt gives that answer too.
pub lost_answer_found :
    (o : Outside) (c : OrganizeChange) (current albums : List Text) (now time issued : ℕ)
    (db : OrganizeDb) (result : Text) (between : List Request) (r : Receipt)
    → DistinctReceipts db.kept.receipts
    → All IsDated db.kept.receipts
    → (apply_organize o c current now db).0 ≡ ok result
    → find_where
        (is_receipt c.operation_id)
        (run o between (apply_organize o c current now db).1).kept.receipts
      ≡ some r
    → organize_issued c.operation_id ≡ ok issued
    → issued ≤ time + 5 * 60 * 1000
    → (apply_organize o c albums time (run o between (apply_organize o c current now db).1)
        ≡ (ok result, run o between (apply_organize o c current now db).1))
      × (receipt c.operation_id time (run o between (apply_organize o c current now db).1)
          ≡ ok (committed result))
lost_answer_found o c current albums now time issued db result between r distinct dates e found
      dated h =
    let later = run o between (apply_organize o c current now db).1 in
    let (_, _, settled) = answer-IsSettled o c current now db result between distinct dates e in
    let is_id =
      (text_beq_iff r.operation_id c.operation_id).0
        (find_where-holds (is_receipt c.operation_id) later.kept.receipts found) in
    let (_, prints, results) =
      All-find_where _ (is_receipt c.operation_id) later.kept.receipts found settled.rows is_id in
    (
      replay_found o c later r issued dated found albums time h prints
          ∙ ap (λ text. (ok text, later)) results,
      receipt_found o c later r issued dated found time ∙ ap (λ text. ok (committed text)) results,
    )
