-- ===== src/Organize/Settled.antt =====
-- What it means in organize_receipts.go that an operation id was answered and is settled for good.
use web_bijin.Prelude.{
  ℕ, ◌-◌, ◌≡◌, ◌≢◌, ◌≤◌, refl, subst, inl, inr, Bool, true, none, some, List, [], ◌∷◌, Text, arith,
  Bool-cases, Option-cases, All, All-mono, All-delete_where, All-find_where, text_eq, nat_eq,
  text_beq_iff, text_beq_refl, find_where, find_where-holds, delete_where, leb,
}
use web_bijin.People.Names.{ok}
use web_bijin.Organize.{Outside, OrganizeDb, apply_organize, is_receipt}
use web_bijin.Organize.Normal.{OrganizeChange}
use web_bijin.Organize.Receipts.{
  Receipt, Kept, organize_issued, prune_organize_receipts, find_cutoff, newest_first, larger,
  organize_receipt_ttl,
}

-- A request, with the albums and the time that it finds.
pub record Request : Type 0 where
  pub change : OrganizeChange
  pub current : List Text
  pub now : ℕ

unfoldable pub run : Outside → List Request → OrganizeDb → OrganizeDb
unfolding apply_organize
run o [] db = db
run o (r ∷ requests) db = run o requests (apply_organize o r.change r.current r.now db).1

-- `operation_id TEXT PRIMARY KEY`, and that a receipt has the time of its id.
abbrev pub DistinctReceipts : List Receipt → Type 0
DistinctReceipts [] = Unit {0}
DistinctReceipts (r ∷ rows) =
    (find_where (is_receipt r.operation_id) rows ≡ none) × DistinctReceipts rows

abbrev pub IsDated : Receipt → Type 0
IsDated r = organize_issued r.operation_id ≡ ok r.issued

-- The receipts of an id have this result, and where there is none the floor has passed the id's time.
pub record IsSettled (id : Text) (issued : ℕ) (fingerprint result : Text) (k : Kept) : Type 0 where
  pub rows :
      All
        (λ (r : Receipt).
          r.operation_id ≡ id
          → (r.issued ≡ issued) × (r.fingerprint ≡ fingerprint) × (r.result ≡ result))
        k.receipts
  pub gone : find_where (is_receipt id) k.receipts ≡ none → issued ≤ k.floor

pub absent-All :
    (id : Text) (rows : List Receipt)
    → find_where (is_receipt id) rows ≡ none
    → All (λ (r : Receipt). r.operation_id ≢ id) rows
absent-All id [] h = tt
absent-All id (r ∷ rows) h =
    (ground (arith, text_beq_iff r.operation_id id), absent-All id rows (ground arith))

-- Where a row is no longer found, it was deleted.
find-deleted :
    (test drop_it : Receipt → Bool) (rows : List Receipt) {r : Receipt}
    → find_where test rows ≡ some r
    → find_where test (delete_where drop_it rows) ≡ none
    → drop_it r ≡ true
find-deleted test drop_it [] e h = cc
find-deleted test drop_it (q ∷ rows) {r} e h = elim (Bool-cases (test q)) [
  | inl t ↦ let same : q ≡ r = ground arith in subst (λ x. drop_it x ≡ true) same (ground arith)
  | inr t ↦ find-deleted test drop_it rows {r = r} (ground arith) (ground arith)
]

-- Pruning settles nothing anew and unsettles nothing.
pub prune-IsSettled :
    (now : ℕ) (k : Kept) (id : Text) (issued : ℕ) (fingerprint result : Text)
    → IsSettled id issued fingerprint result k
    → IsSettled id issued fingerprint result (prune_organize_receipts now k)
unfolding prune_organize_receipts
prune-IsSettled now k id issued fingerprint result s = record {
  rows = All-delete_where _ _ k.receipts s.rows;
  gone = gone_at (find_cutoff 0 0 (now - organize_receipt_ttl) (newest_first k.receipts));
}
  where
    gone_at :
        (cutoff : ℕ)
        → find_where
            (is_receipt id)
            (delete_where (λ (r : Receipt). leb r.issued cutoff) k.receipts)
          ≡ none
        → issued ≤ larger k.floor cutoff
    gone_at cutoff h = elim (Option-cases (find_where (is_receipt id) k.receipts)) [
      | inl e ↦ ground (arith, s.gone e)
      | inr (r, e) ↦
          let same =
            (text_beq_iff r.operation_id id).0 (find_where-holds (is_receipt id) k.receipts e) in
          let (time, _, _) = All-find_where _ (is_receipt id) k.receipts e s.rows same in
          let old : leb r.issued cutoff ≡ true =
            find-deleted (is_receipt id) (λ (q : Receipt). leb q.issued cutoff) k.receipts e h in
          ground (arith, time)
    ]

pub ok_injective : {a b : ℕ} → ok a ≡ ok b → a ≡ b
ok_injective e = cc

-- A row of a table with distinct ids is the only one with its id.
pub only_found :
    (id : Text) (rows : List Receipt) {r : Receipt}
    → DistinctReceipts rows
    → find_where (is_receipt id) rows ≡ some r
    → All (λ (q : Receipt). q.operation_id ≡ id → q ≡ r) rows
only_found id [] d e = tt
only_found id (q ∷ rows) {r} d e = elim (Bool-cases (is_receipt id q)) [
  | inl t ↦
      let is_id = (text_beq_iff q.operation_id id).0 t in
      let same : q ≡ r = ground arith in
      (
        λ _. same,
        All-mono (λ (x : Receipt). x.operation_id ≢ id) _ rows (λ x ne e. absurd (ne e))
            (absent-All id rows (subst (λ i. find_where (is_receipt i) rows ≡ none) is_id d.0)),
      )
  | inr t ↦ (
    λ (h : q.operation_id ≡ id). absurd (ground (arith, text_beq_iff q.operation_id id)),
    only_found id rows {r = r} d.1 (ground arith),
  )
]

pub ok_text : {a b : Text} → ok a ≡ ok b → a ≡ b
ok_text e = cc

pub new-IsSettled :
    (r : Receipt) (k : Kept)
    → find_where (is_receipt r.operation_id) k.receipts ≡ none
    → IsSettled r.operation_id r.issued r.fingerprint r.result
        (record k { receipts = r ∷ k.receipts })
new-IsSettled r k absent = record {
  rows = (
    λ e. (refl, refl, refl),
    All-mono (λ (q : Receipt). q.operation_id ≢ r.operation_id) _ k.receipts
        (λ q ne e. absurd (ne e)) (absent-All r.operation_id k.receipts absent),
  );
  gone = λ h. absurd (ground (arith, text_beq_refl r.operation_id));
}

pub other-IsSettled :
    (r : Receipt) (k : Kept) (id : Text) (issued : ℕ) (fingerprint result : Text)
    → r.operation_id ≢ id
    → IsSettled id issued fingerprint result k
    → IsSettled id issued fingerprint result (record k { receipts = r ∷ k.receipts })
other-IsSettled r k id issued fingerprint result ne s = record {
  rows = (λ e. absurd (ne e), s.rows);
  gone = λ h. s.gone (ground (arith, text_beq_iff r.operation_id id));
}
