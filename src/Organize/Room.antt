-- ===== src/Organize/Room.antt =====
-- The receipts of organize_receipts.go stay few, whatever requests come.
use web_bijin.Prelude.{
  ℕ, ◌+◌, ◌-◌, ◌≡◌, ◌≤◌, refl, sym, inl, inr, Bool, true, false, ◌||◌, none, List, [], ◌∷◌, Text,
  arith, Bool-cases, All, subst, All-mono, All-delete_where, text_eq, nat_eq, length, find_where,
  delete_where, leb, ltb,
}
use web_bijin.People.Names.{Result}
use web_bijin.Organize.{
  Outside, OrganizeDb, apply_organize, is_receipt, new_receipt, answer, commit_change,
}
use web_bijin.Organize.Normal.{OrganizeChange}
use web_bijin.Organize.Outcomes.{Outcome, refusal, replayed, executed, apply_organize-Outcome}
use web_bijin.Organize.Settled.{Request, run, DistinctReceipts, IsDated}
use web_bijin.Organize.Receipts.{
  Receipt, Kept, newer, insert_newest, newest_first, find_cutoff, larger, prune_organize_receipts,
  organize_receipt_limit, organize_receipt_bytes, organize_receipt_ttl,
}

abbrev pub total_bytes : List Receipt → ℕ
total_bytes [] = 0
total_bytes (r ∷ rows) = length r.result + total_bytes rows

-- What stands in the table behind every commit.
pub record IsKept (k : Kept) : Type 0 where
  pub distinct : DistinctReceipts k.receipts
  pub dated : All IsDated k.receipts
  pub few : length k.receipts ≤ organize_receipt_limit
  pub small : total_bytes k.receipts ≤ organize_receipt_bytes

abbrev is_old : ℕ → Receipt → Bool
is_old cutoff r = leb r.issued cutoff

abbrev IsNewestFirst : List Receipt → Type 0
IsNewestFirst [] = Unit {0}
IsNewestFirst (r ∷ rows) = All (λ (q : Receipt). q.issued ≤ r.issued) rows × IsNewestFirst rows

All-insert_newest :
    (P : Receipt → Type 0) (r : Receipt) (rows : List Receipt)
    → P r
    → All P rows
    → All P (insert_newest r rows)
unfolding insert_newest
All-insert_newest P r [] h a = (h, tt)
All-insert_newest P r (q ∷ rows) h a = elim (Bool-cases (newer r q)) [
  | inl t ↦ rw (t, insert_newest) (h, a)
  | inr t ↦ rw (t, insert_newest) (a.0, All-insert_newest P r rows h a.1)
]

newer-le : (r q : Receipt) → newer r q ≡ true → q.issued ≤ r.issued
unfolding newer
newer-le r q h = ground arith

older-le : (r q : Receipt) → newer r q ≡ false → r.issued ≤ q.issued
unfolding newer
older-le r q h = ground arith

insert_newest-IsNewestFirst :
    (r : Receipt) (rows : List Receipt) → IsNewestFirst rows → IsNewestFirst (insert_newest r rows)
unfolding insert_newest
insert_newest-IsNewestFirst r [] s = (tt, tt)
insert_newest-IsNewestFirst r (q ∷ rows) s = elim (Bool-cases (newer r q)) [
  | inl t ↦
      rw (t, insert_newest)
        (
          (
            newer-le r q t,
            All-mono (λ (x : Receipt). x.issued ≤ q.issued) _ rows
                (λ x h. omega (arith, newer-le r q t)) s.0,
          ),
          s,
        )
  | inr t ↦
      rw (t, insert_newest)
        (
          All-insert_newest (λ x. x.issued ≤ q.issued) r rows (older-le r q t) s.0,
          insert_newest-IsNewestFirst r rows s.1,
        )
]

newest_first-IsNewestFirst : (rows : List Receipt) → IsNewestFirst (newest_first rows)
unfolding newest_first
newest_first-IsNewestFirst [] = tt
newest_first-IsNewestFirst (r ∷ rows) =
    insert_newest-IsNewestFirst r (newest_first rows) (newest_first-IsNewestFirst rows)

-- What a cutoff leaves does not depend on the order.
left-insert_newest :
    (cutoff : ℕ) (r : Receipt) (rows : List Receipt)
    → (length (delete_where (is_old cutoff) (insert_newest r rows))
        ≡ length (delete_where (is_old cutoff) (r ∷ rows)))
      × (total_bytes (delete_where (is_old cutoff) (insert_newest r rows))
          ≡ total_bytes (delete_where (is_old cutoff) (r ∷ rows)))
unfolding insert_newest newer
left-insert_newest cutoff r [] = (refl, refl)
left-insert_newest cutoff r (q ∷ rows) = ground (arith, left-insert_newest cutoff r rows)

left-newest_first :
    (cutoff : ℕ) (rows : List Receipt)
    → (length (delete_where (is_old cutoff) (newest_first rows))
        ≡ length (delete_where (is_old cutoff) rows))
      × (total_bytes (delete_where (is_old cutoff) (newest_first rows))
          ≡ total_bytes (delete_where (is_old cutoff) rows))
unfolding newest_first
left-newest_first cutoff [] = (refl, refl)
left-newest_first cutoff (r ∷ rows) =
    ground (arith, left-insert_newest cutoff r (newest_first rows), left-newest_first cutoff rows)

cutoff-grows :
    (count size cutoff : ℕ) (rows : List Receipt) → cutoff ≤ find_cutoff count size cutoff rows
unfolding find_cutoff
cutoff-grows count size cutoff [] = omega arith
cutoff-grows count size cutoff (r ∷ rows) =
    ground (arith, cutoff-grows (count + 1) (size + length r.result) cutoff rows)

all_old :
    (cutoff : ℕ) (rows : List Receipt)
    → All (λ (r : Receipt). r.issued ≤ cutoff) rows
    → delete_where (is_old cutoff) rows ≡ []
all_old cutoff [] a = refl
all_old cutoff (r ∷ rows) a = ground (arith, all_old cutoff rows a.1, a.0)

left-cons :
    (cutoff : ℕ) (r : Receipt) (rows : List Receipt)
    → (length (delete_where (is_old cutoff) (r ∷ rows))
        ≤ 1 + length (delete_where (is_old cutoff) rows))
      × (total_bytes (delete_where (is_old cutoff) (r ∷ rows))
          ≤ length r.result + total_bytes (delete_where (is_old cutoff) rows))
left-cons cutoff r rows = ground arith

-- The sizes of what a cutoff leaves.
abbrev Fits : ℕ → ℕ → ℕ → List Receipt → Type 0
Fits count size cutoff rows =
    (count + length (delete_where (is_old cutoff) rows) ≤ organize_receipt_limit)
    × (size + total_bytes (delete_where (is_old cutoff) rows) ≤ organize_receipt_bytes)

Fits-cons :
    (count size cutoff : ℕ) (r : Receipt) (rows : List Receipt)
    → Fits (count + 1) (size + length r.result) cutoff rows
    → Fits count size cutoff (r ∷ rows)
Fits-cons count size cutoff r rows h =
    let (l, b) = left-cons cutoff r rows in (omega (arith, l, h.0), omega (arith, b, h.1))

Fits-old :
    (count size cutoff : ℕ) (rows : List Receipt)
    → All (λ (r : Receipt). r.issued ≤ cutoff) rows
    → count ≤ organize_receipt_limit
    → size ≤ organize_receipt_bytes
    → Fits count size cutoff rows
Fits-old count size cutoff rows a h k = rw (all_old cutoff rows a) (omega arith, omega arith)

find_cutoff-bound :
    (count size cutoff : ℕ) (rows : List Receipt)
    → IsNewestFirst rows
    → count ≤ organize_receipt_limit
    → size ≤ organize_receipt_bytes
    → Fits count size (find_cutoff count size cutoff rows) rows
unfolding find_cutoff
find_cutoff-bound count size cutoff [] s h k = (omega arith, omega arith)
find_cutoff-bound count size cutoff (r ∷ rows) s h k =
    elim (Bool-cases (
      ltb organize_receipt_limit (count + 1)
      || ltb organize_receipt_bytes (size + length r.result))) [
        | inl t ↦
            let stops : find_cutoff count size cutoff (r ∷ rows) ≡ larger cutoff r.issued =
              ground arith in
            subst (λ c. Fits count size c (r ∷ rows)) (sym stops)
              (Fits-old count size (larger cutoff r.issued) (r ∷ rows)
                (
                  ground arith,
                  All-mono (λ (q : Receipt). q.issued ≤ r.issued) _ rows (λ q h. ground arith) s.0,
                )
                h k)
        | inr t ↦
            let goes_on : find_cutoff count size cutoff (r ∷ rows)
                ≡ find_cutoff (count + 1) (size + length r.result) cutoff rows =
              ground arith in
            subst (λ c. Fits count size c (r ∷ rows)) (sym goes_on)
              (Fits-cons count size (find_cutoff (count + 1) (size + length r.result) cutoff rows) r
                rows
                (find_cutoff-bound (count + 1) (size + length r.result) cutoff rows s.1
                  (ground arith) (ground arith)))
      ]

prune-Fits :
    (now : ℕ) (k : Kept)
    → (length (prune_organize_receipts now k).receipts ≤ organize_receipt_limit)
      × (total_bytes (prune_organize_receipts now k).receipts ≤ organize_receipt_bytes)
unfolding prune_organize_receipts
prune-Fits now k =
    let cutoff = find_cutoff 0 0 (now - organize_receipt_ttl) (newest_first k.receipts) in
    let (few, small) =
      find_cutoff-bound 0 0 (now - organize_receipt_ttl) (newest_first k.receipts)
        (newest_first-IsNewestFirst k.receipts) (omega arith) (omega arith) in
    let (l, b) = left-newest_first cutoff k.receipts in
    (omega (arith, few, l), omega (arith, small, b))

delete-absent :
    (id : Text) (test : Receipt → Bool) (rows : List Receipt)
    → find_where (is_receipt id) rows ≡ none
    → find_where (is_receipt id) (delete_where test rows) ≡ none
delete-absent id test [] h = refl
delete-absent id test (r ∷ rows) h = ground (arith, delete-absent id test rows)

delete-DistinctReceipts :
    (test : Receipt → Bool) (rows : List Receipt)
    → DistinctReceipts rows
    → DistinctReceipts (delete_where test rows)
delete-DistinctReceipts test [] d = tt
delete-DistinctReceipts test (r ∷ rows) d =
    ground
      (arith, delete-absent r.operation_id test rows d.0, delete-DistinctReceipts test rows d.1)

prune-IsKept :
    (now : ℕ) (k : Kept)
    → DistinctReceipts k.receipts
    → All IsDated k.receipts
    → IsKept (prune_organize_receipts now k)
unfolding prune_organize_receipts
prune-IsKept now k d a =
    let (few, small) = prune-Fits now k in
    record {
      distinct = delete-DistinctReceipts _ k.receipts d;
      dated = All-delete_where IsDated _ k.receipts a;
      few = few;
      small = small;
    }

Outcome-IsKept :
    (o : Outside) (c : OrganizeChange) (current : List Text) (now : ℕ) (db : OrganizeDb)
    {x : Result Text × OrganizeDb}
    → Outcome o c current now db x
    → IsKept db.kept
    → IsKept x.1.kept
unfolding commit_change
Outcome-IsKept o c current now db (refusal e) k = k
Outcome-IsKept o c current now db (replayed issued r d e same) k = k
Outcome-IsKept o c current now db (executed issued done d absent later change) k =
    prune-IsKept now
      (record db.kept {
        receipts = new_receipt o issued c (o.encode (answer c current done)) ∷ db.kept.receipts;
      })
      (absent, k.distinct) (d, k.dated)

-- Whatever requests come, the receipts keep distinct ids, have the times of their ids, are at most 256,
-- and hold at most 16 MiB of results.
pub run-IsKept :
    (o : Outside) (requests : List Request) (db : OrganizeDb)
    → IsKept db.kept
    → IsKept (run o requests db).kept
unfolding run
run-IsKept o [] db k = k
run-IsKept o (r ∷ requests) db k =
    run-IsKept o requests (apply_organize o r.change r.current r.now db).1 (
      Outcome-IsKept o r.change r.current r.now db
        (apply_organize-Outcome o r.change r.current r.now db) k)
