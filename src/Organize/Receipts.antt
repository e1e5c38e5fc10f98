-- ===== src/Organize/Receipts.antt =====
-- The receipts of organize_receipts.go: their numbers, and which of them are kept.
use web_bijin.Prelude.{
  ℕ, zero, suc, ◌+◌, ◌-◌, ◌*◌, Bool, true, false, ◌&&◌, ◌||◌, List, [], ◌∷◌, ◌++◌, Text,
  if◌then◌else◌, text_eq, ◌==◌, nat_eq, leb, ltb, nat_beq, length, delete_where,
}
use web_bijin.People.Names.{Result, ok, refused, bad_operation_id}
use web_bijin.People.View.{text_less}

abbrev pub organize_receipt_ttl : ℕ
organize_receipt_ttl = 48 * 60 * 60 * 1000

abbrev pub organize_receipt_limit : ℕ
organize_receipt_limit = 256

abbrev pub organize_receipt_bytes : ℕ
organize_receipt_bytes = 16 * 1048576

-- A row of `organize_receipts`.
pub record Receipt : Type 0 where
  pub operation_id : Text
  pub issued : ℕ
  pub fingerprint : Text
  pub result : Text

-- The receipts, and `before_ms` of `organize_receipt_floor`.
pub record Kept : Type 0 where
  pub receipts : List Receipt
  pub floor : ℕ

-- The atoms of `organizeIDPattern`.
pub data Atom : Type 0 where
  digit hex hyphen : Atom

abbrev is_digit : ℕ → Bool
is_digit b = leb b'0' b && leb b b'9'

abbrev matches_atom : Atom → ℕ → Bool
matches_atom digit b = is_digit b
matches_atom hex b = is_digit b || (leb b'a' b && leb b b'f')
matches_atom hyphen b = nat_beq b b'-'

abbrev atoms : ℕ → Atom → List Atom
atoms zero a = []
atoms (suc n) a = a ∷ atoms n a

abbrev organize_id_pattern : List Atom
organize_id_pattern =
    atoms 13 digit
    ++ (hyphen ∷ atoms 8 hex)
    ++ (hyphen ∷ atoms 4 hex)
    ++ (hyphen ∷ atoms 4 hex)
    ++ (hyphen ∷ atoms 4 hex)
    ++ (hyphen ∷ atoms 12 hex)

abbrev matches_atoms : List Atom → Text → Bool
matches_atoms [] [] = true
matches_atoms [] (b ∷ text) = false
matches_atoms (a ∷ pattern_rest) [] = false
matches_atoms (a ∷ pattern_rest) (b ∷ text) = matches_atom a b && matches_atoms pattern_rest text

-- `strconv.ParseInt` of the first digits.
abbrev read_digits : ℕ → ℕ → Text → ℕ
read_digits zero n text = n
read_digits (suc k) n [] = n
read_digits (suc k) n (b ∷ text) = read_digits k (n * 10 + (b - b'0')) text

-- `organizeIssued`
unfoldable pub organize_issued : Text → Result ℕ
organize_issued id =
    if matches_atoms organize_id_pattern id
    then ok (read_digits 13 0 id)
    else refused bad_operation_id

-- `ORDER BY issued_ms DESC, operation_id DESC`
unfoldable pub newer : Receipt → Receipt → Bool
unfolding text_less
newer r q =
    ltb q.issued r.issued || (r.issued == q.issued && text_less q.operation_id r.operation_id)

unfoldable pub insert_newest : Receipt → List Receipt → List Receipt
unfolding newer
insert_newest r [] = r ∷ []
insert_newest r (q ∷ rows) =
    let later = insert_newest r rows in if newer r q then r ∷ q ∷ rows else q ∷ later

unfoldable pub newest_first : List Receipt → List Receipt
unfolding insert_newest
newest_first [] = []
newest_first (r ∷ rows) = insert_newest r (newest_first rows)

-- The loop of `pruneOrganizeReceipts`.
unfoldable pub find_cutoff : ℕ → ℕ → ℕ → List Receipt → ℕ
find_cutoff count size cutoff [] = cutoff
find_cutoff count size cutoff (r ∷ rows) =
    let later = find_cutoff (count + 1) (size + length r.result) cutoff rows in
    if ltb organize_receipt_limit (count + 1) || ltb organize_receipt_bytes (size + length r.result)
    then (if ltb cutoff r.issued then r.issued else cutoff)
    else later

abbrev pub larger : ℕ → ℕ → ℕ
larger a b = if ltb a b then b else a

-- `pruneOrganizeReceipts`
unfoldable pub prune_organize_receipts : ℕ → Kept → Kept
unfolding find_cutoff newest_first
prune_organize_receipts now k =
    let cutoff = find_cutoff 0 0 (now - organize_receipt_ttl) (newest_first k.receipts) in
    record {
      receipts = delete_where (λ (r : Receipt). leb r.issued cutoff) k.receipts;
      floor = larger k.floor cutoff;
    }
