-- ===== src/Order/Cursor.antt =====
-- `parseCursor` and `formatCursor` of order.go.
use web_bijin.Prelude.{
  ℕ, ◌-◌, ◌^◌, ◌<◌, ◌≡◌, refl, Bool, true, false, Option, none, some, [], ◌∷◌, ◌++◌, Text, arith,
  ltb, nat_beq, if◌then◌else◌, contains_byte,
}
use web_bijin.Prelude.Decimal.{
  ℤ, pos, negsuc, Parsed, value, bad, too_big, to_decimal, parse_uint, parse_uint-to_decimal,
  to_decimal-pure, to_decimal-cons,
}
use web_bijin.Order.{word, photo_rank}
use web_bijin.Order.Bits.{photo_rank-lt}

abbrev dash : ℕ
dash = b'-'

abbrev half_word : ℕ
half_word = 2 ^ 63

-- `strings.SplitN(after, "-", 2)`: `none` where there is one part only.
split_dash : Text → Option (Text × Text)
split_dash [] = none
split_dash (c ∷ s) =
    let rest = split_dash s in
    if nat_beq c dash
    then some ([], s)
    else elim rest [ none ↦ none | some (head, tail) ↦ some (c ∷ head, tail) ]

-- `rank, _ = strconv.ParseUint(…)`: a range error leaves the largest value.
abbrev uint_or : Parsed → ℕ
uint_or p = elim p [ value n ↦ n | bad ↦ 0 | too_big ↦ word - 1 ]

-- The digits of `strconv.ParseInt` behind the sign; the largest int64, or the smallest, on a range
-- error.
signed_or : Bool → Parsed → ℤ
signed_or negative bad = pos 0
signed_or true too_big = negsuc (half_word - 1)
signed_or false too_big = pos (half_word - 1)
signed_or true (value n) =
    if nat_beq n 0
    then pos 0
    else if ltb half_word n
    then negsuc (half_word - 1)
    else negsuc (n - 1)
signed_or false (value n) = if ltb n half_word then pos n else pos (half_word - 1)

-- `id, _ = strconv.ParseInt(…)`
int_or : Text → ℤ
unfolding signed_or
int_or [] = pos 0
int_or (c ∷ s) =
    if nat_beq c dash
    then signed_or true (parse_uint word s)
    else if nat_beq c b'+'
    then signed_or false (parse_uint word s)
    else signed_or false (parse_uint word (c ∷ s))

unfoldable pub parse_cursor : Text → ℕ × ℤ
unfolding split_dash int_or
parse_cursor after = elim (split_dash after) [
  | none ↦ (0, pos 0)
  | some (rank, id) ↦ (uint_or (parse_uint word rank), int_or id)
]

-- The cursor behind the photo with this id, which is not negative.
unfoldable pub format_cursor : ℕ → ℕ → Text
format_cursor seed id = to_decimal (photo_rank seed id) ++ (dash ∷ to_decimal id)

split_dash-pure :
    (head tail : Text)
    → contains_byte dash head ≡ false
    → split_dash (head ++ (dash ∷ tail)) ≡ some (head, tail)
unfolding split_dash
split_dash-pure [] tail h = refl
split_dash-pure (c ∷ head) tail h = ground (arith, split_dash-pure head tail)

int_or-decimal : (id : ℕ) → id < half_word → int_or (to_decimal id) ≡ pos id
unfolding int_or
int_or-decimal id h =
    let (c, s, e) = to_decimal-cons id in
    let read = parse_uint-to_decimal word id (omega arith) in
    let no_sign = to_decimal-pure dash id refl in
    let no_plus = to_decimal-pure b'+' id refl in
    rw e (ground (arith, e, rw e at read, rw e at no_sign, rw e at no_plus))

-- A cursor is read back as it was written, for every seed that is a 64-bit pattern and every id that
-- is a natural number below 2^63.
pub parse_cursor-format_cursor :
    (seed id : ℕ)
    → seed < 2 ^ 64
    → id < 2 ^ 63
    → parse_cursor (format_cursor seed id) ≡ (photo_rank seed id, pos id)
unfolding parse_cursor format_cursor
parse_cursor-format_cursor seed id small within =
    rw
      (
        split_dash-pure (to_decimal (photo_rank seed id)) (to_decimal id)
            (to_decimal-pure dash (photo_rank seed id) refl),
        parse_cursor,
      )
      (ground (
        arith,
        parse_uint-to_decimal word (photo_rank seed id) (photo_rank-lt seed id small),
        int_or-decimal id within,
      ))

-- No cursor stands for the start.
pub parse_cursor-empty : parse_cursor [] ≡ (0, pos 0)
unfolding parse_cursor split_dash
parse_cursor-empty = refl
