-- ===== src/Prelude/Decimal.antt =====
-- Decimal numbers as Go's `strconv` prints and reads them.
use Prim.Native.Nat.{ℕ, zero, suc, ◌+◌, ◌-◌, ◌*◌, ◌/◌, ◌%◌, ◌<◌}
use mathlib.Core.Path.{◌≡◌, refl}
use mathlib.Core.Logic.{inl, inr}
use mathlib.Core.Bool.{Bool, false, ◌&&◌}
use mathlib.Core.List.{[], ◌∷◌}
use native.Mathlib.Omega.{arith}
use web_bijin.Prelude.Tests.{Text, ltb, leb, if◌then◌else◌, Bool-cases}
use web_bijin.Prelude.Texts.{contains_byte}

-- `negsuc n` is -(n + 1).
pub data ℤ : Type 0 where
  pos : ℕ → ℤ
  negsuc : ℕ → ℤ

-- What a `Parse…` call gives: a number, a syntax error or a range error.
pub data Parsed : Type 0 where
  value : ℕ → Parsed
  bad : Parsed
  too_big : Parsed

abbrev pub is_digit : ℕ → Bool
is_digit c = leb b'0' c && leb c b'9'

abbrev digit : ℕ → ℕ
digit n = 48 + n % 10

digits_from : ℕ → ℕ → Text → Text
digits_from zero n acc = acc
digits_from (suc f) n acc =
    let rest = digits_from f (n / 10) (digit n ∷ acc) in if ltb n 10 then digit n ∷ acc else rest

-- `strconv.FormatUint(n, 10)`; a number needs fewer rounds than its value and one.
unfoldable pub to_decimal : ℕ → Text
unfolding digits_from
to_decimal n = digits_from (suc n) n []

-- The loop of `strconv.ParseUint`, below `limit`.
unfoldable pub parse_digits : ℕ → ℕ → Text → Parsed
parse_digits limit acc [] = value acc
parse_digits limit acc (c ∷ s) =
    let next = acc * 10 + (c - 48) in
    let rest = parse_digits limit next s in
    if is_digit c then (if ltb next limit then rest else too_big) else bad

unfoldable pub parse_uint : ℕ → Text → Parsed
unfolding parse_digits
parse_uint limit [] = bad
parse_uint limit (c ∷ s) = parse_digits limit 0 (c ∷ s)

digits_from-read :
    (limit f n : ℕ) (acc : Text)
    → n < f
    → n < limit
    → parse_digits limit 0 (digits_from f n acc) ≡ parse_digits limit n acc
unfolding digits_from parse_digits
digits_from-read limit zero n acc h k = elim h [ ]
digits_from-read limit (suc f) n acc h k = elim (Bool-cases (ltb n 10)) [
  | inl small ↦ rw small (ground arith)
  | inr large ↦ rw large (
      ground
        (arith, digits_from-read limit f (n / 10) (digit n ∷ acc) (ground arith) (ground arith)))
]

digits_from-cons :
    (f n : ℕ) (acc : Text) → n < f → (c : ℕ) × (s : Text) × (digits_from f n acc ≡ c ∷ s)
unfolding digits_from
digits_from-cons zero n acc h = elim h [ ]
digits_from-cons (suc f) n acc h = elim (Bool-cases (ltb n 10)) [
  | inl small ↦ (digit n, acc, rw small)
  | inr large ↦ rw large (digits_from-cons f (n / 10) (digit n ∷ acc) (ground arith))
]

pub to_decimal-cons : (n : ℕ) → (c : ℕ) × (s : Text) × (to_decimal n ≡ c ∷ s)
unfolding to_decimal
to_decimal-cons n = digits_from-cons (suc n) n [] (omega arith)

-- A printed number is read back.
pub parse_uint-to_decimal : (limit n : ℕ) → n < limit → parse_uint limit (to_decimal n) ≡ value n
unfolding parse_uint to_decimal
parse_uint-to_decimal limit n h =
    let (c, s, e) = digits_from-cons (suc n) n [] (omega arith) in
    ground (arith, e, digits_from-read limit (suc n) n [] (omega arith) h)

digits_from-pure :
    (b f n : ℕ) (acc : Text)
    → is_digit b ≡ false
    → contains_byte b acc ≡ false
    → contains_byte b (digits_from f n acc) ≡ false
unfolding digits_from
digits_from-pure b zero n acc h k = k
digits_from-pure b (suc f) n acc h k =
    ground (arith, digits_from-pure b f (n / 10) (digit n ∷ acc) h (ground arith))

-- A printed number holds digits only.
pub to_decimal-pure : (b n : ℕ) → is_digit b ≡ false → contains_byte b (to_decimal n) ≡ false
unfolding to_decimal
to_decimal-pure b n h = digits_from-pure b (suc n) n [] h refl
