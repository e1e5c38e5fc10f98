-- ===== src/Order/Bits.antt =====
-- The exclusive or of order.go stays within a machine word.
use Prim.Native.Nat.{bit_xor, digits, differ, bit_xor-bitwise}
use web_bijin.Prelude.{ℕ, zero, suc, ◌+◌, ◌*◌, ◌/◌, ◌%◌, ◌^◌, ◌≤◌, ◌<◌, ◌≡◌, refl, arith}
use native.Mathlib.Nat.{pow-suc}
use web_bijin.Order.{word, fold_right, photo_rank}

-- The digits that are left once the fuel covers the first number.
enough_fuel :
    (k l n m : ℕ) → n ≤ k → n ≤ l → digits (λ y. y) differ k n m ≡ digits (λ y. y) differ l n m
enough_fuel zero zero n m h g = refl
enough_fuel zero (suc l) zero m h g = refl
enough_fuel zero (suc l) (suc n) m h g = absurd (omega arith)
enough_fuel (suc k) zero zero m h g = refl
enough_fuel (suc k) zero (suc n) m h g = absurd (omega arith)
enough_fuel (suc k) (suc l) zero m h g = refl
enough_fuel (suc k) (suc l) (suc n) m h g =
    omega (arith, enough_fuel k l (suc n / 2) (m / 2) (omega arith) (omega arith))

zero-bit_xor : (m : ℕ) → bit_xor 0 m ≡ m
zero-bit_xor m = bit_xor-bitwise 0 m

suc-bit_xor :
    (n m : ℕ) → bit_xor (suc n) m ≡ bit_xor (suc n / 2) (m / 2) * 2 + differ (suc n % 2) (m % 2)
suc-bit_xor n m = omega (
  arith,
  bit_xor-bitwise (suc n) m,
  bit_xor-bitwise (suc n / 2) (m / 2),
  enough_fuel n (suc n / 2) (suc n / 2) (m / 2) (omega arith) (omega arith),
)

differ-le : (x y : ℕ) → x < 2 → y < 2 → differ x y ≤ 1
differ-le zero y h g = omega arith
differ-le (suc zero) zero h g = omega arith
differ-le (suc zero) (suc y) h g = omega arith
differ-le (suc (suc x)) y h g = absurd (omega arith)

-- Numbers of k bits have an exclusive or of k bits.
pub bit_xor-lt : (k n m : ℕ) → n < 2 ^ k → m < 2 ^ k → bit_xor n m < 2 ^ k
bit_xor-lt k zero m h g = rw (zero-bit_xor m) g
bit_xor-lt zero (suc n) m h g = absurd (omega arith)
bit_xor-lt (suc k) (suc n) m h g =
    let wide : 2 ^ suc k ≡ 2 * 2 ^ k = omega (arith, pow-suc 2 k) in
    omega (
      arith,
      wide,
      suc-bit_xor n m,
      differ-le (suc n % 2) (m % 2) (omega arith) (omega arith),
      bit_xor-lt k (suc n / 2) (m / 2) (omega (arith, wide)) (omega (arith, wide)),
    )

fold_right-lt : (k h : ℕ) → h < word → fold_right k h < word
fold_right-lt k h small = bit_xor-lt 64 h (h / 2 ^ k) small (grind (arith, small))

-- The rank of a photo is a machine word, for every seed that is one.
pub photo_rank-lt : (seed id : ℕ) → seed < word → photo_rank seed id < word
unfolding photo_rank
photo_rank-lt seed id h =
    let h0 = bit_xor seed 0x9e3779b97f4a7c15 in
    let h1 = bit_xor h0 (id * 0xbf58476d1ce4e5b9 % word) in
    let h3 = fold_right 30 h1 * 0x94d049bb133111eb % word in fold_right-lt 31 h3 (omega arith)
