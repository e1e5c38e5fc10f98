-- ===== src/Order.antt =====
-- order.go: the shuffled order of the gallery and its page cursors. A uint64 keeps its wrap-around;
-- an int64 that the code converts to uint64 is given as its bit pattern.
pub mod Bits
pub mod Cursor
mod Tests
use Prim.Native.Nat.{bit_xor}
use web_bijin.Prelude.{ℕ, ◌+◌, ◌*◌, ◌/◌, ◌%◌, ◌^◌}

abbrev pub word : ℕ
word = 2 ^ 64

-- `h ^= h >> k`
abbrev pub fold_right : ℕ → ℕ → ℕ
fold_right k h = bit_xor h (h / 2 ^ k)

-- `photoRank`
unfoldable pub photo_rank : ℕ → ℕ → ℕ
photo_rank seed id =
    let h0 = bit_xor seed 0x9e3779b97f4a7c15 in
    let h1 = bit_xor h0 (id * 0xbf58476d1ce4e5b9 % word) in
    let h2 = fold_right 30 h1 in let h3 = h2 * 0x94d049bb133111eb % word in fold_right 31 h3
