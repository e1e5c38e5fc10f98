-- ===== src/Prelude.antt =====
-- The names that the other modules share: the libraries', passed on, and those of the children.
mod Tests
mod Lists
mod Texts
mod Counts
pub mod Decimal
pub use Tests.{
  ltb, leb, nat_beq, if◌then◌else◌, ltb→lt, lt→ltb, leb→le, nat_beq_iff, Bool-cases, Option-cases,
  some_injective, if-both, if-knowing, Comparable, ◌==◌, nat_eq, Text, text_eq, text_beq_iff,
  text_beq_refl,
}
unfoldable pub use Tests.{text_beq}
pub use Lists.*
pub use Counts.*
pub use Texts.{codes, contains_byte, extend_head, lower_byte, has_prefix-append, join_with-split_on}
unfoldable pub use Texts.{has_prefix, split_on, join_with, to_lower, remove_byte}
pub use Prim.Native.Nat.{ℕ, zero, suc, ◌+◌, ◌-◌, ◌*◌, ◌/◌, ◌%◌, ◌^◌, ◌≤◌, ◌<◌}
pub use mathlib.Core.Path.{◌≡◌, refl, sym, ap, ◌∙◌, subst}
pub use mathlib.Core.Logic.{◌≢◌, ◌↔◌, ◌⊎◌, inl, inr}
pub use mathlib.Core.Bool.{Bool, true, false, not, ◌&&◌, ◌||◌}
pub use mathlib.Core.Option.{Option, none, some}
pub use mathlib.Core.List.{List, [], ◌∷◌, ◌++◌, map, append-nil, append_assoc}
pub use native.Mathlib.Omega.{arith}
