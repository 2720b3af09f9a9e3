-- ===== src/Common.antt =====
-- The names that the modules share: the libraries', passed on, and those of the children.
mod Tests
mod Lists
mod Bits
mod Outcome
mod Order
mod Assoc
pub use Tests.*
pub use Lists.*
pub use Bits.{holds_below_sound, bit_or_byte}
unfoldable pub use Bits.{holds_below}
pub use Outcome.*
pub use Order.{
  then_with, is_lt, is_gt, cmp_bytes-append, compare-digits, Increasing, sort_by-Increasing,
}
unfoldable pub use Order.{cmp_bytes, insert_by, sort_by}
pub use Assoc.{get-erase_at, get-insert_at}
unfoldable pub use Assoc.{get, erase, insert}
pub use Prim.Native.Nat.{
  ℕ, zero, suc, ◌+◌, ◌-◌, ◌*◌, ◌/◌, ◌%◌, ◌^◌, ◌≤◌, ◌<◌, min, max, bit_and, bit_or, bit_xor, compare,
  Ordering,
}
pub use mathlib.Core.Path.{◌≡◌, refl, sym, ap, ◌∙◌}
pub use mathlib.Core.Logic.{◌≢◌, ◌↔◌, ◌⊎◌, inl, inr}
pub use mathlib.Core.Bool.{Bool, true, false, not, ◌&&◌, ◌||◌}
pub use mathlib.Core.Option.{Option, none, some}
pub use mathlib.Core.List.{List, [], ◌∷◌, ◌++◌, map, append-nil, append_assoc}
pub use native.Mathlib.Omega.{arith}
