-- ===== src/Prelude.antt =====
-- The names that the modules share: the libraries', passed on, and those of its children.
mod Tests
mod Lists
mod Words
mod Arrays
mod Bits
pub use Tests.*
pub use Lists.*
pub use Words.*
pub use Bits.{bit_and_ones4, bit_and_ones8, bit_and_ones16, bit_or_fields, or_zero}
pub use Arrays.{
  items, length-items, items-append, items_split, items-cong, All-items, items-update,
  items-shift_down, items-shift_up, shift_down_at, shift_up_at,
}
unfoldable pub use Arrays.{shift_down, shift_up}
pub use Prim.Native.Nat.{ℕ, zero, suc, ◌+◌, ◌-◌, ◌*◌, ◌/◌, ◌%◌, ◌^◌, ◌≤◌, ◌<◌, bit_and, bit_or}
pub use mathlib.Core.Path.{◌≡◌, refl, sym, ap, ap₂, ◌∙◌}
pub use mathlib.Core.Logic.{◌≢◌, ◌↔◌, ◌⊎◌, inl, inr}
pub use mathlib.Core.Bool.{Bool, true, false, not, ◌&&◌, ◌||◌}
pub use mathlib.Core.Option.{Option, none, some}
pub use mathlib.Core.List.{List, [], ◌∷◌, ◌++◌, map, append-nil, append_assoc}
pub use native.Mathlib.Omega.{arith}
