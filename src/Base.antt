-- ===== src/Base.antt =====
-- The names that the other modules share: the libraries', passed on, and those of the children.
mod Tests
mod Lists
mod Chains
mod Splices
mod Loops
mod Ticks
mod Bits
mod DoublyLinked
mod Sorted
mod Bytes
mod Masks
mod Members
pub use Tests.*
pub use Lists.*
pub use Chains.*
pub use Splices.*
unfoldable pub use Loops.*
unfoldable pub use Ticks.*
unfoldable pub use Bits.*
pub use DoublyLinked.*
pub use Sorted.*
pub use Bytes.*
pub use Masks.*
pub use Members.*
pub use Prim.Native.Nat.{
  ℕ, zero, suc, ◌+◌, ◌-◌, ◌*◌, ◌/◌, ◌%◌, ◌^◌, ◌≤◌, ◌<◌, bit_and, bit_or, bit_xor,
}
pub use mathlib.Core.Path.{◌≡◌, refl, sym, ap, ap₂, ◌∙◌, subst, ◌≡⟨◌⟩◌, ◌∎}
pub use mathlib.Core.Logic.{◌≢◌, ◌↔◌, ◌⊎◌, inl, inr}
pub use mathlib.Core.Bool.{Bool, true, false, not, ◌&&◌, ◌||◌}
pub use mathlib.Core.Option.{Option, none, some}
pub use mathlib.Core.List.{List, [], ◌∷◌, ◌++◌, append_assoc, append-nil}
pub use native.Mathlib.Omega.{arith}
