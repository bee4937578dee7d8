-- ===== src/Base.antt =====
-- Names that every module shares: the libraries', passed on, and those of the children.
mod Tests
mod Lists
mod Equality
mod Outcome
mod Strings
mod Pieces
mod Bits
mod Bitwise
mod Sorting
mod TextOrder
mod Int
mod Slices
pub mod Dict
pub mod Stateful
pub use Tests.*
pub use Lists.*
unfoldable pub use Equality.*
pub use Outcome.*
unfoldable pub use Strings.*
unfoldable pub use Pieces.*
unfoldable pub use Bits.*
unfoldable pub use Sorting.*
pub use TextOrder.*
pub use Int.*
pub use Slices.*
pub use Bitwise.*
pub use Prim.Native.Nat.{
  ℕ, zero, suc, ◌+◌, ◌-◌, ◌*◌, ◌/◌, ◌%◌, ◌^◌, ◌≤◌, ◌<◌, min, bit_and, bit_or, bit_xor,
}
pub use mathlib.Core.Path.{◌≡◌, refl, sym, ap, ◌∙◌, subst}
pub use mathlib.Core.Logic.{◌≢◌, ◌↔◌, ◌⊎◌, inl, inr, ite, if_pos, if_neg}
pub use mathlib.Core.Bool.{Bool, true, false, not, ◌&&◌, ◌||◌, false≢true}
pub use mathlib.Core.Option.{Option, none, some}
pub use mathlib.Core.List.{List, [], ◌∷◌, ◌++◌, map, append_assoc, append-nil}
pub use native.Mathlib.Omega.{arith}
unfoldable pub use native.Mathlib.Decide.{ℕ_discrete}
