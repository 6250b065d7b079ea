-- ===== src/Prelude.antt =====
-- The names that the modules of this library share: the libraries', passed on, Boolean tests, lists
-- and integers over the native numbers, and the sizes of the program's integer types.
mod Tests
mod Lists
mod Lookup
pub mod Int
pub mod Text
pub use Tests.*
pub use Lists.*
unfoldable pub use Lookup.{lookup, insert, erase}
pub use Lookup.{Assoc, lookup-insert, lookup-erase}
pub use Prim.Native.Nat.{
  ℕ, zero, suc, ◌+◌, ◌-◌, ◌*◌, ◌/◌, ◌%◌, ◌^◌, ◌≤◌, ◌<◌, max, bit_and, bit_or, bit_xor,
}
pub use Prim.Native.String.{String}
pub use Prim.Native.Char.{code}
pub use mathlib.Core.Path.{◌≡◌, refl, sym, ap, ◌∙◌}
pub use mathlib.Core.Logic.{◌≢◌, ◌↔◌, ◌⊎◌, inl, inr}
pub use mathlib.Core.Bool.{Bool, true, false, ◌&&◌, ◌||◌, not}
pub use mathlib.Core.Option.{Option, none, some}
pub use mathlib.Core.List.{List, [], ◌∷◌, ◌++◌, map}
pub use native.Mathlib.Omega.{arith}
pub use text.Mathlib.Text.{◌==◌ as str_eq}
pub use text.Mathlib.TextEquality.{eq_iff}
