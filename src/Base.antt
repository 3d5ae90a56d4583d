-- ===== src/Base.antt =====
-- The names that every module of the development shares: those of the libraries, passed on, Boolean
-- tests on numbers, fixed-size C arrays, signed status codes, and facts about machine words.
mod Tests
mod Array
mod Int
mod Bits
mod Xor
pub use Tests.*
unfoldable pub use Array.*
pub use Int.*
pub use Bits.*
pub use Xor.*
pub use Prim.Native.Nat.{
  ℕ, zero, suc, ◌+◌, ◌-◌, ◌*◌, ◌/◌, ◌%◌, ◌^◌, ◌≤◌, ◌<◌, min, bit_and, bit_or, bit_xor,
}
pub use mathlib.Core.Path.{◌≡◌, refl, sym, ap, ap₂, ◌∙◌, fun_ext, subst}
pub use mathlib.Core.Logic.{◌≢◌, ◌↔◌, ◌⊎◌, inl, inr}
pub use mathlib.Core.Bool.{Bool, true, false, not, ◌&&◌, ◌||◌}
pub use mathlib.Core.Option.{Option, none, some}
pub use mathlib.Core.List.{List, [], ◌∷◌, ◌++◌, map}
pub use native.Mathlib.Omega.{arith}
