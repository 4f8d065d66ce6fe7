-- ===== src/Base.antt =====
-- The names that the modules of this library share: those of the libraries, passed on, and those
-- of the child modules.
mod Tests
mod Lists
pub mod Bits
mod Texts
mod Int
pub use Tests.*
pub use Int.{ℤ, pos, negsuc, is_zero}
pub use Lists.*
pub use Texts.*
pub use Prim.Native.Nat.{ℕ, zero, suc, ◌+◌, ◌-◌, ◌*◌, ◌/◌, ◌%◌, ◌^◌, ◌≤◌, ◌<◌, min}
pub use mathlib.Core.Path.{◌≡◌, refl, sym, ap, ap₂, subst, ◌∙◌}
pub use mathlib.Core.Logic.{◌≢◌, ◌↔◌, ◌⊎◌, inl, inr}
pub use mathlib.Core.Bool.{Bool, true, false, not, ◌&&◌, ◌||◌}
pub use mathlib.Core.Option.{Option, none, some}
pub use mathlib.Core.List.{List, [], ◌∷◌, ◌++◌, map}
pub use mathlib.Core.List.{append-nil, append_assoc}
pub use native.Mathlib.Omega.{arith}
unfoldable pub use native.Mathlib.Decide.{dec_le, dec_lt, ℕ_discrete}

-- A byte is a number below 256; a C string or a memory block is a list of bytes.
abbrev pub Bytes : Type 0
Bytes = List ℕ
