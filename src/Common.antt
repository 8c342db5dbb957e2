-- ===== src/Common.antt =====
-- What every other module shares: the libraries' names, passed on, Boolean tests and lists over
-- the native numbers, text as code points, results, and JSON values.
mod Tests
mod Lists
mod Chars
pub mod Outcome
pub mod Unique
pub mod NoTwo
pub mod Act
pub mod Halt
pub mod Int
pub mod Json
pub mod Str
pub mod Utf8
pub mod Numerals
pub mod Split
pub mod Rounds
pub mod Ordered
pub use Tests.*
pub use Lists.*
unfoldable pub use Chars.*
pub use Prim.Native.Nat.{ℕ, zero, suc, ◌+◌, ◌-◌, ◌*◌, ◌/◌, ◌%◌, ◌^◌, ◌≤◌, ◌<◌, max}
pub use Prim.Native.String.{String}
pub use mathlib.Core.Path.{◌≡◌, refl, sym, ap, ◌∙◌, subst}
pub use mathlib.Core.Logic.{◌≢◌, ◌↔◌, ◌⊎◌, inl, inr}
pub use mathlib.Core.Bool.{Bool, true, false, not, ◌&&◌, ◌||◌}
pub use mathlib.Core.Option.{Option, none, some}
pub use mathlib.Core.List.{List, [], ◌∷◌, ◌++◌, map}
pub use native.Mathlib.Omega.{arith}
pub use text.Mathlib.Text.{◌==◌ as str_eq}
pub use text.Mathlib.TextEquality.{eq_iff as str_eq_iff}
