-- ===== src/Base.antt =====
-- Names that every component shares: the libraries', passed on, and those of the children below.
-- Tests and lists over native numbers, results and transactions, tables of rows, and the numbers
-- that JavaScript code receives. No code of the program is modelled here but `transaction`.
pub mod Tests
mod Equality
pub mod Lists
pub mod Outcome
mod Tables
pub mod Int
pub mod Unique
pub mod Number
pub mod Text
pub use Tests.*
pub use Equality.*
pub use Lists.*
pub use Outcome.*
pub use Tables.*
pub use Prim.Native.Nat.{ℕ, zero, suc, ◌+◌, ◌-◌, ◌*◌, ◌/◌, ◌%◌, ◌^◌, ◌≤◌, ◌<◌, min, max}
pub use Prim.Native.String.{String}
pub use mathlib.Core.Path.{◌≡◌, refl, sym, ap, ◌∙◌}
pub use mathlib.Core.Logic.{◌≢◌, ◌↔◌, ◌⊎◌, inl, inr}
pub use mathlib.Core.Bool.{Bool, true, false, not, ◌&&◌, ◌||◌}
pub use mathlib.Core.Option.{Option, none, some}
pub use mathlib.Core.List.{List, [], ◌∷◌, ◌++◌, map, Memᴰ}
pub use native.Mathlib.Omega.{arith}
pub use text.Mathlib.TextEquality.{eq_iff}
