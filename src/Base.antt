-- ===== src/Base.antt =====
-- The names that the modules of this library share: those of the common libraries, passed on, and
-- the tests, lists, texts, dictionaries and tables of its children.
mod Tests
mod Lists
mod Texts
mod Dicts
mod Updates
mod Counts
mod Integers
pub use Tests.*
pub use Lists.*
pub use Texts.*
pub use Dicts.*
pub use Updates.*
pub use Counts.*
pub use Integers.*
pub use Prim.Native.Nat.{ℕ, zero, suc, ◌+◌, ◌-◌, ◌*◌, ◌/◌, ◌%◌, ◌^◌, ◌≤◌, ◌<◌, min, max}
pub use Prim.Native.String.{String}
pub use mathlib.Core.Path.{◌≡◌, refl, sym, ap, ◌∙◌}
pub use mathlib.Core.Logic.{◌≢◌, ◌↔◌, ◌⊎◌, inl, inr}
pub use mathlib.Core.Bool.{Bool, true, false, not, ◌&&◌, ◌||◌}
pub use mathlib.Core.Option.{Option, none, some}
pub use mathlib.Core.List.{List, [], ◌∷◌, ◌++◌, map, Mem}
pub use native.Mathlib.Omega.{arith}
