-- ===== src/Prelude.antt =====
-- Names, Boolean tests and list helpers that every component shares.
mod Tests
mod Lists
mod Outcomes
mod Totals
mod Counters
pub use Tests.*
pub use Lists.*
pub use Outcomes.*
pub use Totals.*
unfoldable pub use Counters.{inc, dec}
pub use Counters.{inc_lem, dec_lem}
pub use Prim.Native.Nat.{ℕ, zero, suc, ◌+◌, ◌-◌, ◌*◌, ◌/◌, ◌%◌, ◌^◌, ◌≤◌, ◌<◌}
pub use mathlib.Core.Path.{◌≡◌, refl, sym, ap, ◌∙◌}
pub use mathlib.Core.Logic.{◌≢◌, ◌↔◌, ◌⊎◌, inl, inr}
pub use mathlib.Core.Bool.{Bool, true, false, ◌&&◌, ◌||◌, not}
pub use mathlib.Core.Option.{Option, none, some}
pub use mathlib.Core.List.{List, [], ◌∷◌, ◌++◌, map}
pub use native.Mathlib.Omega.{arith}
