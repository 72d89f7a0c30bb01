-- ===== src/Prelude.antt =====
-- What the modules of the library share: names of the standard libraries, Boolean tests, lists with
-- native indices, C integers, and the outcomes of a C call.
mod Tests
mod Lists
mod Int
mod Outcome
pub mod Sorting
pub use Tests.*
pub use Lists.*
pub use Int.*
pub use Outcome.{
  Run, ok, aborted, undefined, out_of_fuel, ◌>>=◌, ◌>>◌, assert, or_undefined, as_int, as_int-pos,
  as_int-ok, load-ok, store-ok, store-out, Returns, returns, Returns-bind, Returns-map, Returns-if,
  Returns-inv,
}
unfoldable pub use Outcome.{load, store}
unfoldable pub use Int.{◌+ℤ◌, ◌-ℤ◌, ◌*ℤ◌}
pub use Prim.Native.Nat.{ℕ, zero, suc, ◌+◌, ◌-◌, ◌*◌, ◌/◌, ◌%◌, ◌^◌, ◌≤◌, ◌<◌, ◌∣◌}
pub use mathlib.Core.Path.{◌≡◌, refl, sym, ap, ap₂, ◌∙◌, subst}
pub use mathlib.Core.Logic.{◌≢◌, ◌↔◌, ◌⊎◌, inl, inr}
pub use mathlib.Core.Bool.{Bool, true, false, not, ◌&&◌, ◌||◌}
pub use mathlib.Core.Option.{Option, none, some}
pub use mathlib.Core.List.{List, [], ◌∷◌, ◌++◌, map}
pub use native.Mathlib.Omega.{arith}
unfoldable pub use native.Mathlib.Decide.{dec_lt, ℕ_discrete}
