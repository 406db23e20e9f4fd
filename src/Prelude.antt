-- ===== src/Prelude.antt =====
-- What the components share: library names passed on, Boolean tests and lists over the native
-- numbers, equality as an interface, Python's dict and its stable sort.
mod Tests
mod Lists
mod Eq
mod Strings
pub mod Dict
pub mod Sort
pub use Tests.*
pub use Lists.*
pub use Strings.{Text, codes, in_range, ascii_digit, length-strip-le}
unfoldable pub use Strings.{is_space, is_digit, lstrip, rstrip, strip, join}
pub use Eq.{
  EqOps, ◌==◌, nat_eq, list_eq, pair_eq, ==_refl, ==_iff, ne_of_false, contains, In-contains,
  contains_of_In, NoRepeat, NoRepeat-snoc,
}
pub use Prim.Native.Nat.{ℕ, zero, suc, ◌+◌, ◌-◌, ◌*◌, ◌/◌, ◌%◌, ◌^◌, ◌≤◌, ◌<◌, min, max}
pub use mathlib.Core.Path.{◌≡◌, refl, sym, ap, ◌∙◌}
pub use mathlib.Core.Logic.{◌≢◌, ◌↔◌, ◌⊎◌, inl, inr}
pub use mathlib.Core.Bool.{Bool, true, false, not, ◌&&◌, ◌||◌}
pub use mathlib.Core.Option.{Option, none, some}
pub use mathlib.Core.List.{List, [], ◌∷◌, ◌++◌, map, append-nil, append_assoc}
pub use native.Mathlib.Omega.{arith}
