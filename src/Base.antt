-- ===== src/Base.antt =====
-- The names that all modules share: the libraries' names passed on, the tests and lists over native
-- numbers, Go's (value, error) results, and the big-endian integers of the wire formats.
mod Tests
mod Lists
mod Results
mod Endian
mod Int
pub mod Bits
pub mod Masks
pub use Tests.*
pub use Lists.*
pub use Results.*
pub use Int.*
unfoldable pub use Endian.*
pub use Prim.Native.Nat.{ℕ, zero, suc, ◌+◌, ◌-◌, ◌*◌, ◌/◌, ◌%◌, ◌^◌, ◌≤◌, ◌<◌, min}
pub use mathlib.Core.Path.{◌≡◌, refl, sym, ap, subst, ◌∙◌}
pub use mathlib.Core.Logic.{◌≢◌, ◌↔◌, ◌⊎◌, inl, inr}
pub use mathlib.Core.Bool.{Bool, true, false, not, ◌&&◌, ◌||◌}
pub use mathlib.Core.Option.{Option, none, some}
pub use mathlib.Core.List.{List, [], ◌∷◌, ◌++◌, map, append-nil, append_assoc}
pub use native.Mathlib.Omega.{arith}
