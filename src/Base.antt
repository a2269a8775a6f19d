-- ===== src/Base.antt =====
-- The names that every module shares: those of the libraries, passed on, and the children's.
mod Tests
mod Lists
pub mod Int
pub mod Decimal
pub mod Machine
pub mod Map
pub use Tests.*
pub use Lists.*
pub use Prim.Native.Nat.{min, ℕ, zero, suc, ◌+◌, ◌-◌, ◌*◌, ◌/◌, ◌%◌, ◌^◌, ◌≤◌, ◌<◌}
pub use mathlib.Core.Path.{◌≡◌, refl, sym, ap, ap₂, ◌∙◌, subst, subst₂, fun_ext}
pub use mathlib.Core.Logic.{◌≢◌, ◌↔◌, ◌⊎◌, inl, inr}
pub use mathlib.Core.Bool.{Bool, true, false, not, ◌&&◌, ◌||◌}
pub use mathlib.Core.Option.{Option, none, some}
pub use mathlib.Core.List.{List, [], ◌∷◌, ◌++◌, map, append-nil, append_assoc}
pub use native.Mathlib.Omega.{arith}
pub use native.Mathlib.Nat.{add-zero, zero-add, add_assoc, add_comm}
