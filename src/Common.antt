-- ===== src/Common.antt =====
-- Shared vocabulary: the libraries' names, passed on, and the helpers that the components share.
pub mod Digits
pub mod Tests
pub mod Lists
pub mod Int
pub mod Machine
pub mod Eq
pub mod Map
pub mod Text
pub mod Prefix
pub mod Sub
pub mod Show
pub mod Json
pub mod Parse
pub mod Slices
pub mod Cuts
pub mod Pairwise
pub mod Division
pub use Prim.Native.Nat.{ℕ, zero, suc, ◌+◌, ◌-◌, ◌*◌, ◌/◌, ◌%◌, ◌^◌, ◌≤◌, ◌<◌}
pub use mathlib.Core.Path.{◌≡◌, refl, sym, ap, ◌∙◌}
pub use mathlib.Core.Logic.{◌≢◌, ◌↔◌, ◌⊎◌, inl, inr}
pub use mathlib.Core.Bool.{Bool, true, false, not, ◌&&◌, ◌||◌}
pub use mathlib.Core.Option.{Option, none, some}
pub use mathlib.Core.List.{List, [], ◌∷◌, ◌++◌, map, append-nil, append_assoc}
pub use native.Mathlib.Omega.{arith}
