-- ===== src/Prelude.antt =====
-- The names that the other modules share: the libraries', passed on, and those of the children.
mod Tests
mod Lists
mod Equality
mod Unique
mod Pigeonhole
mod Sorting
mod Membership
mod Groups
mod Order
mod Assoc
pub use Tests.*
pub use Lists.*
pub use Equality.*
unfoldable pub use Unique.*
pub use Pigeonhole.*
pub use Sorting.*
unfoldable pub use Assoc.*
pub use Membership.*
unfoldable pub use Groups.*
pub use Order.*
pub use Prim.Native.Nat.{ℕ, zero, suc, ◌+◌, ◌-◌, ◌≤◌, ◌<◌}
pub use Prim.Native.String.{String}
pub use mathlib.Core.Path.{◌≡◌, refl, sym, ap, subst, subst₂, ◌∙◌}
pub use mathlib.Core.Logic.{◌≢◌, ◌↔◌, ◌⊎◌, inl, inr}
pub use mathlib.Core.Bool.{Bool, true, false, not, ◌&&◌, ◌||◌}
pub use mathlib.Core.Option.{Option, none, some}
pub use mathlib.Core.List.{List, [], ◌∷◌, ◌++◌, map, flat_map, Memᴰ}
pub use native.Mathlib.Omega.{arith}
