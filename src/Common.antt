-- ===== src/Common.antt =====
-- Names that every component shares: the libraries', passed on, and those of the children below
-- (Boolean tests, lists measured by native numbers, byte strings, string-keyed maps, machines).
mod Tests
mod Lists
mod Text
mod TextLaws
mod Splits
mod Maps
mod Int
mod Machines
pub use Tests.*
pub use Lists.*
unfoldable pub use Text.*
pub use TextLaws.*
pub use Splits.*
unfoldable pub use Maps.*
pub use Int.*
unfoldable pub use Machines.*
pub use Prim.Native.Nat.{ℕ, zero, suc, ◌+◌, ◌-◌, ◌*◌, ◌/◌, ◌%◌, ◌^◌, ◌≤◌, ◌<◌, min, max}
pub use mathlib.Core.Path.{◌≡◌, refl, sym, ap, ap₂, ◌∙◌}
pub use mathlib.Core.Logic.{◌≢◌, ◌↔◌, ◌⊎◌, inl, inr}
pub use mathlib.Core.Bool.{Bool, true, false, not, ◌&&◌, ◌||◌}
pub use mathlib.Core.Option.{Option, none, some}
pub use mathlib.Core.List.{List, [], ◌∷◌, ◌++◌, map, reverse, append-nil, append_assoc, map-append}
pub use native.Mathlib.Omega.{arith}
