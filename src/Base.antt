-- ===== src/Base.antt =====
-- Names that every part of the development shares: the libraries', passed on, and those of the
-- children. `Base.Float`, `Base.Nano`, `Base.Flow` and `Base.Dict` are used as modules.
mod Tests
mod Lists
pub mod Int
pub mod Result
pub mod Flow
pub mod Float
pub mod Nano
pub mod Dict
pub mod Value
pub use Tests.*
unfoldable pub use Lists.*
pub use Prim.Native.Nat.{ℕ, zero, suc, ◌≤◌, ◌<◌}
pub use Prim.Native.String.{String}
pub use mathlib.Core.Path.{◌≡◌, refl, sym, ap, ◌∙◌, subst}
pub use mathlib.Core.Logic.{◌≢◌, ◌↔◌, ◌⊎◌, inl, inr}
pub use mathlib.Core.Bool.{Bool, true, false, not, ◌&&◌, ◌||◌}
pub use mathlib.Core.Option.{Option, none, some}
pub use mathlib.Core.List.{List, [], ◌∷◌, ◌++◌, map}
pub use native.Mathlib.Omega.{arith}
