-- ===== src/Base.antt =====
-- Names that the components share: the libraries', passed on, and those of the modules below.
pub mod Tests
pub mod Lists
pub mod Int
pub mod Text
pub mod Maps
pub mod Effects
pub use Tests.*
pub use Lists.*
pub use Int.*
pub use Text.*
pub use Maps.*
pub use Effects.*
unfoldable pub use Lists.{take, drop, keep}
unfoldable pub use Int.{ℤ_discrete, ◌+ℤ◌, ◌-ℤ◌}
unfoldable pub use Text.{bytes_discrete}
unfoldable pub use Maps.{keys, contains, lookup, insert, delete, delete_all}
pub use Prim.Native.Nat.{ℕ, zero, suc, ◌+◌, ◌-◌, ◌*◌, ◌/◌, ◌%◌, ◌^◌, ◌≤◌, ◌<◌}
pub use mathlib.Core.Path.{◌≡◌, refl, sym, ap, ◌∙◌, subst}
pub use mathlib.Core.Logic.{◌≢◌, ◌↔◌, ◌⊎◌, inl, inr, ite, if_pos, if_neg}
pub use mathlib.Core.Bool.{Bool, true, false, not, ◌&&◌, ◌||◌}
pub use mathlib.Core.Option.{Option, none, some}
pub use mathlib.Core.List.{List, [], ◌∷◌, ◌++◌, map, append-nil, append_assoc}
pub use native.Mathlib.Omega.{arith}
unfoldable pub use native.Mathlib.Decide.{ℕ_discrete}
