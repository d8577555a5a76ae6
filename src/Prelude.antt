-- ===== src/Prelude.antt =====
-- The names that the other modules share: the libraries' own, passed on, the Boolean tests on the
-- native numbers (Tests), lists measured by them (Lists), signed integers (Int), text (Text),
-- datetimes (Time), floats (Float), the queries that SQLAlchemy runs (Sql), dicts (Dict), and rows
-- of tables (Tables).
mod Tests
mod Lists
pub mod Int
pub mod Text
pub mod Time
pub mod Float
pub mod Sql
pub mod Dict
pub mod Tables
pub use Tests.*
pub use Lists.*
pub use Prim.Native.Nat.{ℕ, zero, suc, ◌+◌, ◌-◌, ◌*◌, ◌/◌, ◌%◌, ◌^◌, ◌≤◌, ◌<◌, min, max}
pub use Prim.Native.String.{String}
pub use mathlib.Core.Path.{◌≡◌, refl, sym, ap, ◌∙◌}
pub use mathlib.Core.Logic.{◌≢◌, ◌↔◌, ◌⊎◌, inl, inr}
pub use mathlib.Core.Bool.{Bool, true, false, not, ◌&&◌, ◌||◌}
pub use mathlib.Core.Option.{Option, none, some}
pub use mathlib.Core.List.{List, [], ◌∷◌, ◌++◌, map}
pub use native.Mathlib.Omega.{arith}
pub use text.Mathlib.TextEquality.{eq_iff}
