-- ===== src/Base.antt =====
-- The names that the other modules share: the libraries', passed on, and those of its children.
mod Tests
mod Rows
mod RowLaws
mod AllLaws
mod Keys
mod Strings
pub use Tests.*
unfoldable pub use Rows.*
pub use RowLaws.*
pub use AllLaws.*
pub use Keys.*
unfoldable pub use Strings.*
pub use Prim.Native.Nat.{ℕ, zero, suc, ◌+◌, ◌-◌, ◌*◌, ◌/◌, ◌%◌, ◌^◌, ◌≤◌, ◌<◌, min, max}
pub use mathlib.Core.Path.{◌≡◌, refl, sym, ap, ◌∙◌, subst}
pub use mathlib.Core.Logic.{◌≢◌, ◌↔◌, ◌⊎◌, inl, inr}
pub use mathlib.Core.Bool.{Bool, true, false, not, ◌&&◌, ◌||◌}
pub use mathlib.Core.Option.{Option, none, some, some-injective}
pub use mathlib.Core.List.{List, [], ◌∷◌, ◌++◌, map}
pub use native.Mathlib.Omega.{arith}

-- Points in time and durations, in seconds.
abbrev pub Time : Type 0
Time = ℕ

-- A UUID, a token or a digest: only equality is asked of it.
abbrev pub Uuid : Type 0
Uuid = ℕ

abbrev pub Token : Type 0
Token = ℕ

abbrev pub Digest : Type 0
Digest = ℕ
