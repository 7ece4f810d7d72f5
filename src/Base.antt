-- ===== src/Base.antt =====
-- The names that all modules share: the libraries', passed on, those of the children, and the
-- limits of the machine (an LP64 target, where size_t and uint64_t have 64 bits).
mod Tests
mod Lists
mod Int
mod Memory
pub use Tests.*
pub use Lists.*
pub use Int.*
pub use Memory.*
pub use Prim.Native.Nat.{ℕ, zero, suc, ◌+◌, ◌-◌, ◌*◌, ◌/◌, ◌%◌, ◌^◌, ◌≤◌, ◌<◌}
pub use mathlib.Core.Path.{◌≡◌, refl, sym, ap, ap₂, subst, ◌∙◌}
pub use mathlib.Core.Logic.{◌≢◌, ◌↔◌, ◌⊎◌, inl, inr}
pub use mathlib.Core.Bool.{Bool, true, false, not, ◌&&◌, ◌||◌}
pub use mathlib.Core.Option.{Option, none, some}
pub use mathlib.Core.List.{List, [], ◌∷◌, ◌++◌, append_assoc, append-nil}
pub use native.Mathlib.Omega.{arith}

-- The bytes of a memory block, each below 256.
abbrev pub Bytes : Type 0
Bytes = List ℕ

abbrev pub size_max : ℕ
size_max = 18446744073709551615

abbrev pub int64_max : ℕ
int64_max = 9223372036854775807
