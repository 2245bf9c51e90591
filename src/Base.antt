-- ===== src/Base.antt =====
-- Names and lemmas that the components share. `status_t` of sstp/sstp-common.h stands here too.
mod Tests
mod Lists
pub mod Bits
mod Memory
mod Results
mod Outcomes
mod Text
pub use Tests.*
pub use Lists.*
unfoldable pub use Memory.{write_bytes}
pub use Memory.*
pub use Results.*
pub use Outcomes.*
pub use Text.*
unfoldable pub use Outcomes.{Returns}
pub use Prim.Native.Nat.{ℕ, zero, suc, ◌+◌, ◌-◌, ◌*◌, ◌/◌, ◌%◌, ◌^◌, ◌≤◌, ◌<◌, min}
pub use Prim.Native.Nat.{bit_and, bit_or, bit_xor}
pub use mathlib.Core.Path.{◌≡◌, refl, sym, ap, ap₂, ◌∙◌}
pub use mathlib.Core.Logic.{◌≢◌, ◌↔◌, ◌⊎◌, inl, inr}
pub use mathlib.Core.Bool.{Bool, true, false, ◌&&◌, ◌||◌, not}
pub use mathlib.Core.Option.{Option, none, some}
pub use mathlib.Core.List.{List, [], ◌∷◌, ◌++◌, map, append_assoc, append-nil}
pub use native.Mathlib.Omega.{arith}
