-- ===== src/Prelude/Words.antt =====
-- Checked and saturating arithmetic on machine words.
use Prim.Native.Nat.{ℕ, ◌+◌}
use mathlib.Core.Option.{Option, none, some}
use opencode_cycle_plugin.Prelude.Tests.{leb, if◌then◌else◌}

-- `u8::MAX`, `u32::MAX`, `u64::MAX`
abbrev pub u8_max : ℕ
u8_max = 255

abbrev pub u32_max : ℕ
u32_max = 4294967295

abbrev pub u64_max : ℕ
u64_max = 18446744073709551615

-- `checked_add` of an unsigned type whose largest value is `top`
abbrev pub checked_add : ℕ → ℕ → ℕ → Option ℕ
checked_add top a b = if leb (a + b) top then some (a + b) else none

-- `saturating_add`
abbrev pub saturating_add : ℕ → ℕ → ℕ → ℕ
saturating_add top a b = if leb (a + b) top then a + b else top
