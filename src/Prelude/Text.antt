-- ===== src/Prelude/Text.antt =====
-- What the program asks of a text: its length in bytes, and whether trimming leaves nothing.
use Prim.Native.Nat.{ℕ}
use Prim.Native.Char.{code}
use Prim.Native.String.{String, [], ◌∷◌, len}
use mathlib.Core.Bool.{Bool, true, ◌&&◌, ◌||◌}
use mathlib.Core.Path.{◌≡◌, refl, sym, ◌∙◌}
use text.Mathlib.TextEquality.{eq_iff}
use text.Mathlib.Text.{◌==◌ as str_eq}
use opencode_cycle_plugin.Prelude.Tests.{leb, ◌==◌}

-- `str::len`
abbrev pub byte_len : String → ℕ
byte_len s = len s

-- the code points with the Unicode property White_Space, which `trim` removes
abbrev pub is_whitespace : ℕ → Bool
is_whitespace c =
    (leb 0x9 c && leb c 0xd)
    || (c == 0x20)
    || (c == 0x85)
    || (c == 0xa0)
    || (c == 0x1680)
    || (leb 0x2000 c && leb c 0x200a)
    || (c == 0x2028)
    || (c == 0x2029)
    || (c == 0x202f)
    || (c == 0x205f)
    || (c == 0x3000)

-- `s.trim().is_empty()`
abbrev pub is_blank : String → Bool
is_blank [] = true
is_blank (c ∷ s) = is_whitespace (code c) && is_blank s

pub str_eq_trans : (a b c : String) → str_eq a b ≡ true → str_eq a c ≡ str_eq b c
str_eq_trans a b c h = rw ((eq_iff a b).0 h) refl

pub str_eq_join : (a b c : String) → str_eq a c ≡ true → str_eq b c ≡ true → str_eq a b ≡ true
str_eq_join a b c h k = (eq_iff a b).1 ((eq_iff a c).0 h ∙ sym ((eq_iff b c).0 k))
