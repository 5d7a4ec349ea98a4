-- ===== src/Base/Text.antt =====
-- Texts as the standard library's `str` reads them: their characters, the white space that `trim`
-- drops, and the ends that `strip_prefix` and `trim_end_matches` drop.
pub mod Prefix
use Prim.Native.Char.{code}
use Prim.Native.String.{String, ◌++◌ as append_str}
use text.Mathlib.Text.{◌==◌ as str_eq}
use mathlib.Core.Bool.{Bool, true, ◌&&◌, ◌||◌}
use mathlib.Core.List.{List, [], ◌∷◌}
use mathlib.Core.Option.{Option, none, some}
use Prim.Native.Nat.{ℕ}
use modelsentry.Base.Tests.{if◌then◌else◌, ◌==◌, leb}

abbrev pub concat : List String → String
concat [] = ""
concat (s ∷ ss) = append_str s (concat ss)

abbrev pub is_blank : String → Bool
is_blank s = str_eq s ""

-- The property White_Space of Unicode.
abbrev pub is_whitespace : ℕ → Bool
is_whitespace c =
    (leb 9 c && leb c 13)
    || c == 32
    || c == 0x85
    || c == 0xA0
    || c == 0x1680
    || (leb 0x2000 c && leb c 0x200A)
    || c == 0x2028
    || c == 0x2029
    || c == 0x202F
    || c == 0x205F
    || c == 0x3000

-- `s.trim().is_empty()`
unfoldable pub is_blank_trimmed : String → Bool
is_blank_trimmed String.[] = true
is_blank_trimmed (String.◌∷◌ c s) = is_whitespace (code c) && is_blank_trimmed s

-- `s.trim_end_matches(ch)`
unfoldable pub trim_end_matches : ℕ → String → String
trim_end_matches ch String.[] = ""
trim_end_matches ch (String.◌∷◌ c s) =
    let rest = trim_end_matches ch s in
    if is_blank rest && code c == ch then "" else String.◌∷◌ c rest

-- `s.strip_prefix(front)`
unfoldable pub strip_prefix : String → String → Option String
strip_prefix String.[] s = some s
strip_prefix (String.◌∷◌ p ps) String.[] = none
strip_prefix (String.◌∷◌ p ps) (String.◌∷◌ c s) =
    let rest = strip_prefix ps s in if code p == code c then rest else none
