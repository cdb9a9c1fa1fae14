-- ===== src/Prelude/Text.antt =====
-- Python's `str` as a native text: its characters by code point, lower case, prefixes, trimming.
use Prim.Native.Nat.{ℕ, zero, suc, ◌-◌}
use Prim.Native.Char.{Char, code}
use Prim.Native.String
use Prim.Native.String.{String, [], ◌∷◌}
use mathlib.Core.Bool.{Bool, true, false, ◌&&◌, ◌||◌}
use mathlib.Core.List.{List}
use text.Mathlib.Text.{◌==◌}
use agent_discovery_board.Prelude.Tests.{leb, eqb, if◌then◌else◌}

-- len(s)
abbrev pub str_len : String → ℕ
str_len [] = 0
str_len (c ∷ s) = suc (str_len s)

-- all(p(c) for c in s), by code point
abbrev pub all_chars : (ℕ → Bool) → String → Bool
all_chars p [] = true
all_chars p (c ∷ s) = p (code c) && all_chars p s

abbrev pub any_char : (ℕ → Bool) → String → Bool
any_char p [] = false
any_char p (c ∷ s) = p (code c) || any_char p s

abbrev pub starts_with : String → String → Bool
starts_with s [] = true
starts_with [] (d ∷ t) = false
starts_with (c ∷ s) (d ∷ t) = eqb (code c) (code d) && starts_with s t

-- The order of texts, by code point.
abbrev pub le_str : String → String → Bool
le_str [] t = true
le_str (c ∷ s) [] = false
le_str (c ∷ s) (d ∷ t) = if eqb (code c) (code d) then le_str s t else leb (code c) (code d)

-- s in (t, ...)
abbrev pub is_in : String → List String → Bool
is_in s List.[] = false
is_in s (List.◌∷◌ t ts) = s == t || is_in s ts

abbrev nth_or : String → ℕ → Char → String
nth_or [] i c = c ∷ []
nth_or (d ∷ s) zero c = d ∷ []
nth_or (d ∷ s) (suc i) c = nth_or s i c

-- `str.lower` on one character. Outside ASCII only U+0130 and U+212A have a lower case that holds
-- an ASCII letter; other characters are left alone, since every result is compared with ASCII.
lower_char : Char → String
lower_char c =
    if leb b'A' (code c) && leb (code c) b'Z'
    then nth_or "abcdefghijklmnopqrstuvwxyz" (code c - 65) c
    else if eqb (code c) 0x130
    then "i̇"
    else if eqb (code c) 0x212a
    then "k"
    else (c ∷ [])

unfoldable pub lower : String → String
unfolding lower_char
lower [] = []
lower (c ∷ s) = String.◌++◌ (lower_char c) (lower s)

-- The characters that `str.strip` removes, by code point.
abbrev pub is_space : ℕ → Bool
is_space c =
    (leb 9 c && leb c 13)
    || (leb 28 c && leb c 32)
    || eqb c 0x85
    || eqb c 0xa0
    || eqb c 0x1680
    || (leb 0x2000 c && leb c 0x200a)
    || eqb c 0x2028
    || eqb c 0x2029
    || eqb c 0x202f
    || eqb c 0x205f
    || eqb c 0x3000

unfoldable pub strip_left : String → String
strip_left [] = []
strip_left (c ∷ s) = let rest = strip_left s in if is_space (code c) then rest else c ∷ s

unfoldable pub strip_right : String → String
strip_right [] = []
strip_right (c ∷ s) =
    let rest = strip_right s in if is_space (code c) && rest == "" then [] else c ∷ rest

unfoldable pub strip : String → String
unfolding strip_left strip_right
strip s = strip_left (strip_right s)
