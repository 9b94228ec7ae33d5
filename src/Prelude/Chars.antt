-- ===== src/Prelude/Chars.antt =====
-- Text that the program walks, as its list of code points, and the methods of Python's `str` that
-- the program calls on it. `lower` is exact on every text that is compared with an ASCII word: of
-- the letters outside ASCII only the Kelvin sign (8490) has an ASCII lower case.
use Prim.Native.Char.{code}
use Prim.Native.Nat.{ℕ, zero, suc, ◌+◌, ◌/◌, ◌%◌}
use Prim.Native.String.{String}
use mathlib.Core.Bool.{Bool, true, false, ◌&&◌, ◌||◌}
use mathlib.Core.List.{List, [], ◌∷◌, ◌++◌, map, reverse}
use chat_aiagent.Prelude.Tests.{ltb, leb, ◌==◌, if◌then◌else◌}

abbrev pub Text : Type 0
Text = List ℕ

-- A literal of the source.
abbrev pub codes : String → Text
codes String.[] = []
codes (String.◌∷◌ c s) = code c ∷ codes s

abbrev pub text_eq : Text → Text → Bool
text_eq [] [] = true
text_eq [] (d ∷ t) = false
text_eq (c ∷ s) [] = false
text_eq (c ∷ s) (d ∷ t) = (c == d) && text_eq s t

-- `t in words`
unfoldable pub is_in : Text → List Text → Bool
is_in t [] = false
is_in t (w ∷ ws) = text_eq t w || is_in t ws

-- The code points for which `str.isspace` holds.
unfoldable pub is_space : ℕ → Bool
is_space c =
    (leb 9 c && leb c 13)
    || (leb 28 c && leb c 32)
    || (c == 133)
    || (c == 160)
    || (c == 5760)
    || (leb 8192 c && leb c 8202)
    || (c == 8232)
    || (c == 8233)
    || (c == 8239)
    || (c == 8287)
    || (c == 12288)

abbrev pub lstrip : Text → Text
lstrip [] = []
lstrip (c ∷ s) = let rest = lstrip s in if is_space c then rest else c ∷ s

unfoldable pub strip : Text → Text
unfolding is_space
strip s = reverse (lstrip (reverse (lstrip s)))

unfoldable pub lower_char : ℕ → ℕ
lower_char c = if leb 65 c && leb c 90 then c + 32 else if c == 8490 then 107 else c

unfoldable pub lower : Text → Text
unfolding lower_char
lower s = map lower_char s

abbrev pub starts_with : Text → Text → Bool
starts_with s [] = true
starts_with [] (d ∷ t) = false
starts_with (c ∷ s) (d ∷ t) = (c == d) && starts_with s t

-- A number in decimal; the fuel, one more than the number, is more than its digits.
digits_from : ℕ → ℕ → Text → Text
digits_from zero n acc = acc
digits_from (suc f) n acc =
    let rest = digits_from f (n / 10) ((48 + n % 10) ∷ acc) in
    if ltb n 10 then (48 + n) ∷ acc else rest

unfoldable pub decimal : ℕ → Text
unfolding digits_from
decimal n = digits_from (suc n) n []

abbrev pub newline : Text
newline = 10 ∷ []

-- `sep.join(ts)`
abbrev pub join : Text → List Text → Text
join sep [] = []
join sep (t ∷ []) = t
join sep (t ∷ u ∷ ts) = t ++ (sep ++ join sep (u ∷ ts))

-- `t or d`
abbrev pub text_or : Text → Text → Text
text_or [] d = d
text_or (c ∷ t) d = c ∷ t

abbrev pub is_empty_text : Text → Bool
is_empty_text [] = true
is_empty_text (c ∷ t) = false

-- `t.split(sep, 1)[0]` for a separator of one character
abbrev pub before : ℕ → Text → Text
before sep [] = []
before sep (c ∷ t) = let rest = before sep t in if c == sep then [] else c ∷ rest

abbrev pub has_char : ℕ → Text → Bool
has_char sep [] = false
has_char sep (c ∷ t) = (c == sep) || has_char sep t
