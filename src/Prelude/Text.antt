-- ===== src/Prelude/Text.antt =====
-- What the source uses of JavaScript's `String`: `length` in UTF-16 units, `trim`, `includes` of a
-- character, `String(n)` and template literals. A text is a list of Unicode scalar values, so a
-- lone surrogate is not represented.
pub mod Trim
pub mod Digits
use Prim.Native.Nat.{ℕ, zero, suc, ◌+◌, ◌-◌, ◌/◌, ◌%◌}
use Prim.Native.Char.{Char, code}
use Prim.Native.String
use Prim.Native.String.{String}
use mathlib.Core.Path.{◌≡◌, refl}
use mathlib.Core.Bool.{Bool, true, false, ◌&&◌, ◌||◌}
use mathlib.Core.List.{List, [], ◌∷◌, ◌++◌}
use bittuly.Prelude.Tests.{leb, ltb, ◌==◌, if◌then◌else◌}

-- A string in a condition: every string but the empty one is truthy.
abbrev pub truthy : String → Bool
truthy String.[] = false
truthy (String.◌∷◌ c s) = true

-- A character outside the basic plane takes two units.
abbrev pub units : Char → ℕ
units c = if leb 65536 (code c) then 2 else 1

-- The Unicode scalar values of a text, counted.
abbrev pub chars : String → ℕ
chars String.[] = 0
chars (String.◌∷◌ c s) = suc (chars s)

-- `s.length`.
unfoldable pub utf16_length : String → ℕ
utf16_length String.[] = 0
utf16_length (String.◌∷◌ c s) = units c + utf16_length s

-- The UTF-16 units of a text.
abbrev char_units : ℕ → List ℕ
char_units n =
    if leb 65536 n
    then (0xd800 + (n - 65536) / 1024) ∷ (0xdc00 + (n - 65536) % 1024) ∷ []
    else n ∷ []

unfoldable pub utf16_units : String → List ℕ
utf16_units String.[] = []
utf16_units (String.◌∷◌ c s) = char_units (code c) ++ utf16_units s

-- `s.includes(c)` for one character.
unfoldable pub includes : ℕ → String → Bool
includes n String.[] = false
includes n (String.◌∷◌ c s) = (code c == n) || includes n s

-- WhiteSpace and LineTerminator of ECMAScript.
pub is_space : ℕ → Bool
is_space n =
    (leb 9 n && leb n 13)
    || n == 32
    || n == 160
    || n == 0x1680
    || (leb 0x2000 n && leb n 0x200a)
    || n == 0x2028
    || n == 0x2029
    || n == 0x202f
    || n == 0x205f
    || n == 0x3000
    || n == 0xfeff

trim_start : String → String
trim_start String.[] = String.[]
trim_start (String.◌∷◌ c s) = if is_space (code c) then trim_start s else String.◌∷◌ c s

-- A character before a trimmed rest: dropped if it is a space and nothing follows.
abbrev keep_end : Char → String → String
keep_end c String.[] = if is_space (code c) then String.[] else String.◌∷◌ c String.[]
keep_end c (String.◌∷◌ d s) = String.◌∷◌ c (String.◌∷◌ d s)

trim_end : String → String
trim_end String.[] = String.[]
trim_end (String.◌∷◌ c s) = keep_end c (trim_end s)

-- `s.trim()`.
unfoldable pub trim : String → String
unfolding trim_start trim_end is_space
trim s = trim_end (trim_start s)

-- A template literal, as the list of its pieces.
unfoldable pub template : List String → String
template [] = ""
template (s ∷ ss) = String.◌++◌ s (template ss)

-- The decimal digit of a number below ten.
abbrev digit : ℕ → String
digit zero = "0"
digit (suc zero) = "1"
digit (suc (suc zero)) = "2"
digit (suc (suc (suc zero))) = "3"
digit (suc (suc (suc (suc zero)))) = "4"
digit (suc (suc (suc (suc (suc zero))))) = "5"
digit (suc (suc (suc (suc (suc (suc zero)))))) = "6"
digit (suc (suc (suc (suc (suc (suc (suc zero))))))) = "7"
digit (suc (suc (suc (suc (suc (suc (suc (suc zero)))))))) = "8"
digit n = "9"

show_from : ℕ → ℕ → String → String
show_from zero n rest = rest
show_from (suc f) n rest =
    let out = String.◌++◌ (digit (n % 10)) rest in
    elim (ltb n 10) [ true ↦ out | false ↦ show_from f (n / 10) out ]

-- `String(n)`; each round divides by ten, so `n + 1` rounds are enough.
unfoldable pub show : ℕ → String
unfolding show_from
show n = show_from (suc n) n ""

show_example : show 86400 ≡ "86400"
unfolding show
show_example = refl

trim_example : trim "  a b  " ≡ "a b"
unfolding trim
trim_example = refl

utf16_length_example : utf16_length "aé😀" ≡ 4
unfolding utf16_length
utf16_length_example = refl
