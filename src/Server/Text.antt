-- ===== src/Server/Text.antt =====
-- What the services use of Rust's `str`: `split` and `split_once` at a character, and `trim`.
use Prim.Native.String
use Prim.Native.Char.{Char, code}
use bittuly.Prelude.{
  ℕ, Bool, true, false, not, ◌&&◌, ◌||◌, Option, none, some, List, [], ◌∷◌, String, if◌then◌else◌,
  ltb, ◌==◌,
}

-- White_Space of Unicode.
pub is_whitespace : ℕ → Bool
is_whitespace n =
    (not (ltb n 9) && ltb n 14)
    || n == 32
    || n == 0x85
    || n == 0xa0
    || n == 0x1680
    || (not (ltb n 0x2000) && ltb n 0x200b)
    || n == 0x2028
    || n == 0x2029
    || n == 0x202f
    || n == 0x205f
    || n == 0x3000

-- `s.trim().is_empty()`.
unfoldable pub is_blank : String → Bool
unfolding is_whitespace
is_blank String.[] = true
is_blank (String.◌∷◌ c s) = is_whitespace (code c) && is_blank s

abbrev add_char : String → Bool → List String → List String
add_char c true ss = "" ∷ ss
add_char c false [] = c ∷ []
add_char c false (s ∷ ss) = String.◌++◌ c s ∷ ss

-- `s.split(c)`.
unfoldable pub split_on : ℕ → String → List String
split_on n String.[] = "" ∷ []
split_on n (String.◌∷◌ c s) = add_char (String.◌∷◌ c "") (code c == n) (split_on n s)

abbrev put_first : Char → Option (String × String) → Option (String × String)
put_first c none = none
put_first c (some (k, v)) = some (String.◌∷◌ c k, v)

-- `s.split_once(c)`.
unfoldable pub split_once : ℕ → String → Option (String × String)
split_once n String.[] = none
split_once n (String.◌∷◌ c s) =
    let rest = split_once n s in if code c == n then some ("", s) else put_first c rest

trim_start : String → String
trim_start String.[] = String.[]
trim_start (String.◌∷◌ c s) =
    let rest = trim_start s in if is_whitespace (code c) then rest else String.◌∷◌ c s

abbrev keep_end : Char → String → String
keep_end c String.[] = if is_whitespace (code c) then String.[] else String.◌∷◌ c String.[]
keep_end c (String.◌∷◌ d s) = String.◌∷◌ c (String.◌∷◌ d s)

trim_end : String → String
trim_end String.[] = String.[]
trim_end (String.◌∷◌ c s) = keep_end c (trim_end s)

-- `s.trim()`.
unfoldable pub trim : String → String
unfolding trim_start trim_end is_whitespace
trim s = trim_end (trim_start s)
