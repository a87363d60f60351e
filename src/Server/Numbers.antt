-- ===== src/Server/Numbers.antt =====
-- What the services use of Rust's `i64`: `from_str_radix`, and `{:x}` of an id. Ids come from a
-- BIGSERIAL, so a printed one is not negative.
pub mod RoundTrip
use bittuly.Prelude.{
  ℕ, zero, suc, ◌+◌, ◌-◌, ◌*◌, ◌/◌, ◌%◌, ◌≡◌, refl, Bool, true, false, ◌&&◌, Option, none, some,
  String, if◌then◌else◌, ltb, leb, ◌==◌,
}
use Prim.Native.String
use Prim.Native.Char.{code}
use mathlib.Core.Option

-- `negsuc n` is -(n + 1).
pub data ℤ : Type 0 where
  pos : ℕ → ℤ
  negsuc : ℕ → ℤ

-- `i64::MAX`.
abbrev pub max_i64 : ℕ
max_i64 = 9223372036854775807

abbrev negate : ℕ → ℤ
negate zero = pos 0
negate (suc n) = negsuc n

-- `char::to_digit(radix)` on a character's code, before the radix is compared.
unfoldable pub to_digit : ℕ → Option ℕ
to_digit c =
    if leb 48 c && leb c 57
    then some (c - 48)
    else if leb 97 c && leb c 122
    then some (c - 87)
    else if leb 65 c && leb c 90
    then some (c - 55)
    else none

-- The digits after the number so far; none at another character, or past the bound.
unfoldable pub scan : ℕ → ℕ → ℕ → String → Option ℕ
scan radix bound acc String.[] = some acc
scan radix bound acc (String.◌∷◌ c s) = elim (to_digit (code c)) [
  | none ↦ none
  | some d ↦
      let acc' = acc * radix + d in
      let rest = scan radix bound acc' s in if ltb d radix && leb acc' bound then rest else none
]

abbrev digits : ℕ → ℕ → String → Option ℕ
digits radix bound String.[] = none
digits radix bound (String.◌∷◌ c s) = scan radix bound 0 (String.◌∷◌ c s)

-- `i64::from_str_radix`: one sign may stand first, and digits must follow.
unfoldable pub from_str_radix : ℕ → String → Option ℤ
from_str_radix radix String.[] = none
from_str_radix radix (String.◌∷◌ c s) =
    if code c == b'-'
    then Option.map negate (digits radix (max_i64 + 1) s)
    else if code c == b'+'
    then Option.map pos (digits radix max_i64 s)
    else Option.map pos (scan radix max_i64 0 (String.◌∷◌ c s))

abbrev hex_letter : ℕ → String
hex_letter zero = "a"
hex_letter (suc zero) = "b"
hex_letter (suc (suc zero)) = "c"
hex_letter (suc (suc (suc zero))) = "d"
hex_letter (suc (suc (suc (suc zero)))) = "e"
hex_letter n = "f"

abbrev hex_digit : ℕ → String
hex_digit zero = "0"
hex_digit (suc zero) = "1"
hex_digit (suc (suc zero)) = "2"
hex_digit (suc (suc (suc zero))) = "3"
hex_digit (suc (suc (suc (suc zero)))) = "4"
hex_digit (suc (suc (suc (suc (suc zero))))) = "5"
hex_digit (suc (suc (suc (suc (suc (suc zero)))))) = "6"
hex_digit (suc (suc (suc (suc (suc (suc (suc zero))))))) = "7"
hex_digit (suc (suc (suc (suc (suc (suc (suc (suc zero)))))))) = "8"
hex_digit (suc (suc (suc (suc (suc (suc (suc (suc (suc zero))))))))) = "9"
hex_digit (suc (suc (suc (suc (suc (suc (suc (suc (suc (suc n)))))))))) = hex_letter n

hex_from : ℕ → ℕ → String → String
hex_from zero n rest = rest
hex_from (suc f) n rest =
    let out = String.◌++◌ (hex_digit (n % 16)) rest in
    elim (ltb n 16) [ true ↦ out | false ↦ hex_from f (n / 16) out ]

-- `format!("{:x}", id)`; each round divides by sixteen, so `n + 1` rounds are enough.
unfoldable pub to_hex : ℕ → String
unfolding hex_from
to_hex n = hex_from (suc n) n ""
