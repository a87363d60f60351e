-- ===== src/Server/Numbers/RoundTrip.antt =====
-- A printed id is read back.
use bittuly.Prelude.{
  Option-cases, if◌then◌else◌, ℕ, zero, suc, ◌+◌, ◌*◌, ◌/◌, ◌%◌, ◌≤◌, ◌<◌, ◌≡◌, refl, ◌∙◌, ap, true,
  Option, none, some, inl, inr, String, ltb, leb, ltb→lt, lt→ltb, Bool-cases, truthy, arith,
}
use Prim.Native.String
use Prim.Native.String.append
use Prim.Native.Char.{code}
use bittuly.Server.Numbers.{
  pos, max_i64, to_digit, scan, from_str_radix, hex_digit, hex_from, to_hex,
}

within : (a b : ℕ) → a ≤ b → (if leb a b then some a else none) ≡ some a
within a b h = ground arith

-- The rest is read after the number that the first part says.
abbrev scan_on : ℕ → ℕ → Option ℕ → String → Option ℕ
scan_on radix b none t = none
scan_on radix b (some acc) t = scan radix b acc t

scan-append :
    (radix b acc : ℕ) (s t : String)
    → scan radix b acc (String.◌++◌ s t) ≡ scan_on radix b (scan radix b acc s) t
unfolding scan
scan-append radix b acc String.[] t = ap (scan radix b acc) (append.nil t)
scan-append radix b acc (String.◌∷◌ c s) t =
    rw (append.cons c s t) (elim (Option-cases (to_digit (code c))) [
      | inl e ↦ rw (scan, e)
      | inr (d, e) ↦ rw (scan, e) (ground (arith, scan-append radix b (acc * radix + d) s t))
    ])

scan-hex_digit :
    (b acc d : ℕ) → d < 16 → acc * 16 + d ≤ b → scan 16 b acc (hex_digit d) ≡ some (acc * 16 + d)
unfolding scan to_digit
scan-hex_digit b acc zero h k = within _ b k
scan-hex_digit b acc (suc zero) h k = within _ b k
scan-hex_digit b acc (suc (suc zero)) h k = within _ b k
scan-hex_digit b acc (suc (suc (suc zero))) h k = within _ b k
scan-hex_digit b acc (suc (suc (suc (suc zero)))) h k = within _ b k
scan-hex_digit b acc (suc (suc (suc (suc (suc zero))))) h k = within _ b k
scan-hex_digit b acc (suc (suc (suc (suc (suc (suc zero)))))) h k = within _ b k
scan-hex_digit b acc (suc (suc (suc (suc (suc (suc (suc zero))))))) h k = within _ b k
scan-hex_digit b acc (suc (suc (suc (suc (suc (suc (suc (suc zero)))))))) h k = within _ b k
scan-hex_digit b acc (suc (suc (suc (suc (suc (suc (suc (suc (suc zero))))))))) h k = within _ b k
scan-hex_digit b acc (suc (suc (suc (suc (suc (suc (suc (suc (suc (suc zero)))))))))) h k =
    within _ b k
scan-hex_digit b acc (suc (suc (suc (suc (suc (suc (suc (suc (suc (suc (suc zero))))))))))) h k =
    within _ b k
scan-hex_digit b acc (suc (suc (suc (suc (suc (suc (suc (suc (suc (suc (suc (suc zero)))))))))))) h
      k =
    within _ b k
scan-hex_digit b acc
      (suc (suc (suc (suc (suc (suc (suc (suc (suc (suc (suc (suc (suc zero))))))))))))) h k =
    within _ b k
scan-hex_digit b acc
      (suc (suc (suc (suc (suc (suc (suc (suc (suc (suc (suc (suc (suc (suc zero)))))))))))))) h k =
    within _ b k
scan-hex_digit b acc
      (suc (suc (suc (suc (suc (suc (suc (suc (suc (suc (suc (suc (suc (suc (suc zero)))))))))))))))
      h k =
    within _ b k
scan-hex_digit b acc
      (suc
        (suc (suc (suc (suc (suc (suc (suc (suc (suc (suc (suc (suc (suc (suc (suc n))))))))))))))))
      h k =
    absurd (omega arith)

-- One digit in front of the rest.
scan-digit :
    (b acc d : ℕ) (rest : String)
    → d < 16
    → acc * 16 + d ≤ b
    → scan 16 b acc (String.◌++◌ (hex_digit d) rest) ≡ scan 16 b (acc * 16 + d) rest
scan-digit b acc d rest h k =
    scan-append 16 b acc (hex_digit d) rest
    ∙ ap (λ o. scan_on 16 b o rest) (scan-hex_digit b acc d h k)

-- The digits of a number within the bound are read to the number.
scan-hex_from :
    (f b n : ℕ) (rest : String)
    → n ≤ f
    → n ≤ b
    → scan 16 b 0 (hex_from (suc f) n rest) ≡ scan 16 b n rest
unfolding hex_from
scan-hex_from zero b n rest h k =
    rw (hex_from, lt→ltb n 16 (omega arith))
      (scan-digit b 0 (n % 16) rest (omega arith) (omega arith)
        ∙ ap (λ m. scan 16 b m rest) (omega arith))
scan-hex_from (suc f) b n rest h k = elim (Bool-cases (ltb n 16)) [
  | inl e ↦
      let small = ltb→lt n 16 e in
      rw (hex_from, e)
        (scan-digit b 0 (n % 16) rest (omega arith) (omega arith)
          ∙ ap (λ m. scan 16 b m rest) (omega arith))
  | inr e ↦
      let less : n / 16 ≤ f = ground (arith, h, e) in
      rw (hex_from, e)
        (scan-hex_from f b (n / 16) (String.◌++◌ (hex_digit (n % 16)) rest) less (omega arith)
          ∙ scan-digit b (n / 16) (n % 16) rest (omega arith) (omega arith)
          ∙ ap (λ m. scan 16 b m rest) (omega arith))
]

truthy-append : (s t : String) → truthy s ≡ true → truthy (String.◌++◌ s t) ≡ true
truthy-append String.[] t h = cc
truthy-append (String.◌∷◌ c s) t h = rw (append.cons c s t)

truthy-hex_digit : (d : ℕ) → truthy (hex_digit d) ≡ true
truthy-hex_digit zero = refl
truthy-hex_digit (suc zero) = refl
truthy-hex_digit (suc (suc zero)) = refl
truthy-hex_digit (suc (suc (suc zero))) = refl
truthy-hex_digit (suc (suc (suc (suc zero)))) = refl
truthy-hex_digit (suc (suc (suc (suc (suc zero))))) = refl
truthy-hex_digit (suc (suc (suc (suc (suc (suc zero)))))) = refl
truthy-hex_digit (suc (suc (suc (suc (suc (suc (suc zero))))))) = refl
truthy-hex_digit (suc (suc (suc (suc (suc (suc (suc (suc zero)))))))) = refl
truthy-hex_digit (suc (suc (suc (suc (suc (suc (suc (suc (suc zero))))))))) = refl
truthy-hex_digit (suc (suc (suc (suc (suc (suc (suc (suc (suc (suc zero)))))))))) = refl
truthy-hex_digit (suc (suc (suc (suc (suc (suc (suc (suc (suc (suc (suc zero))))))))))) = refl
truthy-hex_digit (suc (suc (suc (suc (suc (suc (suc (suc (suc (suc (suc (suc zero)))))))))))) = refl
truthy-hex_digit
      (suc (suc (suc (suc (suc (suc (suc (suc (suc (suc (suc (suc (suc zero))))))))))))) =
    refl
truthy-hex_digit
      (suc (suc (suc (suc (suc (suc (suc (suc (suc (suc (suc (suc (suc (suc zero)))))))))))))) =
    refl
truthy-hex_digit
      (suc (suc (suc (suc (suc (suc (suc (suc (suc (suc (suc (suc (suc (suc (suc n))))))))))))))) =
    refl

truthy-hex_from : (f n : ℕ) (rest : String) → truthy rest ≡ true → truthy (hex_from f n rest) ≡ true
unfolding hex_from
truthy-hex_from zero n rest h = h
truthy-hex_from (suc f) n rest h =
    let grown = truthy-append (hex_digit (n % 16)) rest (truthy-hex_digit (n % 16)) in
    elim (Bool-cases (ltb n 16)) [
      | inl e ↦ rw (hex_from, e) grown
      | inr e ↦ rw (hex_from, e) (truthy-hex_from f (n / 16) _ grown)
    ]

-- A printed id is never the empty text.
pub truthy-to_hex : (n : ℕ) → truthy (to_hex n) ≡ true
unfolding to_hex hex_from
truthy-to_hex n =
    let one = truthy-append (hex_digit (n % 16)) "" (truthy-hex_digit (n % 16)) in
    elim (Bool-cases (ltb n 16)) [
      | inl e ↦ rw (to_hex, hex_from, e) one
      | inr e ↦ rw (to_hex, hex_from, e) (truthy-hex_from n (n / 16) _ one)
    ]

-- A text that digits are read from has no sign.
unsigned :
    (n : ℕ) (s : String)
    → truthy s ≡ true
    → scan 16 max_i64 0 s ≡ some n
    → from_str_radix 16 s ≡ some (pos n)
unfolding from_str_radix scan to_digit
unsigned n String.[] t h = cc
unsigned n (String.◌∷◌ c s) t h = ground (arith, h)

-- An id that fits into an `i64` is read back from the text that `{:x}` prints.
pub from_str_radix-to_hex : (n : ℕ) → n ≤ max_i64 → from_str_radix 16 (to_hex n) ≡ some (pos n)
unfolding to_hex scan
from_str_radix-to_hex n h =
    unsigned n (to_hex n) (truthy-to_hex n) (scan-hex_from n max_i64 n "" (omega arith) h)
