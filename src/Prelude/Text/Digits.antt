-- ===== src/Prelude/Text/Digits.antt =====
-- The decimal digits of a number are read back to the number, so `show` has fuel enough.
use Prim.Native.Nat.{ℕ, zero, suc, ◌+◌, ◌-◌, ◌*◌, ◌/◌, ◌%◌, ◌≤◌, ◌<◌}
use Prim.Native.Char.{code}
use Prim.Native.String
use Prim.Native.String.append
use Prim.Native.String.{String}
use mathlib.Core.Path.{◌≡◌, refl, sym, ap, ◌∙◌, subst}
use mathlib.Core.Bool.{true, false}
use mathlib.Core.Logic.{inl, inr}
use native.Mathlib.Omega.{arith}
use bittuly.Prelude.Tests.{ltb, ltb→lt, lt→ltb, Bool-cases}
use bittuly.Prelude.Text.{chars, digit, show_from, show}

-- The number that some digits say, after the number of those before.
pub read : ℕ → String → ℕ
read acc String.[] = acc
read acc (String.◌∷◌ c s) = read (acc * 10 + (code c - 48)) s

read-append : (acc : ℕ) (s t : String) → read acc (String.◌++◌ s t) ≡ read (read acc s) t
unfolding read
read-append acc String.[] t = ap (read acc) (append.nil t)
read-append acc (String.◌∷◌ c s) t =
    ap (read acc) (append.cons c s t) ∙ read-append (acc * 10 + (code c - 48)) s t

read-digit : (acc d : ℕ) → d < 10 → read acc (digit d) ≡ acc * 10 + d
unfolding read
read-digit acc zero h = refl
read-digit acc (suc zero) h = refl
read-digit acc (suc (suc zero)) h = refl
read-digit acc (suc (suc (suc zero))) h = refl
read-digit acc (suc (suc (suc (suc zero)))) h = refl
read-digit acc (suc (suc (suc (suc (suc zero))))) h = refl
read-digit acc (suc (suc (suc (suc (suc (suc zero)))))) h = refl
read-digit acc (suc (suc (suc (suc (suc (suc (suc zero))))))) h = refl
read-digit acc (suc (suc (suc (suc (suc (suc (suc (suc zero)))))))) h = refl
read-digit acc (suc (suc (suc (suc (suc (suc (suc (suc (suc zero))))))))) h = refl
read-digit acc (suc (suc (suc (suc (suc (suc (suc (suc (suc (suc n)))))))))) h =
    absurd (omega arith)

-- One digit in front of the rest.
read-one :
    (acc d : ℕ) (rest : String)
    → d < 10
    → read acc (String.◌++◌ (digit d) rest) ≡ read (acc * 10 + d) rest
read-one acc d rest h = read-append acc (digit d) rest ∙ ap (λ k. read k rest) (read-digit acc d h)

-- A number below ten is its last digit.
read-last :
    (n : ℕ) (rest : String) → n < 10 → read 0 (String.◌++◌ (digit (n % 10)) rest) ≡ read n rest
read-last n rest h = read-one 0 (n % 10) rest (omega arith) ∙ ap (λ k. read k rest) (omega arith)

read-show_from : (f n : ℕ) (rest : String) → n ≤ f → read 0 (show_from (suc f) n rest) ≡ read n rest
unfolding show_from
read-show_from zero n rest h =
    rw (show_from, lt→ltb n 10 (omega arith)) (read-last n rest (omega arith))
read-show_from (suc f) n rest h = elim (Bool-cases (ltb n 10)) [
  | inl e ↦ rw (show_from, e) (read-last n rest (ltb→lt n 10 e))
  | inr e ↦
      let small : n / 10 ≤ f = ground (arith, h, e) in
      rw (show_from, e)
        (read-show_from f (n / 10) (String.◌++◌ (digit (n % 10)) rest) small
          ∙ read-one (n / 10) (n % 10) rest (omega arith)
          ∙ ap (λ k. read k rest) (omega arith))
]

pub read-show : (n : ℕ) → read 0 (show n) ≡ n
unfolding show read
read-show n = read-show_from n n "" (omega arith)

chars-append : (s t : String) → chars (String.◌++◌ s t) ≡ chars s + chars t
chars-append String.[] t = rw (append.nil t) (omega arith)
chars-append (String.◌∷◌ c s) t = rw (append.cons c s t) (omega (arith, chars-append s t))

chars-digit : (d : ℕ) → chars (digit d) ≡ 1
chars-digit zero = refl
chars-digit (suc zero) = refl
chars-digit (suc (suc zero)) = refl
chars-digit (suc (suc (suc zero))) = refl
chars-digit (suc (suc (suc (suc zero)))) = refl
chars-digit (suc (suc (suc (suc (suc zero))))) = refl
chars-digit (suc (suc (suc (suc (suc (suc zero)))))) = refl
chars-digit (suc (suc (suc (suc (suc (suc (suc zero))))))) = refl
chars-digit (suc (suc (suc (suc (suc (suc (suc (suc zero)))))))) = refl
chars-digit (suc (suc (suc (suc (suc (suc (suc (suc (suc n))))))))) = refl

show_from-step :
    (f n : ℕ) (rest : String)
    → 10 ≤ n
    → show_from (suc f) n rest ≡ show_from f (n / 10) (String.◌++◌ (digit (n % 10)) rest)
unfolding show_from
show_from-step f n rest h = let e : ltb n 10 ≡ false = ground (arith, h) in rw (show_from, e) refl

show_from-last :
    (f n : ℕ) (rest : String)
    → n < 10
    → show_from (suc f) n rest ≡ String.◌++◌ (digit (n % 10)) rest
unfolding show_from
show_from-last f n rest h = let e : ltb n 10 ≡ true = ground (arith, h) in rw (show_from, e) refl

chars-show_from :
    (f n : ℕ)
    → 100000 ≤ n
    → n ≤ 999999
    → chars (show_from (suc (suc (suc (suc (suc (suc f)))))) n "") ≡ 6
chars-show_from f n low high =
    rw
      (
        show_from-step (suc (suc (suc (suc (suc f))))) n _ (omega arith),
        show_from-step (suc (suc (suc (suc f)))) (n / 10) _ (omega arith),
        show_from-step (suc (suc (suc f))) (n / 10 / 10) _ (omega arith),
        show_from-step (suc (suc f)) (n / 10 / 10 / 10) _ (omega arith),
        show_from-step (suc f) (n / 10 / 10 / 10 / 10) _ (omega arith),
        show_from-last f (n / 10 / 10 / 10 / 10 / 10) _ (omega arith),
      )
      (simp (chars-append, chars-digit))

-- A number of six digits is printed with six characters.
pub chars-show : (n : ℕ) → 100000 ≤ n → n ≤ 999999 → chars (show n) ≡ 6
unfolding show
chars-show n low high =
    let e : n ≡ suc (suc (suc (suc (suc (n - 5))))) = omega arith in
    subst (λ k. chars (show_from (suc k) n "") ≡ 6) (sym e) (chars-show_from (n - 5) n low high)
