-- ===== src/Prelude/Text/Trim.antt =====
-- Trimming a text twice is trimming it once.
use Prim.Native.Char.{Char, code}
use Prim.Native.String.{String}
use mathlib.Core.Path.{◌≡◌, refl, ap, ◌∙◌}
use mathlib.Core.Bool.{true, false}
use mathlib.Core.Logic.{inl, inr}
use bittuly.Prelude.Tests.{Bool-cases}
use bittuly.Prelude.Text.{is_space, trim_start, keep_end, trim_end, trim, truthy}

keep_end-trimmed : (c : Char) (s : String) → trim_end s ≡ s → trim_end (keep_end c s) ≡ keep_end c s
unfolding trim_end
keep_end-trimmed c String.[] h = elim (Bool-cases (is_space (code c))) [
  | inl e ↦ rw e refl
  | inr e ↦ rw (e, e) refl
]
keep_end-trimmed c (String.◌∷◌ d s) h = rw h refl

trim_end-trim_end : (s : String) → trim_end (trim_end s) ≡ trim_end s
unfolding trim_end
trim_end-trim_end String.[] = refl
trim_end-trim_end (String.◌∷◌ c s) = keep_end-trimmed c (trim_end s) (trim_end-trim_end s)

keep_end-head : (c : Char) (s : String) → is_space (code c) ≡ false → keep_end c s ≡ String.◌∷◌ c s
keep_end-head c String.[] h = rw h refl
keep_end-head c (String.◌∷◌ d s) h = refl

trim_start-trim : (s : String) → trim_start (trim_end (trim_start s)) ≡ trim_end (trim_start s)
unfolding trim_start trim_end
trim_start-trim String.[] = refl
trim_start-trim (String.◌∷◌ c s) = elim (Bool-cases (is_space (code c))) [
  | inl e ↦ rw e (trim_start-trim s)
  | inr e ↦ rw (e, keep_end-head c (trim_end s) e, e) refl
]

pub trim-trim : (s : String) → trim (trim s) ≡ trim s
unfolding trim
trim-trim s = ap trim_end (trim_start-trim s) ∙ trim_end-trim_end (trim_start s)

pub truthy-trim : (s : String) → truthy (trim s) ≡ true → truthy s ≡ true
unfolding trim
truthy-trim String.[] h = h
truthy-trim (String.◌∷◌ c s) h = refl
