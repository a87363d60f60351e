-- ===== src/Server/Clicks/Counting.antt =====
-- Clicks of one code: in the table, in the batch and in the queue.
use bittuly.Prelude.{
  is_some, ℕ, ◌+◌, ◌≡◌, refl, ap, true, Option, none, some, List, [], ◌∷◌, ◌++◌, String,
  if◌then◌else◌, str_eq, str_eq_iff, inl, inr, Bool-cases, arith,
}
use bittuly.Server.Urls.{Url}
use bittuly.Server.Urls.Repository.{find}
use bittuly.Server.Clicks.{Batch, add_click, delta_of, increment_click_counts}
use bittuly.Server.Clicks.Broker.{up_to, past, messages}

abbrev pub one : String → Option String → ℕ
one code none = 0
one code (some k) = if str_eq k code then 1 else 0

-- The messages with a code.
abbrev pub count : String → List (Option String) → ℕ
count code [] = 0
count code (m ∷ ms) = one code m + count code ms

abbrev pub click_count_of : Option Url → ℕ
click_count_of none = 0
click_count_of (some u) = u.click_count

abbrev pub row_of : String → List Url → Option Url
row_of code rows = find (λ (u : Url). str_eq u.short_code code) rows

-- The clicks of the row with a code.
abbrev pub clicks : String → List Url → ℕ
clicks code rows = click_count_of (row_of code rows)

pub delta_of-add_click :
    (code k : String) (b : Batch)
    → delta_of code (add_click k b) ≡ delta_of code b + one code (some k)
unfolding add_click
delta_of-add_click code k [] = ground arith
delta_of-add_click code k ((j, n) ∷ b) =
    ground
      (arith, delta_of-add_click code k b, str_eq_iff j k, str_eq_iff j code, str_eq_iff k code)

pub count-append :
    (code : String) (xs ys : List (Option String))
    → count code (xs ++ ys) ≡ count code xs + count code ys
count-append code [] ys = omega arith
count-append code (m ∷ ms) ys = omega (arith, count-append code ms ys)

-- Whether a row with the code is there.
abbrev pub IsLinked : String → List Url → Type 0
IsLinked code rows = is_some (row_of code rows) ≡ true

pub increment-row :
    (code : String) (b : Batch) (rows : List Url)
    → IsLinked code rows
    → (clicks code (increment_click_counts b rows) ≡ clicks code rows + delta_of code b)
      × IsLinked code (increment_click_counts b rows)
unfolding increment_click_counts
increment-row code b [] h = cc
increment-row code b (u ∷ us) h = elim (Bool-cases (str_eq u.short_code code)) [
  | inl q ↦
      let same : u.short_code ≡ code = (str_eq_iff u.short_code code).0 q in
      rw q (ap (λ c. u.click_count + delta_of c b) same, refl)
  | inr q ↦ rw q (increment-row code b us (ground (arith, h, q)))
]

-- What a tag settles and what it leaves make up all.
pub count-up_to :
    (code : String) (tag : ℕ) (ms : List (ℕ × Option String))
    → count code (messages (up_to tag ms)) + count code (messages (past tag ms))
      ≡ count code (messages ms)
count-up_to code tag [] = omega arith
count-up_to code tag ((t, m) ∷ ms) = ground (arith, count-up_to code tag ms)
