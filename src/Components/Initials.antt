-- ===== src/Components/Initials.antt =====
-- `getInitials` of web/src/components/AppSidebar.tsx, web/src/components/TopBar.tsx and
-- web/src/pages/Profile.tsx, which have one text, over UTF-16 units.
use bittuly.Prelude.{
  ℕ, ◌≡◌, refl, ap, Bool, true, false, List, [], ◌∷◌, ◌++◌, map, String, take, ◌==◌, if◌then◌else◌,
  Bool-cases, inl, inr, ◌∙◌, utf16_units,
}
use bittuly.Web.Host.{Host}

-- `s.split(sep)`; the empty text gives one empty piece.
abbrev cons_head : ℕ → List (List ℕ) → List (List ℕ)
cons_head c [] = (c ∷ []) ∷ []
cons_head c (w ∷ ws) = (c ∷ w) ∷ ws

split : ℕ → List ℕ → List (List ℕ)
split sep [] = [] ∷ []
split sep (c ∷ cs) = let rest = split sep cs in if c == sep then [] ∷ rest else cons_head c rest

-- `n[0]`, which is undefined on an empty piece, and `join("")`, to which undefined adds nothing.
first_unit : List ℕ → List ℕ
first_unit [] = []
first_unit (c ∷ cs) = c ∷ []

join : List (List ℕ) → List ℕ
join [] = []
join (w ∷ ws) = w ++ join ws

unfoldable pub get_initials : Host → String → String
unfolding split first_unit join
get_initials h name =
    h.units_text (take 2 (h.to_upper (join (map first_unit (split b' ' (utf16_units name))))))

-- The units that begin a word: those that are no space and stand first or after a space.
abbrev pub word_starts : Bool → List ℕ → List ℕ
word_starts fresh [] = []
word_starts fresh (c ∷ cs) =
    if c == b' '
    then word_starts true cs
    else if fresh
    then c ∷ word_starts false cs
    else word_starts false cs

-- The initials of the pieces after the first.
later_initials : List (List ℕ) → List ℕ
later_initials [] = []
later_initials (w ∷ ws) = join (map first_unit ws)

initials-cons_head :
    (c : ℕ) (ws : List (List ℕ))
    → (join (map first_unit (cons_head c ws)) ≡ c ∷ later_initials ws)
      × (later_initials (cons_head c ws) ≡ later_initials ws)
unfolding join first_unit later_initials
initials-cons_head c [] = (refl, refl)
initials-cons_head c (w ∷ ws) = (refl, refl)

split-starts :
    (cs : List ℕ)
    → (join (map first_unit (split b' ' cs)) ≡ word_starts true cs)
      × (later_initials (split b' ' cs) ≡ word_starts false cs)
unfolding split join first_unit later_initials
split-starts [] = (refl, refl)
split-starts (c ∷ cs) =
    let (all, later) = split-starts cs in
    let (head, tail) = initials-cons_head c (split b' ' cs) in
    elim (Bool-cases (c == b' ')) [
      | inl e ↦ rw e (all, all)
      | inr e ↦ rw e (head ∙ ap (λ t. c ∷ t) later, tail ∙ later)
    ]

-- The initials are the first two units of the upper case of the units that begin the words of the
-- name, however many spaces stand between the words or around them.
pub get_initials-starts :
    (h : Host) (name : String)
    → get_initials h name ≡ h.units_text (take 2 (h.to_upper (word_starts true (utf16_units name))))
unfolding get_initials
get_initials-starts h name =
    ap (λ t. h.units_text (take 2 (h.to_upper t))) (split-starts (utf16_units name)).0
