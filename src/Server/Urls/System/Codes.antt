-- ===== src/Server/Urls/System/Codes.antt =====
-- A code that was given out leads to one URL for ever.
use bittuly.Prelude.{
  ℕ, ◌≤◌, ◌<◌, ◌≡◌, true, ◌&&◌, List, [], ◌∷◌, String, All, All-map, any, inl, inr, Bool-cases,
  str_eq, str_eq_iff, arith,
}
use bittuly.Server.Urls.{Url, Packages}
use bittuly.Server.Urls.Table.{IsTable, IsCoded, IsInjective}
use bittuly.Server.Urls.Handlers.{State}
use mathlib.Core.Path.{subst}
use bittuly.Server.Urls.System.Known.{IsKnown, IsKnownRow}

-- Some link of the list has the code and the URL.
abbrev pub IsIssued : List Url → String → String → Type 0
IsIssued log code url =
    any (λ (u : Url). str_eq u.short_code code && str_eq u.original_url url) log ≡ true

-- Its id has been drawn from the sequence.
abbrev pub IsDrawn : Packages → ℕ → Url → Type 0
IsDrawn p n u = (u.url_id < n) × IsCoded p u

pub IsIssued-more :
    (u : Url) (log : List Url) (code url : String)
    → IsIssued log code url
    → IsIssued (u ∷ log) code url
IsIssued-more u log code url h = ground (arith, h)

pub IsIssued-self : (u : Url) (log : List Url) → IsIssued (u ∷ log) u.short_code u.original_url
IsIssued-self u log =
    ground (arith, str_eq_iff u.short_code u.short_code, str_eq_iff u.original_url u.original_url)

-- The code of an id that has not been drawn is not given out.
undrawn :
    (p : Packages) (n : ℕ) (log : List Url) (code url : String)
    → IsInjective p
    → All (IsDrawn p n) log
    → code ≡ p.encode n
    → ¬ IsIssued log code url
undrawn p n [] code url inj d e h = cc
undrawn p n (u ∷ log) code url inj d e h =
    elim (Bool-cases (str_eq u.short_code code && str_eq u.original_url url)) [
      | inl b ↦
          let same : u.short_code ≡ code = ground (arith, b, str_eq_iff u.short_code code) in
          let ids : u.url_id ≡ n = inj u.url_id n (cc) in absurd (omega (arith, ids, d.0.0))
      | inr b ↦ undrawn p n log code url inj d.1 e (ground (arith, h, b))
    ]

pub record Consistent (p : Packages) (log : List Url) (s : State) : Type 0 where
  pub primary : IsTable p s.primary
  pub replica : IsTable p s.replica
  pub drawn : All (IsDrawn p s.primary.next_id) log
  pub one_url : (code a b : String) → IsIssued log code a → IsIssued log code b → a ≡ b
  pub rows : All (IsKnownRow (IsIssued log)) s.primary.rows
  pub known : IsKnown (IsIssued log) s

-- A link with a new code.
pub one_url-new :
    (p : Packages) (n : ℕ) (u : Url) (log : List Url)
    → IsInjective p
    → All (IsDrawn p n) log
    → u.short_code ≡ p.encode n
    → ((code a b : String) → IsIssued log code a → IsIssued log code b → a ≡ b)
    → (code a b : String) → IsIssued (u ∷ log) code a
    → IsIssued (u ∷ log) code b
    → a ≡ b
one_url-new p n u log inj d e one code a b h k = elim (Bool-cases (str_eq u.short_code code)) [
  | inl same ↦
      let c : code ≡ p.encode n = ground (arith, same, e, str_eq_iff u.short_code code) in
      let first = undrawn p n log code a inj d c in
      let second = undrawn p n log code b inj d c in
      ground
        (arith, h, k, same, first, second, str_eq_iff u.original_url a, str_eq_iff u.original_url b)
  | inr other ↦ one code a b (ground (arith, h, other)) (ground (arith, k, other))
]

-- A link that is given out once more.
pub IsIssued-again :
    (u : Url) (log : List Url) (code url : String)
    → IsIssued log u.short_code u.original_url
    → IsIssued (u ∷ log) code url
    → IsIssued log code url
IsIssued-again u log code url h k =
    elim (Bool-cases (str_eq u.short_code code && str_eq u.original_url url)) [
      | inl b ↦
          let c : u.short_code ≡ code = ground (arith, b, str_eq_iff u.short_code code) in
          let o : u.original_url ≡ url = ground (arith, b, str_eq_iff u.original_url url) in
          subst (λ x. IsIssued log x url) c (subst (λ x. IsIssued log u.short_code x) o h)
      | inr b ↦ ground (arith, k, b)
    ]

pub IsDrawn-more :
    (p : Packages) (m n : ℕ) (log : List Url)
    → m ≤ n
    → All (IsDrawn p m) log
    → All (IsDrawn p n) log
IsDrawn-more p m n log h = All-map (λ u d. (omega (arith, h, d.0), d.1)) log
