-- ===== src/Server/Urls/Rows.antt =====
-- The rows of a table, by their codes and their ids: services/url-service/src/repository.rs.
use mathlib.Core.Path.{subst}
use bittuly.Prelude.{
  ℕ, ◌≤◌, ◌<◌, ◌≡◌, ◌⊎◌, refl, ap, Bool, true, some, List, [], ◌∷◌, String, All, inl, inr,
  Bool-cases, str_eq, str_eq_iff, arith,
}
use bittuly.Server.Urls.{Url, Packages, Db, ok}
use bittuly.Server.Urls.Repository.{find, is_owned, get_original_url}
use bittuly.Server.Urls.Table.{IsTable, IsDesc, IsCoded, IsInjective}

-- A row of a list.
abbrev pub IsRow : Url → List Url → Type 0
IsRow u [] = ⊥
IsRow u (v ∷ vs) = (v ≡ u) ⊎ IsRow u vs

pub IsRow-lt : (n : ℕ) (u : Url) (us : List Url) → IsDesc n us → IsRow u us → u.url_id < n
IsRow-lt n u [] d r = elim r [ ]
IsRow-lt n u (v ∷ vs) d (inl e) = subst (λ (x : Url). x.url_id < n) e d.0
IsRow-lt n u (v ∷ vs) d (inr r) = omega (arith, d.0, IsRow-lt v.url_id u vs d.1 r)

pub IsRow-All {κ} : (P : Url → Type κ) (u : Url) (us : List Url) → All P us → IsRow u us → P u
IsRow-All P u [] h r = elim r [ ]
IsRow-All P u (v ∷ vs) h (inl e) = subst P e h.0
IsRow-All P u (v ∷ vs) h (inr r) = IsRow-All P u vs h.1 r

-- The code of a row finds that row.
pub find-row :
    (p : Packages) (n : ℕ) (us : List Url) (u : Url)
    → IsInjective p
    → IsDesc n us
    → All (IsCoded p) us
    → IsRow u us
    → find (λ (v : Url). str_eq v.short_code u.short_code) us ≡ some u
find-row p n [] u inj d c r = elim r [ ]
find-row p n (v ∷ vs) u inj d c (inl e) =
    let same : str_eq v.short_code u.short_code ≡ true =
      (str_eq_iff v.short_code u.short_code).1 (ap (λ (x : Url). x.short_code) e) in
    rw (same, e)
find-row p n (v ∷ vs) u inj d c (inr r) = elim (Bool-cases (str_eq v.short_code u.short_code)) [
  | inl b ↦
      let coded = IsRow-All (IsCoded p) u vs c.1 r in
      let ids : v.url_id ≡ u.url_id =
        inj v.url_id u.url_id (cc ((str_eq_iff v.short_code u.short_code).0 b, coded, c.0)) in
      absurd (omega (arith, ids, IsRow-lt v.url_id u vs d.1 r))
  | inr b ↦ rw b (find-row p v.url_id vs u inj d.1 c.1 r)
]

-- Rows with an id belong to a user.
abbrev pub IsOf : ℕ → String → Url → Type 0
IsOf i w u = u.url_id ≡ i → u.user_id ≡ w

lower-IsOf : (n i : ℕ) (w : String) (us : List Url) → n ≤ i → IsDesc n us → All (IsOf i w) us
lower-IsOf n i w [] h d = tt
lower-IsOf n i w (u ∷ us) h d =
    (λ e. absurd (omega (arith, e, h, d.0)), lower-IsOf u.url_id i w us (omega arith) d.1)

-- A row is the only one with its id.
pub row-IsOf :
    (n : ℕ) (u : Url) (us : List Url) → IsDesc n us → IsRow u us → All (IsOf u.url_id u.user_id) us
row-IsOf n u [] d r = elim r [ ]
row-IsOf n u (v ∷ vs) d (inl e) =
    subst (λ (x : Url). All (IsOf x.url_id x.user_id) (v ∷ vs)) e
      (λ q. refl, lower-IsOf v.url_id v.url_id v.user_id vs (omega arith) d.1)
row-IsOf n u (v ∷ vs) d (inr r) =
    (λ q. absurd (omega (arith, q, IsRow-lt v.url_id u vs d.1 r)), row-IsOf v.url_id u vs d.1 r)

find-IsRow : (test : Url → Bool) (us : List Url) (u : Url) → find test us ≡ some u → IsRow u us
find-IsRow test [] u e = cc
find-IsRow test (v ∷ vs) u e = elim (Bool-cases (test v)) [
  | inl b ↦ inl (ground (arith, e, b))
  | inr b ↦ inr (find-IsRow test vs u (ground (arith, e, b)))
]

find-true : (test : Url → Bool) (us : List Url) (u : Url) → find test us ≡ some u → test u ≡ true
find-true test [] u e = cc
find-true test (v ∷ vs) u e = elim (Bool-cases (test v)) [
  | inl b ↦ let q : v ≡ u = ground (arith, e, b) in subst (λ (x : Url). test x ≡ true) q b
  | inr b ↦ find-true test vs u (ground (arith, e, b))
]

-- The row that a user's request finds, by its URL.
pub owned-IsRow :
    (o w : String) (us : List Url) (u : Url)
    → find (is_owned o w) us ≡ some u
    → IsRow u us × (u.original_url ≡ o) × (u.user_id ≡ w)
owned-IsRow o w us u e =
    let t = find-true (is_owned o w) us u e in
    (
      find-IsRow (is_owned o w) us u e,
      ground (arith, t, str_eq_iff u.original_url o),
      ground (arith, t, str_eq_iff u.user_id w),
    )

pub get_original_url-row :
    (p : Packages) (db : Db) (u : Url)
    → IsInjective p
    → IsTable p db
    → IsRow u db.rows
    → db.up ≡ true
    → get_original_url db u.short_code ≡ ok (some (u.original_url, u.expires_at))
unfolding get_original_url
get_original_url-row p db u inj t r up =
    ground (arith, up, find-row p db.next_id db.rows u inj t.ordered t.coded r)
