-- ===== src/Pages/Insights/Sorting.antt =====
-- The order of the links: a stable sort by falling click counts.
use mathlib.Core.List.{Perm}
use mathlib.Core.List.Perm
use bittuly.Prelude.{
  ℕ, ◌≤◌, ◌+◌, ◌≡◌, refl, inl, inr, List, [], ◌∷◌, ◌++◌, map, min, length, take, drop, filter,
  sum_by, All, All-map, All-append_inv, take-append-drop, length-take, Bool-cases, leb, leb→le,
  leb→lt, ◌==◌, if◌then◌else◌, arith, ap, ◌∙◌,
}
use bittuly.Api.Urls.{ShortenedUrl}
use bittuly.Pages.Insights.{clicks_of, insert, sort_by_clicks, Bar, bar_of, bar_data}

-- Every link of the list has at most `n` clicks.
abbrev pub AtMost : ℕ → List ShortenedUrl → Type 0
AtMost n us = All (λ (v : ShortenedUrl). v.click_count ≤ n) us

-- Click counts never grow along the list.
abbrev pub IsDescending : List ShortenedUrl → Type 0
IsDescending [] = Unit
IsDescending (u ∷ us) = AtMost u.click_count us × IsDescending us

insert-perm : (u : ShortenedUrl) (us : List ShortenedUrl) → Perm (insert u us) (u ∷ us)
unfolding insert
insert-perm u [] = Perm.refl _
insert-perm u (v ∷ vs) = elim (Bool-cases (leb v.click_count u.click_count)) [
  | inl e ↦ rw e (Perm.refl _)
  | inr e ↦ rw e (Perm.trans (Perm.cons v (insert-perm u vs)) (Perm.swap _ _ _))
]

pub sort-perm : (us : List ShortenedUrl) → Perm (sort_by_clicks us) us
unfolding sort_by_clicks
sort-perm [] = Perm.refl _
sort-perm (u ∷ us) = Perm.trans (insert-perm u (sort_by_clicks us)) (Perm.cons u (sort-perm us))

AtMost-insert :
    (n : ℕ) (u : ShortenedUrl) (us : List ShortenedUrl)
    → u.click_count ≤ n
    → AtMost n us
    → AtMost n (insert u us)
unfolding insert
AtMost-insert n u [] h k = (h, tt)
AtMost-insert n u (v ∷ vs) h k = elim (Bool-cases (leb v.click_count u.click_count)) [
  | inl e ↦ rw e (h, k)
  | inr e ↦ rw e (k.0, AtMost-insert n u vs h k.1)
]

AtMost-mono : {m n : ℕ} (us : List ShortenedUrl) → m ≤ n → AtMost m us → AtMost n us
AtMost-mono us h k = All-map (λ a p. omega arith) us k

insert-IsDescending :
    (u : ShortenedUrl) (us : List ShortenedUrl) → IsDescending us → IsDescending (insert u us)
unfolding insert
insert-IsDescending u [] h = (tt, tt)
insert-IsDescending u (v ∷ vs) h = elim (Bool-cases (leb v.click_count u.click_count)) [
  | inl e ↦ rw e ((leb→le _ _ e, AtMost-mono vs (leb→le _ _ e) h.0), h)
  | inr e ↦ rw e (
    AtMost-insert v.click_count u vs (omega (arith, leb→lt _ _ e)) h.0,
    insert-IsDescending u vs h.1,
  )
]

pub sort-IsDescending : (us : List ShortenedUrl) → IsDescending (sort_by_clicks us)
unfolding sort_by_clicks
sort-IsDescending [] = tt
sort-IsDescending (u ∷ us) = insert-IsDescending u (sort_by_clicks us) (sort-IsDescending us)

-- The links with exactly `n` clicks, in their order.
abbrev pub with_clicks : ℕ → List ShortenedUrl → List ShortenedUrl
with_clicks n us = filter (λ (u : ShortenedUrl). u.click_count == n) us

with_clicks-insert :
    (n : ℕ) (u : ShortenedUrl) (us : List ShortenedUrl)
    → with_clicks n (insert u us) ≡ with_clicks n (u ∷ us)
unfolding insert
with_clicks-insert n u [] = refl
with_clicks-insert n u (v ∷ vs) = ground (arith, with_clicks-insert n u vs)

-- Sorting is stable: the links with one click count keep their order.
pub sort-with_clicks :
    (n : ℕ) (us : List ShortenedUrl) → with_clicks n (sort_by_clicks us) ≡ with_clicks n us
unfolding sort_by_clicks
sort-with_clicks n [] = refl
sort-with_clicks n (u ∷ us) =
    with_clicks-insert n u (sort_by_clicks us)
    ∙ ap (λ t. if u.click_count == n then u ∷ t else t) (sort-with_clicks n us)

sum_by-insert :
    (u : ShortenedUrl) (us : List ShortenedUrl)
    → sum_by clicks_of (insert u us) ≡ u.click_count + sum_by clicks_of us
unfolding insert
sum_by-insert u [] = refl
sum_by-insert u (v ∷ vs) = ground (arith, sum_by-insert u vs)

pub sum_by-sort :
    (us : List ShortenedUrl) → sum_by clicks_of (sort_by_clicks us) ≡ sum_by clicks_of us
unfolding sort_by_clicks
sum_by-sort [] = refl
sum_by-sort (u ∷ us) = omega (arith, sum_by-insert u (sort_by_clicks us), sum_by-sort us)

length-insert : (u : ShortenedUrl) (us : List ShortenedUrl) → length (insert u us) ≡ 1 + length us
unfolding insert
length-insert u [] = refl
length-insert u (v ∷ vs) = ground (arith, length-insert u vs)

pub length-sort : (us : List ShortenedUrl) → length (sort_by_clicks us) ≡ length us
unfolding sort_by_clicks
length-sort [] = refl
length-sort (u ∷ us) = omega (arith, length-insert u (sort_by_clicks us), length-sort us)

-- A descending list, cut anywhere: what comes after has no more clicks than what comes before.
IsDescending-append :
    (xs ys : List ShortenedUrl)
    → IsDescending (xs ++ ys)
    → IsDescending xs × All (λ (x : ShortenedUrl). AtMost x.click_count ys) xs
IsDescending-append [] ys h = (tt, tt)
IsDescending-append (x ∷ xs) ys h =
    let (before, after) =
      All-append_inv (λ (v : ShortenedUrl). v.click_count ≤ x.click_count) xs ys h.0 in
    let (sorted, low) = IsDescending-append xs ys h.1 in ((before, sorted), (after, low))

-- What it means that a chart shows the first `n` links of a ranking by clicks.
pub record IsRanking (n : ℕ) (urls : List ShortenedUrl) (bars : List Bar) : Type 0 where
  pub shown : List ShortenedUrl
  pub left_out : List ShortenedUrl
  pub complete : Perm (shown ++ left_out) urls
  pub bars_shown : bars ≡ map bar_of shown
  pub size : length shown ≡ min n (length urls)
  pub falling : IsDescending shown
  pub best : All (λ (u : ShortenedUrl). AtMost u.click_count left_out) shown

-- The bar chart shows the eight most clicked links, or all if there are fewer, in falling order:
-- the links shown and the links left out are together the links of the page, and none that is left
-- out has more clicks than one that is shown.
pub bar_data-IsRanking : (urls : List ShortenedUrl) → IsRanking 8 urls (bar_data urls)
unfolding bar_data
bar_data-IsRanking urls =
    let s = sort_by_clicks urls in
    let whole : take 8 s ++ drop 8 s ≡ s = take-append-drop 8 s in
    let (falling, best) =
      IsDescending-append (take 8 s) (drop 8 s) (rw whole (sort-IsDescending urls)) in
    record {
      shown = take 8 s;
      left_out = drop 8 s;
      complete = rw whole (sort-perm urls);
      bars_shown = refl;
      size = omega (arith, length-take 8 s, length-sort urls);
      falling = falling;
      best = best;
    }
