-- ===== src/Pages/Insights/Charts.antt =====
-- What the pie chart shows of the links.
use bittuly.Prelude.{
  ℕ, zero, suc, ◌<◌, ◌+◌, ◌≡◌, ◌≢◌, refl, inl, inr, List, [], ◌∷◌, map, String, min, length, take,
  drop, sum_by, sum_by-append, All, All-append, All-drop, All-take, take-append-drop, length-append,
  length-take, length-drop, length-map, Bool-cases, leb, ltb, ltb→lt, if◌then◌else◌, arith, sym, ap,
  ◌∙◌, str_eq,
}
use bittuly.Api.Urls.{ShortenedUrl}
use bittuly.Pages.Insights.{
  clicks_of, insert, sort_by_clicks, Slice, slice_of, total_clicks, active_links, silent_links,
  pie_top, pie_rest, other_clicks, others, pie_data, color_at,
}
use bittuly.Pages.Insights.Sorting.{sum_by-sort, length-sort}

abbrev pub value_of : Slice → ℕ
value_of s = s.value

abbrev IsActive : ShortenedUrl → Type 0
IsActive u = 0 < u.click_count

sum_by-slices : (us : List ShortenedUrl) → sum_by value_of (map slice_of us) ≡ sum_by clicks_of us
sum_by-slices [] = refl
sum_by-slices (u ∷ us) = omega (arith, sum_by-slices us)

-- The links with no click add nothing to a sum of clicks.
sum_by-active : (us : List ShortenedUrl) → sum_by clicks_of (active_links us) ≡ sum_by clicks_of us
unfolding active_links
sum_by-active [] = refl
sum_by-active (u ∷ us) = ground (arith, sum_by-active us)

sum_by-others : (us : List ShortenedUrl) → sum_by value_of (others us) ≡ other_clicks us
unfolding others
sum_by-others us = ground arith

sum_by-pie_parts :
    (us : List ShortenedUrl) → sum_by clicks_of (pie_top us) + other_clicks us ≡ total_clicks us
unfolding pie_top other_clicks pie_rest total_clicks
sum_by-pie_parts us =
    let s = sort_by_clicks (active_links us) in
    sym (sum_by-append clicks_of (take 7 s) (drop 7 s))
    ∙ ap (sum_by clicks_of) (take-append-drop 7 s)
    ∙ sum_by-sort (active_links us)
    ∙ sum_by-active us

-- The values of the pie's slices add up to the page's total of clicks, whatever the links: grouping
-- the links past the seventh as "others" loses no click and counts none twice.
pub pie_data-total : (us : List ShortenedUrl) → sum_by value_of (pie_data us) ≡ total_clicks us
unfolding pie_data
pie_data-total us =
    sum_by-append value_of (map slice_of (pie_top us)) (others us)
    ∙ omega (arith, sum_by-slices (pie_top us), sum_by-others us, sum_by-pie_parts us)

insert-IsActive :
    (u : ShortenedUrl) (us : List ShortenedUrl)
    → IsActive u
    → All IsActive us
    → All IsActive (insert u us)
unfolding insert
insert-IsActive u [] h k = (h, tt)
insert-IsActive u (v ∷ vs) h k = elim (Bool-cases (leb v.click_count u.click_count)) [
  | inl e ↦ rw e (h, k)
  | inr e ↦ rw e (k.0, insert-IsActive u vs h k.1)
]

sort-IsActive : (us : List ShortenedUrl) → All IsActive us → All IsActive (sort_by_clicks us)
unfolding sort_by_clicks
sort-IsActive [] h = tt
sort-IsActive (u ∷ us) h = insert-IsActive u (sort_by_clicks us) h.0 (sort-IsActive us h.1)

active_links-IsActive : (us : List ShortenedUrl) → All IsActive (active_links us)
unfolding active_links
active_links-IsActive [] = tt
active_links-IsActive (u ∷ us) = elim (Bool-cases (ltb 0 u.click_count)) [
  | inl e ↦ rw e (ltb→lt 0 u.click_count e, active_links-IsActive us)
  | inr e ↦ rw e (active_links-IsActive us)
]

ranked-IsActive : (us : List ShortenedUrl) → All IsActive (sort_by_clicks (active_links us))
ranked-IsActive us = sort-IsActive (active_links us) (active_links-IsActive us)

-- Among active links, a sum of clicks is positive exactly when there is a link.
length-others_of :
    (us : List ShortenedUrl) → All IsActive us → (ltb 0 (sum_by clicks_of us)) ≡ ltb 0 (length us)
length-others_of [] h = refl
length-others_of (u ∷ us) h = ground arith

-- There is an "others" slice exactly when more than seven links were clicked.
length-others :
    (us : List ShortenedUrl)
    → length (others us) ≡ (if ltb 7 (length (active_links us)) then 1 else 0)
unfolding others other_clicks pie_rest
length-others us =
    let s = sort_by_clicks (active_links us) in
    ground (
      arith,
      length-others_of (drop 7 s) (All-drop IsActive 7 s (ranked-IsActive us)),
      length-drop 7 s,
      length-sort (active_links us),
    )

slices-positive :
    (us : List ShortenedUrl) → All IsActive us → All (λ (s : Slice). 0 < s.value) (map slice_of us)
slices-positive [] h = tt
slices-positive (u ∷ us) h = (h.0, slices-positive us h.1)

others-positive : (us : List ShortenedUrl) → All (λ (s : Slice). 0 < s.value) (others us)
unfolding others
others-positive us = elim (Bool-cases (ltb 0 (other_clicks us))) [
  | inl e ↦ rw e (ltb→lt 0 (other_clicks us) e, tt)
  | inr e ↦ rw e tt
]

-- The pie has a slice for each clicked link up to the seventh, one more exactly when more than
-- seven links were clicked, and no empty slice.
pub pie_data-slices :
    (us : List ShortenedUrl)
    → (length (pie_data us) ≡ min 8 (length (active_links us)))
      × All (λ (s : Slice). 0 < s.value) (pie_data us)
unfolding pie_data
pie_data-slices us = (
  length-append (map slice_of (pie_top us)) (others us)
      ∙ unfold pie_top in
        ground (
          arith,
          length-map slice_of (pie_top us),
          length-others us,
          length-take 7 (sort_by_clicks (active_links us)),
          length-sort (active_links us),
        ),
  All-append (λ (s : Slice). 0 < s.value) (map slice_of (pie_top us)) (others us)
      (slices-positive (pie_top us) (
        unfold pie_top in
        All-take IsActive 7 (sort_by_clicks (active_links us)) (ranked-IsActive us)))
      (others-positive us),
)

-- The place of a colour in `COLORS`.
color_index : String → ℕ
color_index c =
    if str_eq c "#2563eb"
    then 0
    else if str_eq c "#16a34a"
    then 1
    else if str_eq c "#ea580c"
    then 2
    else if str_eq c "#dc2626"
    then 3
    else if str_eq c "#9333ea"
    then 4
    else if str_eq c "#0891b2"
    then 5
    else if str_eq c "#d97706"
    then 6
    else 7

color_index-color_at : (i : ℕ) → i < 8 → color_index (color_at i) ≡ i
unfolding color_index color_at
color_index-color_at zero h = refl
color_index-color_at (suc zero) h = refl
color_index-color_at (suc (suc zero)) h = refl
color_index-color_at (suc (suc (suc zero))) h = refl
color_index-color_at (suc (suc (suc (suc zero)))) h = refl
color_index-color_at (suc (suc (suc (suc (suc zero))))) h = refl
color_index-color_at (suc (suc (suc (suc (suc (suc zero)))))) h = refl
color_index-color_at (suc (suc (suc (suc (suc (suc (suc zero))))))) h = refl
color_index-color_at (suc (suc (suc (suc (suc (suc (suc (suc n)))))))) h = absurd (omega arith)

-- No two slices of the pie have one colour: the palette never comes round in it.
pub pie_data-colors :
    (us : List ShortenedUrl) (i j : ℕ)
    → i < length (pie_data us)
    → j < length (pie_data us)
    → i ≢ j
    → color_at i ≢ color_at j
pie_data-colors us i j p q n e =
    let small = (pie_data-slices us).0 in
    n (
      sym (color_index-color_at i (omega arith))
      ∙ ap color_index e
      ∙ color_index-color_at j (omega arith))

-- Every link is active or silent and none is both, and the active ones have all the clicks.
pub active-silent_partition :
    (us : List ShortenedUrl)
    → (length (active_links us) + length (silent_links us) ≡ length us)
      × (total_clicks (active_links us) ≡ total_clicks us)
      × (total_clicks (silent_links us) ≡ 0)
unfolding active_links silent_links total_clicks
active-silent_partition [] = (refl, refl, refl)
active-silent_partition (u ∷ us) =
    let ih = active-silent_partition us in
    (ground (arith, ih.0), ground (arith, ih.1), ground (arith, ih.2))

-- A link is active exactly when there is a click at all.
pub length-active_pos :
    (us : List ShortenedUrl) → ltb 0 (total_clicks us) ≡ ltb 0 (length (active_links us))
unfolding total_clicks
length-active_pos us =
    ap (λ n. ltb 0 n) (sym (sum_by-active us))
    ∙ length-others_of (active_links us) (active_links-IsActive us)
