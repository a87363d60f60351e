-- ===== src/Pages/Insights.antt =====
-- web/src/pages/Insights.tsx: the state of the page and what it derives from the links.
-- Counts are exact: the source's doubles are, up to 2 ^ 53.
pub mod Sorting
pub mod Charts
pub mod Render
mod Tests
use bittuly.Prelude.{
  ℕ, Bool, true, false, List, [], ◌∷◌, ◌++◌, map, String, length, take, drop, get_or, ◌%◌, filter,
  sum_by, ltb, leb, ◌==◌, if◌then◌else◌, template, show,
}
use bittuly.Api.Client.{Result, resolved, rejected}
use bittuly.Api.Urls.{ShortenedUrl}

-- `mounted` is the flag of the effect's closure.
pub record State : Type 0 where
  pub urls : List ShortenedUrl
  pub is_loading : Bool
  pub mounted : Bool

pub data Event : Type 0 where
  loaded : Result (List ShortenedUrl) → Event
  unmounted : Event

unfoldable pub init : State
init = record { urls = []; is_loading = true; mounted = true }

load : State → Result (List ShortenedUrl) → State
load s (resolved links) = record s { urls = links; is_loading = false }
load s (rejected e) = record s { is_loading = false }

unfoldable pub update : State → Event → State
unfolding load
update s (loaded r) = if s.mounted then load s r else s
update s unmounted = record s { mounted = false }

-- `Array.prototype.sort` is stable: a link goes in front of those that are not greater.
insert : ShortenedUrl → List ShortenedUrl → List ShortenedUrl
insert u [] = u ∷ []
insert u (v ∷ vs) = if leb v.click_count u.click_count then u ∷ v ∷ vs else v ∷ insert u vs

-- `[...urls].sort((a, b) => b.click_count - a.click_count)`.
unfoldable pub sort_by_clicks : List ShortenedUrl → List ShortenedUrl
unfolding insert
sort_by_clicks [] = []
sort_by_clicks (u ∷ us) = insert u (sort_by_clicks us)

abbrev pub clicks_of : ShortenedUrl → ℕ
clicks_of u = u.click_count

unfoldable pub total_clicks : List ShortenedUrl → ℕ
total_clicks urls = sum_by clicks_of urls

unfoldable pub active_links : List ShortenedUrl → List ShortenedUrl
active_links urls = filter (λ u. ltb 0 u.click_count) urls

unfoldable pub silent_links : List ShortenedUrl → List ShortenedUrl
silent_links urls = filter (λ u. u.click_count == 0) urls

abbrev pub max_pie : ℕ
max_pie = 7

pub record Slice : Type 0 where
  pub name : String
  pub value : ℕ
  pub original_url : String

pub record Bar : Type 0 where
  pub name : String
  pub clicks : ℕ
  pub original_url : String

abbrev pub slice_of : ShortenedUrl → Slice
slice_of u = record { name = u.short_code; value = u.click_count; original_url = u.original_url }

abbrev pub bar_of : ShortenedUrl → Bar
bar_of u = record { name = u.short_code; clicks = u.click_count; original_url = u.original_url }

unfoldable pub pie_top : List ShortenedUrl → List ShortenedUrl
pie_top urls = take max_pie (sort_by_clicks (active_links urls))

unfoldable pub pie_rest : List ShortenedUrl → List ShortenedUrl
pie_rest urls = drop max_pie (sort_by_clicks (active_links urls))

unfoldable pub other_clicks : List ShortenedUrl → ℕ
other_clicks urls = sum_by clicks_of (pie_rest urls)

-- The last entry of `pieData`, or none.
unfoldable pub others : List ShortenedUrl → List Slice
others urls =
    if ltb 0 (other_clicks urls)
    then record {
      name = "others";
      value = other_clicks urls;
      original_url = template (show (length (pie_rest urls)) ∷ " more link(s)" ∷ []);
    }
      ∷ []
    else []

unfoldable pub pie_data : List ShortenedUrl → List Slice
pie_data urls = map slice_of (pie_top urls) ++ others urls

unfoldable pub bar_data : List ShortenedUrl → List Bar
bar_data urls = map bar_of (take 8 (sort_by_clicks urls))

-- `COLORS`.
abbrev pub colors : List String
colors =
    "#2563eb" ∷ "#16a34a" ∷ "#ea580c" ∷ "#dc2626" ∷ "#9333ea" ∷ "#0891b2" ∷ "#d97706" ∷ "#be185d"
    ∷ []

-- `COLORS[i % COLORS.length]`: the index is in range, so the default is not used.
unfoldable pub color_at : ℕ → String
color_at i = get_or colors (i % length colors) ""
