-- ===== src/Pages/Insights/Render/Rows.antt =====
-- The rows of the table that the page shows.
use bittuly.Prelude.{ℕ, suc, ◌≡◌, refl, not, ◌&&◌, List, [], ◌∷◌, length, ltb, if◌then◌else◌, arith}
use bittuly.Web.View.{each_from, occurrences}
use bittuly.Web.Host.{Host}
use bittuly.Api.Client.{Env}
use bittuly.Api.Urls.{ShortenedUrl}
use bittuly.Pages.Insights.{State, sort_by_clicks, total_clicks, pie_data, bar_data}
use bittuly.Pages.Insights.Sorting.{length-sort}
use bittuly.Pages.Insights.Charts.{length-active_pos}
use bittuly.Pages.Insights.Render.{
  cell, row, charts, table, dashboard, stat_cards, stat_card, no_clicks, view,
}

tr-cells :
    {A : Type 0} (i : ℕ) (xs : List A)
    → occurrences "tr" (each_from i (λ j (x : A). cell j x) xs) ≡ 0
unfolding cell
tr-cells i [] = refl
tr-cells i (x ∷ xs) = omega (arith, tr-cells (suc i) xs)

total_clicks-nil : (us : List ShortenedUrl) → length us ≡ 0 → total_clicks us ≡ 0
unfolding total_clicks
total_clicks-nil [] e = refl
total_clicks-nil (u ∷ us) e = absurd (omega arith)

module _ (h : Host) (env : Env) where
  tr-rows :
      (total i : ℕ) (us : List ShortenedUrl)
      → occurrences "tr" (each_from i (row h env total) us) ≡ length us
  unfolding row
  tr-rows total i [] = refl
  tr-rows total i (u ∷ us) = ground (arith, tr-rows total (suc i) us)

  tr-charts : (urls : List ShortenedUrl) → occurrences "tr" (charts urls) ≡ 0
  unfolding charts
  tr-charts urls = omega (arith, tr-cells 0 (pie_data urls), tr-cells 0 (bar_data urls))

  tr-table : (urls : List ShortenedUrl) → occurrences "tr" (table h env urls) ≡ suc (length urls)
  unfolding table
  tr-table urls =
      omega (arith, tr-rows (total_clicks urls) 0 (sort_by_clicks urls), length-sort urls)

  tr-dashboard :
      (urls : List ShortenedUrl)
      → occurrences "tr" (dashboard h env urls)
        ≡ (if ltb 0 (total_clicks urls) then suc (length urls) else 0)
  unfolding dashboard stat_cards stat_card no_clicks
  tr-dashboard urls = ground (arith, tr-charts urls, tr-table urls, length-active_pos urls)

  -- Once the links are loaded the page shows the table exactly when the links have a click at all,
  -- and the table has a row for each link under its heading, the links with no click too.
  pub view-rows :
      (s : State)
      → occurrences "tr" (view h env s)
        ≡ (if not s.is_loading && ltb 0 (total_clicks s.urls) then suc (length s.urls) else 0)
  unfolding view
  view-rows s = ground (arith, tr-dashboard s.urls, total_clicks-nil s.urls)
