-- ===== src/Pages/Insights/Tests.antt =====
-- The theorems on the charts at concrete links.
use bittuly.Prelude.{◌≡◌, refl, length, sum_by}
use bittuly.Samples.{nine_links}
use bittuly.Pages.Insights.{
  sort_by_clicks, total_clicks, active_links, pie_data, bar_data, pie_top, pie_rest, others,
  other_clicks,
}
use bittuly.Pages.Insights.Sorting.{IsRanking, bar_data-IsRanking}
use bittuly.Pages.Insights.Charts.{value_of, pie_data-total}

pie_data-total_example : sum_by value_of (pie_data nine_links) ≡ total_clicks nine_links
pie_data-total_example = pie_data-total nine_links

eight_slices : length (pie_data nine_links) ≡ 8
unfolding pie_data pie_top sort_by_clicks active_links others other_clicks pie_rest
eight_slices = refl

bar_data-IsRanking_example : IsRanking 8 nine_links (bar_data nine_links)
bar_data-IsRanking_example = bar_data-IsRanking nine_links
