-- ===== src/Pages/Insights/Render.antt =====
-- web/src/pages/Insights.tsx: what the page shows. Constant class names and chart measures are left
-- out; a class that the state chooses is kept.
pub mod Rows
pub mod Label
use bittuly.Prelude.{
  ℕ, suc, ◌≡◌, refl, Bool, true, false, not, ◌&&◌, Option, none, some, List, [], ◌∷◌, String,
  length, ltb, ◌==◌, if◌then◌else◌, truthy, template, show, arith,
}
use bittuly.Web.View.{
  prop, flag, View, nothing, text, num, el, ◌▸◌, shown_if, each_from, leaf, occurrences,
}
use bittuly.Web.Host.{Host}
use bittuly.Api.Client.{Env, urls_base_url}
use bittuly.Api.Urls.{ShortenedUrl}
use bittuly.Pages.Insights.{
  State, Event, Slice, Bar, sort_by_clicks, total_clicks, active_links, silent_links, pie_data,
  bar_data, color_at,
}
use bittuly.Pages.Insights.Sorting.{length-sort}
use bittuly.Pages.Insights.Charts.{length-active_pos}

abbrev V : Type 0
V = View Event

-- `value` is a number or a text.
stat_card : String → V → String → Bool → V
stat_card label value sub highlight =
    el "div"
      (prop "className" (
          if highlight
          then "border-blue-200 bg-blue-50 dark:border-blue-800 dark:bg-blue-950/40"
          else "bg-card")
        ∷ [])
      (el "p" [] (text label) ▸ el "p" [] value ▸ shown_if (truthy sub) (el "p" [] (text sub)))

abbrev plural : ℕ → String → String → String
plural n one many = if n == 1 then one else many

-- The datum under the pointer; the chart adds `percent`.
record Hover (h : Host) : Type 0 where
  slice : Slice
  percent : Option h.Num

percent_text : (h : Host) → Option h.Num → String
percent_text h none = "?"
percent_text h (some p) = h.to_fixed (h.mul p (h.of_ℕ 100)) 1

-- `payload[0]` of an active tooltip.
pie_tooltip : (h : Host) → Bool → List (Hover h) → V
unfolding percent_text
pie_tooltip h false payload = nothing
pie_tooltip h true [] = nothing
pie_tooltip h true (d ∷ rest) = el "div" [] (
    el "p" [] (text "/" ▸ text d.slice.name)
    ▸ el "p" [] (text d.slice.original_url)
    ▸ el "p" [] (
        num d.slice.value
        ▸ text " "
        ▸ text (plural d.slice.value "click" "clicks")
        ▸ el "span" [] (text "(" ▸ text (percent_text h d.percent) ▸ text "%)")))

bar_tooltip : Bool → List Bar → V
bar_tooltip false payload = nothing
bar_tooltip true [] = nothing
bar_tooltip true (d ∷ rest) = el "div" [] (
    el "p" [] (text "/" ▸ text d.name)
    ▸ el "p" [] (text d.original_url)
    ▸ el "p" [] (num d.clicks ▸ text " " ▸ text (plural d.clicks "click" "clicks")))

cell : {A : Type 0} → ℕ → A → V
cell i x = el "Cell" (prop "key" (show i) ∷ prop "fill" (color_at i) ∷ []) nothing

-- The charts row. The data of a chart are not in the tree; it has a cell for each datum.
charts : List ShortenedUrl → V
unfolding cell
charts urls = el "div" [] (
    el "div" [] (
      el "h2" [] (text "Clicks Distribution")
      ▸ el "p" [] (text "Each arc is a link — hover for full URL and count")
      ▸ el "PieChart" [] (
          el "Pie" (prop "dataKey" "value" ∷ prop "label" "PieLabel" ∷ [])
            (each_from 0 (λ i (d : Slice). cell i d) (pie_data urls))
          ▸ el "Tooltip" (prop "content" "PieTooltip" ∷ []) nothing))
    ▸ el "div" [] (
        el "h2" [] (text "Top Links by Clicks")
        ▸ el "p" [] (text "Up to 8 links ranked by total clicks")
        ▸ el "BarChart" (prop "layout" "vertical" ∷ []) (
            leaf "CartesianGrid"
            ▸ el "XAxis" (prop "type" "number" ∷ flag "allowDecimals" false ∷ []) nothing
            ▸ el "YAxis" (prop "type" "category" ∷ prop "dataKey" "name" ∷ []) nothing
            ▸ el "Tooltip" (prop "content" "BarTooltip" ∷ []) nothing
            ▸ el "Bar" (prop "dataKey" "clicks" ∷ [])
                (each_from 0 (λ i (d : Bar). cell i d) (bar_data urls)))))

module _ (h : Host) (env : Env) where
  -- A link's part of all clicks, in percent.
  share : ℕ → ShortenedUrl → h.Num
  share total u =
      if ltb 0 total
      then h.mul (h.div (h.of_ℕ u.click_count) (h.of_ℕ total)) (h.of_ℕ 100)
      else h.of_ℕ 0

  -- One row of the table; `total` is `totalClicks`.
  row : ℕ → ℕ → ShortenedUrl → V
  unfolding share
  row total i u = el "tr" (prop "key" (show u.id) ∷ []) (
      el "td" [] (
        el "span" (prop "background" (color_at i) ∷ []) nothing
        ▸ el "a"
            (prop "href" (template (urls_base_url env ∷ "/" ∷ u.short_code ∷ []))
              ∷ prop "target" "_blank"
              ∷ prop "rel" "noopener noreferrer"
              ∷ [])
            (text "/" ▸ text u.short_code))
      ▸ el "td" [] (el "span" (prop "title" u.original_url ∷ []) (text u.original_url))
      ▸ el "td" [] (num u.click_count)
      ▸ el "td" [] (
          el "div"
            (prop "width" (template (h.number_text (share total u) ∷ "%" ∷ []))
              ∷ prop "background" (color_at i)
              ∷ [])
            nothing
          ▸ el "span" [] (
              text (
                if h.is_positive (share total u)
                then template (h.to_fixed (share total u) 1 ∷ "%" ∷ [])
                else "—")))
      ▸ el "td" [] (text (h.indian_date u.created_at)))

  table : List ShortenedUrl → V
  unfolding row
  table urls = el "div" [] (
      el "h2" [] (text "All Links Performance")
      ▸ el "p" [] (text "Sorted by most clicks · progress bar shows share of total clicks")
      ▸ el "table" [] (
          el "thead" [] (
            el "tr" [] (
              el "th" [] (text "Short Code")
              ▸ el "th" [] (text "Original URL")
              ▸ el "th" [] (text "Clicks")
              ▸ el "th" [] (text "Share")
              ▸ el "th" [] (text "Created")))
          ▸ el "tbody" [] (each_from 0 (row (total_clicks urls)) (sort_by_clicks urls))))

  -- `avgClicks`.
  avg_clicks : List ShortenedUrl → String
  avg_clicks [] = "—"
  avg_clicks (u ∷ us) =
      h.to_fixed (h.div (h.of_ℕ (total_clicks (u ∷ us))) (h.of_ℕ (length (u ∷ us)))) 1

  -- The line under the average; the argument is `sorted`.
  best_link : List ShortenedUrl → String
  best_link [] = "No clicks yet"
  best_link (top ∷ rest) =
      if ltb 0 top.click_count
      then template ("Best: /" ∷ top.short_code ∷ " (" ∷ show top.click_count ∷ ")" ∷ [])
      else "No clicks yet"

  never_clicked : List ShortenedUrl → String
  never_clicked silent =
      if ltb 0 (length silent)
      then template (show (length silent) ∷ " never clicked" ∷ [])
      else "All links have clicks"

  stat_cards : List ShortenedUrl → V
  unfolding stat_card avg_clicks best_link never_clicked
  stat_cards urls = el "div" [] (
      stat_card "Total Links" (num (length urls)) "" false
      ▸ stat_card "Total Clicks" (num (total_clicks urls)) "" (ltb 0 (total_clicks urls))
      ▸ stat_card "Active Links" (num (length (active_links urls)))
          (never_clicked (silent_links urls)) false
      ▸ stat_card "Avg Clicks / Link" (text (avg_clicks urls)) (best_link (sort_by_clicks urls))
          false)

  no_clicks : List ShortenedUrl → V
  no_clicks urls = el "p" [] (
      text "No clicks recorded yet. You have "
      ▸ num (length urls)
      ▸ text " "
      ▸ text (plural (length urls) "link" "links")
      ▸ text " — share them to see charts appear here.")

  -- The page once the links are there.
  dashboard : List ShortenedUrl → V
  unfolding stat_cards charts table no_clicks
  dashboard urls = el "div" [] (
      el "h1" [] (text "Click Analytics")
      ▸ stat_cards urls
      ▸ (if length (active_links urls) == 0 then no_clicks urls else charts urls ▸ table urls))

  unfoldable pub view : State → V
  unfolding dashboard
  view s = el "AppLayout" (prop "title" "Insights" ∷ []) (
      if s.is_loading
      then el "div" [] (text "Loading analytics…")
      else if length s.urls == 0
      then el "div" [] (
          el "h3" [] (text "No links yet")
          ▸ el "p" [] (text "Create your first shortened link to start seeing analytics here."))
      else dashboard s.urls)
