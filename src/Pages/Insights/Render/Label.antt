-- ===== src/Pages/Insights/Render/Label.antt =====
-- web/src/pages/Insights.tsx: `PieLabel`, the label outside an arc of the pie chart.
use bittuly.Prelude.{[], ◌∷◌, String, if◌then◌else◌, template}
use bittuly.Web.View.{prop, View, nothing, text, el}
use bittuly.Web.Host.{Host}
use bittuly.Pages.Insights.{Event}

-- What the chart hands to the label: the centre, the angle in the middle of the arc in degrees, the
-- outer radius, the name of the slice and its share of the whole.
pub record LabelProps (h : Host) : Type 0 where
  pub cx : h.Num
  pub cy : h.Num
  pub mid_angle : h.Num
  pub outer_radius : h.Num
  pub name : String
  pub percent : h.Num

module _ (h : Host) where
  -- `-midAngle * RADIAN`.
  abbrev pub angle : LabelProps h → h.Num
  angle d = h.mul (h.neg d.mid_angle) (h.div h.pi (h.of_ℕ 180))

  abbrev pub label_x : LabelProps h → h.Num
  label_x d = h.add d.cx (h.mul (h.add d.outer_radius (h.of_ℕ 26)) (h.cos (angle d)))

  abbrev pub label_y : LabelProps h → h.Num
  label_y d = h.add d.cy (h.mul (h.add d.outer_radius (h.of_ℕ 26)) (h.sin (angle d)))

  -- A slice below five percent has no label.
  unfoldable pub pie_label : LabelProps h → View Event
  pie_label d =
      if h.is_less d.percent (h.div (h.of_ℕ 5) (h.of_ℕ 100))
      then nothing
      else el "text"
          (prop "x" (h.number_text (label_x d))
            ∷ prop "y" (h.number_text (label_y d))
            ∷ prop "fill" "currentColor"
            ∷ prop "textAnchor" (if h.is_less d.cx (label_x d) then "start" else "end")
            ∷ [])
          (text (
            template
              ("/" ∷ d.name ∷ " · " ∷ h.to_fixed (h.mul d.percent (h.of_ℕ 100)) 0 ∷ "%" ∷ [])))
