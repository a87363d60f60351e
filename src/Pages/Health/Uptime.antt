-- ===== src/Pages/Health/Uptime.antt =====
-- `formatUptime` of web/src/pages/Health.tsx. Seconds are a natural number.
use bittuly.Prelude.{
  ℕ, ◌+◌, ◌*◌, ◌/◌, ◌%◌, ◌≤◌, ◌<◌, ◌≡◌, refl, List, [], ◌∷◌, String, if◌then◌else◌, ltb, ◌==◌, All,
  show, template, arith,
}

-- A number with its unit.
pub data TimeUnit : Type 0 where
  days hours minutes seconds : TimeUnit

abbrev letter : TimeUnit → String
letter days = "d"
letter hours = "h"
letter minutes = "m"
letter seconds = "s"

abbrev pub Part : Type 0
Part = ℕ × TimeUnit

-- The numbers that the text has.
unfoldable pub uptime_parts : ℕ → List Part
uptime_parts secs =
    let d = secs / 86400 in
    let h = secs % 86400 / 3600 in
    let m = secs % 3600 / 60 in
    let s = secs % 60 in
    if ltb 0 d
    then (d, days) ∷ (h, hours) ∷ (m, minutes) ∷ []
    else if ltb 0 h
    then (h, hours) ∷ (m, minutes) ∷ (s, seconds) ∷ []
    else if ltb 0 m
    then (m, minutes) ∷ (s, seconds) ∷ []
    else (s, seconds) ∷ []

-- The parts with a space between them.
parts_text : List Part → List String
parts_text [] = []
parts_text ((n, u) ∷ []) = show n ∷ letter u ∷ []
parts_text ((n, u) ∷ p ∷ ps) = show n ∷ letter u ∷ " " ∷ parts_text (p ∷ ps)

unfoldable pub format_uptime : ℕ → String
unfolding uptime_parts parts_text
format_uptime secs = if secs == 0 then "—" else template (parts_text (uptime_parts secs))

abbrev pub unit_seconds : TimeUnit → ℕ
unit_seconds days = 86400
unit_seconds hours = 3600
unit_seconds minutes = 60
unit_seconds seconds = 1

-- The time that some parts say.
abbrev pub total_seconds : List Part → ℕ
total_seconds [] = 0
total_seconds ((n, u) ∷ ps) = n * unit_seconds u + total_seconds ps

-- No part but the days is as large as the next unit.
abbrev pub IsPart : Part → Type 0
IsPart (n, days) = Unit {0}
IsPart (n, hours) = n < 24
IsPart (n, minutes) = n < 60
IsPart (n, seconds) = n < 60

-- The parts of a time are in range, none but the days reaching the next unit, and say the time:
-- exactly below one day, and else down to the minute.
pub uptime_parts-total :
    (secs : ℕ)
    → let shown = total_seconds (uptime_parts secs) in
      All IsPart (uptime_parts secs)
      × (shown ≤ secs)
      × (secs < shown + 60)
      × ((if ltb secs 86400 then shown else secs) ≡ secs)
unfolding uptime_parts
uptime_parts-total secs = (ground arith, ground arith, ground arith, ground arith)

two_days : format_uptime 180061 ≡ "2d 2h 1m"
unfolding format_uptime template show
two_days = refl
