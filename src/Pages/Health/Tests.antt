-- ===== src/Pages/Health/Tests.antt =====
-- The health page's theorems at concrete answers.
use bittuly.Prelude.{◌≡◌, ◌+◌, ◌≤◌, ◌<◌, All, ltb, if◌then◌else◌}
use bittuly.Pages.Health.Uptime.{uptime_parts, total_seconds, IsPart, uptime_parts-total}

uptime_parts-total_example :
    let shown = total_seconds (uptime_parts 180061) in
    All IsPart (uptime_parts 180061)
    × (shown ≤ 180061)
    × (180061 < shown + 60)
    × ((if ltb 180061 86400 then shown else 180061) ≡ 180061)
uptime_parts-total_example = uptime_parts-total 180061
