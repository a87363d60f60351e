-- ===== src/Pages/Health.antt =====
-- web/src/pages/Health.tsx: the state of the page, its handlers and what it shows. Constant class
-- names are left out; a class that the state chooses is kept. A time is in milliseconds.
mod Tests
pub mod Laws
pub mod Uptime
use bittuly.Prelude.{
  ℕ, ◌+◌, ◌-◌, Bool, true, false, not, ◌&&◌, Option, none, some, List, [], ◌∷◌, ◌++◌, String,
  if◌then◌else◌, ltb, is_some, str_eq, truthy, show, template,
}
use bittuly.Web.Effect.{Effect, run_all, call, timeout, interval}
use bittuly.Web.Host.{Host}
use bittuly.Web.View.{Attr, prop, flag, on, View, nothing, text, num, el, seq, ◌▸◌, shown_if, leaf}
use bittuly.Api.Client.{Env, or_default}
use bittuly.Api.Health.{HealthData, HealthResult}
use Uptime.{format_uptime}

-- `REFRESH_INTERVAL_MS / 1000`.
abbrev pub refresh_interval : ℕ
refresh_interval = 30

pub record State : Type 0 where
  pub health : Option HealthData
  pub loading : Bool
  pub spinning : Bool
  pub last_checked : Option ℕ
  pub countdown : ℕ

-- `fetched` carries `manual`, the answer of `getHealth` and the time at which it came.
pub data Event : Type 0 where
  interval_fired : Event
  refresh : Event
  fetched : Bool → HealthResult → ℕ → Event
  spin_over : Event
  tick : Event

-- A call of `getHealth`, with the flag of `fetchHealth` that made it.
pub data HealthCall : Type 0 where
  get_health : (manual : Bool) → HealthCall

abbrev pub Out : Type 0
Out = State × List (Effect HealthCall Event)

abbrev pub mount : Out
mount = (
  record {
    health = none;
    loading = true;
    spinning = false;
    last_checked = none;
    countdown = refresh_interval;
  },
  call (get_health false) ∷ interval 30000 interval_fired ∷ interval 1000 tick ∷ [],
)

-- `fetchHealth` up to its `await`, and the rest.
start_fetch : State → Bool → Out
start_fetch s manual =
    (if manual then record s { spinning = true } else s, call (get_health manual) ∷ [])

fetch_done : State → Bool → HealthResult → ℕ → Out
fetch_done s manual r now = (
  record s {
    health = some r.payload;
    last_checked = some now;
    countdown = refresh_interval;
    loading = false;
  },
  if manual then timeout 600 spin_over ∷ [] else [],
)

unfoldable pub update : State → Event → Out
unfolding start_fetch fetch_done
update s interval_fired = start_fetch s false
update s refresh = start_fetch s true
update s (fetched manual r now) = fetch_done s manual r now
update s spin_over = (record s { spinning = false }, [])
update s tick =
    (record s { countdown = if ltb 0 s.countdown then s.countdown - 1 else refresh_interval }, [])

-- `health?.status === "healthy"`.
unfoldable pub is_healthy : State → Bool
is_healthy s = elim s.health [ none ↦ false | some d ↦ str_eq d.status "healthy" ]

abbrev V : Type 0
V = View Event

unfoldable pub status_dot : Bool → Bool → V
status_dot ok pulse = el "span" [] (
    shown_if (ok && pulse) (el "span" (prop "className" "animate-ping" ∷ []) nothing)
    ▸ el "span" (prop "className" (if ok then "bg-green-500" else "bg-red-500") ∷ []) nothing)

pub service_card : String → String → String → V
unfolding status_dot
service_card icon label value =
    let ok = str_eq value "ok" in
    el "div" [] (
      el "div"
        (prop "className" (
            if ok
            then "bg-green-500/10 text-green-600 dark:text-green-400"
            else "bg-red-500/10 text-red-600 dark:text-red-400")
          ∷ [])
        (leaf icon)
      ▸ el "div" [] (
          el "div" [] (
            status_dot ok ok
            ▸ el "p" [] (text label)
            ▸ el "span"
                (prop "className" (
                    if ok
                    then "bg-green-500/10 text-green-700 dark:text-green-400"
                    else "bg-red-500/10 text-red-700 dark:text-red-400")
                  ∷ [])
                (text (if ok then "Online" else "Offline")))
          ▸ el "p" [] (text value)))

stat_card : String → String → String → V
stat_card icon label value =
    el "div" []
      (el "div" [] (leaf icon) ▸ el "div" [] (el "p" [] (text label) ▸ el "p" [] (text value)))

-- The word of the banner: `loading ? "Checking…" : health?.status`.
status_word : State → String
status_word s = if s.loading then "Checking…" else elim s.health [ none ↦ "" | some d ↦ d.status ]

chosen_class : String → State → String → String → String → V → V
chosen_class tag s busy good bad kids =
    el tag (prop "className" (if s.loading then busy else if is_healthy s then good else bad) ∷ [])
      kids

refresh_panel : State → V
refresh_panel s = el "div" [] (
    el "Button"
      (prop "variant" "outline"
        ∷ prop "size" "sm"
        ∷ on "onClick" refresh
        ∷ flag "disabled" s.spinning
        ∷ [])
      (el "RefreshCw" (prop "className" (if s.spinning then "animate-spin" else "") ∷ []) nothing
        ▸ text "Refresh")
    ▸ shown_if (is_some s.last_checked) (el "p" [] (text "Next in " ▸ num s.countdown ▸ text "s")))

last_checked_line : Host → Option ℕ → V
last_checked_line h none = nothing
last_checked_line h (some t) = el "p" [] (text "Last checked at " ▸ text (h.clock_time t))

banner : Host → State → V
unfolding status_dot chosen_class status_word is_healthy refresh_panel last_checked_line
banner h s =
    chosen_class "div" s "border-border bg-card"
      "border-green-200 bg-green-50 dark:border-green-900 dark:bg-green-950/30"
      "border-red-200 bg-red-50 dark:border-red-900 dark:bg-red-950/30"
      (shown_if (not s.loading) (
          el "div" (prop "className" (if is_healthy s then "bg-green-400" else "bg-red-400") ∷ [])
            nothing)
        ▸ el "div" [] (
            (if s.loading
              then el "span" (prop "className" "animate-spin" ∷ []) nothing
              else status_dot (is_healthy s) (is_healthy s))
            ▸ el "p" [] (text "System Status")
            ▸ chosen_class "p" s "text-muted-foreground" "text-green-700 dark:text-green-400"
                "text-red-700 dark:text-red-400" (text (status_word s)))
        ▸ refresh_panel s
        ▸ last_checked_line h s.last_checked)

unfoldable pub services : Option HealthData → V
services none = nothing
services (some d) = el "div" [] (
    el "h2" [] (text "Services")
    ▸ service_card "Database" "PostgreSQL" d.postgres
    ▸ service_card "Zap" "Redis" d.redis)

unfoldable pub server_info : Env → Option HealthData → V
unfolding stat_card
server_info env none = nothing
server_info env (some d) = el "div" [] (
    el "h2" [] (text "Server Info")
    ▸ stat_card "Clock" "Uptime" (format_uptime d.uptime_secs)
    ▸ stat_card "Tag" "Version" (template ("v" ∷ d.version ∷ []))
    ▸ stat_card "Server" "API" (or_default env.vite_urls_api_url "http://localhost:8000"))

unfoldable pub view : Host → Env → State → V
unfolding banner services server_info
view h env s =
    el "AppLayout" (prop "title" "System Health" ∷ [])
      (banner h s ▸ services s.health ▸ server_info env s.health)

-- The state and the effects after several events.
abbrev pub run : State → List Event → Out
run = run_all update
