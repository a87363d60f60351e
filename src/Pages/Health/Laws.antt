-- ===== src/Pages/Health/Laws.antt =====
-- What the health page shows on every answer, and its countdown.
use mathlib.Core.Path.{ap₂}
use bittuly.Prelude.{
  ◌+◌, ◌*◌, ◌%◌, ◌==◌, ℕ, zero, suc, ◌≤◌, ◌≡◌, refl, Bool, true, false, Option, List, [], ◌∷◌, ◌++◌,
  String, if◌then◌else◌, str_eq, truthy, Bool-cases, inl, inr, arith,
}
use bittuly.Web.Effect.{run_all-invariant, Effect, interval}
use bittuly.Web.View.{texts}
use bittuly.Api.Health.{HealthData, get_health}
use bittuly.Pages.Health.{
  State, Event, fetched, tick, HealthCall, mount, update, run, is_healthy, service_card, services,
  refresh_interval,
}

abbrev IsInRange : State → Type 0
IsInRange s = s.countdown ≤ refresh_interval

update-IsInRange : (s : State) (e : Event) → IsInRange s → IsInRange (update s e).0
unfolding update
update-IsInRange s e h = ground arith

-- The countdown never shows more than the interval, whatever ticks, answers and clicks come.
pub run-countdown : (es : List Event) → (run mount.0 es).0.countdown ≤ 30
run-countdown es = run_all-invariant update IsInRange update-IsInRange mount.0 es (omega arith)

abbrev pub ticks : ℕ → List Event
ticks zero = []
ticks (suc n) = tick ∷ ticks n

-- The events that the intervals of the mount raise at a second after it, and in the seconds after
-- one.
abbrev pub due : ℕ → List (Effect HealthCall Event) → List Event
due t [] = []
due t (interval n e ∷ es) = if t * 1000 % n == 0 then e ∷ due t es else due t es
due t (e ∷ es) = due t es

abbrev pub seconds : ℕ → ℕ → List Event
seconds t zero = []
seconds t (suc n) = due (t + 1) mount.1 ++ seconds (t + 1) n

-- The label of a service.
abbrev pub label : String → String
label value = if str_eq value "ok" then "Online" else "Offline"

-- The texts of a service's card: its name, its label and its value.
abbrev pub card : String → String → List String
card name value = name ∷ label value ∷ (if truthy value then value ∷ [] else [])

service_card-texts :
    (icon name value : String)
    → truthy name ≡ true
    → texts (service_card icon name value) ≡ card name value
unfolding service_card
service_card-texts icon name value h = elim (Bool-cases (str_eq value "ok")) [
  | inl q ↦ rw (q, h) refl
  | inr q ↦ rw (q, h) refl
]

-- Every fetch ends with a page that shows something: loading is over, a service is called "Online"
-- exactly if its value is "ok", with its value under it, and the banner is green exactly if the
-- server called itself "healthy"; where the server cannot be reached, or answers with no JSON,
-- nothing is green.
pub fetched-shown :
    (s : State) (manual : Bool) (r : Option (Bool × Option HealthData)) (now : ℕ)
    → let d = (get_health r).payload in
      let s' = (update s (fetched manual (get_health r) now)).0 in
      (s'.loading ≡ false)
      × (texts (services s'.health)
          ≡ "Services" ∷ (card "PostgreSQL" d.postgres ++ card "Redis" d.redis))
      × (is_healthy s' ≡ str_eq d.status "healthy")
unfolding update services is_healthy
fetched-shown s manual r now = (
  refl,
  ap₂ (λ (a b : List String). "Services" ∷ (a ++ b))
      (service_card-texts "Database" "PostgreSQL" _ refl) (service_card-texts "Zap" "Redis" _ refl),
  refl,
)
