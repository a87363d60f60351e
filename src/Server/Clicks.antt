-- ===== src/Server/Clicks.antt =====
-- services/consumer-service/src/main.rs, the consumer of click events: it gathers clicks in a batch
-- and adds them to the table, with the queue that delivers them.
mod Tests
pub mod Broker
pub mod Counting
pub mod Safe
pub mod Delivery
pub mod Exact
pub mod Again
use bittuly.Prelude.{
  ℕ, zero, suc, ◌+◌, ◌^◌, Bool, true, false, Option, none, some, List, [], ◌∷◌, map, String,
  if◌then◌else◌, leb, str_eq, min,
}
use bittuly.Server.Urls.{Url}

abbrev pub Batch : Type 0
Batch = List (String × ℕ)

-- The variables of the loop.
pub record Loop : Type 0 where
  pub batch : Batch
  pub total_clicks : ℕ
  pub last_delivery_tag : Option ℕ
  pub consecutive_failures : ℕ

abbrev pub start : Loop
start = record { batch = []; total_clicks = 0; last_delivery_tag = none; consecutive_failures = 0 }

-- What the loop tells the broker, always for all deliveries up to the tag, and its waits in seconds.
pub data Action : Type 0 where
  ack : ℕ → Action
  nack : ℕ → Action
  sleep : ℕ → Action

-- `*batch.entry(code).or_insert(0) += 1`.
unfoldable pub add_click : String → Batch → Batch
add_click code [] = (code, 1) ∷ []
add_click code ((k, n) ∷ m) = if str_eq k code then (k, n + 1) ∷ m else (k, n) ∷ add_click code m

-- The clicks of a code in a batch.
abbrev pub delta_of : String → Batch → ℕ
delta_of code [] = 0
delta_of code ((k, n) ∷ m) = if str_eq k code then n else delta_of code m

-- `increment_click_counts`: one UPDATE, which joins each row with the entry of its code.
unfoldable pub increment_click_counts : Batch → List Url → List Url
increment_click_counts batch rows =
    map (λ (u : Url). record u { click_count = u.click_count + delta_of u.short_code batch }) rows

abbrev pub settle_tag : (ℕ → Action) → Option ℕ → List Action
settle_tag f none = []
settle_tag f (some tag) = f tag ∷ []

-- `3_u64.pow(consecutive_failures.min(2) + 1)`.
abbrev pub delay : ℕ → ℕ
delay failures = 3 ^ (min failures 2 + 1)

-- The flush of the batch, where the database answers or not. A failure keeps the batch.
unfoldable pub flush : Bool → List Url → Loop → List Url × Loop × List Action
flush true rows l = (increment_click_counts l.batch rows, start, settle_tag ack l.last_delivery_tag)
flush false rows l = (
  rows,
  record l { last_delivery_tag = none; consecutive_failures = l.consecutive_failures + 1 },
  sleep (delay l.consecutive_failures) ∷ settle_tag nack l.last_delivery_tag,
)

-- A delivery; one whose bytes are no text is passed over.
unfoldable pub on_delivery :
    Bool → List Url → Loop → ℕ → Option String → List Url × Loop × List Action
unfolding flush add_click
on_delivery up rows l tag none = (rows, l, [])
on_delivery up rows l tag (some code) =
    let l' = record l {
      batch = add_click code l.batch;
      total_clicks = l.total_clicks + 1;
      last_delivery_tag = some tag;
    } in
    if leb 17 l'.total_clicks then flush up rows l' else (rows, l', [])

abbrev pub is_empty : Batch → Bool
is_empty [] = true
is_empty (e ∷ m) = false

-- The timer of thirty seconds.
unfoldable pub on_tick : Bool → List Url → Loop → List Url × Loop × List Action
unfolding flush
on_tick up rows l = if is_empty l.batch then (rows, l, []) else flush up rows l
