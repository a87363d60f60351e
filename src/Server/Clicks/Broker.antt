-- ===== src/Server/Clicks/Broker.antt =====
-- The queue `click_events_queue` with its one consumer: what is ready, what was delivered and is
-- not acknowledged, and what the consumer's actions do to it.
use bittuly.Prelude.{ℕ, ◌+◌, Bool, not, Option, List, [], ◌∷◌, ◌++◌, map, String, leb, filter}
use bittuly.Server.Urls.{Url}
use bittuly.Server.Clicks.{Loop, start, Action, ack, nack, sleep, on_delivery, on_tick}

-- A message is the code that its bytes say, or none where they are no text.
pub record State : Type 0 where
  pub ready : List (Option String)
  pub unacked : List (ℕ × Option String)
  pub next_tag : ℕ
  pub rows : List Url
  pub loop : Loop

pub data Event : Type 0 where
  publish : Option String → Event
  deliver : (up : Bool) → Event
  tick : (up : Bool) → Event
  restart : Event

abbrev pub up_to : ℕ → List (ℕ × Option String) → List (ℕ × Option String)
up_to tag ms = filter (λ m. leb m.0 tag) ms

abbrev pub past : ℕ → List (ℕ × Option String) → List (ℕ × Option String)
past tag ms = filter (λ m. not (leb m.0 tag)) ms

abbrev pub messages : List (ℕ × Option String) → List (Option String)
messages ms = map (λ m. m.1) ms

-- `multiple: true`, and `requeue: true` for a nack.
unfoldable pub act : State → List Action → State
act s [] = s
act s (sleep n ∷ rest) = act s rest
act s (ack tag ∷ rest) = act (record s { unacked = past tag s.unacked }) rest
act s (nack tag ∷ rest) =
    act
      (record s { ready = messages (up_to tag s.unacked) ++ s.ready; unacked = past tag s.unacked })
      rest

abbrev pub take_over : State → List Url × Loop × List Action → State
take_over s (rows, loop, actions) = act (record s { rows = rows; loop = loop }) actions

abbrev pub deliver_next : Bool → State → List (Option String) → State
deliver_next up s [] = s
deliver_next up s (m ∷ ms) =
    let s' = record s {
      ready = ms;
      unacked = s.unacked ++ ((s.next_tag, m) ∷ []);
      next_tag = s.next_tag + 1;
    } in
    take_over s' (on_delivery up s.rows s.loop s.next_tag m)

-- A restart of the consumer loses the loop's variables, and the broker takes back what it had.
unfoldable pub step : State → Event → State
unfolding act
step s (publish m) = record s { ready = s.ready ++ (m ∷ []) }
step s (deliver up) = deliver_next up s s.ready
step s (tick up) = take_over s (on_tick up s.rows s.loop)
step s restart = record s { ready = messages s.unacked ++ s.ready; unacked = []; loop = start }

unfoldable pub run : State → List Event → State
run s [] = s
run s (e ∷ es) = run (step s e) es
