-- ===== src/Server/Clicks/Again.antt =====
-- What is counted twice: services/consumer-service/src/main.rs, where a flush fails.
use bittuly.Prelude.{ℕ, ◌+◌, ◌≡◌, refl, true, false, none, some, [], ◌∷◌, ◌++◌, String, All, arith}
use bittuly.Server.Clicks.{start, delta_of, increment_click_counts, flush, on_tick, is_empty}
use bittuly.Server.Clicks.Broker.{State, tick, up_to, past, messages, act, step, run}
use bittuly.Server.Clicks.Counting.{
  count, clicks, IsLinked, count-append, increment-row, count-up_to,
}
use bittuly.Server.Clicks.Safe.{IsCovered, past-IsCovered, count-covered}

-- The state after a flush that failed, and after the next one.
abbrev failed : State → ℕ → State
failed s tag = record s {
  ready = messages (up_to tag s.unacked) ++ s.ready;
  unacked = past tag s.unacked;
  loop = record s.loop {
    last_delivery_tag = none;
    consecutive_failures = s.loop.consecutive_failures + 1;
  };
}

abbrev flushed : State → State
flushed s = record s { rows = increment_click_counts s.loop.batch s.rows; loop = start }

tick-failed :
    (s : State) (tag : ℕ)
    → is_empty s.loop.batch ≡ false
    → s.loop.last_delivery_tag ≡ some tag
    → step s (tick false) ≡ failed s tag
unfolding step on_tick flush act
tick-failed s tag b e = rw (on_tick, b, e) refl

tick-flushed :
    (s : State)
    → is_empty s.loop.batch ≡ false
    → s.loop.last_delivery_tag ≡ none
    → step s (tick true) ≡ flushed s
unfolding step on_tick flush act
tick-flushed s b e = rw (on_tick, b, e) refl

-- Not at most once: where the database is down at one tick of the timer and back at the next, all
-- clicks of the batch are counted, and all the messages that they came in are in the queue again,
-- to be counted once more.
pub failed_flush-again :
    (code : String) (s : State) (tag : ℕ)
    → IsLinked code s.rows
    → is_empty s.loop.batch ≡ false
    → s.loop.last_delivery_tag ≡ some tag
    → All (IsCovered (some tag)) s.unacked
    → let s' = run s (tick false ∷ tick true ∷ []) in
      (clicks code s'.rows ≡ clicks code s.rows + delta_of code s.loop.batch)
      × (count code s'.ready ≡ count code s.ready + count code (messages s.unacked))
      × (s'.loop.batch ≡ [])
unfolding run
failed_flush-again code s tag linked b e h =
    let inc = increment-row code s.loop.batch s.rows linked in
    let nothing = count-covered code (past tag s.unacked) (past-IsCovered tag s.unacked h) in
    let back = count-append code (messages (up_to tag s.unacked)) s.ready in
    rw (tick-failed s tag b e, tick-flushed (failed s tag) b refl)
      (inc.0, omega (arith, back, nothing, count-up_to code tag s.unacked), refl)
