-- ===== src/Server/Clicks/Delivery.antt =====
-- No click is lost, whatever fails: services/consumer-service/src/main.rs.
use bittuly.Prelude.{ℕ, ◌+◌, ◌≤◌, refl, List, [], ◌∷◌, ◌++◌, String, arith}
use bittuly.Server.Urls.{Url}
use bittuly.Server.Clicks.{start}
use bittuly.Server.Clicks.Broker.{
  State, Event, publish, deliver, tick, restart, messages, step, run,
}
use bittuly.Server.Clicks.Counting.{one, count, clicks, IsLinked, count-append}
use bittuly.Server.Clicks.Safe.{Safe, weaken, deliver-Safe, tick-Safe}

-- The clicks of a code that were published.
abbrev pub published_by : String → List Event → ℕ
published_by code [] = 0
published_by code (publish m ∷ es) = one code m + published_by code es
published_by code (deliver up ∷ es) = published_by code es
published_by code (tick up ∷ es) = published_by code es
published_by code (restart ∷ es) = published_by code es

module _ (code : String) where
  run-Safe :
      (n : ℕ) (s : State) (es : List Event)
      → Safe code n s
      → Safe code (n + published_by code es) (run s es)
  unfolding run step
  run-Safe n s [] h = weaken code n (n + 0) s (omega arith) h
  run-Safe n s (publish m ∷ es) h =
      let s' = record s { ready = s.ready ++ (m ∷ []) } in
      let safe : Safe code (n + one code m) s' = record {
        linked = h.linked;
        kept = omega (arith, h.kept, count-append code s.ready (m ∷ []));
        held = h.held;
        covered = h.covered;
        tags = h.tags;
      } in
      weaken code (n + one code m + published_by code es) _ _ (omega arith)
        (run-Safe (n + one code m) s' es safe)
  run-Safe n s (deliver up ∷ es) h = run-Safe n _ es (deliver-Safe code n up s s.ready refl h)
  run-Safe n s (tick up ∷ es) h = run-Safe n _ es (tick-Safe code n up s h)
  run-Safe n s (restart ∷ es) h =
      run-Safe n (record s { ready = messages s.unacked ++ s.ready; unacked = []; loop = start }) es
        (record {
          linked = h.linked;
          kept = omega (arith, h.kept, count-append code (messages s.unacked) s.ready);
          held = omega arith;
          covered = tt;
          tags = tt;
        })

-- The service and the queue at the start, over a table.
abbrev pub begin : List Url → State
begin rows = record { ready = []; unacked = []; next_tag = 1; rows = rows; loop = start }

-- At least once: whatever is published, delivered and flushed, in any order, with the database down
-- at any of the flushes and the consumer restarted at any time, each click of a link in the table is
-- counted, ready in the queue, or with the consumer and not acknowledged.
pub run-counted :
    (code : String) (rows : List Url) (es : List Event)
    → IsLinked code rows
    → let s = run (begin rows) es in
      clicks code rows + published_by code es
      ≤ clicks code s.rows + count code s.ready + count code (messages s.unacked)
run-counted code rows es h =
    (run-Safe code (clicks code rows) (begin rows) es
      (record { linked = h; kept = omega arith; held = omega arith; covered = tt; tags = tt })).kept
