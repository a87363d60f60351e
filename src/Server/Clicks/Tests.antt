-- ===== src/Server/Clicks/Tests.antt =====
-- The theorems on click counts at concrete runs.
use bittuly.Prelude.{
  show, ◌+◌, ◌≤◌, ◌≡◌, refl, true, false, none, some, List, [], ◌∷◌, sum_by, arith,
}
use bittuly.Server.Samples.{rows}
use bittuly.Server.Clicks.{delta_of}
use bittuly.Server.Clicks.Broker.{State, Event, publish, deliver, tick, restart, messages, run}
use bittuly.Server.Clicks.Counting.{clicks, count}
use bittuly.Server.Clicks.Delivery.{begin, published_by, run-counted}
use bittuly.Server.Clicks.Exact.{run-exact}
use bittuly.Server.Clicks.Again.{failed_flush-again}

-- Two clicks of a link and one of none, a flush that fails and a restart.
abbrev failing : List Event
failing =
    publish (some "2")
    ∷ publish (some "x")
    ∷ deliver true
    ∷ tick false
    ∷ publish (some "2")
    ∷ deliver true
    ∷ restart
    ∷ []

run-counted_example :
    let s = run (begin rows) failing in
    clicks "2" rows + published_by "2" failing
    ≤ clicks "2" s.rows + count "2" s.ready + count "2" (messages s.unacked)
unfolding show
run-counted_example = run-counted "2" rows failing refl

abbrev smooth : List Event
smooth =
    publish (some "2")
    ∷ publish none
    ∷ deliver true
    ∷ deliver true
    ∷ tick true
    ∷ publish (some "2")
    ∷ deliver true
    ∷ []

run-exact_example :
    let s = run (begin rows) smooth in
    (clicks "2" rows + published_by "2" smooth
      ≡ clicks "2" s.rows + count "2" s.ready + delta_of "2" s.loop.batch)
    × (s.loop.total_clicks ≡ sum_by (λ e. e.1) s.loop.batch)
    × (s.loop.total_clicks ≤ 16)
unfolding show
run-exact_example = run-exact "2" rows smooth refl refl

-- A click in the batch and its message not acknowledged.
abbrev gathered : State
gathered = record {
  ready = [];
  unacked = (1, some "2") ∷ [];
  next_tag = 2;
  rows = rows;
  loop = record {
    batch = ("2", 1) ∷ [];
    total_clicks = 1;
    last_delivery_tag = some 1;
    consecutive_failures = 0;
  };
}

failed_flush-again_example :
    let s' = run gathered (tick false ∷ tick true ∷ []) in
    (clicks "2" s'.rows ≡ clicks "2" gathered.rows + delta_of "2" gathered.loop.batch)
    × (count "2" s'.ready ≡ count "2" gathered.ready + count "2" (messages gathered.unacked))
    × (s'.loop.batch ≡ [])
unfolding show
failed_flush-again_example = failed_flush-again "2" gathered 1 refl refl refl (omega arith)
