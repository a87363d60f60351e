-- ===== src/Server/Clicks/Exact.antt =====
-- How often a click is counted: services/consumer-service/src/main.rs.
use bittuly.Prelude.{
  ℕ, ◌+◌, ◌≤◌, ◌≡◌, refl, Bool, true, false, Option, none, some, List, [], ◌∷◌, ◌++◌, String, ◌&&◌,
  sum_by, leb, inl, inr, Bool-cases, arith,
}
use bittuly.Server.Urls.{Url}
use mathlib.Core.Path.{subst}
use bittuly.Server.Clicks.{
  ack, settle_tag, Batch, add_click, delta_of, flush, on_delivery, on_tick, is_empty,
}
use bittuly.Server.Clicks.Broker.{
  State, Event, publish, deliver, tick, restart, act, take_over, deliver_next, step, run,
}
use bittuly.Server.Clicks.Counting.{
  one, count, clicks, IsLinked, delta_of-add_click, count-append, increment-row,
}
use bittuly.Server.Clicks.Delivery.{published_by, begin}

-- Every flush finds the database, and the consumer is not restarted.
abbrev pub is_smooth : List Event → Bool
is_smooth [] = true
is_smooth (publish m ∷ es) = is_smooth es
is_smooth (deliver up ∷ es) = up && is_smooth es
is_smooth (tick up ∷ es) = up && is_smooth es
is_smooth (restart ∷ es) = false

abbrev size_of : Batch → ℕ
size_of b = sum_by (λ e. e.1) b

size-add_click : (k : String) (b : Batch) → size_of (add_click k b) ≡ size_of b + 1
unfolding add_click
size-add_click k [] = refl
size-add_click k ((j, n) ∷ b) = ground (arith, size-add_click k b)

record Exact (code : String) (n : ℕ) (s : State) : Type 0 where
  linked : IsLinked code s.rows
  counted : n ≡ clicks code s.rows + count code s.ready + delta_of code s.loop.batch
  total : s.loop.total_clicks ≡ size_of s.loop.batch
  small : s.loop.total_clicks ≤ 16

-- What the broker is told about deliveries plays no part here.
act-Exact :
    (code : String) (n : ℕ) (s : State) (tag : Option ℕ)
    → Exact code n s
    → Exact code n (act s (settle_tag ack tag))
unfolding act
act-Exact code n s none h = h
act-Exact code n s (some t) h = record {
  linked = h.linked;
  counted = h.counted;
  total = h.total;
  small = h.small;
}

module _ (code : String) (n : ℕ) (s : State) where
  flush-Exact :
      IsLinked code s.rows
      → n ≡ clicks code s.rows + count code s.ready + delta_of code s.loop.batch
      → Exact code n (take_over s (flush true s.rows s.loop))
  unfolding flush
  flush-Exact linked counted =
      let inc = increment-row code s.loop.batch s.rows linked in
      act-Exact code n _ s.loop.last_delivery_tag (record {
        linked = inc.1;
        counted = omega (arith, inc.0, counted);
        total = refl;
        small = omega arith;
      })

  tick-Exact : Exact code n s → Exact code n (take_over s (on_tick true s.rows s.loop))
  unfolding on_tick act
  tick-Exact h = elim (Bool-cases (is_empty s.loop.batch)) [
    | inl b ↦
        rw (on_tick, b)
          (record { linked = h.linked; counted = h.counted; total = h.total; small = h.small })
    | inr b ↦ rw (on_tick, b) (flush-Exact h.linked h.counted)
  ]

deliver-Exact :
    (code : String) (n : ℕ) (s : State) (ms : List (Option String))
    → s.ready ≡ ms
    → Exact code n s
    → Exact code n (deliver_next true s ms)
unfolding on_delivery act
deliver-Exact code n s [] e h = h
deliver-Exact code n s (none ∷ ms) e h =
    let counted : n ≡ clicks code s.rows + count code (none ∷ ms) + delta_of code s.loop.batch =
      rw e at h.counted in
    record { linked = h.linked; counted = omega (arith, counted); total = h.total; small = h.small }
deliver-Exact code n s (some k ∷ ms) e h =
    let counted : n ≡ clicks code s.rows + count code (some k ∷ ms) + delta_of code s.loop.batch =
      rw e at h.counted in
    let l = record s.loop {
      batch = add_click k s.loop.batch;
      total_clicks = s.loop.total_clicks + 1;
      last_delivery_tag = some s.next_tag;
    } in
    let s' = record s {
      ready = ms;
      unacked = s.unacked ++ ((s.next_tag, some k) ∷ []);
      next_tag = s.next_tag + 1;
      loop = l;
    } in
    let counted' : n
        ≡ clicks code s.rows + count code ms + delta_of code (add_click k s.loop.batch) =
      omega (arith, counted, delta_of-add_click code k s.loop.batch) in
    elim (Bool-cases (leb 17 (s.loop.total_clicks + 1))) [
      | inl b ↦ rw (on_delivery, b) (flush-Exact code n s' h.linked counted')
      | inr b ↦
          rw (on_delivery, b)
            (record {
              linked = h.linked;
              counted = counted';
              total = omega (arith, h.total, size-add_click k s.loop.batch);
              small = ground (arith, b);
            })
    ]

run-Exact :
    (code : String) (n : ℕ) (s : State) (es : List Event)
    → is_smooth es ≡ true
    → Exact code n s
    → Exact code (n + published_by code es) (run s es)
unfolding run step
run-Exact code n s [] e h = record {
  linked = h.linked;
  counted = omega (arith, h.counted);
  total = h.total;
  small = h.small;
}
run-Exact code n s (publish m ∷ es) e h =
    let s' = record s { ready = s.ready ++ (m ∷ []) } in
    let more : Exact code (n + one code m) s' = record {
      linked = h.linked;
      counted = omega (arith, h.counted, count-append code s.ready (m ∷ []));
      total = h.total;
      small = h.small;
    } in
    let same : n + one code m + published_by code es ≡ n + (one code m + published_by code es) =
      omega arith in
    subst (λ k. Exact code k (run s' es)) same (run-Exact code (n + one code m) s' es e more)
run-Exact code n s (deliver true ∷ es) e h =
    run-Exact code n _ es e (deliver-Exact code n s s.ready refl h)
run-Exact code n s (deliver false ∷ es) e h = cc
run-Exact code n s (tick true ∷ es) e h = run-Exact code n _ es e (tick-Exact code n s h)
run-Exact code n s (tick false ∷ es) e h = cc
run-Exact code n s (restart ∷ es) e h = cc

-- Exactly once: where every flush finds the database and the consumer is not restarted, each
-- published click of a link in the table is either counted, or ready in the queue, or in the batch;
-- and the batch never holds more than sixteen clicks.
pub run-exact :
    (code : String) (rows : List Url) (es : List Event)
    → IsLinked code rows
    → is_smooth es ≡ true
    → let s = run (begin rows) es in
      (clicks code rows + published_by code es
        ≡ clicks code s.rows + count code s.ready + delta_of code s.loop.batch)
      × (s.loop.total_clicks ≡ sum_by (λ e. e.1) s.loop.batch)
      × (s.loop.total_clicks ≤ 16)
run-exact code rows es linked e =
    let h =
      run-Exact code (clicks code rows) (begin rows) es e
        (record { linked = linked; counted = omega arith; total = refl; small = omega arith }) in
    (h.counted, h.total, h.small)
