-- ===== src/Server/Clicks/Safe.antt =====
-- What a delivery and a flush keep: no click is lost, services/consumer-service/src/main.rs.
use bittuly.Prelude.{
  ℕ, ◌+◌, ◌≤◌, ◌<◌, ◌≡◌, refl, Bool, true, false, Option, none, some, List, [], ◌∷◌, ◌++◌, String,
  All, All-append, All-filter, All-map, leb, inl, inr, Bool-cases, arith,
}
use bittuly.Server.Clicks.{add_click, delta_of, flush, on_delivery, on_tick, is_empty}
use bittuly.Server.Clicks.Broker.{State, up_to, past, messages, act, take_over, deliver_next}
use bittuly.Server.Clicks.Counting.{
  one, count, clicks, IsLinked, delta_of-add_click, count-append, increment-row, count-up_to,
}

-- The last tag of the loop settles the message, if it is a click.
abbrev pub IsCovered : Option ℕ → ℕ × Option String → Type 0
IsCovered tag (t, none) = Unit
IsCovered none (t, some k) = ⊥
IsCovered (some tag) (t, some k) = t ≤ tag

pub past-IsCovered :
    (tag : ℕ) (ms : List (ℕ × Option String))
    → All (IsCovered (some tag)) ms
    → All (IsCovered none) (past tag ms)
past-IsCovered tag [] h = tt
past-IsCovered tag ((t, none) ∷ ms) h = elim (Bool-cases (leb t tag)) [
  | inl e ↦ rw e (past-IsCovered tag ms h.1)
  | inr e ↦ rw e (tt, past-IsCovered tag ms h.1)
]
past-IsCovered tag ((t, some k) ∷ ms) h =
    let e : leb t tag ≡ true = ground (arith, h.0) in rw e (past-IsCovered tag ms h.1)

pub count-covered :
    (code : String) (ms : List (ℕ × Option String))
    → All (IsCovered none) ms
    → count code (messages ms) ≡ 0
count-covered code [] h = refl
count-covered code ((t, none) ∷ ms) h = omega (arith, count-covered code ms h.1)
count-covered code ((t, some k) ∷ ms) h = absurd h.0

pub IsCovered-later :
    (tag : Option ℕ) (n : ℕ) (ms : List (ℕ × Option String))
    → All (λ m. m.0 < n) ms
    → All (IsCovered (some n)) ms
IsCovered-later tag n [] h = tt
IsCovered-later tag n ((t, none) ∷ ms) h = (tt, IsCovered-later tag n ms h.1)
IsCovered-later tag n ((t, some k) ∷ ms) h = (omega (arith, h.0), IsCovered-later tag n ms h.1)

pub record Safe (code : String) (n : ℕ) (s : State) : Type 0 where
  pub linked : IsLinked code s.rows
  pub kept : n ≤ clicks code s.rows + count code s.ready + count code (messages s.unacked)
  pub held : count code (messages s.unacked) ≤ delta_of code s.loop.batch
  pub covered : All (IsCovered s.loop.last_delivery_tag) s.unacked
  pub tags : All (λ m. m.0 < s.next_tag) s.unacked

count-messages :
    (code : String) (ms : List (ℕ × Option String)) (m : ℕ × Option String)
    → count code (messages (ms ++ (m ∷ []))) ≡ count code (messages ms) + one code m.1
count-messages code [] m = omega arith
count-messages code (x ∷ ms) m = omega (arith, count-messages code ms m)

tags-next :
    (s : State) (m : Option String)
    → All (λ m. m.0 < s.next_tag) s.unacked
    → All (λ m. m.0 < s.next_tag + 1) (s.unacked ++ ((s.next_tag, m) ∷ []))
tags-next s m h =
    All-append (λ m. m.0 < s.next_tag + 1) s.unacked ((s.next_tag, m) ∷ [])
      (All-map (λ m k. omega (arith, k)) s.unacked h) (omega arith, tt)

pub weaken : (code : String) (m n : ℕ) (s : State) → n ≤ m → Safe code m s → Safe code n s
weaken code m n s e h = record {
  linked = h.linked;
  kept = omega (arith, h.kept);
  held = h.held;
  covered = h.covered;
  tags = h.tags;
}

module _ (code : String) (n : ℕ) where
  pub flush-Safe :
      (up : Bool) (s : State) (tag : Option ℕ)
      → s.loop.last_delivery_tag ≡ tag
      → Safe code n s
      → Safe code n (take_over s (flush up s.rows s.loop))
  unfolding flush act
  flush-Safe true s none e h =
      let inc = increment-row code s.loop.batch s.rows h.linked in
      let nothing = count-covered code s.unacked (rw e at h.covered) in
      rw e (record {
        linked = inc.1;
        kept = omega (arith, inc.0, h.kept);
        held = omega (arith, nothing);
        covered = rw e at h.covered;
        tags = h.tags;
      })
  flush-Safe true s (some tag) e h =
      let inc = increment-row code s.loop.batch s.rows h.linked in
      let none_left = past-IsCovered tag s.unacked (rw e at h.covered) in
      let nothing = count-covered code (past tag s.unacked) none_left in
      rw e (record {
        linked = inc.1;
        kept = omega (arith, inc.0, h.kept, h.held);
        held = omega (arith, nothing);
        covered = none_left;
        tags = All-filter (λ m. m.0 < s.next_tag) _ s.unacked h.tags;
      })
  flush-Safe false s none e h = rw e (record {
    linked = h.linked;
    kept = h.kept;
    held = h.held;
    covered = rw e at h.covered;
    tags = h.tags;
  })
  flush-Safe false s (some tag) e h =
      let none_left = past-IsCovered tag s.unacked (rw e at h.covered) in
      let nothing = count-covered code (past tag s.unacked) none_left in
      let back = count-append code (messages (up_to tag s.unacked)) s.ready in
      rw e (record {
        linked = h.linked;
        kept = omega (arith, h.kept, back, count-up_to code tag s.unacked);
        held = omega (arith, nothing);
        covered = none_left;
        tags = All-filter (λ m. m.0 < s.next_tag) _ s.unacked h.tags;
      })

  pub deliver-Safe :
      (up : Bool) (s : State) (ms : List (Option String))
      → s.ready ≡ ms
      → Safe code n s
      → Safe code n (deliver_next up s ms)
  unfolding on_delivery act
  deliver-Safe up s [] e h = h
  deliver-Safe up s (none ∷ ms) e h =
      let kept : n ≤ clicks code s.rows + count code (none ∷ ms) + count code (messages s.unacked) =
        rw e at h.kept in
      record {
        linked = h.linked;
        kept = omega (arith, kept, count-messages code s.unacked (s.next_tag, none));
        held = omega (arith, h.held, count-messages code s.unacked (s.next_tag, none));
        covered =
            All-append (IsCovered s.loop.last_delivery_tag) s.unacked ((s.next_tag, none) ∷ [])
              h.covered (tt, tt);
        tags = tags-next s none h.tags;
      }
  deliver-Safe up s (some k ∷ ms) e h =
      let kept : n
          ≤ clicks code s.rows + count code (some k ∷ ms) + count code (messages s.unacked) =
        rw e at h.kept in
      let l = record s.loop {
        batch = add_click k s.loop.batch;
        total_clicks = s.loop.total_clicks + 1;
        last_delivery_tag = some s.next_tag;
      } in
      let s' = record s {
        ready = ms;
        unacked = s.unacked ++ ((s.next_tag, some k) ∷ []);
        next_tag = s.next_tag + 1;
        loop = l;
      } in
      let safe : Safe code n s' = record {
        linked = h.linked;
        kept = omega (arith, kept, count-messages code s.unacked (s.next_tag, some k));
        held = omega (
          arith,
          h.held,
          count-messages code s.unacked (s.next_tag, some k),
          delta_of-add_click code k s.loop.batch,
        );
        covered =
            All-append (IsCovered (some s.next_tag)) s.unacked ((s.next_tag, some k) ∷ [])
              (IsCovered-later (some 0) s.next_tag s.unacked h.tags) (omega arith, tt);
        tags = tags-next s (some k) h.tags;
      } in
      elim (Bool-cases (leb 17 (s.loop.total_clicks + 1))) [
        | inl b ↦ rw (on_delivery, b) (flush-Safe up s' (some s.next_tag) refl safe)
        | inr b ↦ rw (on_delivery, b) safe
      ]

  pub tick-Safe :
      (up : Bool) (s : State) → Safe code n s → Safe code n (take_over s (on_tick up s.rows s.loop))
  unfolding on_tick act
  tick-Safe up s h = elim (Bool-cases (is_empty s.loop.batch)) [
    | inl b ↦
        rw (on_tick, b)
          (record {
            linked = h.linked;
            kept = h.kept;
            held = h.held;
            covered = h.covered;
            tags = h.tags;
          })
    | inr b ↦ rw (on_tick, b) (flush-Safe up s s.loop.last_delivery_tag refl h)
  ]
