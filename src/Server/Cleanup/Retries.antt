-- ===== src/Server/Cleanup/Retries.antt =====
-- The way of one message through the queues: it ends, and no retry is sent to a queue that is not
-- there.
use bittuly.Prelude.{
  any, ap, ℕ, zero, suc, ◌+◌, ◌≡◌, ◌≢◌, refl, Bool, true, false, not, Option, none, some, List, [],
  ◌∷◌, filter, String, if◌then◌else◌, str_eq, str_eq_iff, template, show, inl, inr, Bool-cases,
  arith,
}
use bittuly.Server.Urls.{Url}
use bittuly.Server.Urls.{Packages}
use bittuly.Server.Urls.Rows.{IsRow}
use bittuly.Server.Urls.Paging.{matches}
use bittuly.Server.Urls.Users.{matches-filter}
use bittuly.Server.Urls.Handlers.{redis_find, RedisEntry, redis_del}
use bittuly.Server.Cleanup.{
  Message, Action, publish, ack, retry_queues, dead_letters, is_of, codes_of, evict_all, retry,
  handle,
}

-- What becomes of a message, each with the delays until then: it is acknowledged, and leaves these
-- rows; it is a dead letter; the broker did not take it at a publish, and it was acknowledged all the
-- same. Or it was sent to a queue that does not exist, is never acknowledged, or is on its way.
pub data Fate : Type 0 where
  acknowledged : List Url → List ℕ → Fate
  dead : List ℕ → Fate
  dropped : List ℕ → Fate
  lost : String → Fate
  unsettled : Fate
  on_its_way : Fate

abbrev pub delay_of : String → List (String × ℕ) → Option ℕ
delay_of queue [] = none
delay_of queue ((q, d) ∷ qs) = if str_eq q queue then some d else delay_of queue qs

abbrev pub wait : ℕ → Fate → Fate
wait d (acknowledged rows ds) = acknowledged rows (d ∷ ds)
wait d (dead ds) = dead (d ∷ ds)
wait d (dropped ds) = dropped (d ∷ ds)
wait d (lost q) = lost q
wait d unsettled = unsettled
wait d on_its_way = on_its_way

-- A message that is published again, with what comes of it in `user_deleted_queue`.
abbrev pub forward : (Message → Fate) → String → Message → Fate
forward back queue m =
    if str_eq queue dead_letters
    then dead []
    else elim (delay_of queue retry_queues) [ none ↦ lost queue | some d ↦ wait d (back m) ]

-- A delivery is settled by one `ack`, at the end; a message that is published before it lives on as a
-- copy, if the broker takes it.
abbrev pub settle : (Message → Fate) → Bool → List Url → List Action → Fate
settle back sent rows (ack ∷ []) = acknowledged rows []
settle back sent rows (publish queue m ∷ ack ∷ []) =
    if sent then forward back queue m else dropped []
settle back sent rows actions = unsettled

-- The fate of a message in so many deliveries, where `up` and `sent` say for each whether the
-- database answers and whether the broker takes what is published.
unfoldable pub fate : ℕ → (ℕ → Bool) → (ℕ → Bool) → ℕ → List Url → Message → Fate
fate zero up sent i rows m = on_its_way
fate (suc f) up sent i rows m =
    let (rows', redis, actions) = handle (up i) true rows [] m in
    settle (fate f up sent (i + 1) rows) (sent i) rows' actions

-- What should become of it, with these delays left: the first delivery that finds the database ends
-- it well, and a publish that fails ends it badly.
abbrev pub expected : List Url → (ℕ → Bool) → (ℕ → Bool) → ℕ → List ℕ → Fate
expected rest up sent i [] =
    if up i then acknowledged rest [] else if sent i then dead [] else dropped []
expected rest up sent i (d ∷ ds) =
    if up i
    then acknowledged rest []
    else if sent i
    then wait d (expected rest up sent (i + 1) ds)
    else dropped []

-- An event of a deleted user ends after four deliveries at most: at the first one that finds the
-- database the user's links are gone, the rest stays and the event is acknowledged, after delays of 3,
-- 9 and 27 seconds for those that did not find it; if none of the four does, it is a dead letter.
-- Where the broker does not take the message that a delivery without the database publishes, the
-- event is acknowledged and so dropped. It is never sent to a queue that does not exist, nor left
-- without an acknowledgement.
pub fate-ends :
    (user_id : String) (up sent : ℕ → Bool) (rows : List Url)
    → fate 4 up sent 0 rows (record { user_id = some user_id; retry_count = none })
      ≡ expected (filter (λ u. not (is_of user_id u)) rows) up sent 0 (3 ∷ 9 ∷ 27 ∷ [])
unfolding fate handle retry template show
fate-ends w up sent rows = elim (Bool-cases (up 0)) [
  | inl u0 ↦ rw u0 refl
  | inr u0 ↦ elim (Bool-cases (sent 0)) [
    | inr s0 ↦ rw (u0, s0) refl
    | inl s0 ↦ elim (Bool-cases (up 1)) [
      | inl u1 ↦ rw (u0, s0, u1) refl
      | inr u1 ↦ elim (Bool-cases (sent 1)) [
        | inr s1 ↦ rw (u0, s0, u1, s1) refl
        | inl s1 ↦ elim (Bool-cases (up 2)) [
          | inl u2 ↦ rw (u0, s0, u1, s1, u2) refl
          | inr u2 ↦ elim (Bool-cases (sent 2)) [
            | inr s2 ↦ rw (u0, s0, u1, s1, u2, s2) refl
            | inl s2 ↦ elim (Bool-cases (up 3)) [
              | inl u3 ↦ rw (u0, s0, u1, s1, u2, s2, u3) refl
              | inr u3 ↦ elim (Bool-cases (sent 3)) [
                | inr s3 ↦ rw (u0, s0, u1, s1, u2, s2, u3, s3) refl
                | inl s3 ↦ rw (u0, s0, u1, s1, u2, s2, u3, s3) refl
              ]
            ]
          ]
        ]
      ]
    ]
  ]
]

abbrev has_code : String → List String → Bool
has_code code codes = any (λ c. str_eq c code) codes

redis_find-del :
    (now : ℕ) (code key : String) (es : List RedisEntry)
    → redis_find now code (redis_del key es)
      ≡ (if str_eq key code then none else redis_find now code es)
redis_find-del now code key [] = ground arith
redis_find-del now code key (e ∷ es) = ground (
  arith,
  redis_find-del now code key es,
  str_eq_iff e.key key,
  str_eq_iff e.key code,
  str_eq_iff key code,
)

redis_find-evict_all :
    (now : ℕ) (code : String) (codes : List String) (es : List RedisEntry)
    → redis_find now code (evict_all codes es)
      ≡ (if has_code code codes then none else redis_find now code es)
unfolding evict_all
redis_find-evict_all now code [] es = refl
redis_find-evict_all now code (c ∷ codes) es =
    ground
      (arith, redis_find-evict_all now code codes (redis_del c es), redis_find-del now code c es)

has_code-row :
    (u : Url) (rows : List Url)
    → IsRow u rows
    → has_code u.short_code (codes_of u.user_id rows) ≡ true
has_code-row u [] r = elim r [ ]
has_code-row u (v ∷ vs) (inl e) =
    let same : is_of u.user_id v ≡ true =
      (str_eq_iff v.user_id u.user_id).1 (ap (λ (x : Url). x.user_id) e) in
    let code : str_eq v.short_code u.short_code ≡ true =
      (str_eq_iff v.short_code u.short_code).1 (ap (λ (x : Url). x.short_code) e) in
    rw (same, code) refl
has_code-row u (v ∷ vs) (inr r) = ground (arith, has_code-row u vs r)

-- Where the database and Redis answer, handling the event of a deleted user takes every link of the
-- user out of Redis, and leaves what Redis has for any code that no link of the user has; the links
-- that another user sees stay as they were.
pub handle-evicts :
    (p : Packages) (now : ℕ) (rows : List Url) (redis : List RedisEntry) (n : Option ℕ) (u : Url)
    (code v : String) (pattern : Option String)
    → IsRow u rows
    → has_code code (codes_of u.user_id rows) ≡ false
    → u.user_id ≢ v
    → let (rows', redis', actions) =
        handle true true rows redis (record { user_id = some u.user_id; retry_count = n }) in
      (redis_find now u.short_code redis' ≡ none)
      × (redis_find now code redis' ≡ redis_find now code redis)
      × (matches p rows' v pattern ≡ matches p rows v pattern)
      × (actions ≡ ack ∷ [])
unfolding handle
handle-evicts p now rows redis n u code v pattern r other ne = (
  ground (
    arith,
    redis_find-evict_all now u.short_code (codes_of u.user_id rows) redis,
    has_code-row u rows r,
  ),
  ground (arith, redis_find-evict_all now code (codes_of u.user_id rows) redis, other),
  matches-filter p v pattern (λ (x : Url). not (is_of u.user_id x)) rows
      (λ x e. ground (arith, ne, e, str_eq_iff x.user_id u.user_id)),
  refl,
)
