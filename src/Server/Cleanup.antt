-- ===== src/Server/Cleanup.antt =====
-- services/consumer-service/src/main.rs, the consumer of `user_deleted_queue`: it takes the links of
-- a deleted user out of the table and out of Redis, and tries again where the database is down.
mod Tests
pub mod Retries
use bittuly.Prelude.{
  ℕ, zero, suc, ◌+◌, ◌^◌, Bool, true, false, not, Option, none, some, List, [], ◌∷◌, map, filter,
  String, if◌then◌else◌, leb, str_eq, show, template,
}
use bittuly.Server.Urls.{Url}
use bittuly.Server.Urls.Handlers.{RedisEntry, redis_del}

-- The user of the event, or none where the data is no such event, and the header `x-retry-count`,
-- which only this consumer sets.
pub record Message : Type 0 where
  pub user_id : Option String
  pub retry_count : Option ℕ

pub data Action : Type 0 where
  publish : (queue : String) → Message → Action
  ack : Action

-- The queues that are declared at the start: a retry queue gives a message back to
-- `user_deleted_queue` after its delay, in seconds.
abbrev pub retry_queues : List (String × ℕ)
retry_queues =
    ("user_deleted_retry_3s", 3)
    ∷ ("user_deleted_retry_9s", 9)
    ∷ ("user_deleted_retry_27s", 27)
    ∷ []

abbrev pub dead_letters : String
dead_letters = "user_deleted_dlq"

abbrev pub count_of : Option ℕ → ℕ
count_of none = 0
count_of (some n) = n

-- `DELETE FROM urls WHERE user_id = $1 RETURNING short_code`: what stays, and the codes that go.
abbrev pub is_of : String → Url → Bool
is_of user_id u = str_eq u.user_id user_id

abbrev pub codes_of : String → List Url → List String
codes_of user_id rows = map (λ (u : Url). u.short_code) (filter (is_of user_id) rows)

unfoldable pub evict_all : List String → List RedisEntry → List RedisEntry
evict_all [] redis = redis
evict_all (code ∷ codes) redis = evict_all codes (redis_del code redis)

-- The target of a message that failed: the delay is three to the power of the attempt.
unfoldable pub retry : Message → Action
retry m =
    let n = count_of m.retry_count in
    if leb 3 n
    then publish dead_letters m
    else publish (template ("user_deleted_retry_" ∷ show (3 ^ (n + 1)) ∷ "s" ∷ []))
        (record m { retry_count = some (n + 1) })

-- The handling of one delivery, where the database and Redis answer or not.
unfoldable pub handle :
    Bool → Bool → List Url → List RedisEntry → Message → List Url × List RedisEntry × List Action
unfolding evict_all retry
handle up redis_up rows redis m = elim (m.user_id) [
  | none ↦ (rows, redis, ack ∷ [])
  | some user_id ↦
      if up
      then (
        filter (λ u. not (is_of user_id u)) rows,
        if redis_up then evict_all (codes_of user_id rows) redis else redis,
        ack ∷ [],
      )
      else (rows, redis, retry m ∷ ack ∷ [])
]
