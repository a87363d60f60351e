-- ===== src/Server/Urls/Deadlines.antt =====
-- How long Redis keeps a link that expires: services/url-service/src/handlers.rs, the task that
-- `get_original_url` spawns.
use bittuly.Prelude.{
  ℕ, ◌+◌, ◌*◌, ◌≤◌, ◌≡◌, refl, true, false, none, some, List, [], ◌∷◌, String, inl, inr, ltb,
  Bool-cases, arith,
}
use bittuly.Server.Urls.Handlers.{
  State, RedisEntry, cache_url, run_task, redis_get, redis_find, redis_del, ttl, second,
}

redis_find-del :
    (now : ℕ) (key : String) (es : List RedisEntry) → redis_find now key (redis_del key es) ≡ none
redis_find-del now key [] = refl
redis_find-del now key (e ∷ es) = ground (arith, redis_find-del now key es)

-- A deadline counted in whole seconds is less than a second late.
deadline-le : (now exp : ℕ) → ltb 0 (ttl now exp) ≡ true → now + ttl now exp * second ≤ exp + second
deadline-le now exp h = ground arith

-- The background write of a link that expires makes Redis answer for the link no later than a second
-- after its expiry: a code that Redis had no answer for then has none after the write.
pub run_task-deadline :
    (now later exp : ℕ) (s : State) (code url : String)
    → exp + second ≤ later
    → redis_get later code s ≡ none
    → redis_get later code (run_task now s (cache_url code url (some exp))) ≡ none
unfolding run_task
run_task-deadline now later exp s code url h e = elim (Bool-cases (ltb 0 (ttl now exp))) [
  | inr b ↦ rw (run_task, b) e
  | inl b ↦
      let late = deadline-le now exp b in
      let dead : ltb later (now + ttl now exp * second) ≡ false = ground (arith, late, h) in
      let removed = redis_find-del later code s.redis in
      rw (run_task, b) (ground (arith, e, dead, removed))
]
