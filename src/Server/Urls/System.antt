-- ===== src/Server/Urls/System.antt =====
-- services/url-service as a whole: requests, the tasks that its handlers spawn, and what happens
-- around it, in any order.
pub mod Known
pub mod Added
pub mod Codes
pub mod Caching
pub mod Events
pub mod Safety
pub mod Shorten
use bittuly.Prelude.{
  ℕ, zero, suc, Bool, Option, none, some, List, [], ◌∷◌, String, filter, not, str_eq,
}
use bittuly.Server.Numbers.{ℤ}
use bittuly.Server.Urls.{Url, Packages, Db}
use bittuly.Server.Urls.Handlers.{
  State, Response, created, Task, shorten_url, redirect_url, delete_url_handler, run_task,
  redis_del, l1_remove,
}

-- `shorten`, `follow` and `delete` are requests. A task runs when its turn comes, the replica takes
-- over what the primary has, a cache drops a key for its room, a server fails or comes back, and
-- the service starts anew.
pub data Event : Type 0 where
  shorten : (now : ℕ) (user_id original_url : String) (expires_at : Option ℕ) → Event
  follow : (now : ℕ) (short_code : String) → Event
  delete : (user_id : String) (url_id : ℤ) → Event
  task : (now n : ℕ) → Event
  replicate : Event
  evict_redis : String → Event
  evict_l1 : String → Event
  availability : (primary replica redis : Bool) → Event
  restart : Event

abbrev pub nth : ℕ → List Task → Option Task
nth n [] = none
nth zero (t ∷ ts) = some t
nth (suc n) (t ∷ ts) = nth n ts

abbrev pub without_nth : ℕ → List Task → List Task
without_nth n [] = []
without_nth zero (t ∷ ts) = ts
without_nth (suc n) (t ∷ ts) = t ∷ without_nth n ts

abbrev pub run_nth : ℕ → State → Option Task → ℕ → State
run_nth now s none n = s
run_nth now s (some t) n = run_task now (record s { tasks = without_nth n s.tasks }) t

abbrev answered : State × Response → State × Option Response
answered (s, r) = (s, some r)

unfoldable pub step : Packages → State → Event → State × Option Response
step p s (shorten now user_id original_url expires_at) =
    answered (shorten_url p now s user_id original_url expires_at)
step p s (follow now short_code) = answered (redirect_url now s short_code)
step p s (delete user_id url_id) = answered (delete_url_handler s user_id url_id)
step p s (task now n) = (run_nth now s (nth n s.tasks) n, none)
step p s replicate = (record s { replica = record s.primary { up = s.replica.up } }, none)
step p s (evict_redis key) = (record s { redis = redis_del key s.redis }, none)
step p s (evict_l1 key) = (record s { l1_cache = l1_remove key s.l1_cache }, none)
step p s (availability primary replica redis) = (
  record s {
    primary = record s.primary { up = primary };
    replica = record s.replica { up = replica };
    redis_up = redis;
  },
  none,
)
step p s restart = (record s { l1_cache = []; tasks = [] }, none)

-- The links that a creation has answered with, the latest first.
abbrev pub issue : Option Response → List Url → List Url
issue (some (created u)) log = u ∷ log
issue r log = log

-- The state after the events, and the links given out by then.
unfoldable pub run : Packages → State → List Url → List Event → State × List Url
run p s log [] = (s, log)
run p s log (e ∷ es) = let (s', r) = step p s e in run p s' (issue r log) es

abbrev pub empty : Db
empty = record { rows = []; next_id = 1; up = Bool.true }

unfoldable pub init : State
init = record {
  primary = empty;
  replica = empty;
  redis = [];
  redis_up = Bool.true;
  l1_cache = [];
  tasks = [];
  published = [];
}
