-- ===== src/Server/Urls/Handlers.antt =====
-- services/url-service/src/handlers.rs. A handler takes the state to the next one and answers; what
-- it spawns is a task of the state, which runs later. Reads go to the replica, and writes to the
-- primary (`SplitUrlRepo`).
use mathlib.Core.Option
use bittuly.Prelude.{
  ℕ, ◌+◌, ◌-◌, ◌*◌, ◌/◌, Bool, true, false, not, ◌&&◌, Option, none, some, List, [], ◌∷◌, ◌++◌,
  String, if◌then◌else◌, ltb, str_eq, filter, truthy,
}
use bittuly.Server.Numbers.{ℤ, pos, from_str_radix}
use bittuly.Server.Text.{is_blank}
use bittuly.Server.Urls.{Url, Packages, Db, Result, ok, err, Page}
use bittuly.Server.Urls.Repository.{add_shorten_url, get_original_url, get_urls_page, delete_url}

abbrev pub second : ℕ
second = 1000000000

-- An entry of Redis, with the time from which it is gone, and one of the L1 cache, with the time
-- of its insertion.
pub record RedisEntry : Type 0 where
  pub key : String
  pub value : String
  pub deadline : Option ℕ

pub record CacheEntry : Type 0 where
  pub key : String
  pub value : Option (String × Option ℕ)
  pub inserted_at : ℕ

pub data Task : Type 0 where
  cache_url : (short_code original_url : String) (expires_at : Option ℕ) → Task
  publish : (short_code : String) → Task

-- `UrlState`. `redis_up` says whether Redis answers, and `published` is what stands in the queue
-- of click events.
pub record State : Type 0 where
  pub primary : Db
  pub replica : Db
  pub redis : List RedisEntry
  pub redis_up : Bool
  pub l1_cache : List CacheEntry
  pub tasks : List Task
  pub published : List String

pub data Response : Type 0 where
  status : ℕ → Response
  page : Page → Response
  created : Url → Response
  redirect : String → Response

pub record PaginationParams : Type 0 where
  pub cursor : Option String
  pub limit : Option ℤ
  pub search : Option String

abbrev pub keep_search : Option String → Option String
keep_search none = none
keep_search (some s) = if is_blank s then none else some s

abbrev pub limit_or_default : Option ℤ → ℤ
limit_or_default none = pos 20
limit_or_default (some n) = n

abbrev pub answer_page : Result Page → Response
answer_page (ok p) = page p
answer_page err = status 500

-- The cursor: absent or empty, or a number in hex; none where it is no number.
unfoldable pub decode_cursor : Option String → Option (Option ℤ)
decode_cursor none = some none
decode_cursor (some s) =
    if truthy s then Option.map (λ n. some n) (from_str_radix 16 s) else some none

unfoldable pub get_all_urls : Packages → State → String → PaginationParams → Response
unfolding decode_cursor is_blank
get_all_urls p s user_id params = elim (decode_cursor params.cursor) [
  | none ↦ status 400
  | some cursor ↦ answer_page (
      get_urls_page p s.replica user_id cursor (limit_or_default params.limit)
        (keep_search params.search))
]

abbrev pub answer_created : Result (Option Url) → Response
answer_created (ok (some u)) = created u
answer_created (ok none) = status 409
answer_created err = status 500

unfoldable pub shorten_url : Packages → ℕ → State → String → String → Option ℕ → State × Response
shorten_url p now s user_id original_url expires_at =
    let (db, r) = add_shorten_url p now s.primary original_url user_id expires_at in
    if not (p.is_url original_url)
    then (s, status 422)
    else (record s { primary = db }, answer_created r)

-- An entry of the L1 cache lives for three seconds.
abbrev pub l1_get : ℕ → String → List CacheEntry → Option (Option (String × Option ℕ))
l1_get now key [] = none
l1_get now key (e ∷ es) =
    if str_eq e.key key && ltb now (e.inserted_at + 3 * second)
    then some e.value
    else l1_get now key es

abbrev pub l1_remove : String → List CacheEntry → List CacheEntry
l1_remove key es = filter (λ (e : CacheEntry). not (str_eq e.key key)) es

abbrev pub is_alive : ℕ → Option ℕ → Bool
is_alive now none = true
is_alive now (some t) = ltb now t

abbrev pub redis_find : ℕ → String → List RedisEntry → Option String
redis_find now key [] = none
redis_find now key (e ∷ es) =
    if str_eq e.key key && is_alive now e.deadline then some e.value else redis_find now key es

-- A GET that fails is as one that finds nothing.
abbrev pub redis_get : ℕ → String → State → Option String
redis_get now key s = if s.redis_up then redis_find now key s.redis else none

abbrev pub redis_del : String → List RedisEntry → List RedisEntry
redis_del key es = filter (λ (e : RedisEntry). not (str_eq e.key key)) es

abbrev pub insert_l1 : ℕ → String → Option (String × Option ℕ) → State → State
insert_l1 now key v s =
    let e : CacheEntry = record { key = key; value = v; inserted_at = now } in
    record s { l1_cache = e ∷ l1_remove key s.l1_cache }

-- The future of `try_get_with`: Redis, then the replica, whose answer is cached in the background.
-- A value is kept in the L1 cache, an error is not.
unfoldable pub load : ℕ → State → String → State × Result (Option (String × Option ℕ))
load now s short_code = elim (redis_get now short_code s) [
  | some url ↦ (insert_l1 now short_code (some (url, none)) s, ok (some (url, none)))
  | none ↦ elim (get_original_url s.replica short_code) [
    | err ↦ (s, err)
    | ok none ↦ (insert_l1 now short_code none s, ok none)
    | ok (some (url, exp)) ↦
        let s' = record s { tasks = s.tasks ++ (cache_url short_code url exp ∷ []) } in
        (insert_l1 now short_code (some (url, exp)) s', ok (some (url, exp)))
  ]
]

abbrev pub is_past : ℕ → Option ℕ → Bool
is_past now none = false
is_past now (some exp) = ltb exp now

-- The match on the result: a link that has expired in the L1 cache is gone.
unfoldable pub process_result :
    ℕ → State → String → Result (Option (String × Option ℕ)) → State × Response
process_result now s short_code err = (s, status 503)
process_result now s short_code (ok none) = (s, status 404)
process_result now s short_code (ok (some (url, exp))) =
    if is_past now exp
    then (record s { l1_cache = l1_remove short_code s.l1_cache }, status 410)
    else (record s { tasks = s.tasks ++ (publish short_code ∷ []) }, redirect url)

unfoldable pub redirect_url : ℕ → State → String → State × Response
unfolding load process_result
redirect_url now s short_code =
    let (s', r) = load now s short_code in
    elim (l1_get now short_code s.l1_cache) [
      | some v ↦ process_result now s short_code (ok v)
      | none ↦ process_result now s' short_code r
    ]

-- After the row is gone, its key goes from Redis, if Redis answers.
abbrev pub finish_delete : State → Result (Option String) → State × Response
finish_delete s (ok (some short_code)) =
    (if s.redis_up then record s { redis = redis_del short_code s.redis } else s, status 204)
finish_delete s (ok none) = (s, status 404)
finish_delete s err = (s, status 500)

unfoldable pub delete_url_handler : State → String → ℤ → State × Response
delete_url_handler s user_id url_id =
    let (db, r) = delete_url s.primary url_id user_id in finish_delete (record s { primary = db }) r

-- `SET` and `SETEX`.
abbrev pub redis_set : String → String → Option ℕ → State → State
redis_set key value deadline s =
    let e : RedisEntry = record { key = key; value = value; deadline = deadline } in
    if s.redis_up then record s { redis = e ∷ redis_del key s.redis } else s

-- The whole seconds left, as `timestamp()` counts them.
abbrev pub ttl : ℕ → ℕ → ℕ
ttl now exp = exp / second - now / second

unfoldable pub run_task : ℕ → State → Task → State
run_task now s (publish short_code) = record s { published = s.published ++ (short_code ∷ []) }
run_task now s (cache_url short_code url none) = redis_set short_code url none s
run_task now s (cache_url short_code url (some exp)) =
    if ltb 0 (ttl now exp)
    then redis_set short_code url (some (now + ttl now exp * second)) s
    else s
