-- ===== src/Server/Urls/System/Caching.antt =====
-- What a redirect and a spawned task keep of what the caches hold:
-- services/url-service/src/handlers.rs.
use bittuly.Prelude.{
  ltb, All-filter, ℕ, ◌≡◌, refl, not, Option, none, some, [], ◌∷◌, ◌++◌, String, All-append, inl,
  inr, Bool-cases, Option-cases, str_eq, arith,
}
use bittuly.Server.Urls.{Result, ok, err}
use bittuly.Server.Urls.Repository.{get_original_url}
use bittuly.Server.Urls.Handlers.{
  State, RedisEntry, Task, cache_url, publish, l1_get, load, process_result, redirect_url, run_task,
  redis_get, insert_l1, redis_set, ttl, is_past,
}
use bittuly.Server.Urls.System.Known.{
  IsKnown, IsKnownValue, IsKnownEntry, IsKnownCached, IsKnownTask, IsKnownResult, IsKnownResponse,
  l1_get-known, get_original_url-known, redis_get-known,
}

-- The three answers of the replica.
data Answer (r : Result (Option (String × Option ℕ))) : Type 0 where
  failed : r ≡ err → Answer r
  missing : r ≡ ok none → Answer r
  there : (url : String) (exp : Option ℕ) → r ≡ ok (some (url, exp)) → Answer r

Answer-cases : (r : Result (Option (String × Option ℕ))) → Answer r
Answer-cases err = failed refl
Answer-cases (ok none) = missing refl
Answer-cases (ok (some (url, exp))) = there url exp refl

module _ (K : String → String → Type 0) where
  insert_l1-IsKnown :
      (now : ℕ) (code : String) (v : Option (String × Option ℕ)) (s : State)
      → IsKnown K s
      → IsKnownValue K code v
      → IsKnown K (insert_l1 now code v s)
  insert_l1-IsKnown now code v s k h = record {
    rows = k.rows;
    redis = k.redis;
    l1_cache = (h, All-filter (IsKnownCached K) _ s.l1_cache k.l1_cache);
    tasks = k.tasks;
  }

  add_task-IsKnown :
      (t : Task) (s : State)
      → IsKnown K s
      → IsKnownTask K t
      → IsKnown K (record s { tasks = s.tasks ++ (t ∷ []) })
  add_task-IsKnown t s k h = record {
    rows = k.rows;
    redis = k.redis;
    l1_cache = k.l1_cache;
    tasks = All-append (IsKnownTask K) s.tasks (t ∷ []) k.tasks (h, tt);
  }

  load-IsKnown :
      (now : ℕ) (s : State) (code : String)
      → IsKnown K s
      → IsKnown K (load now s code).0 × IsKnownResult K code (load now s code).1
  unfolding load
  load-IsKnown now s code k = elim (Option-cases (redis_get now code s)) [
    | inr (url, e) ↦
        let h = redis_get-known K now code url s k e in
        rw (load, e) (insert_l1-IsKnown now code (some (url, none)) s k h, h)
    | inl e ↦ elim (Answer-cases (get_original_url s.replica code)) [
      | failed f ↦ rw (load, e, f) (k, tt)
      | missing f ↦ rw (load, e, f) (insert_l1-IsKnown now code none s k tt, tt)
      | there url exp f ↦
          let h = get_original_url-known K code url exp s.replica k.rows f in
          rw (load, e, f)
            (
              insert_l1-IsKnown now code (some (url, exp))
                  (record s { tasks = s.tasks ++ (cache_url code url exp ∷ []) })
                  (add_task-IsKnown (cache_url code url exp) s k h) h,
              h,
            )
    ]
  ]

  process_result-IsKnown :
      (now : ℕ) (s : State) (code : String) (r : Result (Option (String × Option ℕ)))
      → IsKnown K s
      → IsKnownResult K code r
      → IsKnown K (process_result now s code r).0
        × IsKnownResponse K code (process_result now s code r).1
  unfolding process_result
  process_result-IsKnown now s code err k h = (k, tt)
  process_result-IsKnown now s code (ok none) k h = (k, tt)
  process_result-IsKnown now s code (ok (some (url, exp))) k h =
      elim (Bool-cases (is_past now exp)) [
        | inl e ↦
            rw (process_result, e)
              (
                record {
                  rows = k.rows;
                  redis = k.redis;
                  l1_cache = All-filter (IsKnownCached K) _ s.l1_cache k.l1_cache;
                  tasks = k.tasks;
                },
                tt,
              )
        | inr e ↦ rw (process_result, e) (add_task-IsKnown (publish code) s k tt, h)
      ]

  -- A redirect leaves only known pairs, and goes where the code is known to go.
  pub redirect_url-IsKnown :
      (now : ℕ) (s : State) (code : String)
      → IsKnown K s
      → IsKnown K (redirect_url now s code).0 × IsKnownResponse K code (redirect_url now s code).1
  unfolding redirect_url
  redirect_url-IsKnown now s code k = elim (Option-cases (l1_get now code s.l1_cache)) [
    | inl e ↦
        let (k', h) = load-IsKnown now s code k in
        rw (redirect_url, e)
          (process_result-IsKnown now (load now s code).0 code (load now s code).1 k' h)
    | inr (v, e) ↦
        rw (redirect_url, e)
          (process_result-IsKnown now s code (ok v) k
            (l1_get-known K now code s.l1_cache v k.l1_cache e))
  ]

  redis_set-IsKnown :
      (code url : String) (deadline : Option ℕ) (s : State)
      → IsKnown K s
      → K code url
      → IsKnown K (redis_set code url deadline s)
  redis_set-IsKnown code url deadline s k h = ground (
    arith,
    k,
    h,
    All-filter (IsKnownEntry K) (λ (e : RedisEntry). not (str_eq e.key code)) s.redis,
  )

  pub run_task-IsKnown :
      (now : ℕ) (s : State) (t : Task)
      → IsKnown K s
      → IsKnownTask K t
      → IsKnown K (run_task now s t)
  unfolding run_task
  run_task-IsKnown now s (publish code) k h = record {
    rows = k.rows;
    redis = k.redis;
    l1_cache = k.l1_cache;
    tasks = k.tasks;
  }
  run_task-IsKnown now s (cache_url code url none) k h = redis_set-IsKnown code url none s k h
  run_task-IsKnown now s (cache_url code url (some exp)) k h =
      elim (Bool-cases (ltb 0 (ttl now exp))) [
        | inl e ↦ rw (run_task, e) (redis_set-IsKnown code url _ s k h)
        | inr e ↦ rw (run_task, e) k
      ]
