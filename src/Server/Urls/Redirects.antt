-- ===== src/Server/Urls/Redirects.antt =====
-- What a redirect answers: services/url-service/src/handlers.rs, `get_original_url`.
use mathlib.Core.List.{append-nil, append_assoc}
use bittuly.Prelude.{
  ℕ, ◌≡◌, refl, sym, Option, none, some, List, [], ◌∷◌, ◌++◌, String, inl, inr, Bool-cases,
  str_eq_iff, arith, if◌then◌else◌,
}
use bittuly.Server.Urls.{Result, ok, err}
use bittuly.Server.Urls.Repository.{get_original_url}
use bittuly.Server.Urls.Handlers.{
  State, Response, redirect, status, Task, cache_url, publish, redirect_url, load, process_result,
  is_past, l1_get, l1_remove, insert_l1, CacheEntry, redis_get,
}

pub record Outcome : Type 0 where
  pub response : Response
  pub tasks : List Task
  pub cached : Option (Option (String × Option ℕ))

-- What a redirect should come to, by what the replica answers.
unfoldable pub expected : ℕ → String → Result (Option (String × Option ℕ)) → Outcome
expected now code err = record { response = status 503; tasks = []; cached = none }
expected now code (ok none) = record { response = status 404; tasks = []; cached = some none }
expected now code (ok (some (url, exp))) =
    if is_past now exp
    then record { response = status 410; tasks = cache_url code url exp ∷ []; cached = none }
    else record {
      response = redirect url;
      tasks = cache_url code url exp ∷ publish code ∷ [];
      cached = some (some (url, exp));
    }

l1_get-remove :
    (now : ℕ) (key : String) (es : List CacheEntry) → l1_get now key (l1_remove key es) ≡ none
l1_get-remove now key [] = refl
l1_get-remove now key (e ∷ es) = ground (arith, l1_get-remove now key es)

l1_get-insert :
    (now : ℕ) (key : String) (v : Option (String × Option ℕ)) (es : List CacheEntry)
    → l1_get now key (record { key = key; value = v; inserted_at = now } ∷ es) ≡ some v
l1_get-insert now key v es = ground (arith, str_eq_iff key key)

process-loaded :
    (now : ℕ) (s : State) (code : String) (answer : Result (Option (String × Option ℕ)))
    → get_original_url s.replica code ≡ answer
    → l1_get now code s.l1_cache ≡ none
    → redis_get now code s ≡ none
    → let (s', r) = load now s code in
      let (s'', response) = process_result now s' code r in
      (response ≡ (expected now code answer).response)
      × (s''.tasks ≡ s.tasks ++ (expected now code answer).tasks)
      × (l1_get now code s''.l1_cache ≡ (expected now code answer).cached)
unfolding load process_result expected
process-loaded now s code err e a b = rw (load, b, e) (refl, sym (append-nil s.tasks), a)
process-loaded now s code (ok none) e a b =
    rw (load, b, e)
      (refl, sym (append-nil s.tasks), l1_get-insert now code none (l1_remove code s.l1_cache))
process-loaded now s code (ok (some (url, exp))) e a b =
    let s' = record s { tasks = s.tasks ++ (cache_url code url exp ∷ []) } in
    let value : Option (String × Option ℕ) = some (url, exp) in
    let loaded : load now s code ≡ (insert_l1 now code value s', ok value) = rw (load, b, e) refl in
    rw loaded (elim (Bool-cases (is_past now exp)) [
      | inl q ↦
          rw (process_result, q)
            (refl, refl, l1_get-remove now code (insert_l1 now code value s').l1_cache)
      | inr q ↦
          rw (process_result, q)
            (
              refl,
              append_assoc s.tasks (cache_url code url exp ∷ []) (publish code ∷ []),
              l1_get-insert now code value (l1_remove code s.l1_cache),
            )
    ])

-- Where neither cache has the code, the answer, the tasks and what the L1 cache then has for the
-- code are as expected: a link that has not expired redirects, is put into the L1 cache, and two
-- tasks are spawned, to cache it in Redis and to count the click; an expired one is gone and counts
-- no click; an unknown code is not found, which is kept in the L1 cache; a replica that does not
-- answer makes the service unavailable, and nothing is kept.
pub redirect_url-expected :
    (now : ℕ) (s : State) (code : String)
    → l1_get now code s.l1_cache ≡ none
    → redis_get now code s ≡ none
    → let (s', r) = redirect_url now s code in
      let outcome = expected now code (get_original_url s.replica code) in
      (r ≡ outcome.response)
      × (s'.tasks ≡ s.tasks ++ outcome.tasks)
      × (l1_get now code s'.l1_cache ≡ outcome.cached)
unfolding redirect_url
redirect_url-expected now s code a b =
    rw (redirect_url, a) (process-loaded now s code (get_original_url s.replica code) refl a b)
