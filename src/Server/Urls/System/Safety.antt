-- ===== src/Server/Urls/System/Safety.antt =====
-- Whatever happens to services/url-service, a code that it gave out leads to one URL.
use mathlib.Core.Path.{subst}
use bittuly.Prelude.{
  if◌then◌else◌, ℕ, ◌≡◌, Bool, true, false, Option, none, some, List, [], ◌∷◌, String, arith, All,
  All-map, map, filter, str_eq, str_eq_iff, inl, inr, Bool-cases,
}
use bittuly.Server.Urls.{Url, Packages, Result, ok, err}
use bittuly.Server.Urls.Repository.{delete_url}
use bittuly.Server.Urls.Table.{IsTable, IsInjective}
use bittuly.Server.Urls.Handlers.{State, redirect, redirect_url, delete_url_handler, finish_delete}
use bittuly.Server.Urls.System.{
  Event, shorten, follow, delete, task, replicate, evict_redis, evict_l1, availability, restart,
  step, issue, run, init,
}
use bittuly.Server.Urls.System.Known.{IsKnownResponse}
use bittuly.Server.Urls.System.Caching.{redirect_url-IsKnown}
use bittuly.Server.Urls.System.Codes.{IsIssued, IsIssued-more, IsIssued-self, Consistent}
use bittuly.Server.Urls.System.Shorten.{shorten_url-Consistent}
use bittuly.Server.Urls.System.Events.{
  follow-Consistent, task-Consistent, evict_redis-Consistent, evict_l1-Consistent,
  restart-Consistent, replicate-Consistent, availability-Consistent, delete_url-Consistent,
}

module _ (p : Packages) (log : List Url) where
  either-Consistent :
      (b : Bool) (s t : State)
      → Consistent p log s
      → Consistent p log t
      → Consistent p log (if b then s else t)
  either-Consistent true s t c d = c
  either-Consistent false s t c d = d

  finish_delete-Consistent :
      (s : State) (r : Result (Option String))
      → Consistent p log s
      → let (s', a) = finish_delete s r in Consistent p (issue (some a) log) s'
  finish_delete-Consistent s err c = c
  finish_delete-Consistent s (ok none) c = c
  finish_delete-Consistent s (ok (some code)) c =
      either-Consistent s.redis_up _ s (evict_redis-Consistent p log s c code) c

  -- Every step keeps the codes consistent.
  pub step-Consistent :
      (s : State) (e : Event)
      → IsInjective p
      → Consistent p log s
      → let (s', r) = step p s e in Consistent p (issue r log) s'
  unfolding step delete_url_handler
  step-Consistent s (shorten now w o x) inj c = shorten_url-Consistent p inj now log s o w x c
  step-Consistent s (follow now code) inj c = follow-Consistent p log s c now code
  step-Consistent s (delete w i) inj c =
      finish_delete-Consistent (record s { primary = (delete_url s.primary i w).0 })
        (delete_url s.primary i w).1 (delete_url-Consistent p log s c w i)
  step-Consistent s (task now n) inj c = task-Consistent p log s c now n
  step-Consistent s replicate inj c = replicate-Consistent p log s c
  step-Consistent s (evict_redis key) inj c = evict_redis-Consistent p log s c key
  step-Consistent s (evict_l1 key) inj c = evict_l1-Consistent p log s c key
  step-Consistent s (availability a b r) inj c = availability-Consistent p log s c a b r
  step-Consistent s restart inj c = restart-Consistent p log s c

run-Consistent :
    (p : Packages) (s : State) (log : List Url) (es : List Event)
    → IsInjective p
    → Consistent p log s
    → let (s', log') = run p s log es in Consistent p log' s'
unfolding run
run-Consistent p s log [] inj c = c
run-Consistent p s log (e ∷ es) inj c =
    run-Consistent p (step p s e).0 (issue (step p s e).1 log) es inj
      (step-Consistent p log s e inj c)

init-Consistent : (p : Packages) → Consistent p [] init
unfolding init
init-Consistent p = record {
  primary = omega arith;
  replica = omega arith;
  drawn = tt;
  one_url = λ code a b h k. cc;
  rows = tt;
  known = record { rows = tt; redis = tt; l1_cache = tt; tasks = tt };
}

-- After any requests, background tasks, replications, evictions, failures and restarts in any
-- order, the tables of the primary and of the replica are in order: ids fall from row to row and
-- are below the next one of the sequence, a code is that of its id, and no user has a URL twice.
pub run-IsTable :
    (p : Packages) (es : List Event)
    → IsInjective p
    → let (s, log) = run p init [] es in IsTable p s.primary × IsTable p s.replica
run-IsTable p es inj =
    let c = run-Consistent p init [] es inj (init-Consistent p) in (c.primary, c.replica)

-- The URLs that creations answered with for a code.
abbrev pub given : String → List Url → List String
given code log =
    map (λ (u : Url). u.original_url) (filter (λ (u : Url). str_eq u.short_code code) log)

given-IsIssued : (log : List Url) (code : String) → All (IsIssued log code) (given code log)
given-IsIssued [] code = tt
given-IsIssued (u ∷ log) code =
    let rest =
      All-map (λ url. IsIssued-more u log code url) (given code log) (given-IsIssued log code) in
    elim (Bool-cases (str_eq u.short_code code)) [
      | inl b ↦
          let same : u.short_code ≡ code = (str_eq_iff u.short_code code).0 b in
          rw b (subst (λ c. IsIssued (u ∷ log) c u.original_url) same (IsIssued-self u log), rest)
      | inr b ↦ rw b rest
    ]

-- After any requests, background tasks, replications, evictions, failures and restarts in any
-- order, a redirect of a code goes to a URL that a creation answered with for that code; and that is
-- the only URL that a creation answered with for it, also where the link was renewed or deleted since.
pub run-redirect :
    (p : Packages) (es : List Event) (now : ℕ) (code url : String)
    → IsInjective p
    → (redirect_url now (run p init [] es).0 code).1 ≡ redirect url
    → let log = (run p init [] es).1 in
      IsIssued log code url × All (λ other. url ≡ other) (given code log)
run-redirect p es now code url inj e =
    let s = (run p init [] es).0 in
    let log = (run p init [] es).1 in
    let c = run-Consistent p init [] es inj (init-Consistent p) in
    let known = (redirect_url-IsKnown (IsIssued log) now s code c.known).1 in
    let issued : IsIssued log code url = subst (IsKnownResponse (IsIssued log) code) e known in
    (
      issued,
      All-map (λ other h. c.one_url code url other issued h) (given code log)
          (given-IsIssued log code),
    )
