-- ===== src/Server/Urls/System/Events.antt =====
-- What each event but a creation keeps of the invariant of a run.
use mathlib.Core.Path.{subst}
use bittuly.Prelude.{
  ℕ, zero, suc, ◌≡◌, refl, Bool, not, some, List, [], ◌∷◌, String, All, All-filter, inl, inr,
  Bool-cases, Option-cases, arith,
}
use bittuly.Server.Numbers.{ℤ}
use bittuly.Server.Urls.{Url, Packages}
use bittuly.Server.Urls.Repository.{delete_url}
use bittuly.Server.Urls.Table.{IsTable-up, delete_url-IsTable}
use bittuly.Server.Urls.Handlers.{
  State, Task, redirect_url, load, process_result, run_task, redis_del, l1_remove,
}
use bittuly.Server.Urls.System.{issue, nth, without_nth, run_nth}
use bittuly.Server.Urls.System.Known.{
  IsKnown, IsKnownRow, IsKnownEntry, IsKnownCached, IsKnownTask, IsKnown-primary,
}
use bittuly.Server.Urls.System.Caching.{redirect_url-IsKnown, run_task-IsKnown}
use bittuly.Server.Urls.System.Codes.{IsIssued, Consistent}

-- A redirect leaves the databases alone and gives out no code.
redirect_url-databases :
    (now : ℕ) (s : State) (code : String) (log : List Url)
    → let (s', r) = redirect_url now s code in
      (s'.primary ≡ s.primary) × (s'.replica ≡ s.replica) × (issue (some r) log ≡ log)
unfolding redirect_url load process_result
redirect_url-databases now s code log = ground arith

nth-All {κ} :
    (P : Task → Type κ) (n : ℕ) (ts : List Task) (t : Task) → All P ts → nth n ts ≡ some t → P t
nth-All P n [] t h e = cc
nth-All P zero (u ∷ ts) t h e = let q : u ≡ t = cc in subst P q h.0
nth-All P (suc n) (u ∷ ts) t h e = nth-All P n ts t h.1 e

without_nth-All {κ} :
    (P : Task → Type κ) (n : ℕ) (ts : List Task) → All P ts → All P (without_nth n ts)
without_nth-All P n [] h = tt
without_nth-All P zero (t ∷ ts) h = h.1
without_nth-All P (suc n) (t ∷ ts) h = (h.0, without_nth-All P n ts h.1)

run_task-databases :
    (now : ℕ) (s : State) (t : Task)
    → ((run_task now s t).primary ≡ s.primary) × ((run_task now s t).replica ≡ s.replica)
unfolding run_task
run_task-databases now s t = ground arith

module _ (p : Packages) (log : List Url) (s : State) (c : Consistent p log s) where
  -- A step that leaves the databases alone.
  cached-Consistent :
      (s' : State)
      → s'.primary ≡ s.primary
      → s'.replica ≡ s.replica
      → IsKnown (IsIssued log) s'
      → Consistent p log s'
  cached-Consistent s' q r k = record {
    primary = rw q c.primary;
    replica = rw r c.replica;
    drawn = rw q c.drawn;
    one_url = c.one_url;
    rows = rw q c.rows;
    known = k;
  }

  pub follow-Consistent :
      (now : ℕ) (code : String)
      → let (s', r) = redirect_url now s code in Consistent p (issue (some r) log) s'
  follow-Consistent now code =
      let (q, r, same) = redirect_url-databases now s code log in
      rw same (
        cached-Consistent (redirect_url now s code).0 q r
          (redirect_url-IsKnown (IsIssued log) now s code c.known).0)

  pub task-Consistent : (now : ℕ) (n : ℕ) → Consistent p log (run_nth now s (nth n s.tasks) n)
  task-Consistent now n = elim (Option-cases (nth n s.tasks)) [
    | inl e ↦ rw e c
    | inr (t, e) ↦
        let s' = record s { tasks = without_nth n s.tasks } in
        let known : IsKnown (IsIssued log) s' = record {
          rows = c.known.rows;
          redis = c.known.redis;
          l1_cache = c.known.l1_cache;
          tasks = without_nth-All (IsKnownTask (IsIssued log)) n s.tasks c.known.tasks;
        } in
        let (q, r) = run_task-databases now s' t in
        rw e (
          cached-Consistent (run_task now s' t) q r (
            run_task-IsKnown (IsIssued log) now s' t known
              (nth-All (IsKnownTask (IsIssued log)) n s.tasks t c.known.tasks e)))
  ]

  pub evict_redis-Consistent :
      (key : String) → Consistent p log (record s { redis = redis_del key s.redis })
  evict_redis-Consistent key = cached-Consistent _ refl refl (record {
    rows = c.known.rows;
    redis = All-filter (IsKnownEntry (IsIssued log)) _ s.redis c.known.redis;
    l1_cache = c.known.l1_cache;
    tasks = c.known.tasks;
  })

  pub evict_l1-Consistent :
      (key : String) → Consistent p log (record s { l1_cache = l1_remove key s.l1_cache })
  evict_l1-Consistent key = cached-Consistent _ refl refl (record {
    rows = c.known.rows;
    redis = c.known.redis;
    l1_cache = All-filter (IsKnownCached (IsIssued log)) _ s.l1_cache c.known.l1_cache;
    tasks = c.known.tasks;
  })

  pub restart-Consistent : Consistent p log (record s { l1_cache = []; tasks = [] })
  restart-Consistent =
      cached-Consistent _ refl refl
        (record { rows = c.known.rows; redis = c.known.redis; l1_cache = tt; tasks = tt })

  pub replicate-Consistent :
      Consistent p log (record s { replica = record s.primary { up = s.replica.up } })
  replicate-Consistent = record {
    primary = c.primary;
    replica = IsTable-up p s.primary s.replica.up c.primary;
    drawn = c.drawn;
    one_url = c.one_url;
    rows = c.rows;
    known = record {
      rows = c.rows;
      redis = c.known.redis;
      l1_cache = c.known.l1_cache;
      tasks = c.known.tasks;
    };
  }

  pub availability-Consistent :
      (a b r : Bool)
      → Consistent p log (record s {
        primary = record s.primary { up = a };
        replica = record s.replica { up = b };
        redis_up = r;
      })
  availability-Consistent a b r = record {
    primary = IsTable-up p s.primary a c.primary;
    replica = IsTable-up p s.replica b c.replica;
    drawn = c.drawn;
    one_url = c.one_url;
    rows = c.rows;
    known = record {
      rows = c.known.rows;
      redis = c.known.redis;
      l1_cache = c.known.l1_cache;
      tasks = c.known.tasks;
    };
  }

  pub delete_url-Consistent :
      (w : String) (i : ℤ) → Consistent p log (record s { primary = (delete_url s.primary i w).0 })
  unfolding delete_url
  delete_url-Consistent w i =
      let t = delete_url-IsTable p s.primary i w c.primary in
      elim (Bool-cases (not s.primary.up)) [
        | inl e ↦ rw (delete_url, e) c
        | inr e ↦ record {
          primary = t;
          replica = c.replica;
          drawn = rw (delete_url, e) c.drawn;
          one_url = c.one_url;
          rows =
              rw (delete_url, e) (All-filter (IsKnownRow (IsIssued log)) _ s.primary.rows c.rows);
          known = IsKnown-primary (IsIssued log) s _ c.known;
        }
      ]
