-- ===== src/Server/Urls/LateWrite.antt =====
-- A background write to Redis that comes after a deletion: services/url-service/src/handlers.rs,
-- the task that `get_original_url` spawns against `delete_url_handler`.
use bittuly.Prelude.{
  ℕ, ◌+◌, ◌*◌, ◌≤◌, ◌≡◌, ◌∙◌, refl, ap, Bool, true, false, not, ◌&&◌, Option, none, some, List, [],
  ◌∷◌, String, All, filter, inl, inr, ◌==◌, Bool-cases, str_eq, str_eq_iff, arith,
}
use bittuly.Server.Numbers.{pos}
use bittuly.Server.Urls.{Url, Packages, Db, Result, ok}
use bittuly.Server.Urls.Repository.{find, get_original_url, delete_url}
use bittuly.Server.Urls.Table.{IsTable, IsCoded, IsInjective}
use bittuly.Server.Urls.Rows.{IsRow, IsRow-All, IsOf, row-IsOf, get_original_url-row}
use bittuly.Server.Urls.Handlers.{
  State, redirect, cache_url, publish, redirect_url, load, process_result, delete_url_handler,
  finish_delete, run_task, second,
}
use bittuly.Server.Urls.System.{Event, follow, delete, task, replicate, step, run}

-- A service whose databases agree and whose caches are empty.
abbrev pub quiet : Db → State
quiet db = record {
  primary = db;
  replica = db;
  redis = [];
  redis_up = true;
  l1_cache = [];
  tasks = [];
  published = [];
}

-- A redirect that reads the database, the deletion by the owner, the replica's turn, and only then
-- the redirect's write to Redis.
abbrev pub late_write : ℕ → ℕ → Url → List Event
late_write start now u =
    follow start u.short_code ∷ delete u.user_id (pos u.url_id) ∷ replicate ∷ task now 0 ∷ []

-- The first row with a code among those that are kept.
find-kept :
    (test keep : Url → Bool) (us : List Url)
    → All (λ u. test u ≡ true → keep u ≡ false) us
    → find test (filter keep us) ≡ none
find-kept test keep [] h = refl
find-kept test keep (u ∷ us) h = elim (Bool-cases (test u)) [
  | inl b ↦ rw (h.0 b) (find-kept test keep us h.1)
  | inr b ↦ ground (arith, b, find-kept test keep us h.1)
]

same-id :
    (p : Packages) (u : Url) (us : List Url)
    → IsInjective p
    → IsCoded p u
    → All (IsCoded p) us
    → All (IsOf u.url_id u.user_id) us
    → All
        (λ (v : Url).
          str_eq v.short_code u.short_code ≡ true
          → not ((v.url_id == u.url_id) && str_eq v.user_id u.user_id) ≡ false)
        us
same-id p u [] inj c h k = tt
same-id p u (v ∷ vs) inj c h k = (
  λ e.
      let ids : v.url_id ≡ u.url_id =
        inj v.url_id u.url_id (cc ((str_eq_iff v.short_code u.short_code).0 e, c, h.0)) in
      ground (arith, ids, k.0 ids, str_eq_iff v.user_id u.user_id),
  same-id p u vs inj c h.1 k.1,
)

finish_delete-empty :
    (s : State) (r : Result (Option String)) → s.redis ≡ [] → (finish_delete s r).0 ≡ s
finish_delete-empty s r e = ground arith

module _ (p : Packages) (start now : ℕ) (u : Url) (db : Db) (inj : IsInjective p) (t : IsTable p db)
    (up : db.up ≡ true) (row : IsRow u db.rows) (never : u.expires_at ≡ none) where
  abbrev gone : Db
  gone = (delete_url db (pos u.url_id) u.user_id).0

  deleted-missing :
      (get_original_url gone u.short_code ≡ ok none)
      × (get_original_url (record gone { up = db.up }) u.short_code ≡ ok none)
  unfolding get_original_url delete_url
  deleted-missing =
      let coded = IsRow-All (IsCoded p) u db.rows t.coded row in
      let test = λ (v : Url). str_eq v.short_code u.short_code in
      let keep = λ (v : Url). not ((v.url_id == u.url_id) && str_eq v.user_id u.user_id) in
      ground (
        arith,
        up,
        find-kept test keep db.rows
            (same-id p u db.rows inj coded t.coded (row-IsOf db.next_id u db.rows t.ordered row)),
      )

  abbrev followed : State
  followed = record (quiet db) {
    l1_cache =
        record { key = u.short_code; value = some (u.original_url, none); inserted_at = start }
        ∷ [];
    tasks = cache_url u.short_code u.original_url none ∷ publish u.short_code ∷ [];
  }

  redirect_url-followed : (redirect_url start (quiet db) u.short_code).0 ≡ followed
  unfolding redirect_url load process_result
  redirect_url-followed =
      let found =
        get_original_url-row p db u inj t row up ∙ ap (λ x. ok (some (u.original_url, x))) never in
      rw (redirect_url, found, load) refl

  abbrev cached : State
  cached = record followed {
    primary = gone;
    replica = record gone { up = db.up };
    redis = record { key = u.short_code; value = u.original_url; deadline = none } ∷ [];
    tasks = publish u.short_code ∷ [];
  }

  run-late_write : (run p (quiet db) [] (late_write start now u)).0 ≡ cached
  unfolding run step delete_url_handler run_task
  run-late_write =
      let r = (delete_url db (pos u.url_id) u.user_id).1 in
      rw (redirect_url-followed, finish_delete-empty (record followed { primary = gone }) r refl)
        refl

-- Where the databases agree, the table is in order and the caches are empty: a redirect of a link
-- without an expiry, its deletion by its owner, replication, and only then the redirect's write to
-- Redis leave neither database with the link, and still its code redirects at any time from three
-- seconds after the first redirect on.
pub late_write-redirects :
    (p : Packages) (start now later : ℕ) (u : Url) (db : Db)
    → IsInjective p
    → IsTable p db
    → db.up ≡ true
    → IsRow u db.rows
    → u.expires_at ≡ none
    → start + 3 * second ≤ later
    → let s = (run p (quiet db) [] (late_write start now u)).0 in
      (get_original_url s.primary u.short_code ≡ ok none)
      × (get_original_url s.replica u.short_code ≡ ok none)
      × ((redirect_url later s u.short_code).1 ≡ redirect u.original_url)
unfolding redirect_url load process_result
late_write-redirects p start now later u db inj t up row never after =
    let missing = deleted-missing p start now u db inj t up row never in
    let itself = str_eq_iff u.short_code u.short_code in
    rw (run-late_write p start now u db inj t up row never)
      (missing.0, missing.1, ground (arith, after, itself))
