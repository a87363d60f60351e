-- ===== src/Server/Urls/System/Known.antt =====
-- What the caches hold comes from the table: a relation between codes and URLs that the rows keep,
-- the caches and the tasks keep too.
use bittuly.Prelude.{
  ◌&&◌, ◌+◌, ◌*◌, ltb, All-map, ℕ, ◌≡◌, Option, none, some, List, [], ◌∷◌, String, All, inl, inr,
  Bool-cases, Option-cases, str_eq, str_eq_iff, arith,
}
use mathlib.Core.Path.{subst}
use bittuly.Server.Urls.{Url, Db, Result, ok, err}
use bittuly.Server.Urls.Repository.{find, get_original_url}
use bittuly.Server.Urls.Handlers.{
  State, Response, redirect, status, page, created, CacheEntry, RedisEntry, Task, cache_url,
  publish, l1_get, redis_find, redis_get, second, is_alive,
}

module _ (K : String → String → Type 0) where
  abbrev pub IsKnownRow : Url → Type 0
  IsKnownRow u = K u.short_code u.original_url

  abbrev pub IsKnownEntry : RedisEntry → Type 0
  IsKnownEntry e = K e.key e.value

  abbrev pub IsKnownValue : String → Option (String × Option ℕ) → Type 0
  IsKnownValue key none = Unit
  IsKnownValue key (some (url, exp)) = K key url

  abbrev pub IsKnownCached : CacheEntry → Type 0
  IsKnownCached e = IsKnownValue e.key e.value

  abbrev pub IsKnownTask : Task → Type 0
  IsKnownTask (cache_url code url exp) = K code url
  IsKnownTask (publish code) = Unit

  pub record IsKnown (s : State) : Type 0 where
    pub rows : All IsKnownRow s.replica.rows
    pub redis : All IsKnownEntry s.redis
    pub l1_cache : All IsKnownCached s.l1_cache
    pub tasks : All IsKnownTask s.tasks

  -- The primary plays no part.
  pub IsKnown-primary : (s : State) (db : Db) → IsKnown s → IsKnown (record s { primary = db })
  IsKnown-primary s db k = record {
    rows = k.rows;
    redis = k.redis;
    l1_cache = k.l1_cache;
    tasks = k.tasks;
  }

  pub l1_get-known :
      (now : ℕ) (key : String) (es : List CacheEntry) (v : Option (String × Option ℕ))
      → All IsKnownCached es
      → l1_get now key es ≡ some v
      → IsKnownValue key v
  l1_get-known now key [] v h q = cc
  l1_get-known now key (e ∷ es) v h q =
      elim (Bool-cases (str_eq e.key key && ltb now (e.inserted_at + 3 * second))) [
        | inl b ↦
            let same : e.key ≡ key = ground (arith, b, str_eq_iff e.key key) in
            let value : e.value ≡ v = ground (arith, q, b) in
            subst (λ k. IsKnownValue k v) same (subst (λ w. IsKnownValue e.key w) value h.0)
        | inr b ↦ l1_get-known now key es v h.1 (ground (arith, q, b))
      ]

  pub redis_find-known :
      (now : ℕ) (key : String) (es : List RedisEntry) (url : String)
      → All IsKnownEntry es
      → redis_find now key es ≡ some url
      → K key url
  redis_find-known now key [] url h q = cc
  redis_find-known now key (e ∷ es) url h q =
      elim (Bool-cases (str_eq e.key key && is_alive now e.deadline)) [
        | inl b ↦
            let same : e.key ≡ key = ground (arith, b, str_eq_iff e.key key) in
            let value : e.value ≡ url = ground (arith, q, b) in
            subst (λ k. K k url) same (subst (λ v. K e.key v) value h.0)
        | inr b ↦ redis_find-known now key es url h.1 (ground (arith, q, b))
      ]

  find-known :
      (code : String) (us : List Url) (u : Url)
      → All IsKnownRow us
      → find (λ (v : Url). str_eq v.short_code code) us ≡ some u
      → K code u.original_url
  find-known code [] u h q = cc
  find-known code (v ∷ us) u h q = elim (Bool-cases (str_eq v.short_code code)) [
    | inl b ↦
        let same : v.short_code ≡ code = (str_eq_iff v.short_code code).0 b in
        let row : v ≡ u = ground (arith, q, b) in
        subst (λ c. K c u.original_url) same
          (subst (λ (w : Url). K v.short_code w.original_url) row h.0)
    | inr b ↦ find-known code us u h.1 (ground (arith, q, b))
  ]

  pub get_original_url-known :
      (code url : String) (exp : Option ℕ) (db : Db)
      → All IsKnownRow db.rows
      → get_original_url db code ≡ ok (some (url, exp))
      → K code url
  unfolding get_original_url
  get_original_url-known code url exp db h q =
      elim (Option-cases (find (λ (v : Url). str_eq v.short_code code) db.rows)) [
        | inl f ↦ absurd (ground (arith, q, f))
        | inr (u, f) ↦
            let value : u.original_url ≡ url = ground (arith, q, f) in
            subst (λ w. K code w) value (find-known code db.rows u h f)
      ]

  abbrev pub IsKnownResult : String → Result (Option (String × Option ℕ)) → Type 0
  IsKnownResult code (ok v) = IsKnownValue code v
  IsKnownResult code err = Unit

  abbrev pub IsKnownResponse : String → Response → Type 0
  IsKnownResponse code (redirect url) = K code url
  IsKnownResponse code (status n) = Unit
  IsKnownResponse code (page q) = Unit
  IsKnownResponse code (created u) = Unit

  pub redis_get-known :
      (now : ℕ) (code url : String) (s : State)
      → IsKnown s
      → redis_get now code s ≡ some url
      → K code url
  redis_get-known now code url s k q = elim (Bool-cases s.redis_up) [
    | inl b ↦ redis_find-known now code s.redis url k.redis (ground (arith, q, b))
    | inr b ↦ absurd (ground (arith, q, b))
  ]

module _ {K L : String → String → Type 0}
    (grow : (code url : String) → K code url → L code url) where
  value-grow :
      (key : String) (v : Option (String × Option ℕ)) → IsKnownValue K key v → IsKnownValue L key v
  value-grow key none h = tt
  value-grow key (some (url, exp)) h = grow key url h

  task-grow : (t : Task) → IsKnownTask K t → IsKnownTask L t
  task-grow (cache_url code url exp) h = grow code url h
  task-grow (publish code) h = tt

  -- A relation may grow.
  pub IsKnown-grow : (s : State) → IsKnown K s → IsKnown L s
  IsKnown-grow s k = record {
    rows = All-map (λ (u : Url). grow u.short_code u.original_url) s.replica.rows k.rows;
    redis = All-map (λ (e : RedisEntry). grow e.key e.value) s.redis k.redis;
    l1_cache = All-map (λ (e : CacheEntry). value-grow e.key e.value) s.l1_cache k.l1_cache;
    tasks = All-map task-grow s.tasks k.tasks;
  }
