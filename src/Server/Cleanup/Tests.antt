-- ===== src/Server/Cleanup/Tests.antt =====
-- The theorem on the events of deleted users at a concrete one.
use bittuly.Prelude.{
  List, refl, inl, inr, false, str_eq_iff, show, ◌≡◌, ltb, true, none, some, not, [], ◌∷◌, filter,
}
use bittuly.Server.Samples.{packages, row, rows}
use bittuly.Server.Urls.Handlers.{RedisEntry, redis_find}
use bittuly.Server.Urls.Paging.{matches}
use bittuly.Server.Cleanup.{is_of, handle, ack}
use bittuly.Server.Cleanup.Retries.{fate, acknowledged, fate-ends, handle-evicts}

-- The database is back at the third delivery.
fate-ends_example :
    fate 4 (ltb 1) (λ i. true) 0 rows (record { user_id = some "u1"; retry_count = none })
    ≡ acknowledged (filter (λ u. not (is_of "u1" u)) rows) (3 ∷ 9 ∷ [])
fate-ends_example = fate-ends "u1" (ltb 1) (λ i. true) rows

-- The link 2 in Redis, and another code that is no link's.
abbrev cached : List RedisEntry
cached =
    record { key = "2"; value = "https://b.example"; deadline = none }
    ∷ record { key = "x"; value = "https://x.example"; deadline = none }
    ∷ []

handle-evicts_example :
    let (rows', redis', actions) =
      handle true true rows cached (record { user_id = some "u1"; retry_count = none }) in
    (redis_find 9 "2" redis' ≡ none)
    × (redis_find 9 "x" redis' ≡ some "https://x.example")
    × (matches packages rows' "u2" none ≡ matches packages rows "u2" none)
    × (actions ≡ ack ∷ [])
unfolding show
handle-evicts_example =
    handle-evicts packages 9 rows cached none (row 2 "https://b.example") "x" "u2" none
      (inr (inl refl)) refl (λ e. let p : false ≡ true = (str_eq_iff "u1" "u2").1 e in cc)
