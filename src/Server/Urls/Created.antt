-- ===== src/Server/Urls/Created.antt =====
-- A created link redirects: services/url-service/src/handlers.rs and repository.rs.
use mathlib.Core.Path.{subst}
use bittuly.Prelude.{
  ◌∙◌, ℕ, ◌≡◌, refl, sym, ap, Bool, true, false, not, Option, none, some, List, [], ◌∷◌, String,
  inl, inr, ◌==◌, Bool-cases, str_eq_iff, arith,
}
use bittuly.Server.Urls.{Url, Packages, Db, Result}
use bittuly.Server.Urls.Repository.{find, is_owned, new_url, update_rows, add_shorten_url}
use bittuly.Server.Urls.Table.{IsTable, IsInjective, IsTable-up, add_shorten_url-IsTable}
use bittuly.Server.Urls.Handlers.{
  State, created, redirect, redirect_url, is_past, l1_get, redis_get, shorten_url, answer_created,
}
use bittuly.Server.Urls.Rows.{IsRow, get_original_url-row}
use bittuly.Server.Urls.Redirects.{redirect_url-expected, expected}
use bittuly.Server.Urls.System.{step, replicate}
use bittuly.Server.Urls.System.Added.{
  Added, inserted, renewed, conflict, failed, renewed_row, add_shorten_url-Added,
}

IsRow-renewed :
    (now : ℕ) (x : Option ℕ) (test : Url → Bool) (us : List Url) (u : Url)
    → find test us ≡ some u
    → (test u ≡ true) × IsRow (renewed_row now x u) (update_rows u.url_id (renewed_row now x) us)
IsRow-renewed now x test [] u e = cc
IsRow-renewed now x test (v ∷ vs) u e = elim (Bool-cases (test v)) [
  | inl b ↦
      let q : v ≡ u = ground (arith, e, b) in
      let itself : (v.url_id == v.url_id) ≡ true = ground arith in
      subst
        (λ (w : Url).
          (test w ≡ true)
          × IsRow (renewed_row now x w) (update_rows w.url_id (renewed_row now x) (v ∷ vs)))
        q (b, inl (rw itself refl))
  | inr b ↦ let (t, r) = IsRow-renewed now x test vs u (ground (arith, e, b)) in (t, inr r)
]

-- What a creation answers with is a row with the URL and the expiry that were asked for.
added-IsRow :
    (p : Packages) (now : ℕ) (db : Db) (o w : String) (x : Option ℕ) (r : Db × Result (Option Url))
    (u : Url)
    → Added p now db o w x r
    → answer_created r.1 ≡ created u
    → IsRow u r.0.rows × (u.original_url ≡ o) × (u.expires_at ≡ x)
added-IsRow p now db o w x r u (inserted e) a =
    let q : new_url p now db.next_id o w x ≡ u =
      cc (subst (λ t. answer_created t.1 ≡ created u) e a) in
    rw e (inl q, ap (λ (v : Url). v.original_url) (sym q), ap (λ (v : Url). v.expires_at) (sym q))
added-IsRow p now db o w x r u (renewed v f e) a =
    let q : renewed_row now x v ≡ u = cc (subst (λ t. answer_created t.1 ≡ created u) e a) in
    let (mine, there) = IsRow-renewed now x (is_owned o w) db.rows v f in
    let url : v.original_url ≡ o = ground (arith, mine, str_eq_iff v.original_url o) in
    rw e (
      subst (λ (z : Url). IsRow z (update_rows v.url_id (renewed_row now x) db.rows)) q there,
      ap (λ (z : Url). z.original_url) (sym q) ∙ url,
      ap (λ (z : Url). z.expires_at) (sym q),
    )
added-IsRow p now db o w x r u (conflict n h e) a =
    cc (subst (λ t. answer_created t.1 ≡ created u) e a)
added-IsRow p now db o w x r u (failed n h e) a =
    cc (subst (λ t. answer_created t.1 ≡ created u) e a)

-- A link that was created, or renewed, redirects to the URL that was asked for, once the replica has
-- it: where neither cache has the code, the replica answers and the expiry is not past.
pub shorten-follow :
    (p : Packages) (now later : ℕ) (s : State) (w o : String) (x : Option ℕ) (u : Url)
    → IsInjective p
    → IsTable p s.primary
    → (shorten_url p now s w o x).1 ≡ created u
    → s.replica.up ≡ true
    → l1_get later u.short_code s.l1_cache ≡ none
    → redis_get later u.short_code s ≡ none
    → is_past later x ≡ false
    → let s' = (step p (shorten_url p now s w o x).0 replicate).0 in
      (redirect_url later s' u.short_code).1 ≡ redirect o
unfolding shorten_url step expected
shorten-follow p now later s w o x u inj t a up miss_l1 miss_redis live =
    let r = add_shorten_url p now s.primary o w x in
    let t' = add_shorten_url-IsTable p now s.primary o w x t in
    elim (Bool-cases (not (p.is_url o))) [
      | inl e ↦ cc (rw (shorten_url, e) at a)
      | inr e ↦
          let (row, url, exp) =
            added-IsRow p now s.primary o w x r u (add_shorten_url-Added p now s.primary o w x)
              (rw (shorten_url, e) at a) in
          let db = record r.0 { up = s.replica.up } in
          let s' = record s { primary = r.0; replica = db } in
          let found = get_original_url-row p db u inj (IsTable-up p r.0 s.replica.up t') row up in
          rw (shorten_url, e)
            ((redirect_url-expected later s' u.short_code miss_l1 miss_redis).0
              ∙ (rw (found, url, exp, expected, live) refl))
    ]
