-- ===== src/Server/Urls/Users.antt =====
-- No request of one user changes what another sees: services/url-service/src/handlers.rs and
-- repository.rs.
use mathlib.Core.Path.{subst}
use bittuly.Prelude.{
  ◌∙◌, ℕ, ◌≡◌, ◌≢◌, refl, ap, Bool, true, false, not, ◌&&◌, Option, some, List, [], ◌∷◌, String,
  All, filter, inl, inr, ◌==◌, ==_iff, Bool-cases, str_eq, str_eq_iff, arith,
}
use bittuly.Server.Numbers.{ℤ}
use bittuly.Server.Urls.{Url, Packages, Db, Result}
use bittuly.Server.Urls.Repository.{
  find, is_owned, is_found, has_id, update_rows, add_shorten_url, delete_url,
}
use bittuly.Server.Urls.Table.{IsTable, IsDesc}
use bittuly.Server.Urls.Rows.{IsOf, row-IsOf, owned-IsRow}
use bittuly.Server.Urls.Paging.{matches}
use bittuly.Server.Urls.Handlers.{State, shorten_url, delete_url_handler, finish_delete}
use bittuly.Server.Urls.System.Added.{
  Added, inserted, renewed, conflict, failed, renewed_row, add_shorten_url-Added,
}

renewed-IsOf :
    (db : Db) (o w : String) (u : Url)
    → IsDesc db.next_id db.rows
    → find (is_owned o w) db.rows ≡ some u
    → All (IsOf u.url_id w) db.rows
renewed-IsOf db o w u d f =
    let (row, url, mine) = owned-IsRow o w db.rows u f in
    subst (λ x. All (IsOf u.url_id x) db.rows) mine (row-IsOf db.next_id u db.rows d row)

not_mine : (b : Bool) (x v w : String) → w ≢ v → x ≡ v → not (b && str_eq x w) ≡ true
not_mine b x v w ne e = ground (arith, ne, e, str_eq_iff x w)

module _ (p : Packages) (v : String) (pattern : Option String) where
  abbrev pub seen : Url → Bool
  seen u = str_eq u.user_id v && is_found p pattern u

  pub matches-filter :
      (f : Url → Bool) (us : List Url)
      → ((u : Url) → u.user_id ≡ v → f u ≡ true)
      → filter seen (filter f us) ≡ filter seen us
  matches-filter f [] h = refl
  matches-filter f (u ∷ us) h = ground (arith, h u, matches-filter f us h, str_eq_iff u.user_id v)

  matches-renewed :
      (i now : ℕ) (w : String) (x : Option ℕ) (us : List Url)
      → w ≢ v
      → All (IsOf i w) us
      → filter seen (update_rows i (renewed_row now x) us) ≡ filter seen us
  matches-renewed i now w x [] ne h = refl
  matches-renewed i now w x (u ∷ us) ne h = elim (Bool-cases (u.url_id == i)) [
    | inl b ↦
        let other : str_eq u.user_id v ≡ false =
          ground (arith, h.0 ((==_iff u.url_id i).0 b), ne, str_eq_iff u.user_id v) in
        rw (b, other) (matches-renewed i now w x us ne h.1)
    | inr b ↦ rw b (ground (arith, matches-renewed i now w x us ne h.1))
  ]

  added-matches :
      (now : ℕ) (db : Db) (o w : String) (x : Option ℕ) (r : Db × Result (Option Url))
      → w ≢ v
      → IsTable p db
      → Added p now db o w x r
      → filter seen r.0.rows ≡ filter seen db.rows
  added-matches now db o w x r ne t (inserted e) = rw e (ground (arith, ne, str_eq_iff w v))
  added-matches now db o w x r ne t (renewed u f e) =
      rw e (matches-renewed u.url_id now w x db.rows ne (renewed-IsOf db o w u t.ordered f))
  added-matches now db o w x r ne t (conflict n h e) = rw e refl
  added-matches now db o w x r ne t (failed n h e) = rw e refl

delete_url-matches :
    (p : Packages) (db : Db) (w v : String) (i : ℤ) (pattern : Option String)
    → w ≢ v
    → matches p (delete_url db i w).0.rows v pattern ≡ matches p db.rows v pattern
unfolding delete_url
delete_url-matches p db w v i pattern ne =
    let f = λ (u : Url). not (has_id i u && str_eq u.user_id w) in
    let kept = λ (u : Url) (e : u.user_id ≡ v). not_mine (has_id i u) u.user_id v w ne e in
    elim (Bool-cases (not db.up)) [
      | inl e ↦ rw (delete_url, e) refl
      | inr e ↦ rw (delete_url, e) (matches-filter p v pattern f db.rows kept)
    ]

finish_delete-primary :
    (s : State) (r : Result (Option String)) → (finish_delete s r).0.primary ≡ s.primary
finish_delete-primary s r = ground arith

-- Where the primary's table is in order, a creation and a deletion by one user leave the links of
-- every other user as they were, whatever the answer is.
pub requests-others :
    (p : Packages) (now : ℕ) (s : State) (w v o : String) (x : Option ℕ) (i : ℤ)
    (pattern : Option String)
    → w ≢ v
    → IsTable p s.primary
    → (matches p (shorten_url p now s w o x).0.primary.rows v pattern
        ≡ matches p s.primary.rows v pattern)
      × (matches p (delete_url_handler s w i).0.primary.rows v pattern
          ≡ matches p s.primary.rows v pattern)
unfolding shorten_url delete_url_handler
requests-others p now s w v o x i pattern ne t =
    let (db, r) = delete_url s.primary i w in
    let primary = finish_delete-primary (record s { primary = db }) r in
    let added =
      added-matches p v pattern now s.primary o w x (add_shorten_url p now s.primary o w x) ne t
        (add_shorten_url-Added p now s.primary o w x) in
    (
      elim (Bool-cases (not (p.is_url o))) [
        | inl e ↦ rw (shorten_url, e) refl
        | inr e ↦ rw (shorten_url, e) added
      ],
      ap (λ (d : Db). matches p d.rows v pattern) primary
          ∙ delete_url-matches p s.primary w v i pattern ne,
    )
