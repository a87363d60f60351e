-- ===== src/Server/Urls/System/Shorten.antt =====
-- A creation keeps the codes consistent.
use mathlib.Core.Path.{subst}
use bittuly.Prelude.{
  Bool, ℕ, ◌+◌, ◌≤◌, ◌<◌, ◌≡◌, refl, not, Option, some, List, [], ◌∷◌, String, All, All-map, inl,
  inr, ◌==◌, Bool-cases, arith,
}
use bittuly.Server.Urls.{Url, Packages, Db, Result}
use bittuly.Server.Urls.Repository.{find, is_owned, new_url, update_rows, add_shorten_url}
use bittuly.Server.Urls.Table.{IsTable, IsCoded, IsDesc, IsInjective, add_shorten_url-IsTable}
use bittuly.Server.Urls.Handlers.{State, answer_created, shorten_url}
use bittuly.Server.Urls.System.{issue}
use bittuly.Server.Urls.System.Known.{IsKnownRow, IsKnown-primary, IsKnown-grow}
use bittuly.Server.Urls.System.Added.{
  Added, inserted, renewed, conflict, failed, renewed_row, add_shorten_url-Added,
}
use bittuly.Server.Urls.System.Codes.{
  IsIssued, Consistent, IsIssued-more, IsIssued-self, one_url-new, IsIssued-again, IsDrawn-more,
}

find-All {κ} :
    (P : Url → Type κ) (test : Url → Bool) (us : List Url) (u : Url)
    → All P us
    → find test us ≡ some u
    → P u
find-All P test [] u h e = cc
find-All P test (v ∷ us) u h e = elim (Bool-cases (test v)) [
  | inl b ↦ let q : v ≡ u = ground (arith, e, b) in subst P q h.0
  | inr b ↦ find-All P test us u h.1 (ground (arith, e, b))
]

All-update_rows {κ} :
    (P : Url → Type κ) (i : ℕ) (f : Url → Url)
    → ((u : Url) → P u → P (f u))
    → (us : List Url) → All P us
    → All P (update_rows i f us)
All-update_rows P i f k [] h = tt
All-update_rows P i f k (u ∷ us) h = elim (Bool-cases (u.url_id == i)) [
  | inl b ↦ rw b (k u h.0, All-update_rows P i f k us h.1)
  | inr b ↦ rw b (h.0, All-update_rows P i f k us h.1)
]

IsDesc-All : (m n : ℕ) (us : List Url) → m ≤ n → IsDesc m us → All (λ (u : Url). u.url_id < n) us
IsDesc-All m n [] h d = tt
IsDesc-All m n (u ∷ us) h d = (omega arith, IsDesc-All u.url_id n us (omega arith) d.1)

module _ (p : Packages) (inj : IsInjective p) (now : ℕ) (log : List Url) (s : State) (o w : String)
    (x : Option ℕ) (c : Consistent p log s) where
  later-Consistent :
      (n : ℕ)
      → s.primary.next_id ≤ n
      → IsTable p (record s.primary { next_id = n })
      → Consistent p log (record s { primary = record s.primary { next_id = n } })
  later-Consistent n h t = record {
    primary = t;
    replica = c.replica;
    drawn = IsDrawn-more p s.primary.next_id n log h c.drawn;
    one_url = c.one_url;
    rows = c.rows;
    known = IsKnown-primary (IsIssued log) s _ c.known;
  }

  inserted-Consistent :
      let u = new_url p now s.primary.next_id o w x in
      let db = record s.primary { rows = u ∷ s.primary.rows; next_id = s.primary.next_id + 1 } in
      IsTable p db → Consistent p (u ∷ log) (record s { primary = db })
  inserted-Consistent t =
      let n = s.primary.next_id in
      let u = new_url p now n o w x in
      let more = IsIssued-more u log in
      record {
        primary = t;
        replica = c.replica;
        drawn = ((omega arith, refl), IsDrawn-more p n (n + 1) log (omega arith) c.drawn);
        one_url = one_url-new p n u log inj c.drawn refl c.one_url;
        rows = (
          IsIssued-self u log,
          All-map (λ (v : Url). more v.short_code v.original_url) s.primary.rows c.rows,
        );
        known = IsKnown-primary (IsIssued (u ∷ log)) s _ (IsKnown-grow more s c.known);
      }

  renewed-Consistent :
      (u : Url)
      → find (is_owned o w) s.primary.rows ≡ some u
      → let v = renewed_row now x u in
        let db = record s.primary {
          rows = update_rows u.url_id (renewed_row now x) s.primary.rows;
        } in
        IsTable p db → Consistent p (v ∷ log) (record s { primary = db })
  renewed-Consistent u f t =
      let n = s.primary.next_id in
      let v = renewed_row now x u in
      let rows = s.primary.rows in
      let more = IsIssued-more v log in
      let issued = find-All (IsKnownRow (IsIssued log)) (is_owned o w) rows u c.rows f in
      let low =
        find-All (λ (u : Url). u.url_id < n) (is_owned o w) rows u
          (IsDesc-All n n rows (omega arith) c.primary.ordered) f in
      let coded = find-All (IsCoded p) (is_owned o w) rows u c.primary.coded f in
      record {
        primary = t;
        replica = c.replica;
        drawn = ((low, coded), c.drawn);
        one_url = λ code a b h k.
            c.one_url code a b (IsIssued-again v log code a issued h)
              (IsIssued-again v log code b issued k);
        rows =
            All-update_rows (IsKnownRow (IsIssued (v ∷ log))) u.url_id (renewed_row now x)
              (λ a h. h) rows (All-map (λ (v : Url). more v.short_code v.original_url) rows c.rows);
        known = IsKnown-primary (IsIssued (v ∷ log)) s _ (IsKnown-grow more s c.known);
      }

  added-Consistent :
      (r : Db × Result (Option Url))
      → Added p now s.primary o w x r
      → IsTable p r.0
      → Consistent p (issue (some (answer_created r.1)) log) (record s { primary = r.0 })
  added-Consistent r (inserted e) t = rw e (inserted-Consistent (subst (λ q. IsTable p q.0) e t))
  added-Consistent r (renewed u f e) t =
      rw e (renewed-Consistent u f (subst (λ q. IsTable p q.0) e t))
  added-Consistent r (conflict n h e) t =
      rw e (later-Consistent n h (subst (λ q. IsTable p q.0) e t))
  added-Consistent r (failed n h e) t = rw e (later-Consistent n h (subst (λ q. IsTable p q.0) e t))

  pub shorten_url-Consistent :
      let (s', r) = shorten_url p now s w o x in Consistent p (issue (some r) log) s'
  unfolding shorten_url
  shorten_url-Consistent =
      let r = add_shorten_url p now s.primary o w x in
      let added =
        added-Consistent r (add_shorten_url-Added p now s.primary o w x)
          (add_shorten_url-IsTable p now s.primary o w x c.primary) in
      elim (Bool-cases (not (p.is_url o))) [
        | inl e ↦ rw (shorten_url, e) c
        | inr e ↦ rw (shorten_url, e) added
      ]
