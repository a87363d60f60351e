-- ===== src/Server/Urls/Table.antt =====
-- What holds of the table `urls` at all times: docker/postgres-urls/init/01-init.sql and the queries
-- of services/url-service/src/repository.rs.
use bittuly.Prelude.{
  All-filter, ℕ, ◌+◌, ◌≤◌, ◌<◌, ◌≡◌, refl, Bool, false, not, ◌&&◌, ◌||◌, Option, none, some, List,
  [], ◌∷◌, String, All, filter, any, if◌then◌else◌, ◌==◌, Bool-cases, inl, inr, str_eq, arith,
}
use bittuly.Server.Numbers.{ℤ, max_i64}
use bittuly.Server.Urls.{Url, Packages, Db}
use bittuly.Server.Urls.Repository.{
  find, is_owned, update_rows, insert_url, renew_url, add_existing, add_found, add_shorten_url,
  has_id, delete_url,
}

-- Ids fall from row to row, from below a bound.
abbrev pub IsDesc : ℕ → List Url → Type 0
IsDesc n [] = Unit
IsDesc n (u ∷ us) = (u.url_id < n) × IsDesc u.url_id us

-- UNIQUE(original_url, user_id).
abbrev pub IsUnique : List Url → Type 0
IsUnique [] = Unit
IsUnique (u ∷ us) = (any (is_owned u.original_url u.user_id) us ≡ false) × IsUnique us

abbrev pub IsCoded : Packages → Url → Type 0
IsCoded p u = u.short_code ≡ p.encode u.url_id

-- Two ids have two codes, as base62 promises.
abbrev pub IsInjective : Packages → Type 0
IsInjective p = (m n : ℕ) → p.encode m ≡ p.encode n → m ≡ n

pub record IsTable (p : Packages) (db : Db) : Type 0 where
  pub bounded : db.next_id ≤ max_i64 + 1
  pub ordered : IsDesc db.next_id db.rows
  pub coded : All (IsCoded p) db.rows
  pub unique : IsUnique db.rows

-- Whether the database answers plays no part.
pub IsTable-up :
    (p : Packages) (db : Db) (b : Bool) → IsTable p db → IsTable p (record db { up = b })
IsTable-up p db b t = record {
  bounded = t.bounded;
  ordered = t.ordered;
  coded = t.coded;
  unique = t.unique;
}

pub IsDesc-weaken : (m n : ℕ) (us : List Url) → m ≤ n → IsDesc m us → IsDesc n us
IsDesc-weaken m n [] h d = tt
IsDesc-weaken m n (u ∷ us) h d = (omega arith, d.1)

pub IsDesc-filter : (f : Url → Bool) (n : ℕ) (us : List Url) → IsDesc n us → IsDesc n (filter f us)
IsDesc-filter f n [] d = tt
IsDesc-filter f n (u ∷ us) d = elim (Bool-cases (f u)) [
  | inl e ↦ rw e (d.0, IsDesc-filter f u.url_id us d.1)
  | inr e ↦ rw e (IsDesc-weaken u.url_id n _ (omega arith) (IsDesc-filter f u.url_id us d.1))
]

any-filter : (q f : Url → Bool) (us : List Url) → any q us ≡ false → any q (filter f us) ≡ false
any-filter q f [] h = refl
any-filter q f (u ∷ us) h = elim (Bool-cases (f u)) [
  | inl e ↦ rw e (ground (arith, any-filter q f us))
  | inr e ↦ rw e (any-filter q f us (ground arith))
]

IsUnique-filter : (f : Url → Bool) (us : List Url) → IsUnique us → IsUnique (filter f us)
IsUnique-filter f [] h = tt
IsUnique-filter f (u ∷ us) h = elim (Bool-cases (f u)) [
  | inl e ↦ rw e (any-filter (is_owned u.original_url u.user_id) f us h.0, IsUnique-filter f us h.1)
  | inr e ↦ rw e (IsUnique-filter f us h.1)
]

-- An UPDATE of other columns than the four that the invariant reads.
record Keeps (f : Url → Url) : Type 0 where
  id : (u : Url) → (f u).url_id ≡ u.url_id
  code : (u : Url) → (f u).short_code ≡ u.short_code
  url : (u : Url) → (f u).original_url ≡ u.original_url
  owner : (u : Url) → (f u).user_id ≡ u.user_id

module _ (i : ℕ) (f : Url → Url) (k : Keeps f) where
  row-keeps :
      (u : Url)
      → let v : Url = if u.url_id == i then f u else u in
        (v.url_id ≡ u.url_id)
        × (v.short_code ≡ u.short_code)
        × (v.original_url ≡ u.original_url)
        × (v.user_id ≡ u.user_id)
  row-keeps u = elim (Bool-cases (u.url_id == i)) [
    | inl e ↦ rw e (k.id u, k.code u, k.url u, k.owner u)
    | inr e ↦ rw e (refl, refl, refl, refl)
  ]

  IsDesc-update_rows : (n : ℕ) (us : List Url) → IsDesc n us → IsDesc n (update_rows i f us)
  IsDesc-update_rows n [] d = tt
  IsDesc-update_rows n (u ∷ us) d = rw ((row-keeps u).0) (d.0, IsDesc-update_rows u.url_id us d.1)

  IsCoded-update_rows :
      (p : Packages) (us : List Url) → All (IsCoded p) us → All (IsCoded p) (update_rows i f us)
  IsCoded-update_rows p [] h = tt
  IsCoded-update_rows p (u ∷ us) h =
      rw ((row-keeps u).0, (row-keeps u).1) (h.0, IsCoded-update_rows p us h.1)

  any-update_rows :
      (a b : String) (us : List Url)
      → any (is_owned a b) (update_rows i f us) ≡ any (is_owned a b) us
  any-update_rows a b [] = refl
  any-update_rows a b (u ∷ us) = rw ((row-keeps u).2, (row-keeps u).3, any-update_rows a b us)

  IsUnique-update_rows : (us : List Url) → IsUnique us → IsUnique (update_rows i f us)
  IsUnique-update_rows [] h = tt
  IsUnique-update_rows (u ∷ us) h =
      rw ((row-keeps u).2, (row-keeps u).3, any-update_rows u.original_url u.user_id us)
        (h.0, IsUnique-update_rows us h.1)

-- Where no row satisfies one of two tests, none satisfies the second.
any-or : (p q : Url → Bool) (us : List Url) → any (λ u. p u || q u) us ≡ false → any q us ≡ false
any-or p q [] h = refl
any-or p q (u ∷ us) h = ground (arith, any-or p q us)

insert_url-IsTable :
    (p : Packages) (now : ℕ) (db : Db) (original_url user_id : String) (expires_at : Option ℕ)
    → IsTable p db
    → IsTable p (insert_url p now db original_url user_id expires_at).0
unfolding insert_url
insert_url-IsTable p now db o w x t = ground (
  arith,
  t,
  IsDesc-weaken db.next_id (db.next_id + 1) db.rows,
  any-or (λ (v : Url). v.url_id == db.next_id) (is_owned o w) db.rows,
)

renew_url-IsTable :
    (p : Packages) (now : ℕ) (db : Db) (u : Url) (exp : ℕ) (expires_at : Option ℕ)
    → IsTable p db
    → IsTable p (renew_url now db u exp expires_at).0
unfolding renew_url
renew_url-IsTable p now db u exp x t =
    let f = λ (v : Url). record v { expires_at = x; updated_at = now } in
    let k : Keeps f = record {
      id = λ v. refl;
      code = λ v. refl;
      url = λ v. refl;
      owner = λ v. refl;
    } in
    ground (
      arith,
      t,
      IsDesc-update_rows u.url_id f k db.next_id db.rows,
      IsCoded-update_rows u.url_id f k p db.rows,
      IsUnique-update_rows u.url_id f k db.rows,
    )

module _ (p : Packages) (now : ℕ) (db : Db) (o w : String) (x : Option ℕ) (t : IsTable p db) where
  add_existing-IsTable :
      (u : Url) (exp : Option ℕ) → IsTable p (add_existing p now db o w x u exp).0
  add_existing-IsTable u none = insert_url-IsTable p now db o w x t
  add_existing-IsTable u (some exp) = renew_url-IsTable p now db u exp x t

  add_found-IsTable : (found : Option Url) → IsTable p (add_found p now db o w x found).0
  add_found-IsTable none = insert_url-IsTable p now db o w x t
  add_found-IsTable (some u) = add_existing-IsTable u u.expires_at

  -- Every operation keeps the table in order.
  pub add_shorten_url-IsTable : IsTable p (add_shorten_url p now db o w x).0
  unfolding add_shorten_url
  add_shorten_url-IsTable = ground (arith, t, add_found-IsTable (find (is_owned o w) db.rows))

pub delete_url-IsTable :
    (p : Packages) (db : Db) (url_id : ℤ) (user_id : String)
    → IsTable p db
    → IsTable p (delete_url db url_id user_id).0
unfolding delete_url
delete_url-IsTable p db i w t =
    let f = λ (u : Url). not (has_id i u && str_eq u.user_id w) in
    ground (
      arith,
      t,
      IsDesc-filter f db.next_id db.rows,
      All-filter (IsCoded p) f db.rows,
      IsUnique-filter f db.rows,
    )
