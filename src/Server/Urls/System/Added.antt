-- ===== src/Server/Urls/System/Added.antt =====
-- What services/url-service/src/repository.rs, `add_shorten_url`, does to the table: one of three
-- things.
use bittuly.Prelude.{
  ℕ, ◌+◌, ◌≤◌, ◌≡◌, refl, not, ◌||◌, Option, none, some, ◌∷◌, String, any, inl, inr, ltb, ◌==◌,
  Bool-cases, str_eq, arith,
}
use bittuly.Server.Numbers.{max_i64}
use bittuly.Server.Urls.{Url, Packages, Db, Result, ok, err}
use bittuly.Server.Urls.Repository.{
  find, is_owned, new_url, update_rows, insert_url, renew_url, add_existing, add_found,
  add_shorten_url,
}

abbrev pub renewed_row : ℕ → Option ℕ → Url → Url
renewed_row now x u = record u { expires_at = x; updated_at = now }

pub data Added (p : Packages) (now : ℕ) (db : Db) (o w : String) (x : Option ℕ)
    (r : Db × Result (Option Url)) : Type 0 where
  inserted :
      (let u = new_url p now db.next_id o w x in
        r ≡ (record db { rows = u ∷ db.rows; next_id = db.next_id + 1 }, ok (some u)))
      → Added p now db o w x r
  renewed :
      (u : Url)
      → find (is_owned o w) db.rows ≡ some u
      → r ≡ (
        record db { rows = update_rows u.url_id (renewed_row now x) db.rows },
        ok (some (renewed_row now x u)),
      )
      → Added p now db o w x r
  conflict :
      (n : ℕ) → db.next_id ≤ n → r ≡ (record db { next_id = n }, ok none) → Added p now db o w x r
  failed : (n : ℕ) → db.next_id ≤ n → r ≡ (record db { next_id = n }, err) → Added p now db o w x r

module _ (p : Packages) (now : ℕ) (db : Db) (o w : String) (x : Option ℕ) where
  insert_url-Added : Added p now db o w x (insert_url p now db o w x)
  unfolding insert_url
  insert_url-Added = elim (Bool-cases (ltb max_i64 db.next_id)) [
    | inl e ↦ failed db.next_id (omega arith) (ground (arith, e))
    | inr e ↦
        elim (Bool-cases (any (λ (v : Url). v.url_id == db.next_id || is_owned o w v) db.rows)) [
          | inl f ↦ conflict (db.next_id + 1) (omega arith) (ground (arith, e, f))
          | inr f ↦
              elim (Bool-cases
                (any (λ (v : Url). str_eq v.short_code (p.encode db.next_id)) db.rows)) [
                  | inl g ↦ failed (db.next_id + 1) (omega arith) (ground (arith, e, f, g))
                  | inr g ↦ inserted (ground (arith, e, f, g))
                ]
        ]
  ]

  renew_url-Added :
      (u : Url) (exp : ℕ)
      → find (is_owned o w) db.rows ≡ some u
      → Added p now db o w x (renew_url now db u exp x)
  unfolding renew_url
  renew_url-Added u exp f = elim (Bool-cases (ltb exp now)) [
    | inl e ↦ renewed u f (ground (arith, e))
    | inr e ↦ conflict db.next_id (omega arith) (ground (arith, e))
  ]

  add_existing-Added :
      (u : Url) (exp : Option ℕ)
      → find (is_owned o w) db.rows ≡ some u
      → Added p now db o w x (add_existing p now db o w x u exp)
  add_existing-Added u none f = insert_url-Added
  add_existing-Added u (some exp) f = renew_url-Added u exp f

  add_found-Added :
      (found : Option Url)
      → find (is_owned o w) db.rows ≡ found
      → Added p now db o w x (add_found p now db o w x found)
  add_found-Added none f = insert_url-Added
  add_found-Added (some u) f = add_existing-Added u u.expires_at f

  pub add_shorten_url-Added : Added p now db o w x (add_shorten_url p now db o w x)
  unfolding add_shorten_url
  add_shorten_url-Added = elim (Bool-cases (not db.up)) [
    | inl e ↦ failed db.next_id (omega arith) (ground (arith, e))
    | inr e ↦ rw (add_shorten_url, e) (add_found-Added (find (is_owned o w) db.rows) refl)
  ]
