-- ===== src/Server/Urls/Repository.antt =====
-- services/url-service/src/repository.rs, `PgUrlRepo`: the queries on the table.
use mathlib.Core.Option
use bittuly.Prelude.{
  ℕ, ◌+◌, Bool, true, false, not, ◌&&◌, ◌||◌, Option, none, some, List, [], ◌∷◌, map, String,
  if◌then◌else◌, ltb, ◌==◌, str_eq, length, take, filter, any, template,
}
use bittuly.Server.Numbers.{ℤ, pos, negsuc, max_i64, to_hex}
use bittuly.Server.Urls.{Url, Packages, Db, Result, ok, err, Page}

abbrev pub find : (Url → Bool) → List Url → Option Url
find p [] = none
find p (u ∷ us) = if p u then some u else find p us

abbrev pub is_owned : String → String → Url → Bool
is_owned original_url user_id u = str_eq u.original_url original_url && str_eq u.user_id user_id

abbrev pub update_rows : ℕ → (Url → Url) → List Url → List Url
update_rows id f us = map (λ (u : Url). if u.url_id == id then f u else u) us

-- The row after both statements, with the defaults of the table.
abbrev pub new_url : Packages → ℕ → ℕ → String → String → Option ℕ → Url
new_url p now id original_url user_id expires_at = record {
  url_id = id;
  short_code = p.encode id;
  original_url = original_url;
  user_id = user_id;
  click_count = 0;
  expires_at = expires_at;
  created_at = now;
  updated_at = now;
}

-- The INSERT and the UPDATE of one transaction. A sequence gives no value twice, also where the
-- transaction is rolled back; past the last one, and where the code is taken, the statement fails.
unfoldable pub insert_url :
    Packages → ℕ → Db → String → String → Option ℕ → Db × Result (Option Url)
insert_url p now db original_url user_id expires_at =
    let id = db.next_id in
    let db' = record db { next_id = id + 1 } in
    let u = new_url p now id original_url user_id expires_at in
    if ltb max_i64 id
    then (db, err)
    else if any (λ (v : Url). v.url_id == id || is_owned original_url user_id v) db.rows
    then (db', ok none)
    else if any (λ (v : Url). str_eq v.short_code (p.encode id)) db.rows
    then (db', err)
    else (record db' { rows = u ∷ db.rows }, ok (some u))

-- A link that is there: given a new expiry where the old one is past, and else kept.
unfoldable pub renew_url : ℕ → Db → Url → ℕ → Option ℕ → Db × Result (Option Url)
renew_url now db existing exp expires_at =
    let renew = λ (u : Url). record u { expires_at = expires_at; updated_at = now } in
    if ltb exp now
    then (
      record db { rows = update_rows existing.url_id renew db.rows },
      ok (some (renew existing)),
    )
    else (db, ok none)

-- `if let Some(existing) && let Some(exp)`: a link without an expiry is tried to be inserted again.
abbrev pub add_existing :
    Packages → ℕ → Db → String → String → Option ℕ → Url → Option ℕ → Db × Result (Option Url)
add_existing p now db original_url user_id expires_at existing none =
    insert_url p now db original_url user_id expires_at
add_existing p now db original_url user_id expires_at existing (some exp) =
    renew_url now db existing exp expires_at

abbrev pub add_found :
    Packages → ℕ → Db → String → String → Option ℕ → Option Url → Db × Result (Option Url)
add_found p now db original_url user_id expires_at none =
    insert_url p now db original_url user_id expires_at
add_found p now db original_url user_id expires_at (some existing) =
    add_existing p now db original_url user_id expires_at existing existing.expires_at

unfoldable pub add_shorten_url :
    Packages → ℕ → Db → String → String → Option ℕ → Db × Result (Option Url)
unfolding insert_url renew_url
add_shorten_url p now db original_url user_id expires_at =
    if not db.up
    then (db, err)
    else add_found p now db original_url user_id expires_at
        (find (is_owned original_url user_id) db.rows)

unfoldable pub get_original_url : Db → String → Result (Option (String × Option ℕ))
get_original_url db short_code =
    if not db.up
    then err
    else ok (
        Option.map (λ (u : Url). (u.original_url, u.expires_at))
          (find (λ (u : Url). str_eq u.short_code short_code) db.rows))

-- `limit.clamp(1, 100)`.
abbrev pub clamp : ℤ → ℕ
clamp (pos n) = if ltb n 1 then 1 else if ltb 100 n then 100 else n
clamp (negsuc n) = 1

-- `$2::bigint IS NULL OR url_id < $2`.
abbrev pub is_before : Option ℤ → Url → Bool
is_before none u = true
is_before (some (pos n)) u = ltb u.url_id n
is_before (some (negsuc n)) u = false

-- `$4::text IS NULL OR original_url ILIKE $4 OR short_code ILIKE $4`.
abbrev pub is_found : Packages → Option String → Url → Bool
is_found p none u = true
is_found p (some pattern) u = p.ilike u.original_url pattern || p.ilike u.short_code pattern

-- `ORDER BY url_id DESC`.
abbrev pub place : Url → List Url → List Url
place u [] = u ∷ []
place u (v ∷ vs) = if ltb u.url_id v.url_id then v ∷ place u vs else u ∷ v ∷ vs

unfoldable pub order_desc : List Url → List Url
order_desc [] = []
order_desc (u ∷ us) = place u (order_desc us)

-- `Vec::pop` and `last`.
abbrev pub pop : List Url → List Url
pop [] = []
pop (u ∷ []) = []
pop (u ∷ v ∷ us) = u ∷ pop (v ∷ us)

abbrev pub last : List Url → Option Url
last [] = none
last (u ∷ []) = some u
last (u ∷ v ∷ us) = last (v ∷ us)

-- The rows that the query selects, in its order, before LIMIT.
unfoldable pub select_urls : Packages → List Url → String → Option ℤ → Option String → List Url
unfolding order_desc
select_urls p rows user_id cursor pattern = order_desc (
    filter (λ (u : Url). str_eq u.user_id user_id && is_before cursor u && is_found p pattern u)
      rows)

-- `LIMIT limit + 1`, and the one row too many taken off again.
unfoldable pub cut_page : ℕ → List Url → Page
cut_page limit found =
    let rows = take (limit + 1) found in
    let has_next = ltb limit (length rows) in
    let urls = if has_next then pop rows else rows in
    record {
      urls = urls;
      next_cursor =
          if has_next then Option.map (λ (u : Url). to_hex u.url_id) (last urls) else none;
    }

unfoldable pub get_urls_page : Packages → Db → String → Option ℤ → ℤ → Option String → Result Page
unfolding select_urls cut_page
get_urls_page p db user_id cursor limit search =
    if not db.up
    then err
    else let pattern = Option.map (λ s. template ("%" ∷ s ∷ "%" ∷ [])) search in
      ok (cut_page (clamp limit) (select_urls p db.rows user_id cursor pattern))

-- `url_id = $1`.
abbrev pub has_id : ℤ → Url → Bool
has_id (pos n) u = u.url_id == n
has_id (negsuc n) u = false

-- DELETE RETURNING: the code of the row that went.
unfoldable pub delete_url : Db → ℤ → String → Db × Result (Option String)
delete_url db url_id user_id =
    let mine = λ (u : Url). has_id url_id u && str_eq u.user_id user_id in
    if not db.up then (db, err) else (
      record db { rows = filter (λ u. not (mine u)) db.rows },
      ok (Option.map (λ (u : Url). u.short_code) (find mine db.rows)),
    )
