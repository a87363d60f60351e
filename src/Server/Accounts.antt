-- ===== src/Server/Accounts.antt =====
-- services/auth-service/src: the table `users`, the services and the handlers. Reads go to the
-- replica and writes to the primary (`SplitUserRepo`). What a call draws at random, an id, a salt
-- and a one-time password, is an argument; times are seconds.
pub mod Handlers
mod Tests
pub mod Laws
pub mod Routes
pub mod Kept
pub mod Others
use mathlib.Core.Option
use Prim.Native.String
use bittuly.Prelude.{
  ℕ, suc, ◌+◌, Bool, true, false, not, ◌&&◌, ◌||◌, Option, none, some, List, [], ◌∷◌, map, String,
  if◌then◌else◌, leb, any, filter, str_eq,
}

pub record User : Type 0 where
  pub id : String
  pub username : String
  pub email : String
  pub password : String
  pub created_at : ℕ
  pub updated_at : ℕ

-- The table `users`, and whether the database answers.
pub record Db : Type 0 where
  pub users : List User
  pub up : Bool

pub record Packages : Type 0 where
  -- `PasswordHasher`, with the salt.
  pub hash : ℕ → String → String
  pub verify : String → String → Bool
  -- The check of `#[validate(email)]`.
  pub is_email : String → Bool
  -- `Uuid::parse_str`, to the canonical text.
  pub parse_uuid : String → Option String

pub record CreateUserPayload : Type 0 where
  pub username : String
  pub email : String
  pub password : String

pub record UpdateUserPayload : Type 0 where
  pub username : Option String
  pub email : Option String
  pub password : Option String

-- `sqlx::Error`, of which the handlers do not tell one from another.
pub data Result (A : Type 0) : Type 0 where
  ok : A → Result A
  err : Result A

abbrev pub find : (User → Bool) → List User → Option User
find p [] = none
find p (u ∷ us) = if p u then some u else find p us

abbrev pub has_email : String → User → Bool
has_email email u = str_eq u.email email

abbrev pub has_id : String → User → Bool
has_id id u = str_eq u.id id

-- INSERT, which the key and the unique email may refuse.
unfoldable pub create_user : ℕ → String → Db → CreateUserPayload → Db × Result User
create_user now id db payload =
    let u : User = record {
      id = id;
      username = payload.username;
      email = payload.email;
      password = payload.password;
      created_at = now;
      updated_at = now;
    } in
    if not db.up || any (λ v. has_id id v || has_email payload.email v) db.users
    then (db, err)
    else (record db { users = u ∷ db.users }, ok u)

unfoldable pub get_user_by_id : Db → String → Result (Option User)
get_user_by_id db id = if not db.up then err else ok (find (has_id id) db.users)

unfoldable pub get_user_by_email : Db → String → Result (Option User)
get_user_by_email db email = if not db.up then err else ok (find (has_email email) db.users)

abbrev pub coalesce : Option String → String → String
coalesce none s = s
coalesce (some t) s = t

abbrev pub updated : ℕ → UpdateUserPayload → User → User
updated now payload u = record u {
  username = coalesce payload.username u.username;
  email = coalesce payload.email u.email;
  password = coalesce payload.password u.password;
  updated_at = now;
}

-- Another user has the email already.
abbrev pub is_taken : String → Option String → List User → Bool
is_taken id none us = false
is_taken id (some email) us = any (λ u. has_email email u && not (has_id id u)) us

abbrev pub update_found : ℕ → Db → UpdateUserPayload → Option User → Db × Result User
update_found now db payload none = (db, err)
update_found now db payload (some u) = (
  record db { users = map (λ v. if has_id u.id v then updated now payload v else v) db.users },
  ok (updated now payload u),
)

-- UPDATE RETURNING with `fetch_one`: an error where there is no row.
unfoldable pub update_user : ℕ → Db → String → UpdateUserPayload → Db × Result User
update_user now db id payload =
    if not db.up || is_taken id payload.email db.users
    then (db, err)
    else update_found now db payload (find (has_id id) db.users)

unfoldable pub delete_user : Db → String → Db × Result (Unit {0})
delete_user db id =
    if not db.up
    then (db, err)
    else (record db { users = filter (λ u. not (has_id id u)) db.users }, ok tt)
