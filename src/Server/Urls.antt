-- ===== src/Server/Urls.antt =====
-- services/url-service: the rows of the table `urls`, the queries and the handlers. Times are
-- nanoseconds; `Packages` has what the service calls of other packages and of the database.
mod Tests
pub mod Repository
pub mod Handlers
pub mod Table
pub mod Routes
pub mod Cuts
pub mod System
pub mod Redirects
pub mod Deadlines
pub mod LateWrite
pub mod Rows
pub mod Created
pub mod Users
pub mod Chain
pub mod Served
pub mod Pages
pub mod Paging
use bittuly.Prelude.{ℕ, Bool, Option, List, String}

pub record Url : Type 0 where
  pub url_id : ℕ
  pub short_code : String
  pub original_url : String
  pub user_id : String
  pub click_count : ℕ
  pub expires_at : Option ℕ
  pub created_at : ℕ
  pub updated_at : ℕ

pub record Packages : Type 0 where
  -- `base62::encode`.
  pub encode : ℕ → String
  -- `text ILIKE pattern` of the database.
  pub ilike : String → String → Bool
  -- The check of `#[validate(url)]`.
  pub is_url : String → Bool
  -- A date and time as it is serialised.
  pub rfc3339 : ℕ → String

-- The database: the rows of `urls`, the next value of the sequence of `url_id`, and whether it
-- answers. Where it does not, a transaction is rolled back and a statement has no effect.
pub record Db : Type 0 where
  pub rows : List Url
  pub next_id : ℕ
  pub up : Bool

-- `Result<A, sqlx::Error>`; the handlers do not tell one error from another.
pub data Result (A : Type 0) : Type 0 where
  ok : A → Result A
  err : Result A

-- One page of links; the cursor is the hex-encoded `url_id` of its last.
pub record Page : Type 0 where
  pub urls : List Url
  pub next_cursor : Option String
