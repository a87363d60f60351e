-- ===== src/Server/Samples.antt =====
-- Data for the tests of the services: packages that say everything in clear, and a table.
pub mod Tokens
pub use Tokens.{signing, signing-IsSigning}
use bittuly.Prelude.{
  ℕ, ◌≡◌, ◌∙◌, refl, sym, ap, true, Option, none, some, List, [], ◌∷◌, String, show, read,
  read-show, str_eq, arith,
}
use bittuly.Server.Urls.{Url, Packages, Db}
use bittuly.Server.Urls.Table.{IsTable, IsInjective}

abbrev pub packages : Packages
packages = record {
  encode = show;
  ilike = λ text pattern. str_eq pattern "%%";
  is_url = λ text. true;
  rfc3339 = show;
}

pub packages-IsInjective : IsInjective packages
packages-IsInjective m n e = sym (read-show m) ∙ ap (read 0) e ∙ read-show n

-- A link of the user "u1" that never expires.
abbrev pub row : ℕ → String → Url
row id url = record {
  url_id = id;
  short_code = show id;
  original_url = url;
  user_id = "u1";
  click_count = 0;
  expires_at = none;
  created_at = 5;
  updated_at = 5;
}

abbrev pub rows : List Url
rows = row 3 "https://c.example" ∷ row 2 "https://b.example" ∷ row 1 "https://a.example" ∷ []

abbrev pub table : Db
table = record { rows = rows; next_id = 4; up = true }

pub table-IsTable : IsTable packages table
table-IsTable = record {
  bounded = omega arith;
  ordered = omega arith;
  coded = (refl, (refl, (refl, tt)));
  unique = (refl, (refl, (refl, tt)));
}
