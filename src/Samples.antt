-- ===== src/Samples.antt =====
-- Data for the tests: a platform, a build's variables, users, links, and the answers of a server.
use bittuly.Prelude.{
  ℕ, ◌+◌, ◌*◌, ◌/◌, none, some, List, [], ◌∷◌, if◌then◌else◌, ltb, length, show, str_eq,
}
use bittuly.Web.Host.{Host}
use bittuly.Api.Client.{Env, Failure, api_error}
use bittuly.Api.Auth.{User}
use bittuly.Api.Urls.{ShortenedUrl, UrlsPage}

-- Numbers are whole, texts of dates are the dates, and the year 2020 is past.
abbrev pub host : Host
host = record {
  Num = ℕ;
  of_ℕ = λ n. n;
  div = λ m n. m / n;
  mul = λ m n. m * n;
  add = λ m n. m + n;
  neg = λ n. 0;
  pi = 3;
  cos = λ n. 1;
  sin = λ n. 0;
  is_less = λ m n. ltb m n;
  is_positive = λ n. ltb 0 n;
  to_fixed = λ n k. show n;
  number_text = λ n. show n;
  url_protocol = λ s. if str_eq s "https://a.example" then some "https:" else none;
  to_iso = λ t. some t;
  is_past = λ t. str_eq t "2020";
  short_date_time = λ t. t;
  medium_date = λ t. t;
  indian_date = λ t. t;
  month_year = λ t. t;
  clock_time = λ n. show n;
  to_upper = λ us. us;
  units_text = λ us. show (length us);
}

abbrev pub env : Env
env = record { vite_auth_api_url = ""; vite_urls_api_url = "https://bittuly.example" }

abbrev pub ada : User
ada = record {
  id = "u1";
  username = "ada";
  email = "ada@a.example";
  created_at = "2024";
  updated_at = "2025";
}

abbrev pub bob : User
bob = record {
  id = "u2";
  username = "bob";
  email = "bob@a.example";
  created_at = "2024";
  updated_at = "2025";
}

-- A link with an id and a number of clicks.
abbrev pub link : ℕ → ℕ → ShortenedUrl
link id clicks = record {
  id = id;
  short_code = show id;
  original_url = "https://a.example";
  click_count = clicks;
  expires_at = some "2020";
  created_at = "2024";
}

-- Nine links, of which eight were clicked.
abbrev pub nine_links : List ShortenedUrl
nine_links =
    link 1 5
    ∷ link 2 0
    ∷ link 3 9
    ∷ link 4 1
    ∷ link 5 2
    ∷ link 6 8
    ∷ link 7 5
    ∷ link 8 3
    ∷ link 9 4
    ∷ []

abbrev pub first : UrlsPage
first = record { urls = link 3 9 ∷ link 2 0 ∷ []; next_cursor = some "c1" }

abbrev pub last : UrlsPage
last = record { urls = link 1 5 ∷ []; next_cursor = none }

abbrev pub refused : ℕ → Failure
refused n = api_error (record { status = n; payload = "{}" })
