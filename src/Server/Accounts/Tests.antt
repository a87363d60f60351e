-- ===== src/Server/Accounts/Tests.antt =====
-- The theorems on accounts at concrete requests.
use bittuly.Prelude.{
  ◌≡◌, refl, true, false, none, some, [], ◌∷◌, String, show, template, sym, str_eq, str_eq_iff,
  arith,
}
use bittuly.Server.Samples.{signing, signing-IsSigning}
use bittuly.Server.Jwt.{claims_json, create_refresh_token, set_token_cookies, create_pending_token}
use bittuly.Server.Jwt.Laws.{access_claims}
use bittuly.Server.Accounts.{Packages, CreateUserPayload, get_user_by_email}
use bittuly.Server.Accounts.Handlers.{
  State, login, request_signup_handler, verify_otp_handler, auth_success, is_valid_signup,
}
use bittuly.Server.Samples.Tokens
use bittuly.Server.Text.{split_on, split_once, trim}
use bittuly.Server.Accounts.{User, find, has_id}
use bittuly.Server.Accounts.Routes.{Request, Draws, serve}
use bittuly.Server.Accounts.Others.{IsOther, serve-others}
use mathlib.Core.Path.{subst}
use bittuly.Server.Jwt.Laws.{jwt_auth-browser}
use bittuly.Server.Jwt.{passed, jwt_auth, parse_cookie, create_token, create_access_token}
use bittuly.Server.Accounts.Laws.{IsHasher, signed_up, signup-login}

-- Passwords in clear.
abbrev packages : Packages
packages = record {
  hash = λ salt plain. plain;
  verify = str_eq;
  is_email = λ email. true;
  parse_uuid = λ id. some id;
}

packages-IsHasher : IsHasher packages
packages-IsHasher = record { verifies = λ salt plain. (str_eq_iff plain plain).1 refl }

abbrev state : State
state = record {
  primary = record { users = []; up = true };
  replica = record { users = []; up = true };
  published = [];
  mails = [];
  mail_up = true;
  broker_up = true;
}

abbrev ada : CreateUserPayload
ada = record { username = "ada"; email = "ada@a.example"; password = "secret" }

abbrev token : String
token = create_pending_token signing 7 "ada@a.example" "ada" "secret" (show 123456)

signup-login_example :
    let u = signed_up packages 9 1 "u1" ada in
    let s' = (request_signup_handler signing packages 7 1 2 123456 state ada).0 in
    let (s'', r) = verify_otp_handler signing packages 9 "u1" s' token (show 123456) in
    (s'.mails ≡ ("ada@a.example", show 123456) ∷ [])
    × (s''.primary.users ≡ u ∷ [])
    × (r ≡ auth_success signing 9 201 u)
    × (login signing packages 11
          (record s'' { replica = record s''.primary { up = true } })
          "ada@a.example"
          "secret"
        ≡ auth_success signing 11 200 u)
unfolding request_signup_handler is_valid_signup get_user_by_email
signup-login_example =
    signup-login signing packages 7 9 11 1 2 123456 "u1" token state ada signing-IsSigning
      packages-IsHasher (omega arith) (omega arith) refl (omega arith) refl refl

-- Two accounts, and a request to delete the second with the cookies of the first.
abbrev account : String → User
account id = record {
  id = id;
  username = "ada";
  email = id;
  password = "secret";
  created_at = 1;
  updated_at = 1;
}

abbrev two_accounts : State
two_accounts = record state {
  primary = record { users = account "u1" ∷ account "u2" ∷ []; up = true };
}

abbrev deletion : Request
deletion = record {
  method = "DELETE";
  path = "/api/auth/u1";
  cookie = some (
      template (
        "access_token="
        ∷ create_access_token signing 7 "u1"
        ∷ "; refresh_token="
        ∷ create_refresh_token signing 7 "u1"
        ∷ []));
  body = record {
    username = none;
    email = none;
    password = none;
    pending_token = none;
    otp = none;
  };
}

abbrev draws : Draws
draws = record { id = "u3"; salt = 1; otp_salt = 2; otp = 123456 }

-- The request passes as the first user.
signed_in : jwt_auth signing 9 deletion.cookie ≡ passed (access_claims 907 "u1") []
unfolding parse_cookie template split_on split_once trim create_token claims_json Tokens.encode
    Tokens.mark show set_token_cookies
signed_in =
    jwt_auth-browser signing signing-IsSigning 7 9 "u1"
      (template (
        "access_token="
        ∷ create_access_token signing 7 "u1"
        ∷ "; refresh_token="
        ∷ create_refresh_token signing 7 "u1"
        ∷ []))
      (refl, refl) (omega arith)

serve-others_example :
    find (has_id "u2") (serve signing packages 9 draws two_accounts deletion).0.primary.users
    ≡ find (has_id "u2") two_accounts.primary.users
serve-others_example =
    serve-others "u2" signing packages 9 draws two_accounts deletion
      (λ e. let p : false ≡ true = (str_eq_iff "u2" "u3").1 e in cc)
      (subst (IsOther "u2") (sym signed_in)
        (λ e. let p : false ≡ true = (str_eq_iff "u2" "u1").1 e in cc))
