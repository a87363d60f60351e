-- ===== src/Server/Jwt/Tests.antt =====
-- The theorems on the layer `jwt_auth` at concrete cookies.
use bittuly.Prelude.{◌≡◌, refl, some, [], String, template, ◌∷◌, ℕ, show, arith}
use bittuly.Server.Samples.{signing, signing-IsSigning}
use bittuly.Server.Samples.Tokens
use bittuly.Server.Text.{split_on, split_once, trim}
use bittuly.Server.Jwt.{
  claims_json, create_pending_token, OtpClaims, passed, refused, jwt_auth, parse_cookie,
  create_token, create_access_token, create_refresh_token, set_token_cookies,
}
use bittuly.Server.Jwt.Laws.{access_claims, jwt_auth-issued, jwt_auth-browser}

-- The header with the two tokens that were issued to "u1" at a time.
abbrev header : ℕ → String
header start = template (
    "access_token="
    ∷ create_access_token signing start "u1"
    ∷ "; refresh_token="
    ∷ create_refresh_token signing start "u1"
    ∷ [])

jwt_auth-issued_example :
    jwt_auth signing 1000 (some (header 7))
    ≡ passed (access_claims 2592007 "u1") (
        record {
          name = "access_token";
          value = create_access_token signing 1000 "u1";
          max_age = 900;
        }
        ∷ record {
          name = "refresh_token";
          value = create_refresh_token signing 1000 "u1";
          max_age = 2592000;
        }
        ∷ [])
unfolding parse_cookie template create_token claims_json Tokens.encode Tokens.mark show split_on
    split_once trim
jwt_auth-issued_example = jwt_auth-issued signing signing-IsSigning 1000 7 (header 7) "u1" refl refl

-- A pending token in the cookie of the access token, and claims of a signup with another type.
abbrev pending : String
pending = create_pending_token signing 7 "ada@a.example" "ada" "h" "o"

abbrev claims : OtpClaims
claims = record {
  token_type = "reset";
  email = "ada@a.example";
  username = "ada";
  password_hash = "h";
  otp_hash = "o";
  exp = 607;
}

-- The access token's cookie is gone after fifteen minutes; the other is sent.
abbrev refreshing : String
refreshing = template ("refresh_token=" ∷ create_refresh_token signing 7 "u1" ∷ [])

jwt_auth-browser_example : jwt_auth signing 1000 (some refreshing) ≡ refused 401
unfolding parse_cookie template set_token_cookies create_token claims_json Tokens.encode Tokens.mark
    show split_on split_once trim
jwt_auth-browser_example =
    jwt_auth-browser signing signing-IsSigning 7 1000 "u1" refreshing (refl, refl) (omega arith)
