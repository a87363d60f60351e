-- ===== src/Server/Jwt.antt =====
-- libs/shared/src/jwt.rs: the tokens, the cookies that carry them, and the layer that lets a request
-- through. The signing of tokens is a parameter; times are seconds.
mod Tests
pub mod Laws
pub mod Contents
unfoldable pub use Contents.{claims_json, claims_from_json, otp_json, otp_from_json}
pub use Contents.{Claims, OtpClaims, Payload}
use mathlib.Core.Option
use bittuly.Prelude.{
  ℕ, ◌+◌, ◌*◌, Bool, true, false, not, Option, none, some, List, [], ◌∷◌, String, if◌then◌else◌,
  str_eq, show, template,
}
use bittuly.Server.Text.{split_on, split_once, trim}

-- What `decode` comes to.
pub data Decoded (A : Type 0) : Type 0 where
  valid : A → Decoded A
  expired : Decoded A
  invalid : Decoded A

-- `jsonwebtoken` with the service's secret, HS256 and the default validation: the token of a JSON
-- object, and the reading of a token at a time, as the type that the second argument deserialises.
pub record Signing : Type 1 where
  pub encode : Payload → String
  pub decode : {A : Type 0} → (Payload → Option A) → ℕ → String → Decoded A

abbrev pub encode_claims : Signing → Claims → String
encode_claims j c = j.encode (claims_json c)

abbrev pub encode_otp : Signing → OtpClaims → String
encode_otp j o = j.encode (otp_json o)

abbrev pub access_token_type : String
access_token_type = "access"

abbrev pub refresh_token_type : String
refresh_token_type = "refresh"

abbrev pub pending_token_type : String
pending_token_type = "pending"

abbrev pub access_token_ttl_seconds : ℕ
access_token_ttl_seconds = 60 * 15

abbrev pub refresh_token_ttl_seconds : ℕ
refresh_token_ttl_seconds = 60 * 60 * 24 * 30

abbrev pub pending_token_ttl_seconds : ℕ
pending_token_ttl_seconds = 60 * 10

unfoldable pub create_token : Signing → ℕ → String → String → ℕ → String
create_token j now user_id token_type ttl_seconds =
    encode_claims j (record { sub = user_id; exp = now + ttl_seconds; token_type = token_type })

abbrev pub create_access_token : Signing → ℕ → String → String
create_access_token j now user_id =
    create_token j now user_id access_token_type access_token_ttl_seconds

abbrev pub create_refresh_token : Signing → ℕ → String → String
create_refresh_token j now user_id =
    create_token j now user_id refresh_token_type refresh_token_ttl_seconds

unfoldable pub create_pending_token : Signing → ℕ → String → String → String → String → String
create_pending_token j now email username password_hash otp_hash = encode_otp j (record {
  token_type = pending_token_type;
  email = email;
  username = username;
  password_hash = password_hash;
  otp_hash = otp_hash;
  exp = now + pending_token_ttl_seconds;
})

abbrev only_pending : Decoded OtpClaims → Option OtpClaims
only_pending (valid c) = if not (str_eq c.token_type pending_token_type) then none else some c
only_pending expired = none
only_pending invalid = none

unfoldable pub decode_pending_token : Signing → ℕ → String → Option OtpClaims
decode_pending_token j now token = only_pending (j.decode otp_from_json now token)

-- One `k=v` of the header, if it is the cookie of that name.
abbrev cookie_value : String → Option (String × String) → Option String
cookie_value name none = none
cookie_value name (some (k, v)) = if str_eq (trim k) name then some (trim v) else none

abbrev or_else : Option String → Option String → Option String
or_else none o = o
or_else (some v) o = some v

find_cookie : String → List String → Option String
find_cookie name [] = none
find_cookie name (pair ∷ pairs) =
    or_else (cookie_value name (split_once b'=' (trim pair))) (find_cookie name pairs)

unfoldable pub parse_cookie : String → String → Option String
unfolding find_cookie
parse_cookie cookie_header name = find_cookie name (split_on b';' cookie_header)

-- A `Set-Cookie` header, by what the browser keeps of it.
pub record Cookie : Type 0 where
  pub name : String
  pub value : String
  pub max_age : ℕ

unfoldable pub set_token_cookies : String → String → List Cookie
set_token_cookies access_token refresh_token =
    record { name = "access_token"; value = access_token; max_age = access_token_ttl_seconds }
    ∷ record { name = "refresh_token"; value = refresh_token; max_age = refresh_token_ttl_seconds }
    ∷ []

unfoldable pub clear_token_cookies : List Cookie
clear_token_cookies =
    record { name = "access_token"; value = ""; max_age = 0 }
    ∷ record { name = "refresh_token"; value = ""; max_age = 0 }
    ∷ []

-- What `jwt_auth` does with a request: refuses it with a status, or hands it on with claims, and
-- sets cookies on the answer.
pub data Verdict : Type 0 where
  refused : ℕ → Verdict
  passed : Claims → List Cookie → Verdict

-- The claims in a refresh token, with two new tokens.
abbrev renew : Signing → ℕ → Decoded Claims → Verdict
renew j now (valid c) =
    if not (str_eq c.token_type refresh_token_type)
    then refused 401
    else passed (record { sub = c.sub; exp = c.exp; token_type = access_token_type })
        (set_token_cookies (create_access_token j now c.sub) (create_refresh_token j now c.sub))
renew j now expired = refused 401
renew j now invalid = refused 401

abbrev renew_from : Signing → ℕ → Option String → Verdict
renew_from j now none = refused 401
renew_from j now (some token) = renew j now (j.decode claims_from_json now token)

unfoldable pub refresh_access_token : Signing → ℕ → String → Verdict
unfolding create_token set_token_cookies
refresh_access_token j now cookie_str = renew_from j now (parse_cookie cookie_str "refresh_token")

abbrev check : Signing → ℕ → String → Decoded Claims → Verdict
check j now cookie_str (valid c) =
    if str_eq c.token_type access_token_type then passed c [] else refused 401
check j now cookie_str expired = refresh_access_token j now cookie_str
check j now cookie_str invalid = refused 401

abbrev check_from : Signing → ℕ → String → Option String → Verdict
check_from j now cookie_str none = refused 401
check_from j now cookie_str (some token) =
    check j now cookie_str (j.decode claims_from_json now token)

-- The layer, on the `Cookie` header, where the secret is set.
unfoldable pub jwt_auth : Signing → ℕ → Option String → Verdict
unfolding refresh_access_token
jwt_auth j now none = refused 401
jwt_auth j now (some cookie_str) =
    check_from j now cookie_str (parse_cookie cookie_str "access_token")
