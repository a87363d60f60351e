-- ===== src/Server/Accounts/Handlers.antt =====
-- services/auth-service/src/handlers.rs, services.rs and models.rs.
use bittuly.Prelude.{
  chars, ℕ, Bool, true, not, ◌&&◌, Option, none, some, List, [], ◌∷◌, ◌++◌, String, if◌then◌else◌,
  leb, str_eq, show,
}
use bittuly.Server.Jwt.{
  Claims, OtpClaims, Signing, Cookie, create_access_token, create_refresh_token,
  create_pending_token, decode_pending_token, set_token_cookies, clear_token_cookies,
}
use bittuly.Server.Accounts.{
  User, Db, Packages, CreateUserPayload, UpdateUserPayload, Result, ok, err, create_user,
  get_user_by_id, get_user_by_email, update_user, delete_user,
}

-- `AuthState`: what is published to `user_deleted_queue`, and the mails with one-time passwords;
-- `mail_up` and `broker_up` say whether a mail and an event can be sent.
pub record State : Type 0 where
  pub primary : Db
  pub replica : Db
  pub published : List String
  pub mails : List (String × String)
  pub mail_up : Bool
  pub broker_up : Bool

-- A user's own data leaves out the password.
pub data Response : Type 0 where
  status : ℕ → Response
  user : ℕ → User → List Cookie → Response
  pending_token : String → Response
  signed_out : List Cookie → Response

abbrev pub within : ℕ → ℕ → String → Bool
within low high s = leb low (chars s) && leb (chars s) high

abbrev pub at_least : ℕ → String → Bool
at_least low s = leb low (chars s)

abbrev pub optional : (String → Bool) → Option String → Bool
optional p none = true
optional p (some s) = p s

-- The derived `validate` of the payloads.
unfoldable pub is_valid_signup : Packages → CreateUserPayload → Bool
is_valid_signup p c = within 3 50 c.username && p.is_email c.email && at_least 6 c.password

unfoldable pub is_valid_update : Packages → UpdateUserPayload → Bool
is_valid_update p c =
    optional (within 3 50) c.username
    && optional p.is_email c.email
    && optional (at_least 6) c.password

-- `AuthSuccess`, with new tokens.
abbrev pub auth_success : Signing → ℕ → ℕ → User → Response
auth_success j now code u =
    user code u
      (set_token_cookies (create_access_token j now u.id) (create_refresh_token j now u.id))

abbrev pub answer_login : Signing → Packages → ℕ → String → Result (Option User) → Response
answer_login j p now password err = status 503
answer_login j p now password (ok none) = status 401
answer_login j p now password (ok (some u)) =
    if p.verify password u.password then auth_success j now 200 u else status 401

unfoldable pub login : Signing → Packages → ℕ → State → String → String → Response
login j p now s email password =
    if not (p.is_email email)
    then status 422
    else answer_login j p now password (get_user_by_email s.replica email)

unfoldable pub logout : Response
logout = signed_out clear_token_cookies

abbrev pub answer_user : Result (Option User) → Response
answer_user err = status 500
answer_user (ok none) = status 404
answer_user (ok (some u)) = user 200 u []

unfoldable pub get_user_handler : Packages → State → Claims → String → State × Response
get_user_handler p s claims user_id = elim (p.parse_uuid user_id) [
  | none ↦ (s, status 400)
  | some id ↦
      if not (str_eq id claims.sub)
      then (s, status 403)
      else (s, answer_user (get_user_by_id s.replica id))
]

abbrev pub hashed : Packages → ℕ → Option String → Option String
hashed p salt none = none
hashed p salt (some plain) = some (p.hash salt plain)

abbrev pub answer_auth : Signing → ℕ → ℕ → Result User → Response
answer_auth j now code err = status 500
answer_auth j now code (ok u) = auth_success j now code u

unfoldable pub update_user_handler :
    Signing → Packages → ℕ → ℕ → State → Claims → String → UpdateUserPayload → State × Response
update_user_handler j p now salt s claims user_id payload = elim (p.parse_uuid user_id) [
  | none ↦ (s, status 400)
  | some id ↦
      let new = record payload { password = hashed p salt payload.password } in
      let (db, r) = update_user now s.primary id new in
      if not (str_eq id claims.sub)
      then (s, status 403)
      else if not (is_valid_update p payload)
      then (s, status 422)
      else (record s { primary = db }, answer_auth j now 200 r)
]

-- The event is published after the deletion, and a failure to do so is passed over.
abbrev pub finish_delete : State → String → Result (Unit {0}) → State × Response
finish_delete s id err = (s, status 500)
finish_delete s id (ok u) =
    (if s.broker_up then record s { published = s.published ++ (id ∷ []) } else s, status 204)

unfoldable pub delete_user_handler : Packages → State → Claims → String → State × Response
delete_user_handler p s claims user_id = elim (p.parse_uuid user_id) [
  | none ↦ (s, status 400)
  | some id ↦
      let (db, r) = delete_user s.primary id in
      if not (str_eq id claims.sub)
      then (s, status 403)
      else finish_delete (record s { primary = db }) id r
]

-- `request_signup`: the mail goes out before the token is made.
abbrev pub request_mailed :
    Signing
    → Packages
    → ℕ
    → ℕ
    → ℕ
    → ℕ
    → State
    → CreateUserPayload
    → Result (Option User)
    → State × Response
request_mailed j p now salt otp_salt otp s c err = (s, status 500)
request_mailed j p now salt otp_salt otp s c (ok (some u)) = (s, status 409)
request_mailed j p now salt otp_salt otp s c (ok none) =
    if not s.mail_up then (s, status 500) else (
      record s { mails = (c.email, show otp) ∷ s.mails },
      pending_token (
          create_pending_token j now c.email c.username (p.hash salt c.password)
            (p.hash otp_salt (show otp))),
    )

unfoldable pub request_signup_handler :
    Signing → Packages → ℕ → ℕ → ℕ → ℕ → State → CreateUserPayload → State × Response
unfolding is_valid_signup
request_signup_handler j p now salt otp_salt otp s c =
    if not (is_valid_signup p c)
    then (s, status 422)
    else request_mailed j p now salt otp_salt otp s c (get_user_by_email s.replica c.email)

abbrev pub finish_signup : Signing → ℕ → State → Db × Result User → State × Response
finish_signup j now s (db, r) = (record s { primary = db }, answer_auth j now 201 r)

-- `verify_otp`: a token that does not decode is an error like any other.
abbrev pub verify_claims :
    Signing → Packages → ℕ → String → State → String → Option OtpClaims → State × Response
verify_claims j p now id s otp none = (s, status 500)
verify_claims j p now id s otp (some c) =
    let payload : CreateUserPayload = record {
      username = c.username;
      email = c.email;
      password = c.password_hash;
    } in
    if not (p.verify otp c.otp_hash)
    then (s, status 401)
    else finish_signup j now s (create_user now id s.primary payload)

unfoldable pub verify_otp_handler :
    Signing → Packages → ℕ → String → State → String → String → State × Response
verify_otp_handler j p now id s token otp =
    if not (within 6 6 otp)
    then (s, status 422)
    else verify_claims j p now id s otp (decode_pending_token j now token)
