-- ===== src/Server/Accounts/Routes.antt =====
-- services/auth-service/src/routes.rs under `/api/auth`, and health.rs: from a request to a handler.
use bittuly.Prelude.{ℕ, Option, none, some, List, [], ◌∷◌, String, if◌then◌else◌, ◌&&◌, str_eq}
use bittuly.Server.Jwt.{Claims, Signing, Cookie, Verdict, refused, passed, jwt_auth}
use bittuly.Server.Urls.Routes.{segments}
use bittuly.Server.Accounts.{Packages}
use bittuly.Server.Accounts.Handlers.{
  State, Response, status, login, logout, get_user_handler, update_user_handler,
  delete_user_handler, request_signup_handler, verify_otp_handler,
}

-- The texts in the JSON of a request's body, of which a handler reads those of its type.
pub record Body : Type 0 where
  pub username : Option String
  pub email : Option String
  pub password : Option String
  pub pending_token : Option String
  pub otp : Option String

pub record Request : Type 0 where
  pub method : String
  pub path : String
  pub cookie : Option String
  pub body : Body

-- What a request draws at random.
pub record Draws : Type 0 where
  pub id : String
  pub salt : ℕ
  pub otp_salt : ℕ
  pub otp : ℕ

-- The state, the answer, and the cookies that the layer adds to it.
abbrev pub Answer : Type 0
Answer = State × Response × List Cookie

abbrev pub plainly : State × Response → Answer
plainly (s, r) = (s, r, [])

-- A field that the handler's type wants: the extractor refuses a body without it.
abbrev pub with_field : Option String → State → (String → State × Response) → State × Response
with_field none s f = (s, status 422)
with_field (some x) s f = f x

abbrev pub signup_route : Signing → Packages → ℕ → Draws → State → Body → State × Response
signup_route j p now d s b = with_field b.username s λ username. with_field b.email s λ email.
    with_field b.password s λ password.
      request_signup_handler j p now d.salt d.otp_salt d.otp s
        (record { username = username; email = email; password = password })

abbrev pub verify_route : Signing → Packages → ℕ → Draws → State → Body → State × Response
verify_route j p now d s b =
    with_field b.pending_token s
      λ token. with_field b.otp s λ otp. verify_otp_handler j p now d.id s token otp

abbrev pub login_route : Signing → Packages → ℕ → State → Body → State × Response
login_route j p now s b =
    with_field b.email s
      λ email. with_field b.password s λ password. (s, login j p now s email password)

abbrev pub on_method : String → Request → State → State × Response → State × Response
on_method method r s answer = if str_eq r.method method then answer else (s, status 405)

abbrev pub after_check : Verdict → State → (Claims → State × Response) → Answer
after_check (refused n) s f = (s, status n, [])
after_check (passed claims cookies) s f = let (s', r) = f claims in (s', r, cookies)

-- The route of an account.
abbrev pub user_route :
    Signing → Packages → ℕ → Draws → State → Request → String → Claims → State × Response
user_route j p now d s r user_id claims =
    if str_eq r.method "GET"
    then get_user_handler p s claims user_id
    else if str_eq r.method "DELETE"
    then delete_user_handler p s claims user_id
    else if str_eq r.method "PUT"
    then update_user_handler j p now d.salt s claims user_id
        (record { username = r.body.username; email = r.body.email; password = r.body.password })
    else (s, status 405)

-- services/auth-service/src/health.rs: the replica is not asked.
abbrev pub health : State → Response
health s = if s.primary.up then status 200 else status 503

-- `auth_routes`, without the route for tests in development mode.
unfoldable pub auth_route : Signing → Packages → ℕ → Draws → State → Request → String → Answer
auth_route j p now d s r name =
    if str_eq name "signup"
    then plainly (on_method "POST" r s (signup_route j p now d s r.body))
    else if str_eq name "verify-otp"
    then plainly (on_method "POST" r s (verify_route j p now d s r.body))
    else if str_eq name "login"
    then plainly (on_method "POST" r s (login_route j p now s r.body))
    else if str_eq name "health"
    then plainly (on_method "GET" r s (s, health s))
    else if str_eq name "metrics"
    then plainly (on_method "GET" r s (s, status 200))
    else if str_eq name "logout"
    then after_check (jwt_auth j now r.cookie) s (λ claims. on_method "POST" r s (s, logout))
    else after_check (jwt_auth j now r.cookie) s (user_route j p now d s r name)

unfoldable pub route : Signing → Packages → ℕ → Draws → State → Request → List String → Answer
unfolding auth_route
route j p now d s r (a ∷ b ∷ name ∷ []) =
    if str_eq a "api" && str_eq b "auth" then auth_route j p now d s r name else (s, status 404, [])
route j p now d s r ss = (s, status 404, [])

unfoldable pub serve : Signing → Packages → ℕ → Draws → State → Request → Answer
unfolding route segments
serve j p now d s r = route j p now d s r (segments r.path)
