-- ===== src/Server/Accounts/Others.antt =====
-- Whose account a request to the auth-service may change.
use bittuly.Prelude.{
  ℕ, ◌≡◌, ◌≢◌, refl, ap, ◌∙◌, Option-cases, Bool, true, false, not, ◌&&◌, Option, none, some, List,
  [], ◌∷◌, String, if◌then◌else◌, inl, inr, Bool-cases, str_eq,
}
use bittuly.Server.Jwt.{
  Claims, Signing, Verdict, refused, passed, jwt_auth, OtpClaims, decode_pending_token,
}
use bittuly.Server.Urls.Routes.{segments}
use bittuly.Server.Accounts.{
  User, Db, Packages, CreateUserPayload, UpdateUserPayload, Result, ok, err, find, has_id,
  update_user, delete_user, get_user_by_email,
}
use bittuly.Server.Accounts.Handlers.{
  State, Response, status, get_user_handler, update_user_handler, delete_user_handler,
  request_signup_handler, verify_otp_handler, request_mailed, verify_claims, is_valid_signup,
  is_valid_update, within, hashed, answer_auth, logout,
}
use bittuly.Server.Accounts.Routes.{
  Request, Draws, auth_route, route, serve, user_route, after_check, on_method, signup_route,
  verify_route, login_route, Body, Answer, health,
}
use bittuly.Server.Accounts.Kept.{
  Keeps, delete_user-Keeps, update_user-Keeps, create_user-Keeps, own-Keeps, finish_delete-primary,
}

-- The request does not pass as that user.
abbrev pub IsOther : String → Verdict → Type 0
IsOther v (refused n) = Unit
IsOther v (passed claims cookies) = v ≢ claims.sub

module _ (v : String) (j : Signing) (p : Packages) (now : ℕ) (d : Draws) (s : State) where
  valid-Keeps :
      (id : String) (payload : UpdateUserPayload)
      → v ≢ id
      → let new = record payload { password = hashed p d.salt payload.password } in
        let (db, r) = update_user now s.primary id new in
        let out : State × Response =
          if not (is_valid_update p payload)
          then (s, status 422)
          else (record s { primary = db }, answer_auth j now 200 r) in
        Keeps v s.primary out.0.primary
  valid-Keeps id payload ne = elim (Bool-cases (not (is_valid_update p payload))) [
    | inl b ↦ rw b refl
    | inr b ↦ rw b (
        update_user-Keeps v id now s.primary
          (record payload { password = hashed p d.salt payload.password }) ne)
  ]

  user_route-Keeps :
      (r : Request) (user_id : String) (claims : Claims)
      → v ≢ claims.sub
      → Keeps v s.primary (user_route j p now d s r user_id claims).0.primary
  unfolding get_user_handler delete_user_handler update_user_handler
  user_route-Keeps r user_id claims ne = elim (Bool-cases (str_eq r.method "GET")) [
    | inl a ↦ rw a (own-Keeps v p s claims user_id _ (λ id e. refl))
    | inr a ↦ elim (Bool-cases (str_eq r.method "DELETE")) [
      | inl b ↦
          rw (a, b)
            (own-Keeps v p s claims user_id _ λ id e.
              let db = (delete_user s.primary id).0 in
              ap (λ (x : Db). find (has_id v) x.users)
                (finish_delete-primary (record s { primary = db }) id (delete_user s.primary id).1)
              ∙ delete_user-Keeps v id s.primary (λ q. ne (q ∙ e)))
      | inr b ↦ elim (Bool-cases (str_eq r.method "PUT")) [
        | inl c ↦
            rw (a, b, c)
              (own-Keeps v p s claims user_id _ λ id e.
                valid-Keeps id
                  (record {
                    username = r.body.username;
                    email = r.body.email;
                    password = r.body.password;
                  })
                  (λ q. ne (q ∙ e)))
        | inr c ↦ rw (a, b, c) refl
      ]
    ]
  ]

  -- A signup leaves the accounts as they are, and a verified one adds the one that was drawn.
  request_mailed-primary :
      (c : CreateUserPayload) (o : Result (Option User))
      → (request_mailed j p now d.salt d.otp_salt d.otp s c o).0.primary ≡ s.primary
  request_mailed-primary c err = refl
  request_mailed-primary c (ok (some u)) = refl
  request_mailed-primary c (ok none) = elim (Bool-cases s.mail_up) [
    | inl b ↦ rw b refl
    | inr b ↦ rw b refl
  ]

  signup-primary :
      (c : CreateUserPayload)
      → (request_signup_handler j p now d.salt d.otp_salt d.otp s c).0.primary ≡ s.primary
  unfolding request_signup_handler
  signup-primary c = elim (Bool-cases (is_valid_signup p c)) [
    | inl b ↦ rw b (request_mailed-primary c (get_user_by_email s.replica c.email))
    | inr b ↦ rw b refl
  ]

  verify_claims-Keeps :
      (otp : String) (o : Option OtpClaims)
      → v ≢ d.id
      → Keeps v s.primary (verify_claims j p now d.id s otp o).0.primary
  verify_claims-Keeps otp none ne = refl
  verify_claims-Keeps otp (some c) ne = elim (Bool-cases (p.verify otp c.otp_hash)) [
    | inl b ↦ rw b (
        create_user-Keeps v d.id now s.primary
          (record { username = c.username; email = c.email; password = c.password_hash }) ne)
    | inr b ↦ rw b refl
  ]

  verify_otp-Keeps :
      (token otp : String)
      → v ≢ d.id
      → Keeps v s.primary (verify_otp_handler j p now d.id s token otp).0.primary
  unfolding verify_otp_handler
  verify_otp-Keeps token otp ne = elim (Bool-cases (within 6 6 otp)) [
    | inl b ↦ rw b (verify_claims-Keeps otp (decode_pending_token j now token) ne)
    | inr b ↦ rw b refl
  ]

  signup_route-Keeps : (b : Body) → Keeps v s.primary (signup_route j p now d s b).0.primary
  signup_route-Keeps b = elim (Option-cases b.username) [
    | inl e ↦ rw e refl
    | inr (username, e) ↦ elim (Option-cases b.email) [
      | inl f ↦ rw (e, f) refl
      | inr (email, f) ↦ elim (Option-cases b.password) [
        | inl g ↦ rw (e, f, g) refl
        | inr (password, g) ↦
            rw (e, f, g)
              (ap (λ (x : Db). find (has_id v) x.users)
                (signup-primary
                  (record { username = username; email = email; password = password })))
      ]
    ]
  ]

  verify_route-Keeps :
      (b : Body) → v ≢ d.id → Keeps v s.primary (verify_route j p now d s b).0.primary
  verify_route-Keeps b ne = elim (Option-cases b.pending_token) [
    | inl e ↦ rw e refl
    | inr (token, e) ↦ elim (Option-cases b.otp) [
      | inl f ↦ rw (e, f) refl
      | inr (otp, f) ↦ rw (e, f) (verify_otp-Keeps token otp ne)
    ]
  ]

  login_route-Keeps : (b : Body) → Keeps v s.primary (login_route j p now s b).0.primary
  login_route-Keeps b = elim (Option-cases b.email) [
    | inl e ↦ rw e refl
    | inr (email, e) ↦ elim (Option-cases b.password) [
      | inl f ↦ rw (e, f) refl
      | inr (password, f) ↦ rw (e, f) refl
    ]
  ]

  on_method-Keeps :
      (method : String) (r : Request) (answer : State × Response)
      → Keeps v s.primary answer.0.primary
      → Keeps v s.primary (on_method method r s answer).0.primary
  on_method-Keeps method r answer h = elim (Bool-cases (str_eq r.method method)) [
    | inl b ↦ rw b h
    | inr b ↦ rw b refl
  ]

  after_check-Keeps :
      (verdict : Verdict) (f : Claims → State × Response)
      → ((claims : Claims) → v ≢ claims.sub → Keeps v s.primary (f claims).0.primary)
      → IsOther v verdict
      → Keeps v s.primary (after_check verdict s f).0.primary
  after_check-Keeps (refused n) f h ne = refl
  after_check-Keeps (passed claims cookies) f h ne = h claims ne

  either-Keeps :
      (test : Bool) (a b : Answer)
      → Keeps v s.primary a.0.primary
      → Keeps v s.primary b.0.primary
      → Keeps v s.primary (if test then a else b).0.primary
  either-Keeps true a b h k = h
  either-Keeps false a b h k = k

  auth_route-Keeps :
      (r : Request) (name : String)
      → v ≢ d.id
      → IsOther v (jwt_auth j now r.cookie)
      → Keeps v s.primary (auth_route j p now d s r name).0.primary
  unfolding auth_route
  auth_route-Keeps r name fresh other =
      let verdict = jwt_auth j now r.cookie in
      either-Keeps (str_eq name "signup") _ _
        (on_method-Keeps "POST" r (signup_route j p now d s r.body) (signup_route-Keeps r.body))
        (either-Keeps (str_eq name "verify-otp") _ _
          (on_method-Keeps "POST" r (verify_route j p now d s r.body)
            (verify_route-Keeps r.body fresh))
          (either-Keeps (str_eq name "login") _ _
            (on_method-Keeps "POST" r (login_route j p now s r.body) (login_route-Keeps r.body))
            (either-Keeps (str_eq name "health") _ _ (on_method-Keeps "GET" r (s, health s) refl) (
              either-Keeps (str_eq name "metrics") _ _
                (on_method-Keeps "GET" r (s, status 200) refl)
                (either-Keeps (str_eq name "logout") _ _
                  (after_check-Keeps verdict (λ claims. on_method "POST" r s (s, logout))
                    (λ claims ne. on_method-Keeps "POST" r (s, logout) refl) other)
                  (after_check-Keeps verdict (user_route j p now d s r name)
                    (λ claims ne. user_route-Keeps r name claims ne) other))))))

  route-Keeps :
      (r : Request) (ss : List String)
      → v ≢ d.id
      → IsOther v (jwt_auth j now r.cookie)
      → Keeps v s.primary (route j p now d s r ss).0.primary
  unfolding route
  route-Keeps r [] fresh other = refl
  route-Keeps r (a ∷ []) fresh other = refl
  route-Keeps r (a ∷ b ∷ []) fresh other = refl
  route-Keeps r (a ∷ b ∷ name ∷ []) fresh other =
      either-Keeps (str_eq a "api" && str_eq b "auth") _ (s, status 404, [])
        (auth_route-Keeps r name fresh other) refl
  route-Keeps r (a ∷ b ∷ name ∷ c ∷ ss) fresh other = refl

-- A request to the auth-service, whatever its route, method, cookies and body are, leaves the
-- account of every user but the one that its cookies pass as, and the one that a signup creates,
-- as it was: without a session it changes and deletes nobody's account.
pub serve-others :
    (v : String) (j : Signing) (p : Packages) (now : ℕ) (d : Draws) (s : State) (r : Request)
    → v ≢ d.id
    → IsOther v (jwt_auth j now r.cookie)
    → find (has_id v) (serve j p now d s r).0.primary.users ≡ find (has_id v) s.primary.users
unfolding serve
serve-others v j p now d s r fresh other = route-Keeps v j p now d s r (segments r.path) fresh other
