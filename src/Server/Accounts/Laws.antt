-- ===== src/Server/Accounts/Laws.antt =====
-- Accounts: who may touch one, and that a signed-up user can sign in.
use bittuly.Prelude.{
  chars-show, ℕ, ◌+◌, ◌≤◌, ◌≡◌, refl, true, false, ◌||◌, Option, none, some, ◌∷◌, String, any,
  str_eq_iff, show, inl, inr, Bool-cases, arith,
}
use bittuly.Server.Jwt.{
  encode_otp, OtpClaims, Signing, pending_token_ttl_seconds, create_pending_token,
  decode_pending_token,
}
use bittuly.Server.Jwt.Laws.{IsSigning, otp_fresh}
use bittuly.Server.Accounts.{
  User, Packages, CreateUserPayload, Result, ok, err, has_id, has_email, create_user,
  get_user_by_email,
}
use bittuly.Server.Accounts.Handlers.{
  request_mailed, State, pending_token, auth_success, is_valid_signup, login,
  request_signup_handler, verify_otp_handler,
}

-- A one-time password is a number of six digits, and a password that was hashed is verified.
pub record IsHasher (p : Packages) : Type 0 where
  pub verifies : (salt : ℕ) (plain : String) → p.verify plain (p.hash salt plain) ≡ true

abbrev pub signed_up : Packages → ℕ → ℕ → String → CreateUserPayload → User
signed_up p now salt id c = record {
  id = id;
  username = c.username;
  email = c.email;
  password = p.hash salt c.password;
  created_at = now;
  updated_at = now;
}

module _ (j : Signing) (p : Packages) (start salt otp_salt otp : ℕ) (c : CreateUserPayload)
    (token : String) where
  abbrev mailed : State → State
  mailed s = record s { mails = (c.email, show otp) ∷ s.mails }

  abbrev claims : OtpClaims
  claims = record {
    token_type = "pending";
    email = c.email;
    username = c.username;
    password_hash = p.hash salt c.password;
    otp_hash = p.hash otp_salt (show otp);
    exp = start + pending_token_ttl_seconds;
  }

  request_mailed-inv :
      (s : State) (r : Result (Option User))
      → (request_mailed j p start salt otp_salt otp s c r).1 ≡ pending_token token
      → ((request_mailed j p start salt otp_salt otp s c r).0 ≡ mailed s)
        × (token ≡ encode_otp j claims)
  unfolding create_pending_token
  request_mailed-inv s err e = cc
  request_mailed-inv s (ok (some u)) e = cc
  request_mailed-inv s (ok none) e = elim (Bool-cases s.mail_up) [
    | inl up ↦ (ground (arith, up), ground (arith, e, up))
    | inr down ↦ absurd (ground (arith, e, down))
  ]

  -- A pending token comes from a valid request, whose mail has gone out.
  request-inv :
      (s : State)
      → (request_signup_handler j p start salt otp_salt otp s c).1 ≡ pending_token token
      → ((request_signup_handler j p start salt otp_salt otp s c).0 ≡ mailed s)
        × (token ≡ encode_otp j claims)
        × (p.is_email c.email ≡ true)
  unfolding request_signup_handler is_valid_signup
  request-inv s e =
      let r = get_user_by_email s.replica c.email in
      elim (Bool-cases (is_valid_signup p c)) [
        | inl v ↦
            let (mail, made) = request_mailed-inv s r (rw (request_signup_handler, v) at e) in
            (rw (request_signup_handler, v) mail, made, ground (arith, v))
        | inr v ↦ absurd (ground (arith, e, v))
      ]

-- The pending token with the mailed password, in time, creates the user.
verify_otp-created :
    (j : Signing) (p : Packages) (start now salt otp_salt otp : ℕ) (id : String) (s : State)
    (c : CreateUserPayload)
    → IsSigning j
    → IsHasher p
    → 100000 ≤ otp
    → otp ≤ 999999
    → now ≤ start + 600 + 60
    → s.primary.up ≡ true
    → any (λ v. has_id id v || has_email c.email v) s.primary.users ≡ false
    → let u = signed_up p now salt id c in
      verify_otp_handler j p now id s
        (encode_otp j (claims j p start salt otp_salt otp c ""))
        (show otp)
      ≡ (
        record s { primary = record s.primary { users = u ∷ s.primary.users } },
        auth_success j now 201 u,
      )
unfolding verify_otp_handler decode_pending_token create_user
verify_otp-created j p start now salt otp_salt otp id s c laws hasher low high soon up free =
    let o = claims j p start salt otp_salt otp c "" in
    rw (chars-show otp low high, otp_fresh j laws now o soon, hasher.verifies otp_salt (show otp))
      (ground (arith, up, free))

-- A user who asks to sign up and sends back the pending token with the mailed one-time password,
-- within eleven minutes, gets an account, where the primary answers and has neither the id nor the
-- email; and once the replica has it, the email and the password sign that user in.
pub signup-login :
    (j : Signing) (p : Packages) (start now later salt otp_salt otp : ℕ) (id token : String)
    (s : State) (c : CreateUserPayload)
    → IsSigning j
    → IsHasher p
    → 100000 ≤ otp
    → otp ≤ 999999
    → (request_signup_handler j p start salt otp_salt otp s c).1 ≡ pending_token token
    → now ≤ start + 600 + 60
    → s.primary.up ≡ true
    → any (λ v. has_id id v || has_email c.email v) s.primary.users ≡ false
    → let u = signed_up p now salt id c in
      let s' = (request_signup_handler j p start salt otp_salt otp s c).0 in
      let (s'', r) = verify_otp_handler j p now id s' token (show otp) in
      (s'.mails ≡ (c.email, show otp) ∷ s.mails)
      × (s''.primary.users ≡ u ∷ s.primary.users)
      × (r ≡ auth_success j now 201 u)
      × (login j p later
            (record s'' { replica = record s''.primary { up = true } })
            c.email
            c.password
          ≡ auth_success j later 200 u)
unfolding login get_user_by_email
signup-login j p start now later salt otp_salt otp id token s c laws hasher low high asked soon up
      free =
    let (mail, made, email) = request-inv j p start salt otp_salt otp c token s asked in
    let created =
      verify_otp-created j p start now salt otp_salt otp id
        (mailed j p start salt otp_salt otp c "" s) c laws hasher low high soon up free in
    rw (mail, made, created)
      (
        refl,
        refl,
        refl,
        ground (arith, email, hasher.verifies salt c.password, str_eq_iff c.email c.email),
      )
