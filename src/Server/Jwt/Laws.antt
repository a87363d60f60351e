-- ===== src/Server/Jwt/Laws.antt =====
-- Who is let through: libs/shared/src/jwt.rs.
use bittuly.Prelude.{
  true, false, ◌-◌, Option, List, ◌∷◌, str_eq, ltb→lt, ℕ, ◌+◌, ◌≤◌, ◌<◌, ◌≡◌, refl, none, some, [],
  String, if◌then◌else◌, leb, ltb, leb→le, leb→lt, inl, inr, Bool-cases, arith,
}
use bittuly.Server.Jwt.{
  Claims, OtpClaims, Payload, claims_json, claims_from_json, otp_json, otp_from_json, encode_claims,
  encode_otp, Cookie, valid, expired, invalid, Signing, create_token, create_access_token,
  create_refresh_token, parse_cookie, set_token_cookies, refused, passed, jwt_auth,
  refresh_access_token,
}

-- What the services rely on of `jsonwebtoken`: an object that was encoded, with an expiry, decodes to
-- what it deserialises to, up to a leeway of a minute after the expiry, and is expired from then on;
-- one that does not deserialise is an error.
pub record IsSigning (j : Signing) : Type 1 where
  pub fresh :
      {A : Type 0} (from_json : Payload → Option A) (now exp : ℕ) (p : Payload) (a : A)
      → from_json p ≡ some a
      → p.exp ≡ some exp
      → now ≤ exp + 60
      → j.decode from_json now (j.encode p) ≡ valid a
  pub late :
      {A : Type 0} (from_json : Payload → Option A) (now exp : ℕ) (p : Payload) (a : A)
      → from_json p ≡ some a
      → p.exp ≡ some exp
      → exp + 60 < now
      → j.decode from_json now (j.encode p) ≡ expired
  pub unreadable :
      {A : Type 0} (from_json : Payload → Option A) (now : ℕ) (p : Payload)
      → from_json p ≡ none
      → j.decode from_json now (j.encode p) ≡ invalid

abbrev pub access_claims : ℕ → String → Claims
access_claims exp user_id = record { sub = user_id; exp = exp; token_type = "access" }

-- The cookies that a browser still has so many seconds after they were set.
abbrev pub held : ℕ → List Cookie → List Cookie
held age [] = []
held age (c ∷ cs) = if ltb age c.max_age then c ∷ held age cs else held age cs

abbrev pub value_of : String → List Cookie → Option String
value_of name [] = none
value_of name (c ∷ cs) = if str_eq c.name name then some c.value else value_of name cs

-- The header says for the two names what the cookies say.
abbrev pub IsSent : String → List Cookie → Type 0
IsSent header cookies =
    (parse_cookie header "access_token" ≡ value_of "access_token" cookies)
    × (parse_cookie header "refresh_token" ≡ value_of "refresh_token" cookies)

module _ (j : Signing) (laws : IsSigning j) where
  fresh :
      (now : ℕ) (c : Claims)
      → now ≤ c.exp + 60
      → j.decode claims_from_json now (encode_claims j c) ≡ valid c
  unfolding claims_json claims_from_json
  fresh now c h = laws.fresh claims_from_json now c.exp (claims_json c) c refl refl h

  late :
      (now : ℕ) (c : Claims)
      → c.exp + 60 < now
      → j.decode claims_from_json now (encode_claims j c) ≡ expired
  unfolding claims_json claims_from_json
  late now c h = laws.late claims_from_json now c.exp (claims_json c) c refl refl h

  pub otp_fresh :
      (now : ℕ) (o : OtpClaims)
      → now ≤ o.exp + 60
      → j.decode otp_from_json now (encode_otp j o) ≡ valid o
  unfolding otp_json otp_from_json
  otp_fresh now o h = laws.fresh otp_from_json now o.exp (otp_json o) o refl refl h

  -- The tokens issued to a user at some time, sent back together: up to a minute after fifteen minutes
  -- the request passes as that user's; then, up to a minute after thirty days, it passes as that
  -- user's and the answer sets cookies with two new tokens of the same user, each for the lifetime of
  -- its token; later it is refused.
  pub jwt_auth-issued :
      (now start : ℕ) (header user_id : String)
      → parse_cookie header "access_token" ≡ some (create_access_token j start user_id)
      → parse_cookie header "refresh_token" ≡ some (create_refresh_token j start user_id)
      → jwt_auth j now (some header) ≡ (
          if leb now (start + 900 + 60)
          then passed (access_claims (start + 900) user_id) []
          else if leb now (start + 2592000 + 60)
          then passed (access_claims (start + 2592000) user_id) (
              record {
                name = "access_token";
                value = create_access_token j now user_id;
                max_age = 900;
              }
              ∷ record {
                name = "refresh_token";
                value = create_refresh_token j now user_id;
                max_age = 2592000;
              }
              ∷ [])
          else refused 401)
  unfolding jwt_auth refresh_access_token create_token set_token_cookies
  jwt_auth-issued now start header w a r = elim (Bool-cases (leb now (start + 900 + 60))) [
    | inl b ↦ rw (a, b, fresh now (access_claims (start + 900) w) (leb→le _ _ b)) refl
    | inr b ↦ elim (Bool-cases (leb now (start + 2592000 + 60))) [
      | inl c ↦
          rw
            (
              a,
              b,
              c,
              late now (access_claims (start + 900) w) (leb→lt _ _ b),
              r,
              fresh now (record { sub = w; exp = start + 2592000; token_type = "refresh" })
                  (leb→le _ _ c),
            )
            refl
      | inr c ↦
          rw
            (
              a,
              b,
              c,
              late now (access_claims (start + 900) w) (leb→lt _ _ b),
              r,
              late now (record { sub = w; exp = start + 2592000; token_type = "refresh" })
                  (leb→lt _ _ c),
            )
            refl
    ]
  ]

  -- A browser sends the cookies that an answer has set for as long as their `Max-Age` is not over. In
  -- such a request, the two cookies that a sign-in sets never get their tokens renewed: for fifteen
  -- minutes it passes with the access token, and from then on, though the refresh token may be sent
  -- and valid for thirty days, it is refused.
  pub jwt_auth-browser :
      (start now : ℕ) (user_id header : String)
      → IsSent header (
          held (now - start) (
            set_token_cookies
              (create_access_token j start user_id)
              (create_refresh_token j start user_id)))
      → start ≤ now
      → jwt_auth j now (some header) ≡ (
          if ltb now (start + 900)
          then passed (access_claims (start + 900) user_id) []
          else refused 401)
  unfolding jwt_auth create_token set_token_cookies
  jwt_auth-browser start now w header sent after = elim (Bool-cases (ltb now (start + 900))) [
    | inl b ↦
        let young : ltb (now - start) 900 ≡ true = ground (arith, b, after) in
        let token : parse_cookie header "access_token" ≡ some (create_access_token j start w) =
          rw young at sent.0 in
        rw (b, token, fresh now (access_claims (start + 900) w) (omega (arith, ltb→lt _ _ b))) refl
    | inr b ↦
        let old : ltb (now - start) 900 ≡ false = ground (arith, b, after) in
        let gone : parse_cookie header "access_token" ≡ none =
          elim (Bool-cases (ltb (now - start) 2592000)) [
            | inl c ↦ rw (old, c) at sent.0
            | inr c ↦ rw (old, c) at sent.0
          ] in
        rw (b, gone) refl
  ]
