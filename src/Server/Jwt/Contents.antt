-- ===== src/Server/Jwt/Contents.antt =====
-- libs/shared/src/jwt.rs: what stands in a token.
use bittuly.Prelude.{ℕ, Option, none, some, String}

pub record Claims : Type 0 where
  pub sub : String
  pub exp : ℕ
  pub token_type : String

pub record OtpClaims : Type 0 where
  pub token_type : String
  pub email : String
  pub username : String
  pub password_hash : String
  pub otp_hash : String
  pub exp : ℕ

-- The JSON object in a token, by the fields that the services write and read.
pub record Payload : Type 0 where
  pub sub : Option String
  pub token_type : Option String
  pub email : Option String
  pub username : Option String
  pub password_hash : Option String
  pub otp_hash : Option String
  pub exp : Option ℕ

-- `Serialize` and `Deserialize` of `Claims`: every field is written, and every one is wanted.
unfoldable pub claims_json : Claims → Payload
claims_json c = record {
  sub = some c.sub;
  token_type = some c.token_type;
  email = none;
  username = none;
  password_hash = none;
  otp_hash = none;
  exp = some c.exp;
}

unfoldable pub claims_from_json : Payload → Option Claims
claims_from_json p = elim p.sub [
  | none ↦ none
  | some sub ↦ elim p.exp [
    | none ↦ none
    | some exp ↦ elim p.token_type [
      | none ↦ none
      | some token_type ↦ some (record { sub = sub; exp = exp; token_type = token_type })
    ]
  ]
]

-- The same of `OtpClaims`.
unfoldable pub otp_json : OtpClaims → Payload
otp_json o = record {
  sub = none;
  token_type = some o.token_type;
  email = some o.email;
  username = some o.username;
  password_hash = some o.password_hash;
  otp_hash = some o.otp_hash;
  exp = some o.exp;
}

unfoldable pub otp_from_json : Payload → Option OtpClaims
otp_from_json p = elim p.token_type [
  | none ↦ none
  | some token_type ↦ elim p.email [
    | none ↦ none
    | some email ↦ elim p.username [
      | none ↦ none
      | some username ↦ elim p.password_hash [
        | none ↦ none
        | some password_hash ↦ elim p.otp_hash [
          | none ↦ none
          | some otp_hash ↦ elim p.exp [
            | none ↦ none
            | some exp ↦ some (record {
              token_type = token_type;
              email = email;
              username = username;
              password_hash = password_hash;
              otp_hash = otp_hash;
              exp = exp;
            })
          ]
        ]
      ]
    ]
  ]
]
