-- ===== src/Server/Samples/Tokens.antt =====
-- Tokens that say their claims in clear: a signing that keeps the promises of the package.
use Prim.Native.Char.{Char, code}
use bittuly.Prelude.{
  Option, none, some, ℕ, ◌+◌, ◌≡◌, refl, ap, ◌∙◌, String, if◌then◌else◌, leb, ◌==◌, show, read,
  read-show, arith,
}
use bittuly.Server.Jwt.{Payload, Decoded, valid, expired, invalid, Signing}
use bittuly.Server.Jwt.Laws.{IsSigning}

abbrev zero_char : Char
zero_char = "0"

abbrev one_char : Char
one_char = "1"

-- A text with a mark before each character and at the end, before the rest.
unfoldable pub mark : String → String → String
mark String.[] rest = String.◌∷◌ zero_char rest
mark (String.◌∷◌ c s) rest = String.◌∷◌ one_char (String.◌∷◌ c (mark s rest))

abbrev put : Char → String × String → String × String
put c (s, rest) = (String.◌∷◌ c s, rest)

unfoldable pub unmark : String → String × String
unmark String.[] = ("", "")
unmark (String.◌∷◌ m String.[]) = ("", "")
unmark (String.◌∷◌ m (String.◌∷◌ c s)) =
    let rest = unmark s in if code m == b'1' then put c rest else ("", String.◌∷◌ c s)

unmark-mark : (s rest : String) → unmark (mark s rest) ≡ (s, rest)
unfolding mark unmark
unmark-mark String.[] String.[] = refl
unmark-mark String.[] (String.◌∷◌ c s) = refl
unmark-mark (String.◌∷◌ c s) rest = ap (put c) (unmark-mark s rest)

-- A field that may be there, before the rest.
abbrev field : Option String → String → String
field none rest = String.◌∷◌ zero_char rest
field (some s) rest = String.◌∷◌ one_char (mark s rest)

abbrev present : String × String → Option String × String
present (s, rest) = (some s, rest)

abbrev absent : String → Option String × String
absent rest = (none, rest)

-- The field and the rest.
unfoldable pub unfield : String → Option String × String
unfield String.[] = (none, "")
unfield (String.◌∷◌ m rest) =
    let marked = unmark rest in if code m == b'1' then present marked else absent rest

unfield-field : (o : Option String) (rest : String) → unfield (field o rest) ≡ (o, rest)
unfolding unfield
unfield-field none rest = refl
unfield-field (some s) rest = ap present (unmark-mark s rest)

abbrev number : Option ℕ → Option String
number none = none
number (some n) = some (show n)

abbrev read_number : Option String → Option ℕ
read_number none = none
read_number (some s) = some (read 0 s)

read_number-number : (o : Option ℕ) → read_number (number o) ≡ o
read_number-number none = refl
read_number-number (some n) = ap (λ x. some x) (read-show n)

unfoldable pub encode : Payload → String
encode p = field p.sub (
    field p.token_type (
      field p.email
        (field p.username (field p.password_hash (field p.otp_hash (field (number p.exp) ""))))))

unfoldable pub payload : String → Payload
payload s =
    let (sub, a) = unfield s in
    let (token_type, b) = unfield a in
    let (email, c) = unfield b in
    let (username, d) = unfield c in
    let (password_hash, e) = unfield d in
    let (otp_hash, f) = unfield e in
    let (exp, g) = unfield f in
    record {
      sub = sub;
      token_type = token_type;
      email = email;
      username = username;
      password_hash = password_hash;
      otp_hash = otp_hash;
      exp = read_number exp;
    }

payload-encode : (p : Payload) → payload (encode p) ≡ p
unfolding payload encode
payload-encode p =
    let g = field (number p.exp) "" in
    let f = field p.otp_hash g in
    let e = field p.password_hash f in
    let d = field p.username e in
    let c = field p.email d in
    let b = field p.token_type c in
    rw
      (
        unfield-field p.sub b,
        unfield-field p.token_type c,
        unfield-field p.email d,
        unfield-field p.username e,
        unfield-field p.password_hash f,
        unfield-field p.otp_hash g,
        unfield-field (number p.exp) "",
        read_number-number p.exp,
      )
      refl

-- An expiry is over a minute after it, and one that is missing is over.
abbrev in_time : {A : Type 0} → ℕ → Option ℕ → A → Decoded A
in_time now none a = expired
in_time now (some exp) a = if leb now (exp + 60) then valid a else expired

abbrev read_as : {A : Type 0} → ℕ → Option ℕ → Option A → Decoded A
read_as now exp none = invalid
read_as now exp (some a) = in_time now exp a

unfoldable pub decode : {A : Type 0} → (Payload → Option A) → ℕ → String → Decoded A
unfolding payload
decode from_json now s = read_as now (payload s).exp (from_json (payload s))

abbrev pub signing : Signing
signing = record { encode = encode; decode = decode }

decode-encode :
    {A : Type 0} (from_json : Payload → Option A) (now : ℕ) (p : Payload)
    → decode from_json now (encode p) ≡ read_as now p.exp (from_json p)
unfolding decode
decode-encode from_json now p =
    ap (λ (q : Payload). read_as now q.exp (from_json q)) (payload-encode p)

pub signing-IsSigning : IsSigning signing
signing-IsSigning = record {
  fresh =
      λ from_json now exp p a e x h. decode-encode from_json now p ∙ rw (e, x) (ground (arith, h));
  late =
      λ from_json now exp p a e x h. decode-encode from_json now p ∙ rw (e, x) (ground (arith, h));
  unreadable = λ from_json now p e. decode-encode from_json now p ∙ rw e refl;
}
