-- ===== src/Api/Client.antt =====
-- web/src/api/client.ts. A JSON value is kept as its text, since no page reads an error's data.
use bittuly.Prelude.{
  ℕ, ◌≤◌, ◌≡◌, ◌↔◌, Bool, true, false, ◌&&◌, Option, none, some, List, [], ◌∷◌, String, arith, leb,
  ◌==◌, if◌then◌else◌, truthy, str_eq, template,
}

-- The variables that the build reads from `import.meta.env`; `""` where one is not set.
pub record Env : Type 0 where
  pub vite_auth_api_url : String
  pub vite_urls_api_url : String

abbrev pub or_default : String → String → String
or_default value fallback = if truthy value then value else fallback

unfoldable pub auth_base_url : Env → String
auth_base_url env = or_default env.vite_auth_api_url "http://localhost:3001"

unfoldable pub urls_base_url : Env → String
urls_base_url env = or_default env.vite_urls_api_url "http://localhost:3002"

-- `RequestInit`, as far as the callers set it. The body is the object given to `JSON.stringify`,
-- which leaves out the properties that are undefined.
pub record Options : Type 0 where
  pub method : String
  pub body : Option (List (String × String))
  pub headers : List (String × String)

pub record Request : Type 0 where
  pub url : String
  pub query : List (String × String)
  pub method : String
  pub body : Option (List (String × String))
  pub credentials : String
  pub headers : List (String × String)

-- `{ ...object, [key]: value }`.
pub set_key : String → String → List (String × String) → List (String × String)
set_key k v [] = (k, v) ∷ []
set_key k v ((j, w) ∷ m) = if str_eq j k then (j, v) ∷ m else (j, w) ∷ set_key k v m

spread : List (String × String) → List (String × String) → List (String × String)
spread base [] = base
spread base ((k, v) ∷ m) = spread (set_key k v base) m

-- The argument of `fetch` in `apiRequest`.
unfoldable pub api_request : String → String → List (String × String) → Options → Request
unfolding spread set_key template
api_request base_url path query options = record {
  url = template (base_url ∷ path ∷ []);
  query = query;
  method = options.method;
  body = options.body;
  credentials = "include";
  headers = spread (("Content-Type", "application/json") ∷ []) options.headers;
}

-- What `fetch` resolves to; the body is `none` where it is no JSON.
pub record Response : Type 0 where
  pub status : ℕ
  pub body : Option String

pub record ApiError : Type 0 where
  pub status : ℕ
  pub payload : String

-- What a call throws: `fetch` fails itself, or the answer is an error.
pub data Failure : Type 0 where
  network : Failure
  api_error : ApiError → Failure

pub data Result {ℓ} (A : Type ℓ) : Type ℓ where
  resolved : A → Result A
  rejected : Failure → Result A

abbrev pub is_resolved {ℓ} : {A : Type ℓ} → Result A → Bool
is_resolved (resolved a) = true
is_resolved (rejected e) = false

-- `res.ok` of the Fetch standard.
abbrev pub is_ok : Response → Bool
is_ok res = leb 200 res.status && leb res.status 299

-- `await res.json().catch(() => ({}))`.
abbrev pub json_or_empty : Option String → String
json_or_empty none = "{}"
json_or_empty (some text) = text

-- The rest of `apiRequest`, on what `fetch` gave; `none` as a value is the source's `null`.
unfoldable pub settle : Option Response → Result (Option String)
settle none = rejected network
settle (some res) =
    if res.status == 204
    then resolved none
    else let data' = json_or_empty res.body in
      if is_ok res
      then resolved (some data')
      else rejected (api_error (record { status = res.status; payload = data' }))

-- `err.status === n`, on whatever was thrown.
abbrev pub has_status : ℕ → Failure → Bool
has_status n network = false
has_status n (api_error e) = e.status == n

-- A call resolves exactly when an answer came and its status is between 200 and 299.
pub settle-resolved_iff :
    (r : Option Response)
    → (is_resolved (settle r) ≡ true)
      ↔ ((res : Response) × (r ≡ some res) × (200 ≤ res.status) × (res.status ≤ 299))
unfolding settle
settle-resolved_iff none = (λ h. cc, λ h. ground (arith, h.1))
settle-resolved_iff (some res) =
    (λ h. (res, ground arith, ground arith, ground arith), λ h. ground arith)

-- An error status outside 200 to 299 is what the page's handler sees.
pub settle-has_status :
    (res : Response) (n : ℕ)
    → is_ok res ≡ false
    → (e : Failure) × (settle (some res) ≡ rejected e) × (has_status n e ≡ (res.status == n))
unfolding settle
settle-has_status res n h = (
  api_error (record { status = res.status; payload = json_or_empty res.body }),
  ground arith,
  ground arith,
)
