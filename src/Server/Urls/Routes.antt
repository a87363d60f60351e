-- ===== src/Server/Urls/Routes.antt =====
-- services/url-service/src/routes.rs and main.rs: from a request to a handler. The claims are those
-- that `jwt_auth` lets through, or none.
use mathlib.Core.Option
use mathlib.Core.List.{reverse}
use bittuly.Prelude.{
  Bool, filter, length, leb, ℕ, Option, none, some, List, [], ◌∷◌, String, if◌then◌else◌, ◌&&◌,
  str_eq, truthy,
}
use bittuly.Server.Numbers.{ℤ, from_str_radix}
use bittuly.Server.Text.{split_on}
use bittuly.Server.Urls.{Packages}
use bittuly.Server.Urls.Handlers.{
  State, Response, status, PaginationParams, get_all_urls, shorten_url, delete_url_handler,
  redirect_url,
}

-- What the routes read of a request, whose body is JSON; it is none where it is not of the handler's
-- type.
pub record Request : Type 0 where
  pub method : String
  pub path : String
  pub query : List (String × String)
  pub body : Option (String × Option ℕ)

drop_empty : List String → List String
drop_empty [] = []
drop_empty (s ∷ ss) = if truthy s then s ∷ ss else drop_empty ss

-- `NormalizePathLayer::trim_trailing_slash`: the slashes at both ends go.
unfoldable pub segments : String → List String
unfolding split_on drop_empty
segments path = reverse (drop_empty (reverse (drop_empty (split_on b'/' path))))

abbrev param : String → List (String × String) → Option String
param key [] = none
param key ((k, v) ∷ kvs) = if str_eq k key then some v else param key kvs

-- A field that comes twice is refused.
abbrev is_single : String → List (String × String) → Bool
is_single key query = leb (length (filter (λ (kv : String × String). str_eq kv.0 key) query)) 1

abbrev limit_param : Option String → Option (Option ℤ)
limit_param none = some none
limit_param (some text) = Option.map (λ n. some n) (from_str_radix 10 text)

-- The extractor `Query`: refused where a field comes twice or the limit is no number.
unfoldable pub pagination_params : List (String × String) → Option PaginationParams
pagination_params query =
    if is_single "cursor" query && is_single "limit" query && is_single "search" query
    then Option.map
        (λ limit. record {
          cursor = param "cursor" query;
          limit = limit;
          search = param "search" query;
        })
        (limit_param (param "limit" query))
    else none

abbrev list_urls : Packages → State → String → Option PaginationParams → Response
list_urls p s user_id none = status 400
list_urls p s user_id (some params) = get_all_urls p s user_id params

abbrev create_url : Packages → ℕ → State → String → Option (String × Option ℕ) → State × Response
create_url p now s user_id none = (s, status 422)
create_url p now s user_id (some (original_url, expires_at)) =
    shorten_url p now s user_id original_url expires_at

abbrev remove_url : State → String → Option ℤ → State × Response
remove_url s user_id none = (s, status 400)
remove_url s user_id (some id) = delete_url_handler s user_id id

-- The protected routes, under the layer `jwt_auth`.
abbrev protected : Option String → State → (String → State × Response) → State × Response
protected none s f = (s, status 401)
protected (some user_id) s f = f user_id

urls_route : Packages → ℕ → State → Request → String → State × Response
urls_route p now s r user_id =
    if str_eq r.method "GET"
    then (s, list_urls p s user_id (pagination_params r.query))
    else if str_eq r.method "POST"
    then create_url p now s user_id r.body
    else (s, status 405)

url_route : State → Request → String → String → State × Response
url_route s r id user_id =
    if str_eq r.method "DELETE"
    then remove_url s user_id (from_str_radix 10 id)
    else (s, status 405)

-- services/url-service/src/health.rs: the replica is not asked.
abbrev pub health : State → Response
health s = if s.primary.up && s.redis_up then status 200 else status 503

-- `url_routes`, where "health" and "metrics" under `/api/urls` are no links' ids.
route : Packages → ℕ → Option String → State → Request → List String → State × Response
route p now claims s r (a ∷ []) =
    if str_eq r.method "GET" then redirect_url now s a else (s, status 405)
route p now claims s r (a ∷ b ∷ []) =
    if str_eq a "api" && str_eq b "urls"
    then protected claims s (urls_route p now s r)
    else (s, status 404)
route p now claims s r (a ∷ b ∷ c ∷ []) =
    if str_eq a "api" && str_eq b "urls"
    then (if str_eq c "health"
        then (s, if str_eq r.method "GET" then health s else status 405)
        else if str_eq c "metrics"
        then (s, if str_eq r.method "GET" then status 200 else status 405)
        else protected claims s (url_route s r c))
    else (s, status 404)
route p now claims s r ss = (s, status 404)

unfoldable pub serve : Packages → ℕ → Option String → State → Request → State × Response
unfolding urls_route url_route route segments
serve p now claims s r = route p now claims s r (segments r.path)
