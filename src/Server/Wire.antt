-- ===== src/Server/Wire.antt =====
-- The client's requests on the service's routes: web/src/api/urls.ts against
-- services/url-service/src/routes.rs, and the JSON of a link (models.rs).
mod Tests
pub mod Paging
use mathlib.Core.Option
use Prim.Native.String
use Prim.Native.Char.{code}
use bittuly.Prelude.{
  ℕ, Bool, true, false, Option, none, some, List, [], ◌∷◌, map, String, if◌then◌else◌, ◌==◌,
}
use bittuly.Api.Client
use bittuly.Api.Client.{Env, Result, resolved, rejected, api_error, urls_base_url}
use bittuly.Api.Urls.{ShortenedUrl, UrlsPage, UrlsCall, urls_request}
use bittuly.Server.Urls.{Url, Packages, Page}
use bittuly.Server.Urls.Handlers.{State, Response, status, page}
use bittuly.Server.Urls.Routes.{Request, serve}

-- `Serialize` of `Url`: the id is renamed, and times are texts; the client reads six of the fields.
unfoldable pub to_client : Packages → Url → ShortenedUrl
to_client p u = record {
  id = u.url_id;
  short_code = u.short_code;
  original_url = u.original_url;
  click_count = u.click_count;
  expires_at = Option.map p.rfc3339 u.expires_at;
  created_at = p.rfc3339 u.created_at;
}

unfoldable pub page_to_client : Packages → Page → UrlsPage
unfolding to_client
page_to_client p q = record { urls = map (to_client p) q.urls; next_cursor = q.next_cursor }

-- The path of a URL under a base.
unfoldable pub drop_base : String → String → String
drop_base String.[] url = url
drop_base (String.◌∷◌ c base) String.[] = ""
drop_base (String.◌∷◌ c base) (String.◌∷◌ d url) = drop_base base url

abbrev pub receive : Env → Client.Request → Request
receive env r = record {
  method = r.method;
  path = drop_base (urls_base_url env) r.url;
  query = r.query;
  body = none;
}

-- What a call for a page resolves to; no page reads the body of an error.
abbrev pub page_result : Packages → Response → Result UrlsPage
page_result p (page q) = resolved (page_to_client p q)
page_result p (status n) = rejected (api_error (record { status = n; payload = "{}" }))
page_result p r = rejected Client.network

-- The answer of the service to a call of a signed-in user for a page of links.
unfoldable pub ask : Packages → ℕ → Env → String → State → UrlsCall → Result UrlsPage
unfolding page_to_client drop_base
ask p now env user_id s c =
    page_result p (serve p now (some user_id) s (receive env (urls_request env c))).1
