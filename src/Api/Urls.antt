-- ===== src/Api/Urls.antt =====
-- web/src/api/urls.ts. A call is a value, so that a page's effects can be read; `urls_request`
-- gives the request that it makes.
pub mod Requests
use bittuly.Prelude.{
  ℕ, Bool, false, Option, none, some, List, [], ◌∷◌, ◌++◌, String, ◌&&◌, if◌then◌else◌, truthy,
  trim, show, template,
}
use bittuly.Api.Client.{Env, Request, Options, api_request, urls_base_url}

pub record ShortenedUrl : Type 0 where
  pub id : ℕ
  pub short_code : String
  pub original_url : String
  pub click_count : ℕ
  pub expires_at : Option String
  pub created_at : String

pub record UrlsPage : Type 0 where
  pub urls : List ShortenedUrl
  pub next_cursor : Option String

pub data UrlsCall : Type 0 where
  create_url : (original_url : String) (expires_at : Option String) → UrlsCall
  get_urls_page : (cursor : Option String) (limit : ℕ) (search : Option String) → UrlsCall
  get_urls : UrlsCall
  delete_url : ℕ → UrlsCall

-- A string that may be null or undefined, in a condition.
abbrev pub is_set : Option String → Bool
is_set none = false
is_set (some s) = truthy s

abbrev plain : String → Options
plain method = record { method = method; body = none; headers = [] }

-- `JSON.stringify` drops `expires_at` where it is undefined.
abbrev expiry_field : Option String → List (String × String)
expiry_field none = []
expiry_field (some t) = ("expires_at", t) ∷ []

abbrev cursor_param : Option String → List (String × String)
cursor_param none = []
cursor_param (some c) = if truthy c then ("cursor", c) ∷ [] else []

abbrev search_param : Option String → List (String × String)
search_param none = []
search_param (some s) = if truthy s && truthy (trim s) then ("search", trim s) ∷ [] else []

-- `params` of `getUrlsPage`: each key is set once, in this order.
unfoldable pub page_params : Option String → ℕ → Option String → List (String × String)
page_params cursor limit search =
    cursor_param cursor ++ (("limit", show limit) ∷ search_param search)

unfoldable pub urls_request : Env → UrlsCall → Request
unfolding page_params api_request urls_base_url
urls_request env (create_url original_url expires_at) =
    api_request (urls_base_url env) "/api/urls/" [] (record {
      method = "POST";
      body = some (("original_url", original_url) ∷ expiry_field expires_at);
      headers = [];
    })
urls_request env (get_urls_page cursor limit search) =
    api_request (urls_base_url env) "/api/urls/" (page_params cursor limit search) (plain "GET")
urls_request env get_urls =
    api_request (urls_base_url env) "/api/urls/" (("limit", "100") ∷ []) (plain "GET")
urls_request env (delete_url id) =
    api_request (urls_base_url env) (template ("/api/urls/" ∷ show id ∷ [])) [] (plain "DELETE")
