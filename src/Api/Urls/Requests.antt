-- ===== src/Api/Urls/Requests.antt =====
-- What the requests of the client say to the server.
use text.Mathlib.TextLemmas.{append_cancel_left, append_cancel_right}
use bittuly.Prelude.{
  trim-trim, truthy-trim, read-show, read, ℕ, ◌≡◌, ◌≢◌, refl, ap, sym, ◌∙◌, Option, some, ◌∷◌, ◌++◌,
  String, truthy, trim, show, template, arith, Bool-cases, inl, inr,
}
use bittuly.Api.Client.{Env, urls_base_url, api_request}
use bittuly.Api.Urls.{
  get_urls_page, delete_url, plain, cursor_param, search_param, page_params, urls_request,
}

search_param-trim : (q : String) → search_param (some q) ≡ search_param (some (trim q))
search_param-trim q = elim (Bool-cases (truthy (trim q))) [
  | inl e ↦ rw (trim-trim q, e, truthy-trim q e) refl
  | inr e ↦ ground (arith, e, trim-trim q)
]

-- Spaces around a search, or nothing but spaces, make no difference to the request.
pub search-trim :
    (env : Env) (cursor : Option String) (limit : ℕ) (q : String)
    → urls_request env (get_urls_page cursor limit (some q))
      ≡ urls_request env (get_urls_page cursor limit (some (trim q)))
unfolding urls_request page_params
search-trim env cursor limit q =
    ap
      (λ ps.
        api_request (urls_base_url env) "/api/urls/"
          (cursor_param cursor ++ (("limit", show limit) ∷ ps)) (plain "GET"))
      (search_param-trim q)

-- The requests that delete two different links go to different URLs.
pub delete_url-id :
    (env : Env) (i j : ℕ)
    → i ≢ j
    → (urls_request env (delete_url i)).url ≢ (urls_request env (delete_url j)).url
unfolding urls_request template
delete_url-id env i j n e =
    let ends = append_cancel_left _ _ _ (append_cancel_right _ _ _ (append_cancel_left _ _ _ e)) in
    n (sym (read-show i) ∙ ap (read 0) (append_cancel_right _ _ _ ends) ∙ read-show j)
