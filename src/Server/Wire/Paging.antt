-- ===== src/Server/Wire/Paging.antt =====
-- The dashboard on top of the service: web/src/pages/Dashboard.tsx, web/src/api/urls.ts and
-- services/url-service/src.
use Prim.Native.String
use Prim.Native.String.append
use mathlib.Core.Path.{subst}
use bittuly.Prelude.{
  show, ℕ, suc, length, ◌≡◌, refl, ◌∙◌, ap, sym, true, false, Option, none, some, List, [], ◌∷◌,
  ◌++◌, map, String, template, truthy, arith,
}
use bittuly.Web.Host.{Host}
use bittuly.Api.Client.{Env, resolved, urls_base_url, api_request}
use bittuly.Api.Urls.{UrlsPage, get_urls_page, urls_request, page_params, is_set}
use bittuly.Web.Effect.{calls}
use bittuly.Pages.Dashboard.{first_page, init, run}
use bittuly.Pages.Dashboard.Paging.{IsChain, follow, all_urls, asked, run-pages}
use bittuly.Server.Numbers.{pos, from_str_radix, scan, to_digit}
use bittuly.Server.Urls.{Packages, Page}
use bittuly.Server.Urls.Repository.{cut_page}
use bittuly.Server.Urls.Handlers.{decode_cursor, State, page, get_all_urls}
use bittuly.Server.Urls.Table.{IsTable}
use bittuly.Server.Urls.Paging.{matches, from_cursor-none}
use mathlib.Core.List.{map-append}
use bittuly.Server.Urls.Cuts.{
  cut_pages, later_pages, later_pages-IsLinked, page_urls, page_urls-cut_pages, IsLinked,
}
use bittuly.Server.Urls.Served.{IsServed, cut_page-IsServed}
use bittuly.Server.Urls.Routes.{serve, pagination_params}
use bittuly.Server.Wire.{drop_base, page_to_client, to_client, page_result, ask}

drop_base-append : (b s : String) → drop_base b (String.◌++◌ b s) ≡ s
unfolding drop_base
drop_base-append String.[] s = append.nil s
drop_base-append (String.◌∷◌ c b) s = rw (append.cons c b s) (drop_base-append b s)

module _ (p : Packages) (now : ℕ) (env : Env) (user_id : String) (s : State) where
  -- The call reaches the handler, with the cursor as it stands.
  ask-first :
      ask p now env user_id s (get_urls_page none 20 (some ""))
      ≡ page_result p (
          get_all_urls p s user_id (record { cursor = none; limit = some (pos 20); search = none }))
  unfolding ask urls_request api_request page_params serve pagination_params from_str_radix scan
      to_digit template show get_all_urls
  ask-first = rw (drop_base-append (urls_base_url env) "/api/urls/")

  ask-next :
      (c : String)
      → truthy c ≡ true
      → ask p now env user_id s (get_urls_page (some c) 20 (some ""))
        ≡ page_result p (
            get_all_urls p s user_id
              (record { cursor = some c; limit = some (pos 20); search = none }))
  unfolding ask urls_request api_request page_params serve pagination_params from_str_radix scan
      to_digit template show get_all_urls
  ask-next c h = rw (h, drop_base-append (urls_base_url env) "/api/urls/")

  ask-cursor :
      (cursor : Option String)
      → is_set cursor ≡ true
      → ask p now env user_id s (get_urls_page cursor 20 (some ""))
        ≡ page_result p (
            get_all_urls p s user_id
              (record { cursor = cursor; limit = some (pos 20); search = none }))
  ask-cursor none h = cc
  ask-cursor (some c) h = ask-next c h

  IsServed-head :
      (cursor : Option String) (q : Page) (qs : List Page)
      → IsServed p s user_id (some (pos 20)) none cursor q qs
      → get_all_urls p s user_id (record { cursor = cursor; limit = some (pos 20); search = none })
        ≡ page q
  IsServed-head cursor q [] v = v
  IsServed-head cursor q (r ∷ qs) v = v.0

module _ (p : Packages) where
  to_client-IsChain :
      (q : Page) (qs : List Page)
      → IsLinked q qs
      → IsChain (page_to_client p q) (map (page_to_client p) qs)
  unfolding page_to_client
  to_client-IsChain q [] l = l
  to_client-IsChain q (r ∷ qs) l = (l.0, to_client-IsChain r qs l.1)

  to_client-urls :
      (qs : List Page) → all_urls (map (page_to_client p) qs) ≡ map (to_client p) (page_urls qs)
  unfolding page_to_client
  to_client-urls [] = refl
  to_client-urls (q ∷ qs) =
      ap (λ t. map (to_client p) q.urls ++ t) (to_client-urls qs)
      ∙ sym (map-append (to_client p) q.urls (page_urls qs))

  -- The service answers each call of the dashboard with the next page.
  answers :
      (now : ℕ) (env : Env) (user_id : String) (s : State) (cursor : Option String) (q : Page)
      (qs : List Page)
      → IsServed p s user_id (some (pos 20)) none cursor q qs
      → IsLinked q qs
      → map (ask p now env user_id s) (asked "" (page_to_client p q) (map (page_to_client p) qs))
        ≡ map resolved (map (page_to_client p) qs)
  unfolding page_to_client
  answers now env w s cursor q [] v l = refl
  answers now env w s cursor q (r ∷ qs) v l =
      let asking = ask-cursor p now env w s q.next_cursor l.0 in
      let answer = IsServed-head p now env w s q.next_cursor r qs v.1 in
      ap
        (λ t.
          t ∷ map (ask p now env w s) (asked "" (page_to_client p r) (map (page_to_client p) qs)))
        (asking ∙ ap (page_result p) answer)
      ∙ ap (λ t. resolved (page_to_client p r) ∷ t) (answers now env w s q.next_cursor r qs v.1 l.1)

-- The pages that the service gives to the dashboard after the first.
abbrev pub later : Packages → State → String → List UrlsPage
later p s user_id =
    let found = matches p s.replica.rows user_id none in
    map (page_to_client p) (later_pages (length found) 20 found)

-- Where the replica answers and its table is in order, a dashboard whose first call and whose calls
-- for more are answered by the service, as many as there are pages, ends with no more to load and
-- with the links of the signed-in user in the database, each once and the newest first; and each of
-- the answers is the service's to the call that the dashboard made.
pub run-served :
    (h : Host) (p : Packages) (now : ℕ) (env : Env) (user_id : String) (s : State)
    → IsTable p s.replica
    → s.replica.up ≡ true
    → let serve_call = ask p now env user_id s in
      let (st, out) =
        run h init (
          first_page (serve_call (get_urls_page none 20 (some ""))) ∷ follow (later p s user_id)) in
      (st.urls ≡ map (to_client p) (matches p s.replica.rows user_id none))
      × (st.has_more ≡ false)
      × (map serve_call (calls out) ≡ map resolved (later p s user_id))
unfolding decode_cursor cut_pages later_pages
run-served h p now env w s t up =
    let found = matches p s.replica.rows w none in
    let n = length found in
    let q = cut_page 20 found in
    let qs = later_pages n 20 found in
    let served : IsServed p s w (some (pos 20)) none none q qs =
      subst (λ us. IsServed p s w (some (pos 20)) none none (cut_page 20 us) (later_pages n 20 us))
        (from_cursor-none found)
        (cut_page-IsServed p s w (some (pos 20)) none t up n 19 none none refl refl) in
    let linked : IsLinked q qs = later_pages-IsLinked n 19 found (omega arith) in
    let answer : ask p now env w s (get_urls_page none 20 (some ""))
        ≡ resolved (page_to_client p q) =
      ask-first p now env w s ∙ ap (page_result p) (IsServed-head p now env w s none q qs served) in
    let (urls, over, asking) =
      run-pages h (page_to_client p q) (map (page_to_client p) qs)
        (to_client-IsChain p q qs linked) in
    let all : page_urls (q ∷ qs) ≡ found = page_urls-cut_pages (suc n) 19 found (omega arith) in
    rw answer (
      urls ∙ to_client-urls p (q ∷ qs) ∙ ap (map (to_client p)) all,
      over,
      ap (map (ask p now env w s)) asking ∙ answers p now env w s none q qs served linked,
    )
