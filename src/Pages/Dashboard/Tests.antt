-- ===== src/Pages/Dashboard/Tests.antt =====
-- The theorems on the dashboard at concrete inputs.
use bittuly.Prelude.{
  filter, ◌==◌, ◌↔◌, length, ◌≤◌, String, Option, ◌≡◌, refl, true, false, none, some, [], ◌∷◌, ◌++◌,
  trim, truthy, arith,
}
use bittuly.Web.Effect.{calls}
use bittuly.Api.Client.{resolved, rejected, network}
use bittuly.Api.Urls.{ShortenedUrl, create_url, get_urls_page, delete_url}
use bittuly.Samples.{host, first, last}
use bittuly.Pages.Dashboard.{
  State, debounce_fired, first_page, load_more, more_page, shorten, delete, deleted, init, update,
  run,
}
use bittuly.Pages.Dashboard.Links.{IsWithout, delete-update, late_page-mixes}
use bittuly.Pages.Dashboard.Shortening.{IsWeb, shorten-calls}
use bittuly.Pages.Dashboard.Paging.{follow, asked, all_urls, run-pages}
use bittuly.Pages.Dashboard.Searching
use bittuly.Pages.Dashboard.Searching.{last_text, typing, run-typing}
use bittuly.Pages.Dashboard.Waiting.{
  System, Reach, here, next, start, after, IsSingle, Reach-IsSingle,
}

run-pages_example :
    let (s, out) = run host init (first_page (resolved first) ∷ follow (last ∷ [])) in
    (s.urls ≡ all_urls (first ∷ last ∷ []))
    × (s.has_more ≡ false)
    × (calls out ≡ asked "" first (last ∷ []))
run-pages_example = run-pages host first (last ∷ []) (refl, refl)

-- The page after a first page, a press of "load more" and its answer.
abbrev loading : System
loading = after host (after host start (first_page (resolved first))) load_more

answered : Reach host (after host loading (more_page (resolved last)))
unfolding after update init
answered =
    next (next (next here (first_page (resolved first)) tt) load_more tt)
      (more_page (resolved last)) (omega arith)

Reach-IsSingle_example : IsSingle (after host loading (more_page (resolved last)))
Reach-IsSingle_example =
    Reach-IsSingle host (after host loading (more_page (resolved last))) answered

-- The page with the links of the first page, some text in the form and a search typed.
abbrev filled : State
filled = record {
  urls = first.urls;
  new_ids = [];
  input_url = " https://a.example ";
  expires_at = "";
  show_expiration = false;
  input_error = false;
  is_shortening = false;
  is_loading_urls = false;
  is_loading_more = true;
  next_cursor = some "c1";
  has_more = true;
  search_query = "a";
  debounced_search = "";
  debounce = some "a";
}

-- Link 3 is deleted, more links come, and the call fails.
delete-update_example :
    let (s', out) = update host filled (delete 3) in
    (calls out ≡ delete_url 3 ∷ [])
    × (filter (λ (u : ShortenedUrl). u.id == 2) s'.urls
        ≡ filter (λ (u : ShortenedUrl). u.id == 2) filled.urls)
    × IsWithout 3
        (run host filled
          (delete 3 ∷ more_page (resolved last) ∷ deleted (rejected network) ∷ [])).0.urls
delete-update_example =
    delete-update host filled 3 (λ u. u.id == 2)
      (more_page (resolved last) ∷ deleted (rejected network) ∷ []) (λ u e. rw e refl) (omega arith)

late_page-mixes_example :
    let (s', out) =
      run host filled
        (debounce_fired ∷ first_page (resolved last) ∷ more_page (resolved first) ∷ []) in
    (calls out ≡ get_urls_page none 20 (some "a") ∷ [])
    × (s'.debounced_search ≡ "a")
    × (s'.urls ≡ last.urls ++ first.urls)
    × (s'.next_cursor ≡ some "c1")
late_page-mixes_example = late_page-mixes host filled "a" last first refl (λ p. cc)

abbrev no_expiry : Option String
no_expiry = none

shorten-calls_example :
    let t = trim filled.input_url in
    let (s', out) = update host filled shorten in
    ((calls out ≡ create_url t none ∷ [])
      ↔ ((truthy t ≡ true) × IsWeb (host.url_protocol t) × (some no_expiry ≡ some none)))
    × ((s'.input_error ≡ false) ↔ ((truthy t ≡ true) × IsWeb (host.url_protocol t)))
    × (length (calls out) ≤ 1)
shorten-calls_example = shorten-calls host filled none

-- Three keys, of which the last two come back to the text before.
run-typing_example :
    let s = (run host init (first_page (resolved first) ∷ [])).0 in
    let (s', out) = run host s (typing ("a" ∷ "ab" ∷ "a" ∷ [])) in
    let q = last_text s.search_query ("a" ∷ "ab" ∷ "a" ∷ []) in
    (calls out ≡ Searching.asked s.debounced_search q) × (s'.debounced_search ≡ q)
run-typing_example = run-typing host (first_page (resolved first) ∷ []) ("a" ∷ "ab" ∷ "a" ∷ [])
