-- ===== src/Pages/Dashboard/Paging.antt =====
-- Loading page after page shows what the server has.
use mathlib.Core.List.{append_assoc, append-nil}
use bittuly.Prelude.{
  ◌≡◌, refl, ◌∙◌, sym, ap, true, false, none, some, List, [], ◌∷◌, ◌++◌, String, is_some, arith,
}
use bittuly.Web.Effect.{run_all, calls, calls-append}
use bittuly.Web.Host.{Host}
use bittuly.Api.Client.{resolved}
use bittuly.Api.Urls.{ShortenedUrl, UrlsPage, UrlsCall, get_urls_page, is_set}
use bittuly.Pages.Dashboard.{State, Event, first_page, load_more, more_page, init, update, run}

-- The pages that a server gives, each under the cursor of the one before; the last has none.
abbrev pub IsChain : UrlsPage → List UrlsPage → Type 0
IsChain p [] = p.next_cursor ≡ none
IsChain p (q ∷ qs) = (is_set p.next_cursor ≡ true) × IsChain q qs

-- The user asks for more and the server answers, for each page.
abbrev pub follow : List UrlsPage → List Event
follow [] = []
follow (q ∷ qs) = load_more ∷ more_page (resolved q) ∷ follow qs

-- The calls that a reader of the chain makes.
abbrev pub asked : String → UrlsPage → List UrlsPage → List UrlsCall
asked search p [] = []
asked search p (q ∷ qs) = get_urls_page p.next_cursor 20 (some search) ∷ asked search q qs

abbrev pub all_urls : List UrlsPage → List ShortenedUrl
all_urls [] = []
all_urls (p ∷ ps) = p.urls ++ all_urls ps

record IsAt (s : State) (p : UrlsPage) : Type 0 where
  cursor : s.next_cursor ≡ p.next_cursor
  more : s.has_more ≡ is_some p.next_cursor
  idle : s.is_loading_more ≡ false

-- One round of the chain.
load_more-IsAt :
    (h : Host) (s : State) (p q : UrlsPage)
    → IsAt s p
    → is_set p.next_cursor ≡ true
    → let (s', out) = run h s (load_more ∷ more_page (resolved q) ∷ []) in
      IsAt s' q
      × (s'.urls ≡ s.urls ++ q.urls)
      × (s'.debounced_search ≡ s.debounced_search)
      × (calls out ≡ get_urls_page p.next_cursor 20 (some s.debounced_search) ∷ [])
unfolding run_all update
load_more-IsAt h s p q a c = (ground arith, ground arith, ground arith, ground arith)

run-two :
    (h : Host) (s : State) (e f : Event) (es : List Event)
    → let (s', out) = run h s (e ∷ f ∷ []) in
      let (s'', later) = run h s' es in
      ((run h s (e ∷ f ∷ es)).0 ≡ s'') × (calls (run h s (e ∷ f ∷ es)).1 ≡ calls out ++ calls later)
unfolding run_all
run-two h s e f es = (refl, simp (calls-append, append-nil, append_assoc))

follow-all :
    (h : Host) (s : State) (p : UrlsPage) (qs : List UrlsPage)
    → IsAt s p
    → IsChain p qs
    → let (s', out) = run h s (follow qs) in
      (s'.urls ≡ s.urls ++ all_urls qs)
      × (s'.has_more ≡ false)
      × (calls out ≡ asked s.debounced_search p qs)
unfolding run_all
follow-all h s p [] a c = (sym (append-nil s.urls), ground arith, refl)
follow-all h s p (q ∷ qs) a c =
    let s' = (run h s (load_more ∷ more_page (resolved q) ∷ [])).0 in
    let (at, grown, same, asking) = load_more-IsAt h s p q a c.0 in
    let (urls, over, rest) = follow-all h s' q qs at c.1 in
    let (state, out) = run-two h s load_more (more_page (resolved q)) (follow qs) in
    (
      urls ∙ ap (λ t. t ++ all_urls qs) grown ∙ append_assoc s.urls q.urls (all_urls qs),
      over,
      out ∙ rw (asking, rest, same),
    )

-- Where the server gives the links of a user in a chain of pages, loading the first page and asking
-- for more until the button is gone shows exactly the links of all pages, in the server's order;
-- each call asks with the cursor of the page before.
pub run-pages :
    (h : Host) (p : UrlsPage) (qs : List UrlsPage)
    → IsChain p qs
    → let (s, out) = run h init (first_page (resolved p) ∷ follow qs) in
      (s.urls ≡ all_urls (p ∷ qs)) × (s.has_more ≡ false) × (calls out ≡ asked "" p qs)
unfolding run_all update init
run-pages h p qs c = follow-all h (update h init (first_page (resolved p))).0 p qs (ground arith) c
