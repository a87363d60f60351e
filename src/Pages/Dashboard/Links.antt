-- ===== src/Pages/Dashboard/Links.antt =====
-- What the handlers do to the links on the page.
use bittuly.Prelude.{
  ap, All-append, All-filter, Bool, ℕ, ◌≡◌, refl, ◌≢◌, true, false, not, none, some, List, [], ◌∷◌,
  ◌++◌, String, All, filter, inl, inr, ◌==◌, ==_iff, Bool-cases, if◌then◌else◌, is_some, str_eq_iff,
  arith,
}
use bittuly.Web.Effect.{run_all, run_all-invariant, calls}
use bittuly.Web.Host.{Host}
use bittuly.Api.Client.{Result, resolved, rejected, Failure}
use bittuly.Api.Urls.{ShortenedUrl, UrlsPage, get_urls_page, delete_url}
use bittuly.Pages.Dashboard.{
  State, Event, input_changed, expires_changed, add_expiration, remove_expiration, search_changed,
  load_more, debounce_fired, first_page, more_page, shorten, created, badge_over, delete, deleted,
  refetched, init, has_id, without, update, run,
}

-- "Load more" stands on the page exactly when there is a cursor to load from.
abbrev pub HasCursor : State → Type 0
HasCursor s = s.has_more ≡ is_some s.next_cursor

update-HasCursor : (h : Host) (s : State) (e : Event) → HasCursor s → HasCursor (update h s e).0
unfolding update
update-HasCursor h s e c = ground arith

-- After any events in any order, the page says that there is more exactly when it has a cursor.
pub run-HasCursor : (h : Host) (es : List Event) → HasCursor (run h init es).0
unfolding init
run-HasCursor h es = run_all-invariant (update h) HasCursor (update-HasCursor h) init es refl

without-All :
    (id : ℕ) (us : List ShortenedUrl) → All (λ (u : ShortenedUrl). u.id ≢ id) (without id us)
without-All id [] = tt
without-All id (u ∷ us) = elim (Bool-cases (u.id == id)) [
  | inl e ↦ rw e (without-All id us)
  | inr e ↦ rw e ((λ p. cc (e, (==_iff u.id id).1 p)), without-All id us)
]

filter-without :
    (id : ℕ) (keep : ShortenedUrl → Bool) (us : List ShortenedUrl)
    → ((u : ShortenedUrl) → u.id ≡ id → keep u ≡ false)
    → filter keep (without id us) ≡ filter keep us
filter-without id keep [] h = refl
filter-without id keep (u ∷ us) h = elim (Bool-cases (u.id == id)) [
  | inl e ↦ rw (e, h u ((==_iff u.id id).0 e)) (filter-without id keep us h)
  | inr e ↦ rw e (ap (λ vs. if keep u then u ∷ vs else vs) (filter-without id keep us h))
]

-- The links that an event brings to the page.
abbrev pub brought_by : Result UrlsPage → List ShortenedUrl
brought_by (resolved page) = page.urls
brought_by (rejected e) = []

abbrev pub made_by : Result ShortenedUrl → List ShortenedUrl
made_by (resolved u) = u ∷ []
made_by (rejected e) = []

abbrev pub brought : Event → List ShortenedUrl
brought (first_page r) = brought_by r
brought (more_page r) = brought_by r
brought (refetched r) = brought_by r
brought (created r) = made_by r
brought e = []

-- No link of the list has the id.
abbrev pub IsWithout : ℕ → List ShortenedUrl → Type 0
IsWithout id us = All (λ (u : ShortenedUrl). u.id ≢ id) us

update-IsWithout :
    (h : Host) (s : State) (e : Event) (id : ℕ)
    → IsWithout id (brought e)
    → IsWithout id s.urls
    → IsWithout id (update h s e).0.urls
unfolding update
update-IsWithout h s (input_changed t) id b w = w
update-IsWithout h s (expires_changed t) id b w = w
update-IsWithout h s add_expiration id b w = w
update-IsWithout h s remove_expiration id b w = w
update-IsWithout h s (search_changed q) id b w = ground (arith, w)
update-IsWithout h s debounce_fired id b w = ground (arith, w)
update-IsWithout h s (first_page (resolved page)) id b w = b
update-IsWithout h s (first_page (rejected e)) id b w = w
update-IsWithout h s load_more id b w = ground (arith, w)
update-IsWithout h s (more_page (resolved page)) id b w = All-append _ s.urls page.urls w b
update-IsWithout h s (more_page (rejected e)) id b w = w
update-IsWithout h s shorten id b w = ground (arith, w)
update-IsWithout h s (created (resolved u)) id b w = (b.0, w)
update-IsWithout h s (created (rejected e)) id b w = w
update-IsWithout h s (badge_over j) id b w = w
update-IsWithout h s (delete j) id b w =
    All-filter _ (λ (u : ShortenedUrl). not (u.id == j)) s.urls w
update-IsWithout h s (deleted (resolved done)) id b w = w
update-IsWithout h s (deleted (rejected e)) id b w = w
update-IsWithout h s (refetched (resolved page)) id b w = b
update-IsWithout h s (refetched (rejected e)) id b w = w

run-IsWithout :
    (h : Host) (s : State) (es : List Event) (id : ℕ)
    → All (λ e. IsWithout id (brought e)) es
    → IsWithout id s.urls
    → IsWithout id (run h s es).0.urls
unfolding run_all
run-IsWithout h s [] id bs w = w
run-IsWithout h s (e ∷ es) id bs w =
    run-IsWithout h (update h s e).0 es id bs.1 (update-IsWithout h s e id bs.0 w)

-- Deleting a link makes one call, to delete its id. Any selection of the other links stays as it was,
-- in its order. No link of that id is on the page from then on, through whatever events, for as long
-- as no answer of the server brings one.
pub delete-update :
    (h : Host) (s : State) (id : ℕ) (keep : ShortenedUrl → Bool) (es : List Event)
    → ((u : ShortenedUrl) → u.id ≡ id → keep u ≡ false)
    → All (λ e. IsWithout id (brought e)) es
    → let (s', out) = update h s (delete id) in
      (calls out ≡ delete_url id ∷ [])
      × (filter keep s'.urls ≡ filter keep s.urls)
      × IsWithout id (run h s (delete id ∷ es)).0.urls
unfolding update run_all
delete-update h s id keep es other bs = (
  refl,
  filter-without id keep s.urls other,
  run-IsWithout h (update h s (delete id)).0 es id bs (without-All id s.urls),
)

-- Where the call to delete fails, the page fetches its links again with no search: whatever the
-- search is, the page then shows an unfiltered first page under that search.
pub deletion_failure-search :
    (h : Host) (s : State) (e : Failure) (page : UrlsPage)
    → let (s', out) = run h s (deleted (rejected e) ∷ refetched (resolved page) ∷ []) in
      (calls out ≡ get_urls_page none 20 none ∷ [])
      × (s'.urls ≡ page.urls)
      × (s'.search_query ≡ s.search_query)
      × (s'.debounced_search ≡ s.debounced_search)
unfolding run_all update
deletion_failure-search h s e page = (refl, refl, refl, refl)

-- A page asked for under an old search is not dropped: where the search changes while "load more"
-- is under way and the answer for the new search comes first, the links of the old search are
-- appended to those of the new one, and the cursor is that of the old search.
pub late_page-mixes :
    (h : Host) (s : State) (q : String) (new old : UrlsPage)
    → s.debounce ≡ some q
    → s.debounced_search ≢ q
    → let (s', out) =
        run h s (debounce_fired ∷ first_page (resolved new) ∷ more_page (resolved old) ∷ []) in
      (calls out ≡ get_urls_page none 20 (some q) ∷ [])
      × (s'.debounced_search ≡ q)
      × (s'.urls ≡ new.urls ++ old.urls)
      × (s'.next_cursor ≡ old.next_cursor)
unfolding run_all update
late_page-mixes h s q new old d n = ground (arith, str_eq_iff q s.debounced_search)

has_id-add : (id : ℕ) (ids : List ℕ) → has_id id (ids ++ (id ∷ [])) ≡ true
has_id-add id [] = ground arith
has_id-add id (j ∷ ids) = ground (arith, has_id-add id ids)

has_id-drop : (id : ℕ) (ids : List ℕ) → has_id id (filter (λ j. not (j == id)) ids) ≡ false
has_id-drop id [] = refl
has_id-drop id (j ∷ ids) = ground (arith, has_id-drop id ids)

-- A created link stands first and is marked new, the form is empty again and the cursor is the one
-- before; when its timer fires the mark is gone, and the links are as they were.
pub created-badge :
    (h : Host) (s : State) (u : ShortenedUrl)
    → let s' = (update h s (created (resolved u))).0 in
      let s'' = (update h s' (badge_over u.id)).0 in
      (s'.urls ≡ u ∷ s.urls)
      × (has_id u.id s'.new_ids ≡ true)
      × (s'.input_url ≡ "")
      × (s'.is_shortening ≡ false)
      × (s'.next_cursor ≡ s.next_cursor)
      × (has_id u.id s''.new_ids ≡ false)
      × (s''.urls ≡ s'.urls)
unfolding update
created-badge h s u = ground (
  arith,
  has_id-add u.id s.new_ids,
  has_id-drop u.id (if has_id u.id s.new_ids then s.new_ids else s.new_ids ++ (u.id ∷ [])),
)
