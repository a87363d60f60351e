-- ===== src/Pages/Dashboard.antt =====
-- web/src/pages/Dashboard.tsx: the state of the page and its handlers. An event is what the user
-- does, a timer that fires, or the end of a call; `update` gives the state after the handler and
-- what the handler did besides. A handler that awaits a call is two events, so that any other may
-- come between them.
pub mod Render
pub mod Paging
pub mod Waiting
pub mod Links
pub mod Shortening
pub mod Searching
mod Tests
use bittuly.Prelude.{
  ℕ, Bool, true, false, not, ◌&&◌, ◌||◌, Option, none, some, List, [], ◌∷◌, ◌++◌, String, any,
  filter, ◌==◌, if◌then◌else◌, is_some, truthy, trim, str_eq,
}
use bittuly.Web.Effect.{Effect, run_all, call, timeout, focus, toast_error, toast_success}
use bittuly.Web.Host.{Host}
use bittuly.Api.Client.{Result, resolved, rejected, Failure, has_status}
use bittuly.Api.Urls.{
  ShortenedUrl, UrlsPage, UrlsCall, create_url, get_urls_page, delete_url, is_set,
}

-- The variables of `React.useState`, and the search that the debounce timer will set.
pub record State : Type 0 where
  pub urls : List ShortenedUrl
  pub new_ids : List ℕ
  pub input_url : String
  pub expires_at : String
  pub show_expiration : Bool
  pub input_error : Bool
  pub is_shortening : Bool
  pub is_loading_urls : Bool
  pub is_loading_more : Bool
  pub next_cursor : Option String
  pub has_more : Bool
  pub search_query : String
  pub debounced_search : String
  pub debounce : Option String

pub data Event : Type 0 where
  input_changed : String → Event
  expires_changed : String → Event
  add_expiration : Event
  remove_expiration : Event
  search_changed : String → Event
  debounce_fired : Event
  first_page : Result UrlsPage → Event
  load_more : Event
  more_page : Result UrlsPage → Event
  shorten : Event
  created : Result ShortenedUrl → Event
  badge_over : ℕ → Event
  delete : ℕ → Event
  deleted : Result (Unit {0}) → Event
  refetched : Result UrlsPage → Event

abbrev pub Out : Type 0
Out = State × List (Effect UrlsCall Event)

-- The first render, with the effects of the mount.
unfoldable pub init : State
init = record {
  urls = [];
  new_ids = [];
  input_url = "";
  expires_at = "";
  show_expiration = false;
  input_error = false;
  is_shortening = false;
  is_loading_urls = true;
  is_loading_more = false;
  next_cursor = none;
  has_more = false;
  search_query = "";
  debounced_search = "";
  debounce = some "";
}

abbrev pub mount_effects : List (Effect UrlsCall Event)
mount_effects = timeout 300 debounce_fired ∷ call (get_urls_page none 20 (some "")) ∷ []

-- `isValidUrl`.
abbrev is_web : Option String → Bool
is_web none = false
is_web (some p) = str_eq p "http:" || str_eq p "https:"

unfoldable pub is_valid_url : Host → String → Bool
is_valid_url h url = is_web (h.url_protocol url)

-- `Set.has`, `Set.add` and `Set.delete`.
abbrev pub has_id : ℕ → List ℕ → Bool
has_id id ids = any (λ j. j == id) ids

abbrev add_id : ℕ → List ℕ → List ℕ
add_id id ids = if has_id id ids then ids else ids ++ (id ∷ [])

abbrev drop_id : ℕ → List ℕ → List ℕ
drop_id id ids = filter (λ j. not (j == id)) ids

-- The three setters that every page of links goes through, after `urls`.
abbrev with_cursor : UrlsPage → State → State
with_cursor page s = record s {
  next_cursor = page.next_cursor;
  has_more = is_some page.next_cursor;
}

-- The debounce effect: the timer that was set before is cleared.
handle_search : State → String → Out
handle_search s q =
    if str_eq q s.search_query
    then (s, [])
    else (record s { search_query = q; debounce = some q }, timeout 300 debounce_fired ∷ [])

-- `setDebouncedSearch`, and the effect that loads the first page when the search has changed.
fire : State → Option String → Out
fire s none = (s, [])
fire s (some q) = if str_eq q s.debounced_search then (record s { debounce = none }, []) else (
  record s { debounce = none; debounced_search = q; is_loading_urls = true },
  call (get_urls_page none 20 (some q)) ∷ [],
)

first_page_done : State → Result UrlsPage → Out
first_page_done s (resolved page) =
    (with_cursor page (record s { urls = page.urls; is_loading_urls = false }), [])
first_page_done s (rejected e) =
    (record s { is_loading_urls = false }, toast_error "Failed to load URLs." ∷ [])

-- `handleLoadMore` up to its `await`.
handle_load_more : State → Out
handle_load_more s = if not (is_set s.next_cursor) || s.is_loading_more then (s, []) else (
  record s { is_loading_more = true },
  call (get_urls_page s.next_cursor 20 (some s.debounced_search)) ∷ [],
)

more_page_done : State → Result UrlsPage → Out
more_page_done s (resolved page) =
    (with_cursor page (record s { urls = s.urls ++ page.urls; is_loading_more = false }), [])
more_page_done s (rejected e) =
    (record s { is_loading_more = false }, toast_error "Failed to load more links." ∷ [])

abbrev pub something_wrong : String
something_wrong = "Something went wrong. Please try again."

-- `expiresAt ? new Date(expiresAt).toISOString() : undefined`: none where it throws.
abbrev expiry_iso : Host → String → Option (Option String)
expiry_iso h t =
    if truthy t then elim (h.to_iso t) [ none ↦ none | some iso ↦ some (some iso) ] else some none

-- The `try` of `handleShorten`, up to its `await`; the date may already throw.
start_creation : State → String → Option (Option String) → Out
start_creation s url none = (record s { is_shortening = false }, toast_error something_wrong ∷ [])
start_creation s url (some expiry) = (s, call (create_url url expiry) ∷ [])

handle_shorten : Host → State → Out
unfolding is_valid_url start_creation
handle_shorten h s =
    let trimmed = trim s.input_url in
    if not (truthy trimmed) || not (is_valid_url h trimmed)
    then (record s { input_error = true }, focus ∷ [])
    else start_creation (record s { input_error = false; is_shortening = true }) trimmed
        (expiry_iso h s.expires_at)

-- The rest of `handleShorten`.
creation_done : State → Result ShortenedUrl → Out
creation_done s (resolved made) = (
  record s {
    urls = made ∷ s.urls;
    new_ids = add_id made.id s.new_ids;
    input_url = "";
    expires_at = "";
    show_expiration = false;
    is_shortening = false;
  },
  timeout 1000 (badge_over made.id) ∷ [],
)
creation_done s (rejected e) = (
  record s { is_shortening = false },
  toast_error (if has_status 409 e then "You've already shortened this URL." else something_wrong)
      ∷ [],
)

-- `urls.filter((u) => u.id !== id)`.
abbrev pub without : ℕ → List ShortenedUrl → List ShortenedUrl
without id urls = filter (λ (u : ShortenedUrl). not (u.id == id)) urls

handle_delete : State → ℕ → Out
handle_delete s id = (record s { urls = without id s.urls }, call (delete_url id) ∷ [])

-- The rest of `handleDelete`; the list is fetched again with no search.
deletion_done : State → Result (Unit {0}) → Out
deletion_done s (resolved done) = (s, toast_success "Link deleted." ∷ [])
deletion_done s (rejected e) = (
  s,
  toast_error "Failed to delete link. Please try again." ∷ call (get_urls_page none 20 none) ∷ [],
)

refetch_done : State → Result UrlsPage → Out
refetch_done s (resolved page) = (with_cursor page (record s { urls = page.urls }), [])
refetch_done s (rejected e) = (s, [])

unfoldable pub update : Host → State → Event → Out
unfolding handle_search fire first_page_done handle_load_more more_page_done handle_shorten
    creation_done handle_delete deletion_done refetch_done
update h s (input_changed t) = (record s { input_url = t; input_error = false }, [])
update h s (expires_changed t) = (record s { expires_at = t }, [])
update h s add_expiration = (record s { show_expiration = true }, [])
update h s remove_expiration = (record s { expires_at = ""; show_expiration = false }, [])
update h s (search_changed q) = handle_search s q
update h s debounce_fired = fire s s.debounce
update h s (first_page r) = first_page_done s r
update h s load_more = handle_load_more s
update h s (more_page r) = more_page_done s r
update h s shorten = handle_shorten h s
update h s (created r) = creation_done s r
update h s (badge_over id) = (record s { new_ids = drop_id id s.new_ids }, [])
update h s (delete id) = handle_delete s id
update h s (deleted r) = deletion_done s r
update h s (refetched r) = refetch_done s r

-- The state and the effects after several events.
abbrev pub run : Host → State → List Event → Out
run h = run_all (update h)
