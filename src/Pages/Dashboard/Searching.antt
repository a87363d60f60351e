-- ===== src/Pages/Dashboard/Searching.antt =====
-- The search field: its text is asked for when the typing pauses.
use mathlib.Core.List.{append-nil}
use mathlib.Core.Path.{ap₂}
use bittuly.Prelude.{
  ◌≡◌, refl, sym, ap, ◌∙◌, Option, none, some, List, [], ◌∷◌, ◌++◌, String, if◌then◌else◌, str_eq,
  str_eq_iff, arith, Bool-cases, inl, inr,
}
use bittuly.Web.Effect.{run_all, run_all-invariant, calls, calls-append}
use bittuly.Web.Host.{Host}
use bittuly.Api.Urls.{UrlsCall, get_urls_page}
use bittuly.Pages.Dashboard.{
  State, Event, search_changed, debounce_fired, init, handle_search, fire, update, run,
}

-- What the debounced search will be, once no timer is set.
abbrev pending : State → String
pending s = elim s.debounce [ none ↦ s.debounced_search | some q ↦ q ]

abbrev pub IsDebounced : State → Type 0
IsDebounced s = pending s ≡ s.search_query

-- The timer, for the search that it has.
fire-asks :
    (s : State) (o : Option String)
    → elim o [ none ↦ s.debounced_search | some q ↦ q ] ≡ s.search_query
    → let (s', out) = fire s o in
      (calls out ≡ (
        if str_eq s.search_query s.debounced_search
        then []
        else get_urls_page none 20 (some s.search_query) ∷ []))
      × (s'.debounced_search ≡ s.search_query)
unfolding fire
fire-asks s none k =
    rw (← k, (str_eq_iff s.debounced_search s.debounced_search).1 refl) (refl, refl)
fire-asks s (some q) k = elim (Bool-cases (str_eq q s.debounced_search)) [
  | inl e ↦ rw (← k, e) (refl, sym ((str_eq_iff q s.debounced_search).0 e))
  | inr e ↦ rw (← k, e) (refl, refl)
]

fire-IsDebounced :
    (s : State) (o : Option String)
    → s.debounce ≡ o
    → elim o [ none ↦ s.debounced_search | some q ↦ q ] ≡ s.search_query
    → IsDebounced (fire s o).0
unfolding fire
fire-IsDebounced s none e k = ground arith
fire-IsDebounced s (some q) e k = elim (Bool-cases (str_eq q s.debounced_search)) [
  | inl d ↦ rw d (sym ((str_eq_iff q s.debounced_search).0 d) ∙ k)
  | inr d ↦ rw d k
]

update-IsDebounced :
    (h : Host) (s : State) (e : Event) → IsDebounced s → IsDebounced (update h s e).0
unfolding update
update-IsDebounced h s debounce_fired k = fire-IsDebounced s s.debounce refl k
update-IsDebounced h s e k = ground arith

run-IsDebounced : (h : Host) (es : List Event) → IsDebounced (run h init es).0
unfolding init
run-IsDebounced h es = run_all-invariant (update h) IsDebounced (update-IsDebounced h) init es refl

-- The text that stands in the field after some typing, and then the timer.
abbrev pub last_text : String → List String → String
last_text t [] = t
last_text t (q ∷ qs) = last_text q qs

-- What is asked for where the list was asked for with one text, and is to show another.
abbrev pub asked : String → String → List UrlsCall
asked old q = if str_eq q old then [] else get_urls_page none 20 (some q) ∷ []

abbrev pub typing : List String → List Event
typing [] = debounce_fired ∷ []
typing (q ∷ qs) = search_changed q ∷ typing qs

type_one :
    (h : Host) (s : State) (q : String)
    → IsDebounced s
    → let (s', out) = update h s (search_changed q) in
      IsDebounced s'
      × (s'.search_query ≡ q)
      × (s'.debounced_search ≡ s.debounced_search)
      × (calls out ≡ [])
unfolding update
type_one h s q k = elim (Bool-cases (str_eq q s.search_query)) [
  | inl e ↦ unfold handle_search in rw e (k, sym ((str_eq_iff q s.search_query).0 e), refl, refl)
  | inr e ↦ unfold handle_search in rw e (refl, refl, refl, refl)
]

typing-calls :
    (h : Host) (s : State) (qs : List String)
    → IsDebounced s
    → let (s', out) = run h s (typing qs) in
      let q = last_text s.search_query qs in
      (calls out ≡ asked s.debounced_search q) × (s'.debounced_search ≡ q)
unfolding run_all
typing-calls h s [] k =
    let (asks, kept) = fire-asks s s.debounce k in
    unfold update in (ap calls (append-nil (fire s s.debounce).1) ∙ asks, kept)
typing-calls h s (q ∷ qs) k =
    let s' = (update h s (search_changed q)).0 in
    let (k', typed, same, quiet) = type_one h s q k in
    let (asks, kept) = typing-calls h s' qs k' in
    (
      calls-append (update h s (search_changed q)).1 (run h s' (typing qs)).1
          ∙ ap (λ cs. cs ++ calls (run h s' (typing qs)).1) quiet
          ∙ asks
          ∙ ap₂ (λ old t. asked old (last_text t qs)) same typed,
      kept ∙ ap (λ t. last_text t qs) typed,
    )

-- After any events, typing in the search field asks for nothing while it goes on, however many keys
-- are pressed. When it pauses, the first page is asked for once with the last text, or not at all if
-- the list was asked for with that text already; the search is then the text in the field.
pub run-typing :
    (h : Host) (es : List Event) (qs : List String)
    → let s = (run h init es).0 in
      let (s', out) = run h s (typing qs) in
      let q = last_text s.search_query qs in
      (calls out ≡ asked s.debounced_search q) × (s'.debounced_search ≡ q)
run-typing h es qs = typing-calls h (run h init es).0 qs (run-IsDebounced h es)
