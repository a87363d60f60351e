-- ===== src/Pages/Dashboard/Render.antt =====
-- web/src/pages/Dashboard.tsx: what the page shows. Constant class names are left out; a class that
-- the state chooses is kept.
use bittuly.Prelude.{◌≡◌, refl, false, not, List, [], ◌∷◌, length, show, ◌==◌, if◌then◌else◌, arith}
use bittuly.Web.View.{
  prop, flag, on, on_text, View, nothing, text, num, el, ◌▸◌, shown_if, each, leaf, clicks, submits,
  can_submit,
}
use bittuly.Api.Urls.{ShortenedUrl}
use bittuly.Pages.Dashboard.{
  State, Event, input_changed, expires_changed, add_expiration, remove_expiration, search_changed,
  load_more, shorten, delete, has_id,
}

abbrev V : Type 0
V = View Event

shorten_button : State → V
shorten_button s =
    el "Button" (prop "type" "submit" ∷ flag "disabled" s.is_shortening ∷ [])
      (if s.is_shortening then leaf "Spinner" else leaf "Plus" ▸ text "Shorten")

input_row : State → V
unfolding shorten_button
input_row s = el "div" [] (
    el "div" [] (
      el "Input"
        (prop "placeholder" "Paste a long URL here..."
          ∷ prop "value" s.input_url
          ∷ on_text "onChange" input_changed
          ∷ flag "aria-invalid" s.input_error
          ∷ prop "className" (if s.input_error then "animate-shake" else "")
          ∷ [])
        nothing
      ▸ shown_if s.input_error (el "p" [] (text "Please enter a valid URL.")))
    ▸ shorten_button s)

expiration : State → V
expiration s =
    if s.show_expiration
    then el "div" [] (
        leaf "Timer"
        ▸ el "span" [] (text "Expires at:")
        ▸ el "Input"
            (prop "type" "datetime-local"
              ∷ prop "value" s.expires_at
              ∷ on_text "onChange" expires_changed
              ∷ [])
            nothing
        ▸ el "Button"
            (prop "type" "button"
              ∷ prop "variant" "ghost"
              ∷ prop "size" "sm"
              ∷ on "onClick" remove_expiration
              ∷ [])
            (text "Remove"))
    else el "div" [] (
        el "Button"
          (prop "type" "button"
            ∷ prop "variant" "link"
            ∷ prop "size" "sm"
            ∷ on "onClick" add_expiration
            ∷ [])
          (text "+ Add expiration time"))

input_card : State → V
unfolding input_row expiration
input_card s = el "div" [] (
    el "p" [] (text "Shorten a new URL")
    ▸ el "form" (on "onSubmit" shorten ∷ []) (input_row s ▸ expiration s))

list_heading : State → V
list_heading s = el "div" [] (
    el "div" [] (
      el "h2" [] (text "Your links")
      ▸ shown_if (not s.is_loading_urls)
          (el "Badge" (prop "variant" "secondary" ∷ []) (num (length s.urls))))
    ▸ el "div" [] (
        leaf "Search"
        ▸ el "Input"
            (prop "placeholder" "Search links..."
              ∷ prop "value" s.search_query
              ∷ on_text "onChange" search_changed
              ∷ [])
            nothing))

-- The link that the component gets is named by its id; its `onDelete` is called with that id
-- (Components/UrlItem).
url_item : State → ShortenedUrl → V
url_item s u =
    el "UrlItem"
      (prop "key" (show u.id)
        ∷ prop "url" (show u.id)
        ∷ flag "isNew" (has_id u.id s.new_ids)
        ∷ on "onDelete" (delete u.id)
        ∷ [])
      nothing

load_more_button : State → V
load_more_button s =
    el "Button"
      (prop "variant" "outline" ∷ on "onClick" load_more ∷ flag "disabled" s.is_loading_more ∷ [])
      ((if s.is_loading_more then leaf "Spinner" else leaf "ChevronsDown")
        ▸ text (if s.is_loading_more then "Loading…" else "Load more"))

link_list : State → V
unfolding url_item load_more_button
link_list s =
    if s.is_loading_urls
    then el "div" [] (leaf "Spinner")
    else if length s.urls == 0
    then el "div" [] (
        leaf "Link2"
        ▸ el "div" [] (
            el "p" [] (text "No links yet.")
            ▸ el "p" [] (text "Paste a URL above to get started.")))
    else el "div" []
        (each (url_item s) s.urls ▸ shown_if s.has_more (el "div" [] (load_more_button s)))

unfoldable pub view : State → V
unfolding input_card list_heading link_list
view s =
    el "AppLayout" (prop "title" "My Links" ∷ [])
      (el "div" [] (input_card s ▸ el "div" [] (list_heading s ▸ link_list s)))

clicks-items : (s : State) (us : List ShortenedUrl) → clicks (each (url_item s) us) ≡ []
unfolding url_item
clicks-items s [] = refl
clicks-items s (u ∷ us) = clicks-items s us

submits-items : (s : State) (us : List ShortenedUrl) → submits (each (url_item s) us) ≡ []
unfolding url_item
submits-items s [] = refl
submits-items s (u ∷ us) = submits-items s us

can_submit-items : (s : State) (us : List ShortenedUrl) → can_submit (each (url_item s) us) ≡ false
unfolding url_item
can_submit-items s [] = refl
can_submit-items s (u ∷ us) = can_submit-items s us

-- The form can be submitted exactly while no creation is under way.
pub view-submits : (s : State) → submits (view s) ≡ (if s.is_shortening then [] else shorten ∷ [])
unfolding view
view-submits s = ground (arith, submits-items s s.urls)
