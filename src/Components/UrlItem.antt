-- ===== src/Components/UrlItem.antt =====
-- web/src/components/UrlItem.tsx: the state of one link's row, and its handlers.
pub mod Render
pub mod Laws
mod Tests
use bittuly.Prelude.{
  ℕ, Bool, true, false, ◌&&◌, Option, none, some, List, [], ◌∷◌, ◌++◌, String, if◌then◌else◌,
  template,
}
use bittuly.Web.Effect.{Effect, run_all, call, timeout, toast_error, toast_success}
use bittuly.Api.Client.{Env, urls_base_url}
use bittuly.Api.Urls.{ShortenedUrl}

pub record Props : Type 0 where
  pub url : ShortenedUrl
  pub is_new : Bool
  -- Whether an `onDelete` was given.
  pub has_on_delete : Bool

pub record State : Type 0 where
  pub copied : Bool
  pub delete_open : Bool
  pub details_open : Bool

-- `open_details` is the click on the row; `copy_settled` says how the promise of `executeCopy` ends.
pub data Event : Type 0 where
  open_details : Event
  close_details : Event
  details_changed : Bool → Event
  delete_changed : Bool → Event
  link_clicked : Event
  trash_clicked : Event
  ask_delete : Event
  confirm_delete : Event
  copy : Event
  copy_settled : Bool → Event
  copied_over : Event

-- What the handlers ask of the browser and of the parent.
pub data ItemCall : Type 0 where
  write_text : String → ItemCall
  append_text_area : String → ItemCall
  focus_text_area : ItemCall
  select_text_area : ItemCall
  exec_copy : ItemCall
  log_error : ItemCall
  remove_text_area : ItemCall
  on_delete : ℕ → ItemCall

-- The browser: `navigator.clipboard`, `isSecureContext`, and what `execCommand("copy")` gives, or
-- none where it throws.
pub record Browser : Type 0 where
  pub has_clipboard : Bool
  pub is_secure_context : Bool
  pub exec_command : Option Bool

-- A promise that a handler gets: still open, or settled with success or failure.
pub data Copying : Type 0 where
  writing : Copying
  settled : Bool → Copying

abbrev pub init : State
init = record { copied = false; delete_open = false; details_open = false }

unfoldable pub short_url : Env → ShortenedUrl → String
short_url env u = template (urls_base_url env ∷ "/" ∷ u.short_code ∷ [])

-- The `try` of the fallback, with its `finally`.
abbrev fall_back : Option Bool → List ItemCall × Copying
fall_back (some true) = (exec_copy ∷ remove_text_area ∷ [], settled true)
fall_back (some false) = (exec_copy ∷ log_error ∷ remove_text_area ∷ [], settled false)
fall_back none = (exec_copy ∷ log_error ∷ remove_text_area ∷ [], settled false)

-- `executeCopy`: what it does to the document, and its promise.
unfoldable pub execute_copy : Browser → String → List ItemCall × Copying
execute_copy b text =
    if b.has_clipboard && b.is_secure_context
    then (write_text text ∷ [], writing)
    else let (acts, promise) = fall_back b.exec_command in
      (append_text_area text ∷ focus_text_area ∷ select_text_area ∷ acts, promise)

abbrev as_calls : List ItemCall → List (Effect ItemCall Event)
as_calls [] = []
as_calls (c ∷ cs) = call c ∷ as_calls cs

-- `onDelete?.(url.id)`.
abbrev delete_call : Props → List (Effect ItemCall Event)
delete_call p = if p.has_on_delete then call (on_delete p.url.id) ∷ [] else []

-- The two continuations of `handleCopy`.
copy_done : State → Bool → State × List (Effect ItemCall Event)
copy_done s true = (
  record s { copied = true },
  toast_success "Copied to clipboard!" ∷ timeout 2000 copied_over ∷ [],
)
copy_done s false = (s, toast_error "Failed to copy shortcode" ∷ [])

unfoldable pub update : Env → Browser → Props → State → Event → State × List (Effect ItemCall Event)
unfolding copy_done execute_copy
update env b p s open_details = (record s { details_open = true }, [])
update env b p s close_details = (record s { details_open = false }, [])
update env b p s (details_changed o) = (record s { details_open = o }, [])
update env b p s (delete_changed o) = (record s { delete_open = o }, [])
update env b p s link_clicked = (s, [])
update env b p s trash_clicked = (s, [])
update env b p s ask_delete = (record s { delete_open = true }, [])
update env b p s confirm_delete = (s, delete_call p)
update env b p s copy = (s, as_calls (execute_copy b (short_url env p.url)).0)
update env b p s (copy_settled ok) = copy_done s ok
update env b p s copied_over = (record s { copied = false }, [])

abbrev pub run : Env → Browser → Props → State → List Event → State × List (Effect ItemCall Event)
run env b p = run_all (update env b p)
