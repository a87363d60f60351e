-- ===== src/Pages/Profile.antt =====
-- web/src/pages/Profile.tsx: the state of the page, its handlers and what it shows. Constant class
-- names are left out. The user is the provider's.
pub mod Laws
use bittuly.Prelude.{
  ℕ, Bool, true, false, Option, none, some, List, [], ◌∷◌, ◌++◌, String, if◌then◌else◌, length,
}
use bittuly.Web.Effect.{Effect, run_all, call, toast_error, toast_success, set_item, set_user}
use bittuly.Web.Host.{Host}
use bittuly.Web.View.{Attr, prop, flag, on, on_text, View, nothing, text, num, el, seq, ◌▸◌, leaf}
use bittuly.Api.Client.{Result, resolved, rejected}
use bittuly.Api.Auth.{User, AuthCall, update_user}
use bittuly.Api.Urls.{ShortenedUrl, UrlsCall, get_urls}
use bittuly.Session.{user_id_key}
use bittuly.Components.Initials.{get_initials}

pub record State : Type 0 where
  pub url_count : Option ℕ
  pub editing : Bool
  pub edit_username : String
  pub edit_email : String
  pub is_saving : Bool

pub data Event : Type 0 where
  counted : Result (List ShortenedUrl) → Event
  start_edit : Event
  cancel_edit : Event
  username_changed : String → Event
  email_changed : String → Event
  save_edit : Event
  saved : Result User → Event

pub data ProfileCall : Type 0 where
  auth : AuthCall → ProfileCall
  urls : UrlsCall → ProfileCall

abbrev pub Out : Type 0
Out = State × List (Effect ProfileCall Event)

abbrev pub mount : Out
mount = (
  record {
    url_count = none;
    editing = false;
    edit_username = "";
    edit_email = "";
    is_saving = false;
  },
  call (urls get_urls) ∷ [],
)

-- The effect that counts the links.
count_done : State → Result (List ShortenedUrl) → State
count_done s (resolved links) = record s { url_count = some (length links) }
count_done s (rejected e) = record s { url_count = some 0 }

handle_start_edit : Option User → State → State
handle_start_edit none s = s
handle_start_edit (some u) s = record s {
  edit_username = u.username;
  edit_email = u.email;
  editing = true;
}

handle_save_edit : Option User → State → Out
handle_save_edit none s = (s, [])
handle_save_edit (some u) s = (
  record s { is_saving = true },
  call (auth (update_user u.id (some s.edit_username) (some s.edit_email) none)) ∷ [],
)

save_done : State → Result User → Out
save_done s (resolved u) = (
  record s { editing = false; is_saving = false },
  set_item user_id_key u.id ∷ set_user (some u) ∷ toast_success "Profile updated." ∷ [],
)
save_done s (rejected e) =
    (record s { is_saving = false }, toast_error "Failed to save changes." ∷ [])

unfoldable pub update : Option User → State → Event → Out
unfolding count_done handle_start_edit handle_save_edit save_done
update user s (counted r) = (count_done s r, [])
update user s start_edit = (handle_start_edit user s, [])
update user s cancel_edit = (record s { editing = false }, [])
update user s (username_changed t) = (record s { edit_username = t }, [])
update user s (email_changed t) = (record s { edit_email = t }, [])
update user s save_edit = handle_save_edit user s
update user s (saved r) = save_done s r

abbrev V : Type 0
V = View Event

edit_form : State → V
edit_form s = el "div" [] (
    el "div" [] (
      el "label" [] (text "Username")
      ▸ el "Input"
          (prop "value" s.edit_username
            ∷ on_text "onChange" username_changed
            ∷ flag "autoFocus" true
            ∷ [])
          nothing)
    ▸ el "div" [] (
        el "label" [] (text "Email")
        ▸ el "Input"
            (prop "type" "email"
              ∷ prop "value" s.edit_email
              ∷ on_text "onChange" email_changed
              ∷ [])
            nothing)
    ▸ el "div" [] (
        el "Button" (prop "size" "sm" ∷ on "onClick" save_edit ∷ flag "disabled" s.is_saving ∷ [])
          ((if s.is_saving then leaf "Spinner" else leaf "Check") ▸ text "Save")
        ▸ el "Button"
            (prop "size" "sm"
              ∷ prop "variant" "ghost"
              ∷ on "onClick" cancel_edit
              ∷ flag "disabled" s.is_saving
              ∷ [])
            (leaf "X" ▸ text "Cancel")))

identity : User → V
identity u = el "div" [] (
    el "h2" [] (text u.username)
    ▸ el "p" [] (text u.email)
    ▸ el "Button" (prop "variant" "ghost" ∷ prop "size" "sm" ∷ on "onClick" start_edit ∷ [])
        (leaf "Pencil" ▸ text "Edit profile"))

url_count_view : Option ℕ → V
url_count_view none = leaf "Spinner"
url_count_view (some n) = num n

unfoldable pub view : Host → Option User → State → V
unfolding edit_form identity url_count_view
view h none s = nothing
view h (some u) s = el "AppLayout" (prop "title" "Profile" ∷ []) (
    el "div" [] (
      el "div" [] (text (get_initials h u.username))
      ▸ (if s.editing then edit_form s else identity u))
    ▸ el "div" [] (
        el "div" [] (el "p" [] (url_count_view s.url_count) ▸ el "p" [] (text "Links shortened"))
        ▸ el "div" []
            (el "p" [] (text (h.month_year u.created_at)) ▸ el "p" [] (text "Member since"))))

-- The state and the effects after several events, for one user.
abbrev pub run : Option User → State → List Event → Out
run user = run_all (update user)
