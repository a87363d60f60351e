-- ===== src/Pages/Login.antt =====
-- web/src/pages/Login.tsx: the state of the page, its handlers and what it shows. Constant class
-- names are left out.
pub mod Laws
use bittuly.Prelude.{
  Bool, true, false, not, Option, none, some, List, [], ◌∷◌, ◌++◌, String, if◌then◌else◌, truthy,
}
use bittuly.Web.Effect.{Effect, run_all, call, toast_error, navigate, set_item, set_user}
use bittuly.Web.View.{
  Attr, prop, flag, on, on_text, View, nothing, text, el, seq, ◌▸◌, shown_if, leaf,
}
use bittuly.Api.Client.{Result, resolved, rejected, has_status}
use bittuly.Api.Auth.{User, AuthCall, login}
use bittuly.Session.{user_id_key}

pub record State : Type 0 where
  pub email : String
  pub password : String
  pub show_password : Bool
  pub error : String
  pub is_loading : Bool

pub data Event : Type 0 where
  email_changed : String → Event
  password_changed : String → Event
  toggle_password : Event
  submit : Event
  logged_in : Result User → Event

abbrev pub init : State
init = record { email = ""; password = ""; show_password = false; error = ""; is_loading = false }

abbrev pub Out : Type 0
Out = State × List (Effect AuthCall Event)

-- The rest of `handleSubmit`.
login_done : State → Result User → Out
login_done s (resolved u) = (
  record s { is_loading = false },
  set_item user_id_key u.id ∷ set_user (some u) ∷ navigate "/dashboard" ∷ [],
)
login_done s (rejected e) =
    if has_status 401 e
    then (record s { error = "Invalid email or password."; is_loading = false }, [])
    else (
      record s { is_loading = false },
      toast_error "Something went wrong. Please try again." ∷ [],
    )

unfoldable pub update : State → Event → Out
unfolding login_done
update s (email_changed t) = (record s { email = t }, [])
update s (password_changed t) = (record s { password = t }, [])
update s toggle_password = (record s { show_password = not s.show_password }, [])
update s submit = (record s { error = ""; is_loading = true }, call (login s.email s.password) ∷ [])
update s (logged_in r) = login_done s r

abbrev V : Type 0
V = View Event

email_field : State → V
email_field s = el "div" [] (
    el "Label" (prop "htmlFor" "email" ∷ []) (text "Email")
    ▸ el "Input"
        (prop "id" "email"
          ∷ prop "type" "email"
          ∷ prop "placeholder" "you@example.com"
          ∷ prop "value" s.email
          ∷ on_text "onChange" email_changed
          ∷ flag "aria-invalid" (truthy s.error)
          ∷ prop "autoComplete" "email"
          ∷ flag "autoFocus" true
          ∷ [])
        nothing)

password_field : State → V
password_field s = el "div" [] (
    el "Label" (prop "htmlFor" "password" ∷ []) (text "Password")
    ▸ el "div" [] (
        el "Input"
          (prop "id" "password"
            ∷ prop "type" (if s.show_password then "text" else "password")
            ∷ prop "placeholder" "Your password"
            ∷ prop "value" s.password
            ∷ on_text "onChange" password_changed
            ∷ flag "aria-invalid" (truthy s.error)
            ∷ prop "autoComplete" "current-password"
            ∷ [])
          nothing
        ▸ el "button"
            (prop "type" "button"
              ∷ on "onClick" toggle_password
              ∷ prop "aria-label" (if s.show_password then "Hide password" else "Show password")
              ∷ [])
            (if s.show_password then leaf "EyeOff" else leaf "Eye")))

unfoldable pub view : State → V
unfolding email_field password_field
view s = el "div" [] (
    el "div" [] (el "h1" [] (text "Bittuly") ▸ el "p" [] (text "Welcome back."))
    ▸ el "form" (on "onSubmit" submit ∷ []) (
        email_field s
        ▸ password_field s
        ▸ shown_if (truthy s.error) (el "p" [] (text s.error))
        ▸ el "Button" (prop "type" "submit" ∷ flag "disabled" s.is_loading ∷ [])
            (text (if s.is_loading then "Signing in…" else "Continue with email")))
    ▸ el "div" [] (el "span" [] (text "or"))
    ▸ el "p" []
        (text "Don't have an account? " ▸ el "Link" (prop "to" "/signup" ∷ []) (text "Sign up →")))

-- The state and the effects after several events.
abbrev pub run : State → List Event → Out
run = run_all update
