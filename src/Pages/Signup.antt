-- ===== src/Pages/Signup.antt =====
-- web/src/pages/Signup.tsx: the state of the page, its handlers and what it shows. Constant class
-- names are left out.
mod Tests
pub mod Laws
use bittuly.Prelude.{
  ℕ, Bool, true, false, not, ◌||◌, Option, none, some, List, [], ◌∷◌, ◌++◌, String, if◌then◌else◌,
  truthy, ltb, includes, utf16_length,
}
use bittuly.Web.Effect.{Effect, run_all, call, toast_error, navigate_with}
use bittuly.Web.View.{
  Attr, prop, flag, on, on_text, View, nothing, text, el, seq, ◌▸◌, shown_if, leaf,
}
use bittuly.Api.Client.{Result, resolved, rejected, Failure, has_status}
use bittuly.Api.Auth.{SignupResponse, AuthCall, signup}

pub record Form : Type 0 where
  pub username : String
  pub email : String
  pub password : String

-- `errors`, a message for each key that the source sets; the empty text where there is none.
pub record Errors : Type 0 where
  pub username_error : String
  pub email_error : String
  pub password_error : String
  pub form_error : String

abbrev pub no_errors : Errors
no_errors = record { username_error = ""; email_error = ""; password_error = ""; form_error = "" }

pub record State : Type 0 where
  pub form : Form
  pub show_password : Bool
  pub errors : Errors
  pub is_loading : Bool

-- `signed_up` carries the email that the form had when it was submitted.
pub data Event : Type 0 where
  username_changed : String → Event
  email_changed : String → Event
  password_changed : String → Event
  toggle_password : Event
  submit : Event
  signed_up : String → Result SignupResponse → Event

abbrev pub init : State
init = record {
  form = record { username = ""; email = ""; password = "" };
  show_password = false;
  errors = no_errors;
  is_loading = false;
}

-- `validate`.
unfoldable pub validate : Form → Errors
validate f = record {
  username_error = if ltb (utf16_length f.username) 3 then "Minimum 3 characters." else "";
  email_error = if not (includes b'@' f.email) then "Enter a valid email." else "";
  password_error = if ltb (utf16_length f.password) 6 then "Minimum 6 characters." else "";
  form_error = "";
}

-- `Object.keys(errs).length`, as a condition.
unfoldable pub has_errors : Errors → Bool
has_errors e =
    truthy e.username_error
    || truthy e.email_error
    || truthy e.password_error
    || truthy e.form_error

abbrev pub Out : Type 0
Out = State × List (Effect AuthCall Event)

handle_submit : State → Out
unfolding validate has_errors
handle_submit s =
    let errs = validate s.form in
    if has_errors errs then (record s { errors = errs }, []) else (
      record s { errors = no_errors; is_loading = true },
      call (signup s.form.username s.form.email s.form.password) ∷ [],
    )

signup_failed : State → Failure → Out
signup_failed s e =
    if has_status 409 e
    then (
      record s { errors = record no_errors { email_error = "This email is already registered." } },
      [],
    )
    else if has_status 422 e
    then (
      record s {
        errors = record no_errors { form_error = "Please check your inputs and try again." };
      },
      [],
    )
    else (s, toast_error "Something went wrong. Please try again." ∷ [])

signup_done : State → String → Result SignupResponse → Out
unfolding signup_failed
signup_done s email (resolved r) = (
  record s { is_loading = false },
  navigate_with "/verify-otp" (("pending_token", r.pending_token) ∷ ("email", email) ∷ []) ∷ [],
)
signup_done s email (rejected e) = signup_failed (record s { is_loading = false }) e

unfoldable pub update : State → Event → Out
unfolding handle_submit signup_done
update s (username_changed t) = (record s { form = record (s.form) { username = t } }, [])
update s (email_changed t) = (record s { form = record (s.form) { email = t } }, [])
update s (password_changed t) = (record s { form = record (s.form) { password = t } }, [])
update s toggle_password = (record s { show_password = not s.show_password }, [])
update s submit = handle_submit s
update s (signed_up email r) = signup_done s email r

abbrev V : Type 0
V = View Event

error_line : String → V
error_line message = shown_if (truthy message) (el "p" [] (text message))

pub username_field : State → V
unfolding error_line
username_field s = el "div" [] (
    el "Label" (prop "htmlFor" "username" ∷ []) (text "Username")
    ▸ el "Input"
        (prop "id" "username"
          ∷ prop "placeholder" "johndoe"
          ∷ prop "value" s.form.username
          ∷ on_text "onChange" username_changed
          ∷ flag "aria-invalid" (truthy s.errors.username_error)
          ∷ prop "autoComplete" "username"
          ∷ flag "autoFocus" true
          ∷ [])
        nothing
    ▸ error_line s.errors.username_error)

pub email_field : State → V
unfolding error_line
email_field s = el "div" [] (
    el "Label" (prop "htmlFor" "email" ∷ []) (text "Email")
    ▸ el "Input"
        (prop "id" "email"
          ∷ prop "type" "email"
          ∷ prop "placeholder" "you@example.com"
          ∷ prop "value" s.form.email
          ∷ on_text "onChange" email_changed
          ∷ flag "aria-invalid" (truthy s.errors.email_error)
          ∷ prop "autoComplete" "email"
          ∷ [])
        nothing
    ▸ error_line s.errors.email_error)

pub password_field : State → V
unfolding error_line
password_field s = el "div" [] (
    el "Label" (prop "htmlFor" "password" ∷ []) (text "Password")
    ▸ el "div" [] (
        el "Input"
          (prop "id" "password"
            ∷ prop "type" (if s.show_password then "text" else "password")
            ∷ prop "placeholder" "At least 6 characters"
            ∷ prop "value" s.form.password
            ∷ on_text "onChange" password_changed
            ∷ flag "aria-invalid" (truthy s.errors.password_error)
            ∷ prop "autoComplete" "new-password"
            ∷ [])
          nothing
        ▸ el "button"
            (prop "type" "button"
              ∷ on "onClick" toggle_password
              ∷ prop "aria-label" (if s.show_password then "Hide password" else "Show password")
              ∷ [])
            (if s.show_password then leaf "EyeOff" else leaf "Eye"))
    ▸ error_line s.errors.password_error)

unfoldable pub view : State → V
unfolding username_field email_field password_field error_line
view s = el "div" [] (
    el "div" [] (el "h1" [] (text "Bittuly") ▸ el "p" [] (text "Shorten smarter."))
    ▸ el "form" (on "onSubmit" submit ∷ []) (
        username_field s
        ▸ email_field s
        ▸ password_field s
        ▸ error_line s.errors.form_error
        ▸ el "Button" (prop "type" "submit" ∷ flag "disabled" s.is_loading ∷ [])
            (text (if s.is_loading then "Creating account…" else "Continue with email")))
    ▸ el "div" [] (el "span" [] (text "or"))
    ▸ el "p" []
        (text "Already have an account? " ▸ el "Link" (prop "to" "/login" ∷ []) (text "Sign in →")))

-- The state and the effects after several events.
abbrev pub run : State → List Event → Out
run = run_all update
