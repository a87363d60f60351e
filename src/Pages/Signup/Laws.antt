-- ===== src/Pages/Signup/Laws.antt =====
-- Validation of the signup form, and what submitting it does.
use bittuly.Prelude.{
  ◌≤◌, ◌≡◌, ◌↔◌, refl, Bool, true, false, not, ◌||◌, inl, inr, Bool-cases, List, [], ◌∷◌, String,
  if◌then◌else◌, truthy, ltb, includes, utf16_length, arith, ap, ◌∙◌,
}
use bittuly.Web.Effect.{run_all, Effect, call, calls, toast_error, navigate_with}
use bittuly.Web.View.{texts, submits}
use bittuly.Api.Client.{Result, resolved, rejected, has_status}
use bittuly.Api.Auth.{SignupResponse, AuthCall, signup}
use bittuly.Pages.Signup.{
  Form, State, Event, submit, signed_up, validate, has_errors, update, run, view, username_field,
  error_line, email_field, password_field,
}

-- What the form has to satisfy.
pub record IsAcceptable (f : Form) : Type 0 where
  pub username : 3 ≤ utf16_length f.username
  pub email : includes b'@' f.email ≡ true
  pub password : 6 ≤ utf16_length f.password

-- The four messages, for the three tests of the validation.
any_message :
    (a b c : Bool)
    → (truthy (if a then "Minimum 3 characters." else "")
        || truthy (if b then "Enter a valid email." else "")
        || truthy (if c then "Minimum 6 characters." else "")
        || truthy "")
      ≡ (a || b || c)
any_message true b c = refl
any_message false true c = refl
any_message false false true = refl
any_message false false false = refl

has_errors-validate :
    (f : Form)
    → has_errors (validate f) ≡ (
        ltb (utf16_length f.username) 3
        || not (includes b'@' f.email)
        || ltb (utf16_length f.password) 6)
unfolding validate has_errors
has_errors-validate f = any_message _ _ _

-- The validation finds no error exactly in a form with a name of three characters or more, an email
-- with "@" and a password of six characters or more, counted in UTF-16 units.
pub validate_iff : (f : Form) → (has_errors (validate f) ≡ false) ↔ IsAcceptable f
validate_iff f =
    (λ h. ground (arith, has_errors-validate f), λ h. ground (arith, has_errors-validate f))

-- The server is called, once, exactly when the form is acceptable, and not at all exactly when it is
-- not.
pub submit-calls_iff :
    (s : State)
    → ((calls (update s submit).1 ≡ signup s.form.username s.form.email s.form.password ∷ [])
        ↔ IsAcceptable s.form)
      × ((calls (update s submit).1 ≡ []) ↔ (¬ IsAcceptable s.form))
unfolding update
submit-calls_iff s =
    let e = has_errors-validate s.form in
    (
      ((λ h. ground (arith, e)), λ h. ground (arith, e)),
      (
        (λ h a. ground (arith, e)),
        λ h. elim (Bool-cases (has_errors (validate s.form))) [
          | inl b ↦ rw b refl
          | inr b ↦ absurd (h ((validate_iff s.form).0 b))
        ],
      ),
    )

line_if :
    (b : Bool) (m : String)
    → truthy m ≡ true
    → texts (error_line (if b then m else "")) ≡ (if b then m ∷ [] else [])
unfolding error_line
line_if true m h = rw h (rw h)
line_if false m h = refl

password_texts :
    (s : State) → texts (password_field s) ≡ "Password" ∷ texts (error_line s.errors.password_error)
unfolding password_field error_line
password_texts s = ground arith

view-submits : (s : State) → submits (view s) ≡ (if s.is_loading then [] else submit ∷ [])
unfolding view
view-submits s = elim (Bool-cases s.show_password) [
  | inl q ↦ rw q (ground arith)
  | inr q ↦ rw q (ground arith)
]

-- A refused form shows, under each field, the message of that field exactly if the field is wrong,
-- and the page is no more busy than before.
pub submit-shows :
    (s : State)
    → has_errors (validate s.form) ≡ true
    → let s' = (update s submit).0 in
      (texts (username_field s')
        ≡ "Username"
          ∷ (if ltb (utf16_length s.form.username) 3 then "Minimum 3 characters." ∷ [] else []))
      × (texts (email_field s')
          ≡ "Email"
            ∷ (if not (includes b'@' s.form.email) then "Enter a valid email." ∷ [] else []))
      × (texts (password_field s')
          ≡ "Password"
            ∷ (if ltb (utf16_length s.form.password) 6 then "Minimum 6 characters." ∷ [] else []))
      × (s'.is_loading ≡ s.is_loading)
unfolding update
submit-shows s h = rw h (
  unfold username_field in ap (λ t. "Username" ∷ t) (line_if _ "Minimum 3 characters." refl),
  unfold email_field in ap (λ t. "Email" ∷ t) (line_if _ "Enter a valid email." refl),
  password_texts _ ∙ ap (λ t. "Password" ∷ t) (line_if _ "Minimum 6 characters." refl),
  refl,
)

-- Where the page goes, and what it says, when the server has answered.
abbrev pub signup_effects : String → Result SignupResponse → List (Effect AuthCall Event)
signup_effects email (resolved r) =
    navigate_with "/verify-otp" (("pending_token", r.pending_token) ∷ ("email", email) ∷ []) ∷ []
signup_effects email (rejected e) =
    if has_status 409 e
    then []
    else if has_status 422 e
    then []
    else toast_error "Something went wrong. Please try again." ∷ []

abbrev pub is_conflict : Result SignupResponse → Bool
is_conflict (resolved r) = false
is_conflict (rejected e) = has_status 409 e

-- From an acceptable form, the next page gets the token and the email that was submitted exactly if
-- the server accepts; on 409 the email field shows that the email is taken, and on every answer the
-- form keeps its text and can be submitted again.
pub submit-signed_up :
    (s : State) (r : Result SignupResponse)
    → IsAcceptable s.form
    → let (s', out) = run s (submit ∷ signed_up s.form.email r ∷ []) in
      (out
        ≡ call (signup s.form.username s.form.email s.form.password)
          ∷ signup_effects s.form.email r)
      × (truthy s'.errors.email_error ≡ is_conflict r)
      × (s'.form ≡ s.form)
      × (submits (view s') ≡ submit ∷ [])
unfolding run_all update
submit-signed_up s (resolved r) h =
    rw ((validate_iff s.form).1 h) (refl, refl, refl, view-submits _)
submit-signed_up s (rejected e) h = elim (Bool-cases (has_status 409 e)) [
  | inl q ↦ rw ((validate_iff s.form).1 h, q) (refl, refl, refl, view-submits _)
  | inr q ↦ elim (Bool-cases (has_status 422 e)) [
    | inl q' ↦ rw ((validate_iff s.form).1 h, q, q') (refl, refl, refl, view-submits _)
    | inr q' ↦ rw ((validate_iff s.form).1 h, q, q') (refl, refl, refl, view-submits _)
  ]
]
