-- ===== src/Pages/Login/Laws.antt =====
-- What submitting the login form does, on every answer.
use bittuly.Prelude.{
  ◌≡◌, refl, Bool, false, List, [], ◌∷◌, if◌then◌else◌, truthy, some, inl, inr, Bool-cases, arith,
}
use bittuly.Web.Effect.{run_all, Effect, call, toast_error, navigate, set_item, set_user}
use bittuly.Web.View.{submits}
use bittuly.Api.Client.{Result, resolved, rejected, has_status}
use bittuly.Api.Auth.{User, AuthCall, login}
use bittuly.Session.{user_id_key}
use bittuly.Pages.Login.{State, Event, submit, logged_in, update, run, view}

-- The effects of a login that the server has answered.
abbrev pub login_effects : Result User → List (Effect AuthCall Event)
login_effects (resolved u) =
    set_item user_id_key u.id ∷ set_user (some u) ∷ navigate "/dashboard" ∷ []
login_effects (rejected e) =
    if has_status 401 e then [] else toast_error "Something went wrong. Please try again." ∷ []

abbrev pub is_refused : Result User → Bool
is_refused (resolved u) = false
is_refused (rejected e) = has_status 401 e

-- Submitting calls the server once with the form's email and password. When the answer is there, the
-- form can be submitted again and holds the same text; an error stands under it exactly when the
-- server said 401; and the session is set up exactly when the login succeeded, while any other
-- failure is told in a toast.
pub submit-logged_in :
    (s : State) (r : Result User)
    → let (s', out) = run s (submit ∷ logged_in r ∷ []) in
      (out ≡ call (login s.email s.password) ∷ login_effects r)
      × (submits (view s') ≡ submit ∷ [])
      × (truthy s'.error ≡ is_refused r)
      × (s'.email ≡ s.email)
      × (s'.password ≡ s.password)
unfolding run_all update view
submit-logged_in s (resolved u) = (refl, ground arith, refl, refl, refl)
submit-logged_in s (rejected e) = elim (Bool-cases (has_status 401 e)) [
  | inl q ↦ rw q (refl, ground arith, refl, refl, refl)
  | inr q ↦ rw q (refl, ground arith, refl, refl, refl)
]
