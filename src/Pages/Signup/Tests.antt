-- ===== src/Pages/Signup/Tests.antt =====
-- The signup page's theorems at concrete forms.
use bittuly.Prelude.{◌≡◌, ◌↔◌, refl, true, false, [], ◌∷◌, includes, utf16_length, arith}
use bittuly.Web.Effect.{calls}
use bittuly.Api.Auth.{signup}
use bittuly.Pages.Signup.{Form, State, no_errors, submit, init, validate, has_errors, update}
use bittuly.Pages.Signup.Laws.{IsAcceptable, submit-calls_iff}

abbrev form : Form
form = record { username = "ada"; email = "ada@a.example"; password = "secret" }

abbrev filled : State
filled = record { form = form; show_password = false; errors = no_errors; is_loading = false }

acceptable : IsAcceptable form
unfolding utf16_length includes
acceptable = record { username = omega arith; email = refl; password = omega arith }

submit-calls_iff_example :
    ((calls (update filled submit).1 ≡ signup "ada" "ada@a.example" "secret" ∷ [])
      ↔ IsAcceptable form)
    × ((calls (update filled submit).1 ≡ []) ↔ (¬ IsAcceptable form))
submit-calls_iff_example = submit-calls_iff filled

empty_refused : has_errors (validate init.form) ≡ true
unfolding validate has_errors utf16_length includes
empty_refused = refl
