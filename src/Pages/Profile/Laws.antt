-- ===== src/Pages/Profile/Laws.antt =====
-- Editing the profile.
use bittuly.Prelude.{◌≡◌, refl, false, not, some, none, List, [], ◌∷◌, String}
use bittuly.Web.Effect.{run_all, Effect, call, toast_error, toast_success, set_item, set_user}
use bittuly.Api.Client.{Result, resolved, rejected, is_resolved}
use bittuly.Api.Auth.{User, update_user}
use bittuly.Session.{user_id_key}
use bittuly.Pages.Profile.{
  State, Event, start_edit, cancel_edit, username_changed, email_changed, save_edit, saved,
  ProfileCall, auth, update, run,
}

abbrev pub save_effects : Result User → List (Effect ProfileCall Event)
save_effects (resolved u) =
    set_item user_id_key u.id ∷ set_user (some u) ∷ toast_success "Profile updated." ∷ []
save_effects (rejected e) = toast_error "Failed to save changes." ∷ []

-- Whatever was typed before, an edit starts from the user's own name and email: changing the name
-- and saving sends the new name with the old email, for the user's id and with no password. The
-- session takes the server's user exactly if the server saved; otherwise the form stays open with
-- what was typed.
pub edit-saved :
    (u : User) (s : State) (name : String) (r : Result User)
    → let (s', out) =
        run (some u) s (start_edit ∷ username_changed name ∷ save_edit ∷ saved r ∷ []) in
      (out ≡ call (auth (update_user u.id (some name) (some u.email) none)) ∷ save_effects r)
      × (s'.editing ≡ not (is_resolved r))
      × (s'.edit_username ≡ name)
      × (s'.edit_email ≡ u.email)
      × (s'.is_saving ≡ false)
unfolding run_all update
edit-saved u s name (resolved u') = (refl, refl, refl, refl, refl)
edit-saved u s name (rejected e) = (refl, refl, refl, refl, refl)

-- An edit that is given up leaves no trace: nothing is sent, and the next edit starts from the
-- user's own name and email again.
pub cancel_edit-start_edit :
    (u : User) (s : State) (name email : String)
    → let (s', out) = run (some u) s (
        start_edit ∷ username_changed name ∷ email_changed email ∷ cancel_edit ∷ start_edit ∷ []) in
      (out ≡ []) × (s' ≡ (run (some u) s (start_edit ∷ [])).0)
unfolding run_all update
cancel_edit-start_edit u s name email = (refl, refl)
