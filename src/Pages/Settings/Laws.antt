-- ===== src/Pages/Settings/Laws.antt =====
-- When an account is deleted, and what the page does on every answer.
use bittuly.Prelude.{
  if◌then◌else◌, ◌≡◌, ◌↔◌, refl, Bool, true, false, some, none, List, [], ◌∷◌, any, str_eq_iff,
  arith,
}
use bittuly.Web.Effect.{run_all, Effect, call, toast_error, navigate, remove_item, set_user}
use bittuly.Web.View.{clicks}
use bittuly.Api.Client.{Result, resolved, rejected}
use bittuly.Api.Auth.{User, delete_user}
use bittuly.Session.{Session, user_id_key, perform_all}
use bittuly.Web.Storage
use bittuly.Components.Theme.{Theme}
use bittuly.Pages.Settings.{
  State, Event, theme_chosen, confirm_changed, cancelled, delete_account, account_deleted,
  SettingsCall, auth, can_delete, update, run, view,
}

abbrev pub is_delete : Event → Bool
is_delete delete_account = true
is_delete (theme_chosen t) = false
is_delete (confirm_changed t) = false
is_delete cancelled = false
is_delete (account_deleted r) = false

-- The button that deletes the account can be clicked exactly when the field holds the user's own
-- name and no deletion is under way.
pub view-clicks :
    (u : User) (theme : Theme) (s : State)
    → (any is_delete (clicks (view (some u) theme s)) ≡ true)
      ↔ ((s.confirm_username ≡ u.username) × (s.is_deleting ≡ false))
unfolding view can_delete
view-clicks u theme s =
    let e = str_eq_iff s.confirm_username u.username in
    (λ h. ground (arith, e), λ h. ground (arith, e))

abbrev pub deletion_effects : Result (Unit {0}) → List (Effect SettingsCall Event)
deletion_effects (resolved done) = remove_item user_id_key ∷ set_user none ∷ navigate "/login" ∷ []
deletion_effects (rejected e) = toast_error "Failed to delete account. Please try again." ∷ []

abbrev pub is_refused : Result (Unit {0}) → Bool
is_refused (resolved done) = false
is_refused (rejected e) = true

-- With the user's name in the field, deleting calls the server once, for the id of the user who is
-- signed in, and then the page is not busy. Where the server has deleted the account, the session is
-- over: no user, no stored id, the login page, and a page without its button. Where it has not, the
-- page says so, the session is as it was, and the button works again with the name still in its field.
pub delete_account-deleted :
    (u : User) (theme : Theme) (s : State) (c : Session) (r : Result (Unit {0}))
    → s.confirm_username ≡ u.username
    → c.user ≡ some u
    → let (s', out) = run c.user s (delete_account ∷ account_deleted r ∷ []) in
      let c' = perform_all out c in
      (out ≡ call (auth (delete_user u.id)) ∷ deletion_effects r)
      × (s'.is_deleting ≡ false)
      × (c' ≡ (
          if is_refused r then c else record c {
            user = none;
            storage = Storage.remove_item user_id_key c.storage;
            path = "/login";
          }))
      × (any is_delete (clicks (view c'.user theme s')) ≡ is_refused r)
unfolding run_all update perform_all view
delete_account-deleted u theme s c (resolved done) h e = rw e (refl, refl, refl, refl)
delete_account-deleted u theme s c (rejected x) h e =
    rw e (refl, refl, refl, (view-clicks u theme _).1 (h, refl))
