-- ===== src/Pages/Settings/Tests.antt =====
-- The settings page's theorems for one user.
use bittuly.Prelude.{◌≡◌, refl, false, any, some, none, [], ◌∷◌}
use bittuly.Web.Effect.{call}
use bittuly.Web.View.{clicks}
use bittuly.Api.Client.{resolved}
use bittuly.Api.Auth.{delete_user}
use bittuly.Components.Theme.{light}
use bittuly.Web.Storage
use bittuly.Session.{Session, user_id_key, perform_all}
use bittuly.Samples.{ada}
use bittuly.Pages.Settings.{State, delete_account, account_deleted, auth, run, view}
use bittuly.Pages.Settings.Laws.{is_delete, deletion_effects, delete_account-deleted}

abbrev confirmed : State
confirmed = record { confirm_username = "ada"; is_deleting = false }

abbrev signed_in : Session
signed_in = record {
  user = some ada;
  is_loading = false;
  storage = (user_id_key, "u1") ∷ [];
  path = "/settings";
}

delete_account-deleted_example :
    let (s', out) =
      run (some ada) confirmed (delete_account ∷ account_deleted (resolved tt) ∷ []) in
    let c' = perform_all out signed_in in
    (out ≡ call (auth (delete_user "u1")) ∷ deletion_effects (resolved tt))
    × (s'.is_deleting ≡ false)
    × (c' ≡ record { user = none; is_loading = false; storage = []; path = "/login" })
    × (any is_delete (clicks (view c'.user light s')) ≡ false)
unfolding Storage.remove_item
delete_account-deleted_example =
    delete_account-deleted ada light confirmed signed_in (resolved tt) refl refl
