-- ===== src/Session/Tests.antt =====
-- The theorems on the session at concrete inputs.
use bittuly.Prelude.{◌≡◌, refl, true, false, none, some, [], ◌∷◌}
use bittuly.Web.Storage
use bittuly.Api.Client.{resolved, rejected, network}
use bittuly.Samples.{host, ada, bob}
use bittuly.Session.{
  Session, user_id_key, got_user, sign_out, logged_out, mount, perform_all, update,
}
use bittuly.Session.Laws.{
  IsConsistent, here, next, by_login, by_profile, Reach-IsConsistent, late_lookup-forgets,
}
use bittuly.Session.Journeys.{StaysIn, login-StaysIn, IsOut, sign_out-IsOut}
use bittuly.Router.{insights, protected, routes, find}
use bittuly.Pages.Login
use bittuly.Pages.Settings
use bittuly.Pages.VerifyOtp
use bittuly.Pages.Profile

-- Nobody was signed in, Ada logs in, and changes her profile.
abbrev logged_in : Session
logged_in =
    perform_all (Login.update Login.init (Login.logged_in (resolved ada))).1 (mount [] "/login").0

abbrev changed : Session
changed =
    perform_all (Profile.update logged_in.user Profile.mount.0 (Profile.saved (resolved ada))).1
      logged_in

Reach-IsConsistent_example : IsConsistent changed
Reach-IsConsistent_example = Reach-IsConsistent host [] "/login" changed (
    next (next here (by_login Login.init (Login.logged_in (resolved ada))))
      (by_profile Profile.mount.0 (Profile.saved (resolved ada))))

-- The look-up of Bob's id is under way.
abbrev looking : Session
looking = record {
  user = none;
  is_loading = true;
  storage = (user_id_key, "u2") ∷ [];
  path = "/login";
}

late_lookup-forgets_example :
    let s' =
      update
        (perform_all (Login.update Login.init (Login.logged_in (resolved ada))).1 looking)
        (got_user (rejected network)) in
    (s'.user ≡ some ada)
    × (Storage.get_item user_id_key s'.storage ≡ none)
    × ((mount s'.storage "/").0.user ≡ none)
    × ((mount s'.storage "/").0.is_loading ≡ false)
late_lookup-forgets_example = late_lookup-forgets Login.init looking ada network "/"

abbrev pending : VerifyOtp.LocationState
pending = record { pending_token = "t1"; email = "ada@a.example" }

abbrev signed_in : Session
signed_in = record {
  user = some bob;
  is_loading = false;
  storage = (user_id_key, "u2") ∷ [];
  path = "/dashboard";
}

settled : (mount [] "/login").0.is_loading ≡ false
unfolding mount Storage.get_item
settled = refl

login-StaysIn_example :
    StaysIn ada (
      perform_all
        (Login.update Login.init (Login.logged_in (resolved ada))).1
        (mount [] "/login").0)
    × StaysIn ada (
        perform_all
          (VerifyOtp.update (VerifyOtp.mount pending).0 (VerifyOtp.verified (resolved ada))).1
          (mount [] "/login").0)
login-StaysIn_example =
    login-StaysIn (mount [] "/login").0 ada Login.init (VerifyOtp.mount pending).0 settled refl

guarded : find "/insights" routes ≡ protected insights
unfolding find
guarded = refl

sign_out-IsOut_example :
    IsOut "/insights" (update (update signed_in sign_out) (logged_out (rejected network)))
    × IsOut "/insights" (
        perform_all
          (Settings.update (some bob) Settings.init (Settings.account_deleted (resolved tt))).1
          signed_in)
sign_out-IsOut_example =
    sign_out-IsOut signed_in (rejected network) (some bob) Settings.init "/insights" insights
      guarded
