-- ===== src/Session/Journeys.antt =====
-- The session, the pages and the router together: what a visitor sees after signing in or out, and
-- after a reload.
use bittuly.Prelude.{◌≡◌, refl, true, false, Option, none, some, [], ◌∷◌, String, truthy}
use bittuly.Web.Effect.{call}
use bittuly.Web.Storage
use bittuly.Web.Storage.{Storage, get_item-set_self, get_item-remove_self}
use bittuly.Api.Client.{Result, resolved}
use bittuly.Api.Auth.{User, get_user}
use bittuly.Session.{
  Session, user_id_key, got_user, sign_out, logged_out, start, mount, perform_all, update,
}
use bittuly.Router.{Page, dashboard, login, spinner, page, go, protected, routes, find, app_router}
use bittuly.Pages.Login
use bittuly.Pages.VerifyOtp
use bittuly.Pages.Settings

-- A reload where an id is stored asks for that user and shows the dashboard when the answer comes.
mount-some :
    (m : Storage) (u : User)
    → Storage.get_item user_id_key m ≡ some u.id
    → truthy u.id ≡ true
    → let (t, out) = mount m "/dashboard" in
      (out ≡ call (get_user u.id) ∷ [])
      × (app_router t ≡ spinner)
      × (app_router (update t (got_user (resolved u))) ≡ page dashboard)
unfolding mount start update app_router
mount-some m u e h = (rw (e, h) refl, rw (e, h) refl, rw (e, h) refl)

-- What a page does when the server has said who the user is: the dashboard shows, and a reload asks
-- for the same user, waits, and shows the dashboard again.
abbrev pub StaysIn : User → Session → Type 0
StaysIn u t =
    (app_router t ≡ page dashboard)
    × ((mount t.storage t.path).1 ≡ call (get_user u.id) ∷ [])
    × (app_router (mount t.storage t.path).0 ≡ spinner)
    × (app_router (update (mount t.storage t.path).0 (got_user (resolved u))) ≡ page dashboard)

-- Once the session is settled, whoever logs in, or verifies a code, sees the dashboard, and a reload
-- asks for the same user, waits for the answer, and shows the dashboard again, provided that the
-- user's id is not empty.
pub login-StaysIn :
    (s : Session) (u : User) (l : Login.State) (v : VerifyOtp.State)
    → s.is_loading ≡ false
    → truthy u.id ≡ true
    → StaysIn u (perform_all (Login.update l (Login.logged_in (resolved u))).1 s)
      × StaysIn u (perform_all (VerifyOtp.update v (VerifyOtp.verified (resolved u))).1 s)
unfolding Login.update VerifyOtp.update perform_all
login-StaysIn s u l v a h =
    let again = mount-some _ u (get_item-set_self user_id_key u.id s.storage) h in
    let here : StaysIn u (record s {
      user = some u;
      storage = Storage.set_item user_id_key u.id s.storage;
      path = "/dashboard";
    }) =
      (unfold app_router in rw a refl, again.0, again.1, again.2) in
    (here, here)

-- What a session shows at a private path after a reload that finds no id.
mount-guarded :
    (m : Storage) (l : String) (p : Page)
    → Storage.get_item user_id_key m ≡ none
    → find l routes ≡ protected p
    → (app_router (mount m l).0 ≡ go "/login") × ((mount m l).1 ≡ [])
unfolding mount start app_router
mount-guarded m l p e g = (rw (e, g) refl, rw e refl)

-- A session that shows the login page, and that a reload at the path given sends there again.
abbrev pub IsOut : String → Session → Type 0
IsOut l t =
    (app_router t ≡ page login)
    × (app_router (mount t.storage l).0 ≡ go "/login")
    × ((mount t.storage l).1 ≡ [])

-- Whoever signs out, whatever the server answers, or deletes the account, sees the login page; a
-- reload at the path of any private page then asks for nobody and leads to the login page.
pub sign_out-IsOut :
    (s : Session) (r : Result (Unit {0})) (user : Option User) (st : Settings.State) (l : String)
    (p : Page)
    → find l routes ≡ protected p
    → IsOut l (update (update s sign_out) (logged_out r))
      × IsOut l (perform_all (Settings.update user st (Settings.account_deleted (resolved tt))).1 s)
unfolding update Settings.update perform_all
sign_out-IsOut s r user st l p g =
    let gone = mount-guarded _ l p (get_item-remove_self user_id_key s.storage) g in
    ((unfold app_router in refl, gone.0, gone.1), (unfold app_router in refl, gone.0, gone.1))
