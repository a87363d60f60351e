-- ===== src/Session/Laws.antt =====
-- The signed-in user and the stored id agree across the pages.
use bittuly.Prelude.{◌≡◌, refl, false, Option, none, some, [], ◌∷◌, String, arith}
use bittuly.Web.Effect.{call}
use bittuly.Web.Host.{Host}
use bittuly.Web.Storage
use bittuly.Web.Storage.{Storage, get_item-set_self, get_item-remove_self}
use bittuly.Api.Client.{Result, resolved, rejected, Failure}
use bittuly.Api.Auth.{User, logout}
use bittuly.Session.{
  Session, Event, user_id_key, got_user, sign_out, logged_out, start, mount, perform_all, effects,
  update,
}
use bittuly.Pages.Dashboard
use bittuly.Pages.Login
use bittuly.Pages.Profile
use bittuly.Pages.Settings
use bittuly.Pages.Signup
use bittuly.Pages.VerifyOtp

-- A user in the state has the id in the storage, so a reload finds the same user.
abbrev pub StoresId : Option User → Storage → Type 0
StoresId none m = Unit {0}
StoresId (some u) m = Storage.get_item user_id_key m ≡ some u.id

abbrev pub IsConsistent : Session → Type 0
IsConsistent s = StoresId s.user s.storage

module _ (s : Session) (h : IsConsistent s) where
  login-IsConsistent :
      (st : Login.State) (e : Login.Event) → IsConsistent (perform_all (Login.update st e).1 s)
  unfolding Login.update perform_all
  login-IsConsistent st (Login.logged_in (resolved u)) =
      get_item-set_self user_id_key u.id s.storage
  login-IsConsistent st (Login.logged_in (rejected e)) = ground arith
  login-IsConsistent st e = h

  signup-IsConsistent :
      (st : Signup.State) (e : Signup.Event) → IsConsistent (perform_all (Signup.update st e).1 s)
  unfolding Signup.update perform_all
  signup-IsConsistent st Signup.submit = ground arith
  signup-IsConsistent st (Signup.signed_up m (resolved r)) = h
  signup-IsConsistent st (Signup.signed_up m (rejected e)) = ground arith
  signup-IsConsistent st e = h

  verify-IsConsistent :
      (st : VerifyOtp.State) (e : VerifyOtp.Event)
      → IsConsistent (perform_all (VerifyOtp.update st e).1 s)
  unfolding VerifyOtp.update perform_all
  verify-IsConsistent st VerifyOtp.submit = ground arith
  verify-IsConsistent st (VerifyOtp.verified (resolved u)) =
      get_item-set_self user_id_key u.id s.storage
  verify-IsConsistent st (VerifyOtp.verified (rejected e)) = ground arith
  verify-IsConsistent st e = h

  profile-IsConsistent :
      (user : Option User) (st : Profile.State) (e : Profile.Event)
      → IsConsistent (perform_all (Profile.update user st e).1 s)
  unfolding Profile.update perform_all
  profile-IsConsistent user st (Profile.saved (resolved u)) =
      get_item-set_self user_id_key u.id s.storage
  profile-IsConsistent user st (Profile.saved (rejected e)) = h
  profile-IsConsistent none st Profile.save_edit = h
  profile-IsConsistent (some u) st Profile.save_edit = h
  profile-IsConsistent user st e = h

  settings-IsConsistent :
      (user : Option User) (st : Settings.State) (e : Settings.Event)
      → IsConsistent (perform_all (Settings.update user st e).1 s)
  unfolding Settings.update perform_all
  settings-IsConsistent user st (Settings.account_deleted (resolved done)) = tt
  settings-IsConsistent user st (Settings.account_deleted (rejected e)) = h
  settings-IsConsistent none st Settings.delete_account = h
  settings-IsConsistent (some u) st Settings.delete_account = h
  settings-IsConsistent user st e = h

-- The dashboard's handlers do nothing to the session.
dashboard_keeps :
    (p : Host) (st : Dashboard.State) (e : Dashboard.Event) (s : Session)
    → perform_all (Dashboard.update p st e).1 s ≡ s
unfolding Dashboard.update perform_all
dashboard_keeps p st e s = ground arith

-- What the provider relies on when a look-up of the mount ends: the server answers with the user who
-- was asked for, whose id is the stored one still, and nobody has signed in before a failure.
abbrev pub Expected : Session → Event → Type 0
Expected s (got_user (resolved u)) = Storage.get_item user_id_key s.storage ≡ some u.id
Expected s (got_user (rejected e)) = s.user ≡ none
Expected s sign_out = Unit {0}
Expected s (logged_out r) = Unit {0}

auth-IsConsistent :
    (s : Session) (e : Event) → Expected s e → IsConsistent s → IsConsistent (update s e)
unfolding update
auth-IsConsistent s (got_user (resolved u)) x h = x
auth-IsConsistent s (got_user (rejected e)) x h = rw x tt
auth-IsConsistent s sign_out x h = h
auth-IsConsistent s (logged_out r) x h = tt

-- One event anywhere in the application, as the session sees it. A page may be in any state.
pub data Step (p : Host) (s : Session) : Session → Type 0 where
  by_provider : (e : Event) → Expected s e → Step p s (update s e)
  by_dashboard :
      (st : Dashboard.State) (e : Dashboard.Event)
      → Step p s (perform_all (Dashboard.update p st e).1 s)
  by_login : (st : Login.State) (e : Login.Event) → Step p s (perform_all (Login.update st e).1 s)
  by_signup :
      (st : Signup.State) (e : Signup.Event) → Step p s (perform_all (Signup.update st e).1 s)
  by_verify :
      (st : VerifyOtp.State) (e : VerifyOtp.Event)
      → Step p s (perform_all (VerifyOtp.update st e).1 s)
  by_profile :
      (st : Profile.State) (e : Profile.Event)
      → Step p s (perform_all (Profile.update s.user st e).1 s)
  by_settings :
      (st : Settings.State) (e : Settings.Event)
      → Step p s (perform_all (Settings.update s.user st e).1 s)

pub data Reach (p : Host) (storage : Storage) (path : String) : Session → Type 0 where
  here : Reach p storage path (mount storage path).0
  next : {s t : Session} → Reach p storage path s → Step p s t → Reach p storage path t

Step-IsConsistent : {p : Host} {s t : Session} → Step p s t → IsConsistent s → IsConsistent t
Step-IsConsistent {p} {s} (by_provider e x) h = auth-IsConsistent s e x h
Step-IsConsistent {p} {s} (by_dashboard st e) h = rw (dashboard_keeps p st e s) h
Step-IsConsistent {p} {s} (by_login st e) h = login-IsConsistent s h st e
Step-IsConsistent {p} {s} (by_signup st e) h = signup-IsConsistent s h st e
Step-IsConsistent {p} {s} (by_verify st e) h = verify-IsConsistent s h st e
Step-IsConsistent {p} {s} (by_profile st e) h = profile-IsConsistent s h s.user st e
Step-IsConsistent {p} {s} (by_settings st e) h = settings-IsConsistent s h s.user st e

start-no_user :
    (storage : Storage) (path : String) (o : Option String) → (start storage path o).0.user ≡ none
unfolding start
start-no_user storage path none = refl
start-no_user storage path (some id) = ground arith

mount-IsConsistent : (storage : Storage) (path : String) → IsConsistent (mount storage path).0
unfolding mount
mount-IsConsistent storage path =
    rw (start-no_user storage path (Storage.get_item user_id_key storage)) tt

-- Without a stored id the mount finds nobody and asks nothing.
pub mount-none :
    (m : Storage) (path : String)
    → Storage.get_item user_id_key m ≡ none
    → ((mount m path).0.user ≡ none)
      × ((mount m path).0.is_loading ≡ false)
      × ((mount m path).1 ≡ [])
unfolding mount start
mount-none m path e = (rw e refl, rw e refl, rw e refl)

-- Through any logins, verifications, profile changes, deletions, look-ups and sign-outs, in any
-- order, a signed-in user's id is the one in the storage, so that a reload finds the same user,
-- provided that a look-up that succeeds gives the user whose id is stored then, and that one fails
-- only while nobody is signed in.
pub Reach-IsConsistent :
    (p : Host) (storage : Storage) (path : String) (s : Session)
    → Reach p storage path s
    → IsConsistent s
Reach-IsConsistent p storage path s here = mount-IsConsistent storage path
Reach-IsConsistent p storage path s (next {s = r} q st) =
    Step-IsConsistent st (Reach-IsConsistent p storage path r q)

-- Where someone signs in on the login page while the look-up of the mount is under way, and the
-- look-up then fails, the stored id of the new user is removed: the page shows the user, and a
-- reload shows nobody.
pub late_lookup-forgets :
    (st : Login.State) (s : Session) (u : User) (e : Failure) (path : String)
    → let s' =
        update
          (perform_all (Login.update st (Login.logged_in (resolved u))).1 s)
          (got_user (rejected e)) in
      (s'.user ≡ some u)
      × (Storage.get_item user_id_key s'.storage ≡ none)
      × ((mount s'.storage path).0.user ≡ none)
      × ((mount s'.storage path).0.is_loading ≡ false)
unfolding Login.update perform_all update
late_lookup-forgets st s u e path =
    let gone = get_item-remove_self user_id_key (Storage.set_item user_id_key u.id s.storage) in
    let reloaded = mount-none _ path gone in (refl, gone, reloaded.0, reloaded.1)

-- Signing out ends the session whatever the server answers: nobody is signed in, a reload finds
-- nobody, and the login page is next.
pub sign_out-logged_out :
    (s : Session) (r : Result (Unit {0})) (path : String)
    → let s' = update (update s sign_out) (logged_out r) in
      (effects sign_out ≡ call logout ∷ [])
      × (s'.user ≡ none)
      × (s'.path ≡ "/login")
      × ((mount s'.storage path).0.user ≡ none)
      × ((mount s'.storage path).1 ≡ [])
unfolding update
sign_out-logged_out s r path =
    let gone = get_item-remove_self user_id_key s.storage in
    let reloaded = mount-none _ path gone in (refl, refl, refl, reloaded.0, reloaded.2)
