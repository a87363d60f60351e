-- ===== src/Session.antt =====
-- web/src/context/AuthContext.tsx: who is signed in, and what the pages' effects do to that.
pub mod Laws
pub mod Journeys
mod Tests
use bittuly.Prelude.{
  Bool, true, false, Option, none, some, List, [], ◌∷◌, String, if◌then◌else◌, truthy,
}
use bittuly.Web.Effect.{
  Effect, call, timeout, interval, focus, toast_error, toast_success, navigate, redirect,
  navigate_with, set_item, remove_item, set_user,
}
use bittuly.Web.Storage
use bittuly.Web.Storage.{Storage}
use bittuly.Api.Client.{Result, resolved, rejected}
use bittuly.Api.Auth.{User, AuthCall, get_user, logout}

-- `USER_ID_KEY`.
abbrev pub user_id_key : String
user_id_key = "bittuly_user_id"

-- The provider's state, with the storage of the origin and the path of the router.
pub record Session : Type 0 where
  pub user : Option User
  pub is_loading : Bool
  pub storage : Storage
  pub path : String

pub data Event : Type 0 where
  got_user : Result User → Event
  sign_out : Event
  logged_out : Result (Unit {0}) → Event

abbrev pub Effects : Type 0
Effects = List (Effect AuthCall Event)

-- The mount: an id that is stored is looked up.
unfoldable start : Storage → String → Option String → Session × Effects
start storage path none =
    (record { user = none; is_loading = false; storage = storage; path = path }, [])
start storage path (some id) =
    if truthy id
    then (
      record { user = none; is_loading = true; storage = storage; path = path },
      call (get_user id) ∷ [],
    )
    else (record { user = none; is_loading = false; storage = storage; path = path }, [])

unfoldable pub mount : Storage → String → Session × Effects
unfolding start
mount storage path = start storage path (Storage.get_item user_id_key storage)

-- What an effect of any page does to the session; calls, timers and toasts leave it.
unfoldable pub perform : {C T : Type 0} → Effect C T → Session → Session
perform (call c) s = s
perform (timeout n t) s = s
perform (interval n t) s = s
perform focus s = s
perform (toast_error m) s = s
perform (toast_success m) s = s
perform (navigate p) s = record s { path = p }
perform (redirect p) s = record s { path = p }
perform (navigate_with p st) s = record s { path = p }
perform (set_item k v) s = record s { storage = Storage.set_item k v s.storage }
perform (remove_item k) s = record s { storage = Storage.remove_item k s.storage }
perform (set_user u) s = record s { user = u }

unfoldable pub perform_all : {C T : Type 0} → List (Effect C T) → Session → Session
unfolding perform
perform_all [] s = s
perform_all (e ∷ es) s = perform_all es (perform e s)

-- The effects of the end of `getUser` and of `signOut`.
unfoldable pub effects : Event → Effects
effects (got_user (resolved u)) = set_user (some u) ∷ []
effects (got_user (rejected e)) = remove_item user_id_key ∷ []
effects sign_out = call logout ∷ []
effects (logged_out r) = remove_item user_id_key ∷ set_user none ∷ navigate "/login" ∷ []

-- `finally` of the look-up.
settle_loading : Event → Session → Session
settle_loading (got_user r) s = record s { is_loading = false }
settle_loading sign_out s = s
settle_loading (logged_out r) s = s

unfoldable pub update : Session → Event → Session
unfolding effects settle_loading perform_all
update s e = settle_loading e (perform_all (effects e) s)
