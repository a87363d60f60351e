-- ===== src/Pages/Settings.antt =====
-- web/src/pages/Settings.tsx: the state of the page, its handlers and what it shows. Constant class
-- names are left out; a class that the state chooses is kept. The user is the provider's.
mod Tests
pub mod Laws
use bittuly.Prelude.{
  Bool, true, false, not, ◌||◌, Option, none, some, List, [], ◌∷◌, ◌++◌, String, if◌then◌else◌,
  str_eq,
}
use bittuly.Web.Effect.{Effect, run_all, call, toast_error, navigate, remove_item, set_user}
use bittuly.Web.View.{Attr, prop, flag, on, on_text, View, nothing, text, el, seq, ◌▸◌, leaf}
use bittuly.Api.Client.{Result, resolved, rejected}
use bittuly.Api.Auth.{User, AuthCall, delete_user}
use bittuly.Session.{user_id_key}
use bittuly.Components.Theme.{Theme, dark, light, theme_text, same_theme}

pub record State : Type 0 where
  pub confirm_username : String
  pub is_deleting : Bool

pub data Event : Type 0 where
  theme_chosen : Theme → Event
  confirm_changed : String → Event
  cancelled : Event
  delete_account : Event
  account_deleted : Result (Unit {0}) → Event

-- What the page asks of the server and of the theme's provider.
pub data SettingsCall : Type 0 where
  auth : AuthCall → SettingsCall
  set_theme : Theme → SettingsCall

abbrev pub init : State
init = record { confirm_username = ""; is_deleting = false }

abbrev pub Out : Type 0
Out = State × List (Effect SettingsCall Event)

handle_delete_account : Option User → State → Out
handle_delete_account none s = (s, [])
handle_delete_account (some u) s =
    (record s { is_deleting = true }, call (auth (delete_user u.id)) ∷ [])

deletion_done : State → Result (Unit {0}) → Out
deletion_done s (resolved done) = (
  record s { is_deleting = false },
  remove_item user_id_key ∷ set_user none ∷ navigate "/login" ∷ [],
)
deletion_done s (rejected e) = (
  record s { is_deleting = false },
  toast_error "Failed to delete account. Please try again." ∷ [],
)

unfoldable pub update : Option User → State → Event → Out
unfolding handle_delete_account deletion_done
update user s (theme_chosen t) = (s, call (set_theme t) ∷ [])
update user s (confirm_changed t) = (record s { confirm_username = t }, [])
update user s cancelled = (record s { confirm_username = "" }, [])
update user s delete_account = handle_delete_account user s
update user s (account_deleted r) = deletion_done s r

abbrev V : Type 0
V = View Event

-- `value.charAt(0).toUpperCase() + value.slice(1)`, for the two values given.
abbrev option_label : Theme → String
option_label dark = "Dark"
option_label light = "Light"
option_label Theme.system = "System"

theme_option : Theme → Theme → V
theme_option value current =
    el "button"
      (prop "type" "button"
        ∷ on "onClick" (theme_chosen value)
        ∷ prop "className" (
            if same_theme current value
            then "border-primary bg-primary text-primary-foreground shadow-sm"
            else "border-border bg-background text-foreground hover:bg-accent")
        ∷ [])
      (text (option_label value))

appearance : Theme → V
unfolding theme_option
appearance theme = el "div" [] (
    el "h2" [] (text "Appearance")
    ▸ el "div" []
        (el "p" [] (text "Theme") ▸ el "p" [] (text "Choose your preferred colour scheme."))
    ▸ el "div" [] (theme_option light theme ▸ theme_option dark theme))

-- `canDelete`.
unfoldable pub can_delete : User → State → Bool
can_delete u s = str_eq s.confirm_username u.username

confirm_dialog : User → State → V
unfolding can_delete
confirm_dialog u s = el "AlertDialog" [] (
    el "AlertDialogTrigger" (flag "asChild" true ∷ [])
      (el "Button" (prop "variant" "destructive" ∷ prop "size" "sm" ∷ []) (text "Delete Account"))
    ▸ el "AlertDialogContent" [] (
        el "AlertDialogHeader" [] (
          el "AlertDialogTitle" [] (text "Are you sure?")
          ▸ el "AlertDialogDescription" (flag "asChild" true ∷ []) (
              el "div" [] (
                el "p" []
                  (text "Type your username to confirm: " ▸ el "strong" [] (text u.username))
                ▸ el "Input"
                    (prop "placeholder" u.username
                      ∷ prop "value" s.confirm_username
                      ∷ on_text "onChange" confirm_changed
                      ∷ flag "autoFocus" true
                      ∷ [])
                    nothing)))
        ▸ el "AlertDialogFooter" [] (
            el "AlertDialogCancel" (on "onClick" cancelled ∷ []) (text "Cancel")
            ▸ el "AlertDialogAction"
                (prop "variant" "destructive"
                  ∷ on "onClick" delete_account
                  ∷ flag "disabled" (not (can_delete u s) || s.is_deleting)
                  ∷ [])
                (text (if s.is_deleting then "Deleting…" else "Delete my account")))))

unfoldable pub view : Option User → Theme → State → V
unfolding appearance confirm_dialog
view none theme s = nothing
view (some u) theme s = el "AppLayout" (prop "title" "Settings" ∷ []) (
    appearance theme
    ▸ el "div" [] (
        el "h2" [] (text "Account")
        ▸ leaf "Separator"
        ▸ el "div" [] (
            el "div" [] (
              el "p" [] (text "Delete Account")
              ▸ el "p" [] (
                  text
                    "Permanently delete your account and all associated data. This action cannot be undone."))
            ▸ confirm_dialog u s)))

-- The state and the effects after several events, for one user.
abbrev pub run : Option User → State → List Event → Out
run user = run_all (update user)
