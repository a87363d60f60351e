-- ===== src/Components/Layout/Laws.antt =====
-- Where the frame's links lead, and which of them is marked.
use bittuly.Prelude.{
  ℕ, ◌+◌, ◌≡◌, refl, true, false, ◌&&◌, ◌||◌, Option, none, some, List, [], ◌∷◌, ◌++◌, String, All,
  if◌then◌else◌, str_eq, str_eq_iff, arith, Bool-cases, inl, inr,
}
use bittuly.Web.Host.{Host}
use bittuly.Web.View.{Attr, prop, flag, on, on_text, nothing, text, num, el, seq, clicks}
use bittuly.Api.Auth.{User}
use bittuly.Session.{Session}
use bittuly.Router.{
  Page, dashboard, insights, profile, settings, health, page, protected, protected_route, render,
  routes, find, app_router,
}
use bittuly.Router.Laws.{at, is_private}
use bittuly.Components.Layout.{Event, go_to, ask_sign_out, V, user_footer, user_menu, app_layout}

-- The paths that the links of a view lead to.
abbrev to_paths : List (Attr Event) → List String
to_paths [] = []
to_paths (prop k v ∷ as') = if str_eq k "to" then v ∷ to_paths as' else to_paths as'
to_paths (flag k b ∷ as') = to_paths as'
to_paths (on k e ∷ as') = to_paths as'
to_paths (on_text k f ∷ as') = to_paths as'

abbrev pub links : V → List String
links nothing = []
links (text s) = []
links (num n) = []
links (el tag attrs kids) = to_paths attrs ++ links kids
links (seq v w) = links v ++ links w

-- The paths that a click on a menu goes to.
abbrev pub menu_paths : List Event → List String
menu_paths [] = []
menu_paths (go_to l ∷ es) = l ∷ menu_paths es
menu_paths (ask_sign_out ∷ es) = menu_paths es

-- How many entries of a view are marked as the active one.
abbrev active_flags : List (Attr Event) → ℕ
active_flags [] = 0
active_flags (prop k v ∷ as') = active_flags as'
active_flags (flag k b ∷ as') = (if str_eq k "isActive" && b then 1 else 0) + active_flags as'
active_flags (on k e ∷ as') = active_flags as'
active_flags (on_text k f ∷ as') = active_flags as'

abbrev pub actives : V → ℕ
actives nothing = 0
actives (text s) = 0
actives (num n) = 0
actives (el tag attrs kids) = active_flags attrs + actives kids
actives (seq v w) = actives v + actives w

-- A path that shows a private page of its own.
abbrev pub Leads : Session → String → Type 0
Leads s l = (p : Page) × (app_router (at l s) ≡ page p) × (is_private p ≡ true)

shows :
    (s : Session) (p : Page) (l : String) (u : User)
    → s.is_loading ≡ false
    → s.user ≡ some u
    → find l routes ≡ protected p
    → app_router (at l s) ≡ page p
unfolding app_router render protected_route
shows s p l u a b e = rw (e, a, b) refl

-- Around an empty page, for a settled session with a user: every link of the sidebar and every item
-- of the user's menu that goes somewhere leads to a private page, without a redirect, and to no
-- missing one.
pub app_layout-Leads :
    (h : Host) (title : String) (u : User) (s : Session)
    → s.is_loading ≡ false
    → s.user ≡ some u
    → let v = app_layout h s.path (some u) title nothing in
      All (Leads s) (links v ++ menu_paths (clicks v))
unfolding app_layout
app_layout-Leads h title u s a b = (
  (dashboard, shows s dashboard "/dashboard" u a b (unfold find in refl), refl),
  (
    (insights, shows s insights "/insights" u a b (unfold find in refl), refl),
    (
      (health, shows s health "/health" u a b (unfold find in refl), refl),
      (
        (profile, shows s profile "/profile" u a b (unfold find in refl), refl),
        ((settings, shows s settings "/settings" u a b (unfold find in refl), refl), tt),
      ),
    ),
  ),
)

-- A path is at most one of the three.
one_path :
    (l : String)
    → (if str_eq l "/dashboard" then 1 else 0)
        + ((if str_eq l "/insights" then 1 else 0) + (if str_eq l "/health" then 1 else 0))
      ≡ (if str_eq l "/dashboard" || (str_eq l "/insights" || str_eq l "/health") then 1 else 0)
one_path l = elim (Bool-cases (str_eq l "/dashboard")) [
  | inl q ↦ rw ((str_eq_iff l "/dashboard").0 q) refl
  | inr q ↦ elim (Bool-cases (str_eq l "/insights")) [
    | inl r ↦ rw ((str_eq_iff l "/insights").0 r) refl
    | inr r ↦ rw (q, r) (omega arith)
  ]
]

-- The sidebar marks one entry where the path is that of an entry, and none elsewhere.
pub app_layout-actives :
    (h : Host) (title l : String) (user : Option User)
    → actives (app_layout h l user title nothing)
      ≡ (if str_eq l "/dashboard" || (str_eq l "/insights" || str_eq l "/health") then 1 else 0)
unfolding app_layout user_footer user_menu
app_layout-actives h title l none = omega (arith, one_path l)
app_layout-actives h title l (some u) = omega (arith, one_path l)
