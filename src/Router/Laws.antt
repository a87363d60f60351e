-- ===== src/Router/Laws.antt =====
-- Which pages a session shows, and where its redirects end.
use bittuly.Prelude.{◌⊎◌, ◌≡◌, refl, ap, Bool, true, false, none, String, inl, inr, arith, is_some}
use bittuly.Session.{Session}
use bittuly.Router.{
  Shown, spinner, go, Page, login, dashboard, insights, profile, settings, health, Element, plain,
  protected, replace_by, routes, find, page, protected_route, render, app_router, follow,
  redirected,
}

-- The pages that need a signed-in user.
abbrev pub is_private : Page → Bool
is_private dashboard = true
is_private insights = true
is_private profile = true
is_private settings = true
is_private health = true
is_private p = false

-- The guarded element of a route is one of a private page, and no other is.
abbrev pub IsGuarded : Element → Type 0
IsGuarded (plain p) = is_private p ≡ false
IsGuarded (protected p) = is_private p ≡ true
IsGuarded (replace_by l) = l ≡ "/dashboard"

find-IsGuarded : (l : String) → IsGuarded (find l routes)
unfolding find
find-IsGuarded l = ground arith

render-guards :
    (s : Session) (el : Element) (p : Page)
    → IsGuarded el
    → render s el ≡ page p
    → is_private p ≡ true
    → (s.is_loading ≡ false) × (is_some s.user ≡ true)
unfolding render protected_route
render-guards s (plain q) p g e h = ground arith
render-guards s (protected q) p g e h = ground arith
render-guards s (replace_by l) p g e h = ground arith

-- A page that is private is on the screen only where the session is settled and has a user,
-- whatever the path.
pub app_router-guards :
    (s : Session) (p : Page)
    → app_router s ≡ page p
    → is_private p ≡ true
    → (s.is_loading ≡ false) × (is_some s.user ≡ true)
unfolding app_router
app_router-guards s p e h = render-guards s (find s.path routes) p (find-IsGuarded s.path) e h

-- A session at another path.
abbrev pub at : String → Session → Session
at l s = record s { path = l }

-- What asks for no other path.
abbrev pub is_screen : Shown → Bool
is_screen spinner = true
is_screen (page p) = true
is_screen (go l) = false

follow-render :
    (s : Session) (el : Element)
    → IsGuarded el
    → let t = follow s (render s el) in
      ((is_screen (render s el) ≡ true) × (t ≡ s)) ⊎ (t ≡ at "/login" s) ⊎ (t ≡ at "/dashboard" s)
unfolding follow render protected_route
follow-render s (plain p) g = inl (refl, refl)
follow-render s (protected p) g = ground arith
follow-render s (replace_by l) g = inr (inr (ap (λ k. at k s) g))

redirected-cases :
    (s : Session)
    → ((is_screen (app_router s) ≡ true) × (redirected s ≡ s))
      ⊎ (redirected s ≡ at "/login" s)
      ⊎ (redirected s ≡ at "/dashboard" s)
unfolding redirected app_router
redirected-cases s = follow-render s (find s.path routes) (find-IsGuarded s.path)

-- The screens that the two paths lead to.
login_path-screen :
    (s : Session)
    → (is_screen (app_router (at "/login" s)) ≡ true) × (redirected (at "/login" s) ≡ at "/login" s)
unfolding redirected app_router follow render find
login_path-screen s = (refl, refl)

dashboard_path-cases :
    (s : Session)
    → ((is_screen (app_router (at "/dashboard" s)) ≡ true)
        × (redirected (at "/dashboard" s) ≡ at "/dashboard" s))
      ⊎ (redirected (at "/dashboard" s) ≡ at "/login" s)
unfolding redirected follow app_router render protected_route find
dashboard_path-cases s = ground arith

-- The redirects of the router end: from any path, after at most two of them, a screen is reached, a
-- page or the spinner, which asks for no other and stays.
pub redirected-settles :
    (s : Session)
    → let t = redirected (redirected s) in (is_screen (app_router t) ≡ true) × (redirected t ≡ t)
redirected-settles s = elim (redirected-cases s) [
  | inl e ↦ rw (e.1, e.1) e
  | inr (inl e) ↦ rw (e, (login_path-screen s).1) (login_path-screen s)
  | inr (inr e) ↦ elim (dashboard_path-cases s) [
    | inl d ↦ rw (e, d.1) d
    | inr d ↦ rw (e, d) (login_path-screen s)
  ]
]

-- Where nobody is signed in, the path of a private page leads to the login page, in one step.
pub redirected-login :
    (s : Session) (p : Page)
    → s.is_loading ≡ false
    → s.user ≡ none
    → find s.path routes ≡ protected p
    → (redirected s ≡ at "/login" s) × (app_router (redirected s) ≡ page login)
unfolding redirected app_router follow render protected_route
redirected-login s p a b e = rw (e, a, b) (refl, refl)
