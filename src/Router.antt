-- ===== src/Router.antt =====
-- web/src/router: AppRouter.tsx, the table of the routes, and ProtectedRoute.tsx, their guard.
-- The paths of the table have no parameters, so a location is compared with them as a whole; the
-- normalisation of a location by the router's package (a trailing slash, letter case) is left out.
pub mod Laws
mod Tests
use bittuly.Prelude.{
  Bool, true, false, Option, none, some, List, [], ◌∷◌, String, if◌then◌else◌, str_eq, is_some,
}
use bittuly.Session.{Session}

pub data Page : Type 0 where
  signup : Page
  login : Page
  verify_otp : Page
  dashboard : Page
  insights : Page
  profile : Page
  settings : Page
  health : Page
  unavailable : Page

-- The element of a route.
pub data Element : Type 0 where
  plain : Page → Element
  protected : Page → Element
  replace_by : String → Element

pub record Route : Type 0 where
  pub path : String
  pub element : Element

-- `<Routes>` in the order of the source, without its last one, `path="*"`.
abbrev pub routes : List Route
routes =
    record { path = "/signup"; element = plain signup }
    ∷ record { path = "/login"; element = plain login }
    ∷ record { path = "/verify-otp"; element = plain verify_otp }
    ∷ record { path = "/dashboard"; element = protected dashboard }
    ∷ record { path = "/insights"; element = protected insights }
    ∷ record { path = "/profile"; element = protected profile }
    ∷ record { path = "/settings"; element = protected settings }
    ∷ record { path = "/health"; element = protected health }
    ∷ record { path = "/unavailable"; element = plain unavailable }
    ∷ record { path = "/"; element = replace_by "/dashboard" }
    ∷ []

-- The element for a location: the route with its path, or else the one of `*`.
unfoldable pub find : String → List Route → Element
find l [] = plain unavailable
find l (r ∷ rs) = if str_eq r.path l then r.element else find l rs

-- What is on the screen, or where the router goes next.
pub data Shown : Type 0 where
  spinner : Shown
  page : Page → Shown
  go : String → Shown

-- `ProtectedRoute`.
unfoldable pub protected_route : Session → Page → Shown
protected_route s children =
    if s.is_loading then spinner else if is_some s.user then page children else go "/login"

unfoldable pub render : Session → Element → Shown
unfolding protected_route
render s (plain p) = page p
render s (protected p) = protected_route s p
render s (replace_by l) = go l

-- `AppRouter` for the session's path.
unfoldable pub app_router : Session → Shown
unfolding render find
app_router s = render s (find s.path routes)

-- `Navigate` in the shown element, where there is one.
unfoldable pub follow : Session → Shown → Session
follow s spinner = s
follow s (page p) = s
follow s (go l) = record s { path = l }

unfoldable pub redirected : Session → Session
unfolding app_router follow
redirected s = follow s (app_router s)
