-- ===== src/Router/Tests.antt =====
-- The theorems on the routes at concrete inputs.
use bittuly.Prelude.{◌≡◌, refl, true, false, none, some, [], is_some}
use bittuly.Samples.{ada}
use bittuly.Session.{Session}
use bittuly.Router.{dashboard, login, page, app_router, redirected}
use bittuly.Router.Laws.{app_router-guards}

abbrev signed_in : Session
signed_in = record { user = some ada; is_loading = false; storage = []; path = "/dashboard" }

abbrev visitor : Session
visitor = record { user = none; is_loading = false; storage = []; path = "/" }

shows : app_router signed_in ≡ page dashboard
unfolding app_router
shows = refl

app_router-guards_example : (signed_in.is_loading ≡ false) × (is_some signed_in.user ≡ true)
app_router-guards_example = app_router-guards signed_in dashboard shows refl

-- Two redirects: to the dashboard, and to the login page.
both : app_router (redirected (redirected visitor)) ≡ page login
unfolding redirected
both = refl
