-- ===== src/Pages/Dashboard/Waiting.antt =====
-- The page together with the calls that it waits for: the user may do what the page allows, and
-- answers come in any order.
use bittuly.Prelude.{
  ℕ, suc, ◌≡◌, refl, ◌+◌, ◌-◌, ◌<◌, Bool, false, List, [], ◌∷◌, if◌then◌else◌, arith,
}
use bittuly.Web.Effect.{calls}
use bittuly.Web.View.{submits}
use bittuly.Web.Host.{Host}
use bittuly.Api.Urls.{UrlsCall, create_url, get_urls_page, get_urls, delete_url, is_set}
use bittuly.Pages.Dashboard.{State, Event, more_page, shorten, created, init, update}
use bittuly.Pages.Dashboard.Render.{view, view-submits}

-- The calls among some that ask for a further page, and those that create a link.
abbrev pub more_calls : List UrlsCall → ℕ
more_calls [] = 0
more_calls (get_urls_page cursor limit search ∷ cs) =
    (if is_set cursor then 1 else 0) + more_calls cs
more_calls (create_url u e ∷ cs) = more_calls cs
more_calls (get_urls ∷ cs) = more_calls cs
more_calls (delete_url id ∷ cs) = more_calls cs

abbrev pub create_calls : List UrlsCall → ℕ
create_calls [] = 0
create_calls (get_urls_page cursor limit search ∷ cs) = create_calls cs
create_calls (create_url u e ∷ cs) = suc (create_calls cs)
create_calls (get_urls ∷ cs) = create_calls cs
create_calls (delete_url id ∷ cs) = create_calls cs

-- `more` and `creations` count the calls of the two kinds that have no answer yet.
pub record System : Type 0 where
  pub page : State
  pub more : ℕ
  pub creations : ℕ

-- An answer comes only to a call; the form is submitted only if its view can be.
abbrev pub Allowed : System → Event → Type 0
Allowed w (more_page r) = 0 < w.more
Allowed w (created r) = 0 < w.creations
Allowed w shorten = submits (view w.page) ≡ shorten ∷ []
Allowed w _ = Unit {0}

abbrev more_answers : Event → ℕ
more_answers (more_page r) = 1
more_answers _ = 0

abbrev create_answers : Event → ℕ
create_answers (created r) = 1
create_answers _ = 0

unfoldable pub after : Host → System → Event → System
after h w e =
    let (s, out) = update h w.page e in
    record {
      page = s;
      more = w.more + more_calls (calls out) - more_answers e;
      creations = w.creations + create_calls (calls out) - create_answers e;
    }

abbrev pub start : System
start = record { page = init; more = 0; creations = 0 }

pub data Reach (h : Host) : System → Type 0 where
  here : Reach h start
  next : {w : System} → Reach h w → (e : Event) → Allowed w e → Reach h (after h w e)

abbrev one_if : Bool → ℕ
one_if b = if b then 1 else 0

pub record IsSingle (w : System) : Type 0 where
  pub one_page : w.more ≡ one_if w.page.is_loading_more
  pub one_creation : w.creations ≡ one_if w.page.is_shortening

submits-idle : (s : State) → submits (view s) ≡ shorten ∷ [] → s.is_shortening ≡ false
submits-idle s e = ground (arith, view-submits s)

after-IsSingle :
    (h : Host) (w : System) (e : Event) → Allowed w e → IsSingle w → IsSingle (after h w e)
unfolding after update
after-IsSingle h w (more_page r) a i = ground arith
after-IsSingle h w (created r) a i = ground arith
after-IsSingle h w shorten a i = ground (arith, submits-idle w.page a)
after-IsSingle h w e a i = ground arith

-- In every state that the page can reach, where the form is submitted only if its view allows it and
-- each answer is one to a call, in any order, at most one further page is being loaded and at most
-- one link is being created: there is a call without an answer exactly while the page says so. So a
-- double click loads no page twice and creates no link twice.
pub Reach-IsSingle : (h : Host) (w : System) → Reach h w → IsSingle w
unfolding init
Reach-IsSingle h w here = record { one_page = refl; one_creation = refl }
Reach-IsSingle h w (next {w = v} r e a) = after-IsSingle h v e a (Reach-IsSingle h v r)
