-- ===== src/Server/Wire/Tests.antt =====
-- The theorem on the client's requests at a dashboard of a service with three links.
use bittuly.Prelude.{◌≡◌, refl, false, none, some, [], ◌∷◌, map}
use bittuly.Samples.{host, env}
use bittuly.Server.Samples.{packages, rows, table, table-IsTable}
use bittuly.Api.Client.{resolved}
use bittuly.Api.Urls.{get_urls_page}
use bittuly.Web.Effect.{calls}
use bittuly.Pages.Dashboard.{first_page, init, run}
use bittuly.Pages.Dashboard.Paging.{follow}
use bittuly.Server.Urls.Routes.{segments}
use bittuly.Server.Urls.Paging.{matches}
use bittuly.Server.Urls.LateWrite.{quiet}
use bittuly.Server.Wire.{to_client, ask}
use bittuly.Server.Wire.Paging.{later, run-served}

segments_example : segments "/api/urls/" ≡ "api" ∷ "urls" ∷ []
unfolding segments
segments_example = refl

run-served_example :
    let serve_call = ask packages 7 env "u1" (quiet table) in
    let (st, out) = run host init (
      first_page (serve_call (get_urls_page none 20 (some "")))
      ∷ follow (later packages (quiet table) "u1")) in
    (st.urls ≡ map (to_client packages) (matches packages rows "u1" none))
    × (st.has_more ≡ false)
    × (map serve_call (calls out) ≡ map resolved (later packages (quiet table) "u1"))
run-served_example = run-served host packages 7 env "u1" (quiet table) table-IsTable refl
