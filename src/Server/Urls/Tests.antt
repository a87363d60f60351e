-- ===== src/Server/Urls/Tests.antt =====
-- The theorems on the service of links at concrete requests and runs.
use bittuly.Prelude.{
  ◌≤◌, ◌≡◌, refl, inl, inr, true, none, some, List, [], ◌∷◌, String, All, show, str_eq_iff, false,
  arith,
}
use bittuly.Server.Samples.{packages, packages-IsInjective, row, rows, table, table-IsTable}
use bittuly.Server.Numbers.{pos}
use bittuly.Server.Urls.{ok}
use bittuly.Server.Urls.Repository.{
  clamp, get_original_url, add_shorten_url, insert_url, new_url, delete_url,
}
use bittuly.Server.Urls.Handlers.{
  State, redirect, l1_get, limit_or_default, redirect_url, load, run_task, shorten_url,
  delete_url_handler,
}
use bittuly.Server.Urls.Table.{IsTable}
use bittuly.Server.Urls.Paging.{matches}
use bittuly.Server.Urls.Chain.{follow_cursors}
use bittuly.Server.Urls.Cuts.{page_urls, IsWithin}
use bittuly.Server.Urls.Pages.{follow_cursors-urls}
use bittuly.Server.Urls.System.{Event, shorten, follow, delete, task, replicate, init, run, step}
use bittuly.Server.Urls.System.Codes.{IsIssued}
use bittuly.Server.Urls.System.Safety.{given, run-IsTable, run-redirect}
use bittuly.Server.Urls.Redirects.{expected, redirect_url-expected}
use bittuly.Server.Urls.Created.{shorten-follow}
use bittuly.Server.Urls.Users.{requests-others}
use bittuly.Server.Urls.Deadlines.{run_task-deadline}
use bittuly.Server.Urls.Handlers.{redis_get, cache_url}
use bittuly.Server.Urls.LateWrite.{quiet, late_write, late_write-redirects}

-- A link is created, followed, deleted and created anew.
abbrev events : List Event
events =
    shorten 1 "u1" "https://a.example" none
    ∷ replicate
    ∷ follow 2 "1"
    ∷ delete "u1" (pos 1)
    ∷ shorten 3 "u1" "https://a.example" none
    ∷ task 4 0
    ∷ []

run-IsTable_example :
    let (s, log) = run packages init [] events in
    IsTable packages s.primary × IsTable packages s.replica
run-IsTable_example = run-IsTable packages events packages-IsInjective

abbrev target : String
target = "https://a.example"

-- The link is deleted while its write to Redis waits.
abbrev deleted_early : List Event
deleted_early =
    shorten 1 "u1" "https://a.example" none
    ∷ replicate
    ∷ follow 2 "1"
    ∷ delete "u1" (pos 1)
    ∷ task 4 0
    ∷ []

run-redirect_example :
    let log = (run packages init [] deleted_early).1 in
    IsIssued log "1" target × All (λ other. target ≡ other) (given "1" log)
unfolding run step shorten_url add_shorten_url insert_url show redirect_url load delete_url_handler
    delete_url run_task init get_original_url
run-redirect_example = run-redirect packages deleted_early 5 "1" target packages-IsInjective refl

-- The service with the links of a table, nothing cached.
abbrev three_links : State
three_links = quiet table

follow_cursors-urls_example :
    let pages = follow_cursors 9 packages three_links "u1" (some (pos 2)) none none in
    (page_urls pages ≡ matches packages rows "u1" none)
    × All (IsWithin (clamp (limit_or_default (some (pos 2))))) pages
    × (1 ≤ clamp (limit_or_default (some (pos 2))))
    × (clamp (limit_or_default (some (pos 2))) ≤ 100)
follow_cursors-urls_example =
    follow_cursors-urls packages three_links "u1" (some (pos 2)) none 9 table-IsTable refl
      (omega arith)

redirect_url-expected_example :
    let (s', r) = redirect_url 7 three_links "2" in
    let outcome = expected 7 "2" (get_original_url table "2") in
    (r ≡ outcome.response)
    × (s'.tasks ≡ outcome.tasks)
    × (l1_get 7 "2" s'.l1_cache ≡ outcome.cached)
redirect_url-expected_example = redirect_url-expected 7 three_links "2" refl refl

-- The link that a creation answers with.
abbrev fourth : String
fourth = "https://d.example"

shorten-follow_example :
    let s' = (step packages (shorten_url packages 9 three_links "u2" fourth none).0 replicate).0 in
    (redirect_url 10 s' "4").1 ≡ redirect fourth
unfolding shorten_url add_shorten_url insert_url show
shorten-follow_example =
    shorten-follow packages 9 10 three_links "u2" fourth none
      (new_url packages 9 4 fourth "u2" none) packages-IsInjective table-IsTable refl refl refl refl
      refl

requests-others_example :
    (matches packages (shorten_url packages 9 three_links "u2" fourth none).0.primary.rows "u1" none
      ≡ matches packages rows "u1" none)
    × (matches packages (delete_url_handler three_links "u2" (pos 3)).0.primary.rows "u1" none
        ≡ matches packages rows "u1" none)
requests-others_example =
    requests-others packages 9 three_links "u2" "u1" fourth none (pos 3) none
      (λ e. let p : false ≡ true = (str_eq_iff "u2" "u1").1 e in cc) table-IsTable

late_write-redirects_example :
    let b = row 2 "https://b.example" in
    let s = (run packages (quiet table) [] (late_write 7 8 b)).0 in
    (get_original_url s.primary b.short_code ≡ ok none)
    × (get_original_url s.replica b.short_code ≡ ok none)
    × ((redirect_url 4000000000 s b.short_code).1 ≡ redirect "https://b.example")
late_write-redirects_example =
    late_write-redirects packages 7 8 4000000000 (row 2 "https://b.example") table
      packages-IsInjective table-IsTable refl (inr (inl refl)) refl (omega arith)

-- A link that expires five seconds after the write, a second and more later.
run_task-deadline_example :
    redis_get 6000000000 "9"
      (run_task 10 three_links (cache_url "9" "https://e.example" (some 5000000000)))
    ≡ none
run_task-deadline_example =
    run_task-deadline 10 6000000000 5000000000 three_links "9" "https://e.example" (omega arith)
      refl
