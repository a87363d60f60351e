-- ===== src/Server/Urls/Pages.antt =====
-- What a client gets that follows the cursors of services/url-service/src/handlers.rs,
-- `get_all_urls`.
use mathlib.Core.Path.{subst}
use bittuly.Prelude.{
  sym, ℕ, suc, ◌-◌, ◌≤◌, ◌<◌, ◌≡◌, refl, true, Option, none, String, All, length, arith,
}
use bittuly.Server.Numbers.{ℤ, pos, negsuc}
use bittuly.Server.Urls.{Packages}
use bittuly.Server.Urls.Repository.{clamp}
use bittuly.Server.Urls.Table.{IsTable}
use bittuly.Server.Urls.Paging.{matches, from_cursor-none}
use bittuly.Server.Urls.Cuts.{page_urls, page_urls-cut_pages, IsWithin, cut_pages-IsWithin}
use bittuly.Server.Urls.Chain.{follow_cursors, pattern_of, follow_cursors-cut_pages}
use bittuly.Server.Urls.Handlers.{State, limit_or_default, decode_cursor}

pub clamp_bounds : (n : ℤ) → (1 ≤ clamp n) × (clamp n ≤ 100)
clamp_bounds (pos n) = ground arith
clamp_bounds (negsuc n) = omega arith

-- For a limit that is known.
sized_pages :
    (p : Packages) (s : State) (user_id : String) (limit : Option ℤ) (query : Option String)
    (f k : ℕ)
    → IsTable p s.replica
    → s.replica.up ≡ true
    → length (matches p s.replica.rows user_id (pattern_of query)) < f
    → clamp (limit_or_default limit) ≡ suc k
    → let pages = follow_cursors f p s user_id limit query none in
      (page_urls pages ≡ matches p s.replica.rows user_id (pattern_of query))
      × All (IsWithin (suc k)) pages
unfolding decode_cursor
sized_pages p s w limit query f k t up enough size =
    let found = matches p s.replica.rows w (pattern_of query) in
    rw
      (
        follow_cursors-cut_pages p s t up w limit query f k none none size refl,
        from_cursor-none found,
      )
      (page_urls-cut_pages f k found enough, cut_pages-IsWithin f k found)

-- Where the replica answers and its table is in order, a client that asks for one more page than
-- there are links, each with the cursor of the page before, gets the user's links that the query
-- finds, each once and the newest first, and no page has more links than the limit, kept between 1
-- and 100.
pub follow_cursors-urls :
    (p : Packages) (s : State) (user_id : String) (limit : Option ℤ) (query : Option String) (f : ℕ)
    → IsTable p s.replica
    → s.replica.up ≡ true
    → length (matches p s.replica.rows user_id (pattern_of query)) < f
    → let pages = follow_cursors f p s user_id limit query none in
      (page_urls pages ≡ matches p s.replica.rows user_id (pattern_of query))
      × All (IsWithin (clamp (limit_or_default limit))) pages
      × (1 ≤ clamp (limit_or_default limit))
      × (clamp (limit_or_default limit) ≤ 100)
follow_cursors-urls p s w limit query f t up enough =
    let k = clamp (limit_or_default limit) - 1 in
    let (one, hundred) = clamp_bounds (limit_or_default limit) in
    let size : clamp (limit_or_default limit) ≡ suc k = omega arith in
    let (urls, within) = sized_pages p s w limit query f k t up enough size in
    (
      urls,
      subst (λ n. All (IsWithin n) (follow_cursors f p s w limit query none)) (sym size) within,
      one,
      hundred,
    )
