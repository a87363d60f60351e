-- ===== src/Server/Urls/Served.antt =====
-- Each page is the answer of services/url-service/src/handlers.rs, `get_all_urls`, to the cursor of
-- the page before.
use mathlib.Core.Path.{subst}
use bittuly.Prelude.{
  ℕ, zero, suc, ◌≡◌, sym, ◌∙◌, ap, true, Option, some, List, [], ◌∷◌, String, drop, length, ltb,
  ltb→lt, Bool-cases, inl, inr,
}
use bittuly.Server.Numbers.{ℤ, pos, to_hex}
use bittuly.Server.Urls.{Packages, Page}
use bittuly.Server.Urls.Repository.{clamp, cut_page}
use bittuly.Server.Urls.Table.{IsTable}
use bittuly.Server.Urls.Paging.{matches, from_cursor, cut_page-more}
use bittuly.Server.Urls.Cuts.{cut_pages, later_pages}
use bittuly.Server.Urls.Chain.{pattern_of, get_all_urls-page, next-cursor}
use bittuly.Server.Urls.Handlers.{State, page, get_all_urls, limit_or_default, decode_cursor}

module _ (p : Packages) (s : State) (user_id : String) (limit : Option ℤ)
    (search : Option String) where
  -- Each page is the answer to the cursor of the one before, and the first to the first cursor.
  abbrev pub IsServed : Option String → Page → List Page → Type 0
  IsServed cursor q [] =
      get_all_urls p s user_id (record { cursor = cursor; limit = limit; search = search }) ≡ page q
  IsServed cursor q (r ∷ qs) =
      (get_all_urls p s user_id (record { cursor = cursor; limit = limit; search = search })
        ≡ page q)
      × IsServed q.next_cursor r qs

  pub cut_page-IsServed :
      (t : IsTable p s.replica) (up : s.replica.up ≡ true) (f k : ℕ) (cursor : Option String)
      (c : Option ℤ)
      → clamp (limit_or_default limit) ≡ suc k
      → decode_cursor cursor ≡ some c
      → let rest = from_cursor c (matches p s.replica.rows user_id (pattern_of search)) in
        IsServed cursor (cut_page (suc k) rest) (later_pages f (suc k) rest)
  unfolding later_pages cut_pages
  cut_page-IsServed t up zero k cursor c size e =
      let rest = from_cursor c (matches p s.replica.rows user_id (pattern_of search)) in
      let answer =
        get_all_urls-page p s t up user_id limit search cursor c e
        ∙ ap (λ n. page (cut_page n rest)) size in
      elim (Bool-cases (ltb (suc k) (length rest))) [
        | inl m ↦ rw (later_pages, m) answer
        | inr m ↦ rw (later_pages, m) answer
      ]
  cut_page-IsServed t up (suc f) k cursor c size e =
      let rest = from_cursor c (matches p s.replica.rows user_id (pattern_of search)) in
      let answer =
        get_all_urls-page p s t up user_id limit search cursor c e
        ∙ ap (λ n. page (cut_page n rest)) size in
      elim (Bool-cases (ltb (suc k) (length rest))) [
        | inl m ↦
            let more = ltb→lt (suc k) (length rest) m in
            let (a, l, q) = cut_page-more k rest more in
            let (decoded, begins) = next-cursor p s t up user_id limit search k c a more l in
            let ih =
              cut_page-IsServed t up f k (some (to_hex a.url_id)) (some (pos a.url_id)) size
                decoded in
            let served =
              subst
                (λ us.
                  IsServed (some (to_hex a.url_id)) (cut_page (suc k) us)
                    (later_pages f (suc k) us))
                begins ih in
            rw (later_pages, m)
              (
                answer,
                subst
                    (λ o.
                      IsServed o (cut_page (suc k) (drop (suc k) rest))
                        (later_pages f (suc k) (drop (suc k) rest)))
                    (sym (ap (λ (r : Page). r.next_cursor) q)) served,
              )
        | inr m ↦ rw (later_pages, m) answer
      ]
