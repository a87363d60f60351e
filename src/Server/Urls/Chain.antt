-- ===== src/Server/Urls/Chain.antt =====
-- A client that asks for page after page: services/url-service/src/handlers.rs, `get_all_urls`.
use mathlib.Core.Option
use mathlib.Core.Path.{subst}
use bittuly.Prelude.{
  ℕ, zero, suc, ◌≤◌, ◌<◌, ◌≡◌, refl, sym, ◌∙◌, ap, true, Option, none, some, List, [], ◌∷◌, String,
  All, take, drop, length, ltb, ltb→lt, Bool-cases, inl, inr, template, arith,
}
use bittuly.Server.Numbers.{ℤ, pos, negsuc, to_hex, max_i64}
use bittuly.Server.Numbers.RoundTrip.{truthy-to_hex, from_str_radix-to_hex}
use bittuly.Server.Urls.{Url, Packages, Page}
use bittuly.Server.Urls.Repository.{is_before, clamp, last, cut_page, get_urls_page}
use bittuly.Server.Urls.Table.{IsTable, IsDesc, IsDesc-filter}
use bittuly.Server.Urls.Paging.{
  matches, from_cursor, filter-filter, select_urls-matches, last-lt, drop-last, cut_page-more,
  cut_page-last,
}
use bittuly.Server.Urls.Cuts.{cut_pages}
use bittuly.Server.Urls.Handlers.{
  State, Response, page, get_all_urls, keep_search, limit_or_default, decode_cursor,
}

abbrev pub follow_next : (String → List Page) → Option String → List Page
follow_next next none = []
follow_next next (some c) = next c

abbrev pub follow_page : (String → List Page) → Response → List Page
follow_page next (page q) = q ∷ follow_next next q.next_cursor
follow_page next r = []

-- The pages that a client gets which asks with the cursor of each page for the next, for at most so
-- many requests.
unfoldable pub follow_cursors :
    ℕ → Packages → State → String → Option ℤ → Option String → Option String → List Page
follow_cursors zero p s user_id limit search cursor = []
follow_cursors (suc f) p s user_id limit search cursor =
    follow_page (λ c. follow_cursors f p s user_id limit search (some c))
      (get_all_urls p s user_id (record { cursor = cursor; limit = limit; search = search }))

-- The pattern that a search becomes.
abbrev pub pattern_of : Option String → Option String
pattern_of search = Option.map (λ s. template ("%" ∷ s ∷ "%" ∷ [])) (keep_search search)

decode_cursor-to_hex : (n : ℕ) → n ≤ max_i64 → decode_cursor (some (to_hex n)) ≡ some (some (pos n))
unfolding decode_cursor
decode_cursor-to_hex n h = rw (truthy-to_hex n, from_str_radix-to_hex n h) refl

-- The last of the first links is one of them.
last-All {κ} :
    (P : Url → Type κ) (k : ℕ) (us : List Url) (a : Url)
    → All P us
    → last (take (suc k) us) ≡ some a
    → P a
last-All P k [] a h e = cc
last-All P zero (u ∷ us) a h e = let q : u ≡ a = cc in subst P q h.0
last-All P (suc k) (u ∷ []) a h e = let q : u ≡ a = cc in subst P q h.0
last-All P (suc k) (u ∷ v ∷ us) a h e = last-All P k (v ∷ us) a h.1 e

from_cursor-All :
    (c : Option ℤ) (us : List Url) → All (λ u. is_before c u ≡ true) (from_cursor c us)
from_cursor-All c [] = tt
from_cursor-All c (u ∷ us) = elim (Bool-cases (is_before c u)) [
  | inl e ↦ rw e (e, from_cursor-All c us)
  | inr e ↦ rw e (from_cursor-All c us)
]

is_before-lt :
    (c : Option ℤ) (a u : Url)
    → is_before c a ≡ true
    → ltb u.url_id a.url_id ≡ true
    → is_before c u ≡ true
is_before-lt none a u h l = refl
is_before-lt (some (pos n)) a u h l = ground arith
is_before-lt (some (negsuc n)) a u h l = cc

-- Where a page ends, the next begins.
next-from_cursor :
    (n k : ℕ) (c : Option ℤ) (us : List Url) (a : Url)
    → IsDesc n us
    → last (take (suc k) (from_cursor c us)) ≡ some a
    → k < length (from_cursor c us)
    → from_cursor (some (pos a.url_id)) us ≡ drop (suc k) (from_cursor c us)
next-from_cursor n k c us a d e h =
    let rest = from_cursor c us in
    let before = last-All (λ u. is_before c u ≡ true) k rest a (from_cursor-All c us) e in
    sym (
      filter-filter (λ u. ltb u.url_id a.url_id) (is_before c) us
        (λ u l. is_before-lt c a u before l))
    ∙ drop-last n k rest a (IsDesc-filter (is_before c) n us d) e h

module _ (p : Packages) (s : State) (t : IsTable p s.replica) (up : s.replica.up ≡ true)
    (user_id : String) (limit : Option ℤ) (search : Option String) where
  abbrev pub found : List Url
  found = matches p s.replica.rows user_id (pattern_of search)

  pub get_all_urls-page :
      (cursor : Option String) (c : Option ℤ)
      → decode_cursor cursor ≡ some c
      → get_all_urls p s user_id (record { cursor = cursor; limit = limit; search = search })
        ≡ page (cut_page (clamp (limit_or_default limit)) (from_cursor c found))
  unfolding get_all_urls get_urls_page
  get_all_urls-page cursor c e =
      rw (get_all_urls, e)
        (ground (
          arith,
          up,
          select_urls-matches p s.replica.next_id s.replica.rows user_id c (pattern_of search)
              t.ordered,
        ))

  pub found-IsDesc : IsDesc s.replica.next_id found
  found-IsDesc = IsDesc-filter _ s.replica.next_id s.replica.rows t.ordered

  -- The cursor of a page is read back, and the next page begins where this one ends.
  pub next-cursor :
      (k : ℕ) (c : Option ℤ) (a : Url)
      → suc k < length (from_cursor c found)
      → last (take (suc k) (from_cursor c found)) ≡ some a
      → (decode_cursor (some (to_hex a.url_id)) ≡ some (some (pos a.url_id)))
        × (from_cursor (some (pos a.url_id)) found ≡ drop (suc k) (from_cursor c found))
  next-cursor k c a h l =
      let falling = IsDesc-filter (is_before c) s.replica.next_id found found-IsDesc in
      let low = last-lt s.replica.next_id k (from_cursor c found) a falling l in
      (
        decode_cursor-to_hex a.url_id (omega (arith, low, t.bounded)),
        next-from_cursor s.replica.next_id k c found a found-IsDesc l (omega arith),
      )

  -- Asking with each cursor gives the links from the first cursor on, cut into pages.
  pub follow_cursors-cut_pages :
      (f k : ℕ) (cursor : Option String) (c : Option ℤ)
      → clamp (limit_or_default limit) ≡ suc k
      → decode_cursor cursor ≡ some c
      → follow_cursors f p s user_id limit search cursor ≡ cut_pages f (suc k) (from_cursor c found)
  unfolding follow_cursors cut_pages
  follow_cursors-cut_pages zero k cursor c size e = refl
  follow_cursors-cut_pages (suc f) k cursor c size e =
      let rest = from_cursor c found in
      rw (get_all_urls-page cursor c e, size)
        (elim (Bool-cases (ltb (suc k) (length rest))) [
          | inl m ↦
              let more = ltb→lt (suc k) (length rest) m in
              let (a, l, q) = cut_page-more k rest more in
              let (decoded, begins) = next-cursor k c a more l in
              let ih =
                follow_cursors-cut_pages f k (some (to_hex a.url_id)) (some (pos a.url_id)) size
                  decoded
                ∙ ap (cut_pages f (suc k)) begins in
              rw (q, m, ih)
          | inr m ↦ rw (m, cut_page-last (suc k) rest (ground (arith, m))) refl
        ])
