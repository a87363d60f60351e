-- ===== src/Server/Urls/Cuts.antt =====
-- Links cut into pages: what the pages hold, and that their cursors link them.
use mathlib.Core.List.{append-nil}
use bittuly.Api.Urls.{is_set}
use bittuly.Prelude.{
  ℕ, zero, suc, ◌≤◌, ◌<◌, ◌≡◌, refl, true, false, none, List, [], ◌∷◌, ◌++◌, All, drop, length,
  length-drop, length-take, take-append-drop, if◌then◌else◌, ltb, ltb→lt, Bool-cases, inl, inr,
  arith,
}
use bittuly.Server.Numbers.RoundTrip.{truthy-to_hex}
use bittuly.Server.Urls.{Url, Page}
use bittuly.Server.Urls.Repository.{cut_page}
use bittuly.Server.Urls.Paging.{cut_page-more, cut_page-last}

-- The same links cut into pages.
unfoldable pub cut_pages : ℕ → ℕ → List Url → List Page
cut_pages zero k us = []
cut_pages (suc f) k us =
    let more = cut_pages f k (drop k us) in cut_page k us ∷ (if ltb k (length us) then more else [])

length-drop-lt :
    (k f : ℕ) (us : List Url) → suc k < length us → length us < suc f → length (drop (suc k) us) < f
length-drop-lt k f us m h = omega (arith, length-drop (suc k) us)

abbrev pub page_urls : List Page → List Url
page_urls [] = []
page_urls (q ∷ qs) = q.urls ++ page_urls qs

-- The pages of some links are those links.
pub page_urls-cut_pages :
    (f k : ℕ) (us : List Url) → length us < f → page_urls (cut_pages f (suc k) us) ≡ us
unfolding cut_pages
page_urls-cut_pages zero k us h = absurd (omega arith)
page_urls-cut_pages (suc f) k us h = elim (Bool-cases (ltb (suc k) (length us))) [
  | inl m ↦
      let more = ltb→lt (suc k) (length us) m in
      let (a, l, q) = cut_page-more k us more in
      rw (m, q, page_urls-cut_pages f k (drop (suc k) us) (length-drop-lt k f us more h))
        (take-append-drop (suc k) us)
  | inr m ↦ rw (m, cut_page-last (suc k) us (ground (arith, m))) (append-nil us)
]

-- A page holds at most so many links.
abbrev pub IsWithin : ℕ → Page → Type 0
IsWithin k q = length q.urls ≤ k

pub cut_pages-IsWithin : (f k : ℕ) (us : List Url) → All (IsWithin (suc k)) (cut_pages f (suc k) us)
unfolding cut_pages
cut_pages-IsWithin zero k us = tt
cut_pages-IsWithin (suc f) k us = elim (Bool-cases (ltb (suc k) (length us))) [
  | inl m ↦
      let (a, l, q) = cut_page-more k us (ltb→lt (suc k) (length us) m) in
      rw (m, q) (omega (arith, length-take (suc k) us), cut_pages-IsWithin f k (drop (suc k) us))
  | inr m ↦
      let few : length us ≤ suc k = ground (arith, m) in
      rw (m, cut_page-last (suc k) us few) (few, tt)
]

-- Each page but the last has a cursor, and the last has none.
abbrev pub IsLinked : Page → List Page → Type 0
IsLinked q [] = q.next_cursor ≡ none
IsLinked q (r ∷ qs) = (is_set q.next_cursor ≡ true) × IsLinked r qs

-- The pages after the first.
unfoldable pub later_pages : ℕ → ℕ → List Url → List Page
unfolding cut_pages
later_pages f k us = if ltb k (length us) then cut_pages f k (drop k us) else []

pub later_pages-IsLinked :
    (f k : ℕ) (us : List Url)
    → length us < suc f
    → IsLinked (cut_page (suc k) us) (later_pages f (suc k) us)
unfolding later_pages
later_pages-IsLinked zero k us h =
    let few : length us ≤ suc k = omega arith in
    let m : ltb (suc k) (length us) ≡ false = ground arith in
    rw (m, cut_page-last (suc k) us few) refl
later_pages-IsLinked (suc f) k us h = elim (Bool-cases (ltb (suc k) (length us))) [
  | inl m ↦
      let more = ltb→lt (suc k) (length us) m in
      let (a, l, q) = cut_page-more k us more in
      rw (later_pages, cut_pages, m, q)
        (
          truthy-to_hex a.url_id,
          later_pages-IsLinked f k (drop (suc k) us) (length-drop-lt k (suc f) us more h),
        )
  | inr m ↦ rw (later_pages, m, cut_page-last (suc k) us (ground (arith, m))) refl
]
