-- ===== src/Server/Urls/Paging.antt =====
-- The query of a page selects a stretch of a user's links, newest first, and its cursor is where
-- the next stretch begins: services/url-service/src/repository.rs, `get_urls_page`.
use mathlib.Core.Path.{subst}
use bittuly.Prelude.{
  length-take, ℕ, zero, suc, ◌+◌, ◌≤◌, ◌<◌, ◌≡◌, refl, ◌∙◌, ap, Bool, true, false, ◌&&◌, Option,
  none, some, List, [], ◌∷◌, String, filter, take, drop, length, ltb, lt→ltb, str_eq, arith,
}
use bittuly.Server.Numbers.{ℤ, to_hex}
use bittuly.Server.Urls.{Url, Packages}
use bittuly.Server.Urls.Repository.{
  is_before, is_found, place, order_desc, pop, last, select_urls, cut_page,
}
use bittuly.Server.Urls.Table.{IsDesc, IsDesc-weaken, IsDesc-filter}

-- The links of a user that a search finds, in the order of the table.
abbrev pub matches : Packages → List Url → String → Option String → List Url
matches p rows user_id pattern =
    filter (λ (u : Url). str_eq u.user_id user_id && is_found p pattern u) rows

-- The part of a list below a cursor.
abbrev pub from_cursor : Option ℤ → List Url → List Url
from_cursor cursor us = filter (is_before cursor) us

pub from_cursor-none : (us : List Url) → from_cursor none us ≡ us
from_cursor-none [] = refl
from_cursor-none (u ∷ us) = ap (λ t. u ∷ t) (from_cursor-none us)

place-IsDesc : (u : Url) (us : List Url) → IsDesc u.url_id us → place u us ≡ u ∷ us
place-IsDesc u [] d = refl
place-IsDesc u (v ∷ vs) d = ground arith

order_desc-IsDesc : (n : ℕ) (us : List Url) → IsDesc n us → order_desc us ≡ us
unfolding order_desc
order_desc-IsDesc n [] d = refl
order_desc-IsDesc n (u ∷ us) d = rw (order_desc-IsDesc u.url_id us d.1) (place-IsDesc u us d.1)

filter-and :
    (a b c : Url → Bool) (us : List Url)
    → filter (λ u. a u && b u && c u) us ≡ filter b (filter (λ u. a u && c u) us)
filter-and a b c [] = refl
filter-and a b c (u ∷ us) = ground (arith, filter-and a b c us)

pub filter-filter :
    (f g : Url → Bool) (us : List Url)
    → ((u : Url) → f u ≡ true → g u ≡ true)
    → filter f (filter g us) ≡ filter f us
filter-filter f g [] h = refl
filter-filter f g (u ∷ us) h = ground (arith, h u, filter-filter f g us h)

-- What the query selects is what the search finds, from the cursor on.
pub select_urls-matches :
    (p : Packages) (n : ℕ) (rows : List Url) (user_id : String) (cursor : Option ℤ)
    (pattern : Option String)
    → IsDesc n rows
    → select_urls p rows user_id cursor pattern
      ≡ from_cursor cursor (matches p rows user_id pattern)
unfolding select_urls
select_urls-matches p n rows w cursor pattern d =
    order_desc-IsDesc n _ (IsDesc-filter _ n rows d)
    ∙ filter-and (λ (u : Url). str_eq u.user_id w) (is_before cursor) (is_found p pattern) rows

-- No id of a falling list is above its bound.
from_cursor-all :
    (n : ℕ) (us : List Url) → IsDesc n us → filter (λ (u : Url). ltb u.url_id n) us ≡ us
from_cursor-all n [] d = refl
from_cursor-all n (u ∷ us) d =
    rw (lt→ltb u.url_id n d.0)
      (ap (λ t. u ∷ t) (from_cursor-all n us (IsDesc-weaken u.url_id n us (omega arith) d.1)))

last-take : (k : ℕ) (us : List Url) → k < length us → (a : Url) × (last (take (suc k) us) ≡ some a)
last-take k [] h = absurd (omega arith)
last-take zero (u ∷ us) h = (u, refl)
last-take (suc k) (u ∷ []) h = absurd (omega arith)
last-take (suc k) (u ∷ v ∷ us) h = last-take k (v ∷ us) (omega arith)

pub last-lt :
    (n k : ℕ) (us : List Url) (a : Url)
    → IsDesc n us
    → last (take (suc k) us) ≡ some a
    → a.url_id < n
last-lt n k [] a d e = cc
last-lt n zero (u ∷ us) a d e = let q : u ≡ a = cc in rw (← q) d.0
last-lt n (suc k) (u ∷ []) a d e = let q : u ≡ a = cc in rw (← q) d.0
last-lt n (suc k) (u ∷ v ∷ us) a d e = omega (arith, last-lt u.url_id k (v ∷ us) a d.1 e)

-- Below the last of the first links of a falling list are the others.
pub drop-last :
    (n k : ℕ) (us : List Url) (a : Url)
    → IsDesc n us
    → last (take (suc k) us) ≡ some a
    → k < length us
    → filter (λ (u : Url). ltb u.url_id a.url_id) us ≡ drop (suc k) us
drop-last n k [] a d e h = absurd (omega arith)
drop-last n zero (u ∷ us) a d e h =
    let q : u ≡ a = cc in
    let first : filter (λ (v : Url). ltb v.url_id u.url_id) (u ∷ us) ≡ us =
      ground (arith, from_cursor-all u.url_id us d.1) in
    subst (λ (b : Url). filter (λ (v : Url). ltb v.url_id b.url_id) (u ∷ us) ≡ us) q first
drop-last n (suc k) (u ∷ []) a d e h = absurd (omega arith)
drop-last n (suc k) (u ∷ v ∷ us) a d e h =
    let low = last-lt u.url_id k (v ∷ us) a d.1 e in
    let above : ltb u.url_id a.url_id ≡ false = ground (arith, low) in
    rw above (drop-last u.url_id k (v ∷ us) a d.1 e (omega arith))

pop-take : (k : ℕ) (us : List Url) → k < length us → pop (take (suc k) us) ≡ take k us
pop-take zero [] h = absurd (omega arith)
pop-take zero (u ∷ us) h = refl
pop-take (suc k) [] h = absurd (omega arith)
pop-take (suc k) (u ∷ []) h = absurd (omega arith)
pop-take (suc k) (u ∷ v ∷ us) h = ap (λ t. u ∷ t) (pop-take k (v ∷ us) (omega arith))

take-all : (k : ℕ) (us : List Url) → length us ≤ k → take k us ≡ us
take-all zero [] h = refl
take-all zero (u ∷ us) h = absurd (omega arith)
take-all (suc k) [] h = refl
take-all (suc k) (u ∷ us) h = ap (λ t. u ∷ t) (take-all k us (omega arith))

-- A page that is not the last: the first links, and the last one's id as the cursor.
pub cut_page-more :
    (k : ℕ) (us : List Url)
    → suc k < length us
    → (a : Url) × (last (take (suc k) us) ≡ some a)
      × (cut_page (suc k) us
          ≡ record { urls = take (suc k) us; next_cursor = some (to_hex a.url_id) })
unfolding cut_page
cut_page-more k us h =
    let (a, e) = last-take k us (omega arith) in
    (a, e, ground (arith, h, e, length-take (suc k + 1) us, pop-take (suc k) us h))

-- The last page: all that is left.
pub cut_page-last :
    (k : ℕ) (us : List Url)
    → length us ≤ k
    → cut_page k us ≡ record { urls = us; next_cursor = none }
unfolding cut_page
cut_page-last k us h = ground (arith, h, take-all (k + 1) us)
