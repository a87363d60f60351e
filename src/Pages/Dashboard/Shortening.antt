-- ===== src/Pages/Dashboard/Shortening.antt =====
-- What submitting the form of the dashboard does.
use mathlib.Core.Option
use bittuly.Prelude.{
  ap, Option-cases, str_eq, ◌⊎◌, ◌↔◌, length, ◌≤◌, ◌≡◌, refl, true, false, Option, none, some, [],
  ◌∷◌, String, inl, inr, Bool-cases, if◌then◌else◌, truthy, trim, str_eq_iff, arith,
}
use bittuly.Web.Effect.{calls}
use bittuly.Web.Host.{Host}
use bittuly.Api.Urls.{create_url}
use bittuly.Pages.Dashboard.{
  State, input_changed, shorten, handle_shorten, start_creation, is_valid_url, update,
}

-- The protocol of a URL for the web.
abbrev pub IsWeb : Option String → Type 0
IsWeb o = (o ≡ some "http:") ⊎ (o ≡ some "https:")

is_valid_url-IsWeb :
    (h : Host) (url : String) → (is_valid_url h url ≡ true) ↔ IsWeb (h.url_protocol url)
unfolding is_valid_url
is_valid_url-IsWeb h url = elim (Option-cases (h.url_protocol url)) [
  | inl e ↦ rw e ((λ q. cc), λ w. elim w [ inl q ↦ cc | inr q ↦ cc ])
  | inr (t, e) ↦
      let a = str_eq_iff t "http:" in
      let b = str_eq_iff t "https:" in
      rw e (
        (λ q. elim (Bool-cases (str_eq t "http:")) [
          | inl c ↦ inl (ap (λ x. some x) (a.0 c))
          | inr c ↦ inr (ap (λ x. some x) (b.0 (ground (arith, q, c))))
        ]),
        λ w. elim w [
          | inl q ↦ let same : t ≡ "http:" = cc in ground (arith, a.1 same)
          | inr q ↦ let same : t ≡ "https:" = cc in ground (arith, b.1 same)
        ],
      )
]

-- Submitting the form makes at most one call. It asks to create the trimmed text of the field with
-- an expiry exactly if that text is not empty, the protocol of its URL is "http:" or "https:", and
-- the date of the form, if any, has that expiry as its ISO text; the field is marked wrong exactly if
-- the text is empty or has another protocol or none.
pub shorten-calls :
    (h : Host) (s : State) (expiry : Option String)
    → let t = trim s.input_url in
      let (s', out) = update h s shorten in
      ((calls out ≡ create_url t expiry ∷ []) ↔ (
        (truthy t ≡ true)
        × IsWeb (h.url_protocol t)
        × ((if truthy s.expires_at then Option.map some (h.to_iso s.expires_at) else some none)
            ≡ some expiry)))
      × ((s'.input_error ≡ false) ↔ ((truthy t ≡ true) × IsWeb (h.url_protocol t)))
      × (length (calls out) ≤ 1)
unfolding update handle_shorten start_creation
shorten-calls h s expiry =
    let web = is_valid_url-IsWeb h (trim s.input_url) in
    elim (Bool-cases (truthy (trim s.input_url))) [
      | inr e ↦ rw e (((λ q. cc), λ w. cc (w.0)), ((λ q. cc), λ w. cc (w.0)), omega arith)
      | inl e ↦ elim (Bool-cases (is_valid_url h (trim s.input_url))) [
        | inr v ↦
            rw (e, v)
              (((λ q. cc), λ w. cc (web.1 w.1)), ((λ q. cc), λ w. cc (web.1 w.1)), omega arith)
        | inl v ↦ elim (Bool-cases (truthy s.expires_at)) [
          | inr x ↦
              rw (e, v, x)
                (
                  ((λ q. (refl, web.0 v, cc)), λ w. cc),
                  ((λ q. (refl, web.0 v)), λ w. refl),
                  omega arith,
                )
          | inl x ↦ elim (Option-cases (h.to_iso s.expires_at)) [
            | inl o ↦
                rw (e, v, x, o)
                  (((λ q. cc), λ w. cc), ((λ q. (refl, web.0 v)), λ w. refl), omega arith)
            | inr (iso, o) ↦
                rw (e, v, x, o)
                  (
                    ((λ q. (refl, web.0 v, cc)), λ w. cc),
                    ((λ q. (refl, web.0 v)), λ w. refl),
                    omega arith,
                  )
          ]
        ]
      ]
    ]

-- Text that is no http or https URL is refused: no call is made, the error shows, and the links
-- stay; typing takes the error away.
pub shorten-invalid :
    (h : Host) (s : State) (t : String)
    → is_valid_url h (trim s.input_url) ≡ false
    → let (s', out) = update h s shorten in
      (calls out ≡ [])
      × (s'.input_error ≡ true)
      × (s'.urls ≡ s.urls)
      × (s'.is_shortening ≡ s.is_shortening)
      × ((update h s' (input_changed t)).0.input_error ≡ false)
unfolding update
shorten-invalid h s t e = ground arith
