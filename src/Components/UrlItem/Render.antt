-- ===== src/Components/UrlItem/Render.antt =====
-- web/src/components/UrlItem.tsx: what the row and its two dialogs show. Constant class names are
-- left out; a class that the state chooses is kept.
use bittuly.Prelude.{
  ◌≡◌, refl, Bool, true, false, Bool-cases, inl, inr, Option, none, some, [], ◌∷◌, String, ◌==◌,
  if◌then◌else◌, truthy,
}
use bittuly.Web.View.{prop, flag, on, View, nothing, text, num, el, ◌▸◌, shown_if, leaf, texts}
use bittuly.Web.Host.{Host}
use bittuly.Api.Client.{Env}
use bittuly.Api.Urls.{ShortenedUrl}
use bittuly.Components.UrlItem.{
  Props, State, Event, open_details, close_details, link_clicked, trash_clicked, ask_delete,
  confirm_delete, copy, short_url,
}

abbrev V : Type 0
V = View Event

module _ (h : Host) (env : Env) where
  -- `isExpired` and `formattedExpiry`.
  unfoldable pub is_expired : ShortenedUrl → Bool
  is_expired u = elim u.expires_at [
    | none ↦ false
    | some t ↦ if truthy t then h.is_past t else false
  ]

  unfoldable pub formatted_expiry : ShortenedUrl → Option String
  formatted_expiry u = elim u.expires_at [
    | none ↦ none
    | some t ↦ if truthy t then some (h.short_date_time t) else none
  ]

  short_link : ShortenedUrl → V
  short_link u =
      el "a"
        (prop "href" (short_url env u)
          ∷ prop "target" "_blank"
          ∷ prop "rel" "noopener noreferrer"
          ∷ on "onClick" link_clicked
          ∷ [])
        (el "span" [] (text u.short_code) ▸ leaf "ExternalLink")

  original_link : ShortenedUrl → V
  original_link u = el "Tooltip" [] (
      el "TooltipTrigger" (flag "asChild" true ∷ []) (el "span" [] (text u.original_url))
      ▸ el "TooltipContent" (prop "side" "top" ∷ []) (text u.original_url))

  click_count : ShortenedUrl → V
  click_count u = el "div" [] (
      leaf "BarChart2"
      ▸ el "span" []
          (num u.click_count ▸ text " " ▸ text (if u.click_count == 1 then "click" else "clicks")))

  pub expiry : ShortenedUrl → V
  expiry u = elim (formatted_expiry u) [
    | none ↦ nothing
    | some t ↦ shown_if (truthy t) (
        el "div"
          (prop "className"
              (if is_expired u then "text-destructive font-medium" else "text-muted-foreground")
            ∷ [])
          (leaf "Timer" ▸ el "span" [] (text (if is_expired u then "Expired" else t))))
  ]

  copy_button : State → V
  copy_button s = el "Tooltip" [] (
      el "TooltipTrigger" (flag "asChild" true ∷ []) (
        el "Button"
          (prop "variant" "ghost"
            ∷ prop "size" "icon-sm"
            ∷ on "onClick" copy
            ∷ prop "aria-label" "Copy short URL"
            ∷ [])
          (if s.copied then leaf "Check" else leaf "Copy"))
      ▸ el "TooltipContent" [] (text (if s.copied then "Copied!" else "Copy link")))

  delete_dialog : ShortenedUrl → State → V
  delete_dialog u s = el "AlertDialog" (flag "open" s.delete_open ∷ []) (
      el "Tooltip" [] (
        el "TooltipTrigger" (flag "asChild" true ∷ []) (
          el "AlertDialogTrigger" (flag "asChild" true ∷ []) (
            el "Button"
              (prop "variant" "ghost"
                ∷ prop "size" "icon-sm"
                ∷ prop "aria-label" "Delete URL"
                ∷ on "onClick" trash_clicked
                ∷ [])
              (leaf "Trash2")))
        ▸ el "TooltipContent" [] (text "Delete"))
      ▸ el "AlertDialogContent" [] (
          el "AlertDialogHeader" [] (
            el "AlertDialogTitle" [] (text "Delete this short link?")
            ▸ el "AlertDialogDescription" [] (
                text "This will permanently delete the shortened link ("
                ▸ el "strong" [] (text "bittuly.com/" ▸ text u.short_code)
                ▸ text ") and remove all its click analytics. This action cannot be undone."))
          ▸ el "AlertDialogFooter" [] (
              el "AlertDialogCancel" [] (text "Cancel")
              ▸ el "AlertDialogAction" (on "onClick" confirm_delete ∷ []) (text "Delete Link"))))

  unfoldable pub row : Props → State → V
  unfolding short_link original_link click_count expiry copy_button delete_dialog
  row p s =
      el "div"
        (on "onClick" open_details
          ∷ prop "className"
              (if p.is_new then "animate-in slide-in-from-top-2 fade-in duration-200" else "")
          ∷ [])
        (short_link p.url
          ▸ leaf "div"
          ▸ original_link p.url
          ▸ click_count p.url
          ▸ expiry p.url
          ▸ el "div" [] (copy_button s ▸ delete_dialog p.url s))

  pub status_section : ShortenedUrl → V
  status_section u = elim (formatted_expiry u) [
    | none ↦ nothing
    | some t ↦ shown_if (truthy t) (
        el "div" [] (
          el "span" [] (text "Expiration Status")
          ▸ el "div" [] (
              el "span"
                (prop "className" (
                    if is_expired u
                    then "bg-destructive/10 text-destructive"
                    else "bg-green-100 text-green-800")
                  ∷ [])
                (text (if is_expired u then "Expired" else "Active"))
              ▸ el "span" [] (text "(Expires: " ▸ text t ▸ text ")"))))
  ]

  link_section : ShortenedUrl → State → V
  link_section u s = el "div" [] (
      el "span" [] (text "Short Link")
      ▸ el "div" [] (
          el "a"
            (prop "href" (short_url env u)
              ∷ prop "target" "_blank"
              ∷ prop "rel" "noopener noreferrer"
              ∷ [])
            (text (short_url env u))
          ▸ el "Button" (prop "variant" "outline" ∷ prop "size" "sm" ∷ on "onClick" copy ∷ []) (
              (if s.copied then leaf "Check" else leaf "Copy")
              ▸ text (if s.copied then "Copied" else "Copy"))))

  numbers_section : ShortenedUrl → V
  numbers_section u = el "div" [] (
      el "div" [] (el "span" [] (text "Total Clicks") ▸ el "p" [] (num u.click_count))
      ▸ el "div" []
          (el "span" [] (text "Created on") ▸ el "p" [] (text (h.medium_date u.created_at))))

  unfoldable pub details : Props → State → V
  unfolding status_section link_section numbers_section
  details p s = el "DialogContent" (flag "showCloseButton" false ∷ []) (
      el "DialogHeader" [] (el "DialogTitle" [] (text "Link Details"))
      ▸ el "div" [] (
          el "div" [] (el "span" [] (text "Original URL") ▸ el "p" [] (text p.url.original_url))
          ▸ link_section p.url s
          ▸ numbers_section p.url
          ▸ status_section p.url)
      ▸ el "div" [] (
          el "Button" (prop "variant" "outline" ∷ on "onClick" close_details ∷ []) (text "Close")
          ▸ el "Button" (prop "variant" "destructive" ∷ on "onClick" ask_delete ∷ [])
              (leaf "Trash2" ▸ text "Delete Link")))

  unfoldable pub view : Props → State → V
  unfolding row details
  view p s =
      el "Dialog" (flag "open" s.details_open ∷ [])
        (el "TooltipProvider" [] (row p s ▸ details p s))

formatted :
    (h : Host) (env : Env) (u : ShortenedUrl) (t : String)
    → u.expires_at ≡ some t
    → truthy t ≡ true
    → (formatted_expiry h env u ≡ some (h.short_date_time t)) × (is_expired h env u ≡ h.is_past t)
unfolding formatted_expiry is_expired
formatted h env u t e k = (rw (e, k) refl, rw (e, k) refl)

-- The row's badge and the details agree about a link that expires: "Expired" in both once the time
-- is past, and otherwise the time in the row and "Active" in the details; the details have the time.
pub expiry-status :
    (h : Host) (env : Env) (u : ShortenedUrl) (t : String)
    → u.expires_at ≡ some t
    → truthy t ≡ true
    → truthy (h.short_date_time t) ≡ true
    → let past = h.is_past t in
      let date = h.short_date_time t in
      (texts (expiry h env u) ≡ (if past then "Expired" else date) ∷ [])
      × (texts (status_section h env u)
          ≡ "Expiration Status"
            ∷ (if past then "Expired" else "Active")
            ∷ "(Expires: "
            ∷ date
            ∷ ")"
            ∷ [])
unfolding expiry status_section
expiry-status h env u t e k d =
    let x = formatted h env u t e k in
    elim (Bool-cases (h.is_past t)) [
      | inl q ↦ (rw (expiry, x.0, x.1, q, d) refl, rw (status_section, x.0, x.1, q, d, d) refl)
      | inr q ↦ (rw (expiry, x.0, x.1, q, d, d) refl, rw (status_section, x.0, x.1, q, d, d) refl)
    ]
