-- ===== src/Components/Theme/Laws.antt =====
-- What the page looks like is what the theme says, and a reload keeps it.
use mathlib.Core.List.{append-nil}
use bittuly.Prelude.{
  ◌≡◌, refl, ap, ◌∙◌, Bool, true, false, not, Option, List, [], ◌∷◌, ◌++◌, String, filter,
  Bool-cases, inl, inr, arith,
}
use bittuly.Components.Theme.{
  Theme, dark, light, system, theme_text, same_theme, Props, KeyEvent, StorageEvent, State, Event,
  set_theme, key_down, render, handle_key_down, handle_storage, handle_scheme, store_theme,
  storage_changed, scheme_changed, resolve, initial_theme, is_scheme, other_classes, apply_theme,
  mount, update, run,
}

-- The colour schemes among some classes.
abbrev pub schemes : List String → List String
schemes cs = filter is_scheme cs

schemes-other : (cs : List String) → schemes (other_classes cs) ≡ []
schemes-other [] = refl
schemes-other (c ∷ cs) = elim (Bool-cases (is_scheme c)) [
  | inl e ↦ rw e (schemes-other cs)
  | inr e ↦ rw (e, e) (schemes-other cs)
]

other-other : (cs : List String) → other_classes (other_classes cs) ≡ other_classes cs
other-other [] = refl
other-other (c ∷ cs) = elim (Bool-cases (is_scheme c)) [
  | inl e ↦ rw e (other-other cs)
  | inr e ↦ rw (e, e) (ap (λ t. c ∷ t) (other-other cs))
]

filter-append :
    (f : String → Bool) (xs ys : List String) → filter f (xs ++ ys) ≡ filter f xs ++ filter f ys
filter-append f [] ys = refl
filter-append f (x ∷ xs) ys = ground (arith, filter-append f xs ys)

-- The root has the class of the resolved theme and no other scheme, and its other classes are
-- `kept`.
pub record IsApplied (kept : List String) (s : State) : Type 0 where
  pub scheme : schemes s.classes ≡ theme_text (resolve s.prefers_dark s.theme) ∷ []
  pub others : other_classes s.classes ≡ kept

scheme_resolved : (b : Bool) (t : Theme) → is_scheme (theme_text (resolve b t)) ≡ true
unfolding resolve
scheme_resolved b dark = refl
scheme_resolved b light = refl
scheme_resolved true system = refl
scheme_resolved false system = refl

apply_theme-IsApplied :
    (p : Props) (kept : List String) (s : State)
    → other_classes s.classes ≡ kept
    → IsApplied kept (apply_theme p s)
unfolding apply_theme
apply_theme-IsApplied p kept s k =
    let t = theme_text (resolve s.prefers_dark s.theme) in
    let yes' = scheme_resolved s.prefers_dark s.theme in
    record {
      scheme =
          filter-append is_scheme (other_classes s.classes) (t ∷ [])
          ∙ rw (schemes-other s.classes, yes');
      others =
          filter-append (λ c. not (is_scheme c)) (other_classes s.classes) (t ∷ [])
          ∙ rw (other-other s.classes, yes') (append-nil (other_classes s.classes))
          ∙ k;
    }

eq-same_theme : (a b : Theme) → same_theme a b ≡ true → a ≡ b
eq-same_theme dark dark h = refl
eq-same_theme light light h = refl
eq-same_theme system system h = refl
eq-same_theme a b h = cc

-- The effect restores what a change of the theme's variable alone has broken.
render-IsApplied :
    (p : Props) (kept : List String) (old : Theme) (s : State)
    → schemes s.classes ≡ theme_text (resolve s.prefers_dark old) ∷ []
    → other_classes s.classes ≡ kept
    → IsApplied kept (render p old s)
unfolding render
render-IsApplied p kept old s h k = elim (Bool-cases (same_theme old s.theme)) [
  | inl e ↦ rw e (record { scheme = rw (← eq-same_theme old s.theme e) h; others = k })
  | inr e ↦ rw e (apply_theme-IsApplied p kept s k)
]

key_down-keeps :
    (s : State) (e : KeyEvent)
    → ((handle_key_down s e).classes ≡ s.classes)
      × ((handle_key_down s e).prefers_dark ≡ s.prefers_dark)
unfolding handle_key_down
key_down-keeps s e = ground arith

storage-keeps :
    (p : Props) (s : State) (e : StorageEvent)
    → ((handle_storage p s e).classes ≡ s.classes)
      × ((handle_storage p s e).prefers_dark ≡ s.prefers_dark)
unfolding handle_storage
storage-keeps p s e = ground arith

resolve-fixed : (a b : Bool) (t : Theme) → same_theme t system ≡ false → resolve a t ≡ resolve b t
unfolding resolve
resolve-fixed a b dark h = refl
resolve-fixed a b light h = refl
resolve-fixed a b system h = cc

scheme-IsApplied :
    (p : Props) (kept : List String) (s : State) (b : Bool)
    → IsApplied kept s
    → IsApplied kept (handle_scheme p s b)
unfolding handle_scheme
scheme-IsApplied p kept s b a = elim (Bool-cases (same_theme s.theme system)) [
  | inl e ↦ rw e (apply_theme-IsApplied p kept (record s { prefers_dark = b }) a.others)
  | inr e ↦ rw e (record {
    scheme = a.scheme ∙ rw (resolve-fixed s.prefers_dark b s.theme e);
    others = a.others;
  })
]

update-IsApplied :
    (p : Props) (kept : List String) (s : State) (e : Event)
    → IsApplied kept s
    → IsApplied kept (update p s e)
unfolding update
update-IsApplied p kept s (set_theme t) a =
    render-IsApplied p kept s.theme (store_theme s t) (unfold store_theme in a.scheme)
      (unfold store_theme in a.others)
update-IsApplied p kept s (key_down e) a =
    let (c, d) = key_down-keeps s e in
    render-IsApplied p kept s.theme (handle_key_down s e) (rw (c, d) a.scheme) (rw c a.others)
update-IsApplied p kept s (storage_changed e) a =
    let (c, d) = storage-keeps p s e in
    render-IsApplied p kept s.theme (handle_storage p s e) (rw (c, d) a.scheme) (rw c a.others)
update-IsApplied p kept s (scheme_changed b) a = scheme-IsApplied p kept s b a

run-IsApplied_from :
    (p : Props) (kept : List String) (s : State) (es : List Event)
    → IsApplied kept s
    → IsApplied kept (run p s es)
unfolding run
run-IsApplied_from p kept s [] a = a
run-IsApplied_from p kept s (e ∷ es) a =
    run-IsApplied_from p kept (update p s e) es (update-IsApplied p kept s e a)

-- From the mount on, whatever the user, the system and other tabs do, the root element has exactly
-- one colour scheme class, that of the theme as the system resolves it, and its other classes stay.
pub run-IsApplied :
    (p : Props) (stored : Option String) (prefers_dark : Bool) (classes : List String)
    (es : List Event)
    → IsApplied (other_classes classes) (run p (mount p stored prefers_dark classes) es)
unfolding mount
run-IsApplied p stored prefers_dark classes es =
    run-IsApplied_from p (other_classes classes) (mount p stored prefers_dark classes) es (
      apply_theme-IsApplied p (other_classes classes)
        (record {
          theme = initial_theme p stored;
          stored = stored;
          classes = classes;
          prefers_dark = prefers_dark;
          styles_added = 0;
        })
        refl)
