-- ===== src/Components/Theme/Toggle.antt =====
-- The "d" key, and the theme that a reload and other tabs get.
use bittuly.Prelude.{
  ◌≡◌, ◌≢◌, ◌↔◌, refl, true, false, ◌||◌, none, some, if◌then◌else◌, str_eq, str_eq_iff, arith,
}
use bittuly.Components.Theme.{
  Theme, dark, light, system, theme_text, Props, KeyEvent, State, Event, set_theme, key_down,
  storage_changed, scheme_changed, as_theme, resolve, initial_theme, apply_theme, is_toggle,
  is_editable_target, update,
}

abbrev pub opposite : Theme → Theme
opposite dark = light
opposite light = dark
opposite system = system

-- A press of the key that counts always turns the colours that are seen, from "system" too, and
-- stores the new theme; one that does not count, since it repeats, has a modifier, comes from an
-- editable element or is another key, changes nothing at all.
pub key_down-resolve :
    (p : Props) (s : State) (e : KeyEvent)
    → let s' = update p s (key_down e) in
      (resolve s'.prefers_dark s'.theme ≡ (
        if is_toggle e
        then opposite (resolve s.prefers_dark s.theme)
        else resolve s.prefers_dark s.theme))
      × (s'.stored ≡ (if is_toggle e then some (theme_text s'.theme) else s.stored))
      × (s' ≡ (if is_toggle e then s' else s))
unfolding update resolve apply_theme
key_down-resolve p s e = (ground arith, ground arith, ground arith)

-- What it takes for a press to count.
pub is_toggle_iff :
    (e : KeyEvent)
    → (is_toggle e ≡ true) ↔ (
        (e.repeated ≡ false)
        × (e.meta_key ≡ false)
        × (e.ctrl_key ≡ false)
        × (e.alt_key ≡ false)
        × (is_editable_target e.target ≡ false)
        × ((str_eq e.key "d" || str_eq e.key "D") ≡ true))
unfolding is_toggle
is_toggle_iff e = (λ h. ground arith, λ h. ground arith)

-- The theme read from what `setTheme` stores is the theme that was set.
pub as_theme-theme_text : (t : Theme) → as_theme (some (theme_text t)) ≡ some t
unfolding as_theme
as_theme-theme_text dark = refl
as_theme-theme_text light = refl
as_theme-theme_text system = refl

-- The theme is the one that a reload would start with.
abbrev pub IsKept : Props → State → Type 0
IsKept p s = s.theme ≡ initial_theme p s.stored

-- No tab clears the whole storage.
abbrev pub IsNoClear : Event → Type 0
IsNoClear (storage_changed e) = e.key ≢ none
IsNoClear (set_theme t) = Unit {0}
IsNoClear (key_down e) = Unit {0}
IsNoClear (scheme_changed b) = Unit {0}

-- A theme that is set in one tab is the theme of every other tab once its storage event comes, and
-- two tabs that see one colour scheme then look alike.
pub set_theme-synced :
    (p : Props) (a b : State) (t : Theme)
    → a.prefers_dark ≡ b.prefers_dark
    → let a' = update p a (set_theme t) in
      let b' = update p b (
        storage_changed
          (record { is_local_storage = true; key = some p.storage_key; new_value = a'.stored })) in
      (b'.theme ≡ t)
      × (b'.stored ≡ a'.stored)
      × (resolve b'.prefers_dark b'.theme ≡ resolve a'.prefers_dark a'.theme)
unfolding update initial_theme
set_theme-synced p a b t d =
    let k = str_eq_iff p.storage_key p.storage_key in
    let k' = as_theme-theme_text t in
    (ground (arith, k, k'), ground (arith, k, k'), ground (arith, k, k'))
