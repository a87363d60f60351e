-- ===== src/Components/Theme.antt =====
-- web/src/components/theme-provider.tsx: the theme of the page, its key in `localStorage`, and the class of the document's root. An event is followed by
-- the effect of the render that it causes.
pub mod Laws
pub mod Toggle
mod Tests
use bittuly.Prelude.{
  ℕ, suc, Bool, true, false, not, ◌&&◌, ◌||◌, Option, none, some, List, [], ◌∷◌, ◌++◌, String, any,
  filter, if◌then◌else◌, str_eq,
}

pub data Theme : Type 0 where
  dark light system : Theme

abbrev pub theme_text : Theme → String
theme_text dark = "dark"
theme_text light = "light"
theme_text system = "system"

abbrev pub same_theme : Theme → Theme → Bool
same_theme dark dark = true
same_theme light light = true
same_theme system system = true
same_theme _ _ = false

-- The props of the provider.
pub record Props : Type 0 where
  pub default_theme : Theme
  pub storage_key : String
  pub disable_transition_on_change : Bool

-- How App.tsx mounts it.
abbrev pub app_props : Props
app_props = record {
  default_theme = light;
  storage_key = "bittuly_theme";
  disable_transition_on_change = true;
}

-- `isTheme`, with the theme that the text then is.
unfoldable pub as_theme : Option String → Option Theme
as_theme none = none
as_theme (some s) =
    if str_eq s "dark"
    then some dark
    else if str_eq s "light"
    then some light
    else if str_eq s "system"
    then some system
    else none

-- `prefers_dark` is what `matchMedia(COLOR_SCHEME_QUERY).matches` says.
abbrev pub get_system_theme : Bool → Theme
get_system_theme true = dark
get_system_theme false = light

unfoldable pub resolve : Bool → Theme → Theme
resolve prefers_dark dark = dark
resolve prefers_dark light = light
resolve prefers_dark system = get_system_theme prefers_dark

-- The theme in the state, the item under `storageKey`, the classes of the root element, the colour
-- scheme of the system, and the styles that stop transitions, counted as they are put in and taken
-- out again after two frames.
pub record State : Type 0 where
  pub theme : Theme
  pub stored : Option String
  pub classes : List String
  pub prefers_dark : Bool
  pub styles_added : ℕ

-- What the key handler reads of the event's target.
pub record Target : Type 0 where
  pub is_html_element : Bool
  pub is_content_editable : Bool
  pub has_editable_parent : Bool

pub record KeyEvent : Type 0 where
  pub repeated : Bool
  pub meta_key : Bool
  pub ctrl_key : Bool
  pub alt_key : Bool
  pub target : Target
  pub key : String

-- `key` is none where the storage was cleared.
pub record StorageEvent : Type 0 where
  pub is_local_storage : Bool
  pub key : Option String
  pub new_value : Option String

pub data Event : Type 0 where
  set_theme : Theme → Event
  key_down : KeyEvent → Event
  storage_changed : StorageEvent → Event
  scheme_changed : Bool → Event

-- `initialTheme`: what a provider starts with.
abbrev or_theme : Theme → Option Theme → Theme
or_theme d none = d
or_theme d (some t) = t

unfoldable pub initial_theme : Props → Option String → Theme
initial_theme p stored = or_theme p.default_theme (as_theme stored)

-- `classList.remove("light", "dark")`, then `classList.add`.
abbrev pub is_scheme : String → Bool
is_scheme c = str_eq c "light" || str_eq c "dark"

abbrev pub other_classes : List String → List String
other_classes cs = filter (λ c. not (is_scheme c)) cs

unfoldable pub apply_theme : Props → State → State
unfolding resolve
apply_theme p s = record s {
  classes = other_classes s.classes ++ (theme_text (resolve s.prefers_dark s.theme) ∷ []);
  styles_added = if p.disable_transition_on_change then suc s.styles_added else s.styles_added;
}

-- The effect on `[theme, applyTheme]`: it runs when the theme is another than before.
render : Props → Theme → State → State
unfolding apply_theme
render p old s = if same_theme old s.theme then s else apply_theme p s

unfoldable pub mount : Props → Option String → Bool → List String → State
unfolding apply_theme initial_theme
mount p stored prefers_dark classes = apply_theme p (record {
  theme = initial_theme p stored;
  stored = stored;
  classes = classes;
  prefers_dark = prefers_dark;
  styles_added = 0;
})

-- `setTheme`.
store_theme : State → Theme → State
store_theme s next = record s { theme = next; stored = some (theme_text next) }

-- `isEditableTarget`.
unfoldable pub is_editable_target : Target → Bool
is_editable_target t =
    if not t.is_html_element then false else t.is_content_editable || t.has_editable_parent

-- `nextTheme` of the key handler.
unfoldable pub next_theme : Bool → Theme → Theme
next_theme prefers_dark dark = light
next_theme prefers_dark light = dark
next_theme prefers_dark system = if prefers_dark then light else dark

-- The early returns of `handleKeyDown`; "D" is the one other key that is "d" in lower case.
unfoldable pub is_toggle : KeyEvent → Bool
unfolding is_editable_target
is_toggle e =
    if e.repeated
    then false
    else if e.meta_key || e.ctrl_key || e.alt_key
    then false
    else if is_editable_target e.target
    then false
    else str_eq e.key "d" || str_eq e.key "D"

handle_key_down : State → KeyEvent → State
unfolding is_toggle store_theme next_theme
handle_key_down s e = if is_toggle e then store_theme s (next_theme s.prefers_dark s.theme) else s

-- The storage holds what another tab wrote when the event comes; a cleared storage holds nothing.
stored_after : Props → Option String → StorageEvent → Option String
stored_after p old e =
    if not e.is_local_storage
    then old
    else elim e.key [ none ↦ none | some k ↦ if str_eq k p.storage_key then e.new_value else old ]

key_is : String → Option String → Bool
key_is k none = false
key_is k (some j) = str_eq j k

-- `handleStorageChange`.
handle_storage : Props → State → StorageEvent → State
unfolding stored_after key_is initial_theme
handle_storage p s e =
    let s' = record s { stored = stored_after p s.stored e } in
    if not e.is_local_storage
    then s'
    else if not (key_is p.storage_key e.key)
    then s'
    else record s' { theme = initial_theme p e.new_value }

-- `handleChange` listens only while the theme is "system".
handle_scheme : Props → State → Bool → State
unfolding apply_theme
handle_scheme p s prefers_dark =
    let s' = record s { prefers_dark = prefers_dark } in
    if same_theme s.theme system then apply_theme p s' else s'

unfoldable pub update : Props → State → Event → State
unfolding render store_theme handle_key_down handle_storage handle_scheme
update p s (set_theme t) = render p s.theme (store_theme s t)
update p s (key_down e) = render p s.theme (handle_key_down s e)
update p s (storage_changed e) = render p s.theme (handle_storage p s e)
update p s (scheme_changed b) = handle_scheme p s b

unfoldable pub run : Props → State → List Event → State
run p s [] = s
run p s (e ∷ es) = run p (update p s e) es
