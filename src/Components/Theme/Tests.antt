-- ===== src/Components/Theme/Tests.antt =====
-- The theorems on the theme at concrete events.
use bittuly.Prelude.{true, false, none, some, List, [], ◌∷◌, String}
use bittuly.Components.Theme.{
  system, app_props, KeyEvent, StorageEvent, Event, set_theme, key_down, storage_changed,
  scheme_changed, other_classes, mount, run,
}
use bittuly.Components.Theme.Laws.{IsApplied, run-IsApplied}

abbrev press : KeyEvent
press = record {
  repeated = false;
  meta_key = false;
  ctrl_key = false;
  alt_key = false;
  target = record {
    is_html_element = true;
    is_content_editable = false;
    has_editable_parent = false;
  };
  key = "d";
}

-- Another tab chose the dark theme.
abbrev elsewhere : StorageEvent
elsewhere = record { is_local_storage = true; key = some "bittuly_theme"; new_value = some "dark" }

abbrev day : List Event
day = key_down press ∷ set_theme system ∷ scheme_changed true ∷ storage_changed elsewhere ∷ []

abbrev classes : List String
classes = "antialiased" ∷ "dark" ∷ []

run-IsApplied_example :
    IsApplied (other_classes classes) (run app_props (mount app_props none false classes) day)
run-IsApplied_example = run-IsApplied app_props none false classes day
