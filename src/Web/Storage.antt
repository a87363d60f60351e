-- ===== src/Web/Storage.antt =====
-- `localStorage`: the items of one origin, by key.
use bittuly.Prelude.{
  ◌≡◌, refl, Option, none, some, List, [], ◌∷◌, String, if◌then◌else◌, str_eq, str_eq_iff, arith,
}

abbrev pub Storage : Type 0
Storage = List (String × String)

unfoldable pub get_item : String → Storage → Option String
get_item k [] = none
get_item k ((j, v) ∷ m) = if str_eq j k then some v else get_item k m

unfoldable pub set_item : String → String → Storage → Storage
set_item k v [] = (k, v) ∷ []
set_item k v ((j, w) ∷ m) = if str_eq j k then (j, v) ∷ m else (j, w) ∷ set_item k v m

unfoldable pub remove_item : String → Storage → Storage
remove_item k [] = []
remove_item k ((j, w) ∷ m) = if str_eq j k then remove_item k m else (j, w) ∷ remove_item k m

pub get_item-set_item :
    (k j v : String) (m : Storage)
    → get_item j (set_item k v m) ≡ (if str_eq k j then some v else get_item j m)
unfolding get_item set_item
get_item-set_item k j v [] = refl
get_item-set_item k j v ((i, w) ∷ m) =
    ground (arith, str_eq_iff k j, str_eq_iff i k, str_eq_iff i j, get_item-set_item k j v m)

pub get_item-remove_item :
    (k j : String) (m : Storage)
    → get_item j (remove_item k m) ≡ (if str_eq k j then none else get_item j m)
unfolding get_item remove_item
get_item-remove_item k j [] = ground arith
get_item-remove_item k j ((i, w) ∷ m) =
    ground (arith, str_eq_iff k j, str_eq_iff i k, str_eq_iff i j, get_item-remove_item k j m)

pub get_item-set_self : (k v : String) (m : Storage) → get_item k (set_item k v m) ≡ some v
get_item-set_self k v m = ground (arith, get_item-set_item k k v m, str_eq_iff k k)

pub get_item-remove_self : (k : String) (m : Storage) → get_item k (remove_item k m) ≡ none
get_item-remove_self k m = ground (arith, get_item-remove_item k k m, str_eq_iff k k)
