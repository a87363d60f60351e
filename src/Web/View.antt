-- ===== src/Web/View.antt =====
-- The element tree that a component returns. `E` is the type of the component's events, which its
-- handlers are. A component of web/src/components/ui or of a package is a tag that is not opened.
use bittuly.Prelude.{
  ℕ, suc, ◌+◌, Bool, false, not, ◌&&◌, ◌||◌, List, [], ◌∷◌, ◌++◌, String, if◌then◌else◌, str_eq,
  truthy,
}

pub data Attr (E : Type 0) : Type 0 where
  prop : String → String → Attr E
  flag : String → Bool → Attr E
  on : String → E → Attr E
  on_text : String → (String → E) → Attr E

-- `nothing` is what `null`, `false` and `undefined` render to.
pub data View (E : Type 0) : Type 0 where
  nothing : View E
  text : String → View E
  num : ℕ → View E
  el : String → List (Attr E) → View E → View E
  seq : View E → View E → View E

-- Children that follow one another.
infixr 60 ◌▸◌
abbrev pub ◌▸◌ : {E : Type 0} → View E → View E → View E
v ▸ w = seq v w

-- `{test && <p/>}`.
abbrev pub shown_if : {E : Type 0} → Bool → View E → View E
shown_if b v = if b then v else nothing

-- `{list.map(...)}`.
abbrev pub each : {A E : Type 0} → (A → View E) → List A → View E
each f [] = nothing
each f (x ∷ xs) = seq (f x) (each f xs)

abbrev pub leaf : {E : Type 0} → String → View E
leaf tag = el tag [] nothing

module _ {E : Type 0} where
  -- The last word of `disabled`, and the handler of a click or of a submission.
  abbrev pub is_disabled : List (Attr E) → Bool
  is_disabled [] = false
  is_disabled (prop k v ∷ as') = is_disabled as'
  is_disabled (flag k b ∷ as') = (str_eq k "disabled" && b) || is_disabled as'
  is_disabled (on k e ∷ as') = is_disabled as'
  is_disabled (on_text k f ∷ as') = is_disabled as'

  abbrev pub is_submit : List (Attr E) → Bool
  is_submit [] = false
  is_submit (prop k v ∷ as') = (str_eq k "type" && str_eq v "submit") || is_submit as'
  is_submit (flag k b ∷ as') = is_submit as'
  is_submit (on k e ∷ as') = is_submit as'
  is_submit (on_text k f ∷ as') = is_submit as'

  abbrev handlers : String → List (Attr E) → List E
  handlers name [] = []
  handlers name (prop k v ∷ as') = handlers name as'
  handlers name (flag k b ∷ as') = handlers name as'
  handlers name (on k e ∷ as') = if str_eq k name then e ∷ handlers name as' else handlers name as'
  handlers name (on_text k f ∷ as') = handlers name as'

  -- The events that a click can raise: those of the elements that are not disabled.
  abbrev pub clicks : View E → List E
  clicks nothing = []
  clicks (text s) = []
  clicks (num n) = []
  clicks (el tag attrs kids) =
      (if is_disabled attrs then [] else handlers "onClick" attrs) ++ clicks kids
  clicks (seq v w) = clicks v ++ clicks w

  -- Whether a submit button that is not disabled stands in the tree.
  abbrev pub can_submit : View E → Bool
  can_submit nothing = false
  can_submit (text s) = false
  can_submit (num n) = false
  can_submit (el tag attrs kids) = (is_submit attrs && not (is_disabled attrs)) || can_submit kids
  can_submit (seq v w) = can_submit v || can_submit w

  -- The events that submitting a form can raise: a form submits by its submit button.
  abbrev pub submits : View E → List E
  submits nothing = []
  submits (text s) = []
  submits (num n) = []
  submits (el tag attrs kids) =
      (if can_submit kids then handlers "onSubmit" attrs else []) ++ submits kids
  submits (seq v w) = submits v ++ submits w

  -- The texts in document order; a number stands for its digits and is left out.
  abbrev pub texts : View E → List String
  texts nothing = []
  texts (text s) = if truthy s then s ∷ [] else []
  texts (num n) = []
  texts (el tag attrs kids) = texts kids
  texts (seq v w) = texts v ++ texts w

  -- How many elements of a tag stand in the tree.
  abbrev pub occurrences : String → View E → ℕ
  occurrences name nothing = 0
  occurrences name (text s) = 0
  occurrences name (num n) = 0
  occurrences name (el tag attrs kids) = (if str_eq tag name then 1 else 0) + occurrences name kids
  occurrences name (seq v w) = occurrences name v + occurrences name w

-- `list.map((x, i) => ...)`, from the index given.
abbrev pub each_from : {A E : Type 0} → ℕ → (ℕ → A → View E) → List A → View E
each_from i f [] = nothing
each_from i f (x ∷ xs) = seq (f i x) (each_from (suc i) f xs)
