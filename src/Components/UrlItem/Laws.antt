-- ===== src/Components/UrlItem/Laws.antt =====
-- Copying and deleting a link from its row.
use bittuly.Prelude.{
  ℕ, zero, suc, ◌≡◌, refl, Bool, true, false, not, ◌&&◌, Option, none, some, List, [], ◌∷◌, ◌++◌,
  String, any, if◌then◌else◌, arith, ap, sym, ◌∙◌,
}
use bittuly.Web.Effect.{run_all, calls, calls-append}
use bittuly.Api.Client.{Env}
use bittuly.Components.UrlItem.{
  Props, State, Event, ItemCall, Browser, write_text, append_text_area, focus_text_area,
  select_text_area, exec_copy, log_error, remove_text_area, on_delete, writing, settled,
  confirm_delete, execute_copy, update, run,
}

-- How many text areas a list of acts leaves in the document, from the number given; none where one
-- is removed that is not there.
abbrev pub left_behind : List ItemCall → ℕ → Option ℕ
left_behind [] n = some n
left_behind (append_text_area t ∷ cs) n = left_behind cs (suc n)
left_behind (remove_text_area ∷ cs) n = elim n [ zero ↦ none | suc m ↦ left_behind cs m ]
left_behind (write_text t ∷ cs) n = left_behind cs n
left_behind (focus_text_area ∷ cs) n = left_behind cs n
left_behind (select_text_area ∷ cs) n = left_behind cs n
left_behind (exec_copy ∷ cs) n = left_behind cs n
left_behind (log_error ∷ cs) n = left_behind cs n
left_behind (on_delete i ∷ cs) n = left_behind cs n

abbrev pub is_append : ItemCall → Bool
is_append (append_text_area t) = true
is_append _ = false

-- `execCommand` reported success.
abbrev pub succeeded : Option Bool → Bool
succeeded none = false
succeeded (some ok) = ok

-- Copying leaves no text area in the document, also where the copy command fails or throws, and
-- removes none that it did not make. It makes one exactly where the clipboard cannot be used, and
-- then its promise succeeds exactly when the copy command reports success; otherwise the promise is
-- the clipboard's.
pub execute_copy-clean :
    (b : Browser) (t : String)
    → let (acts, promise) = execute_copy b t in
      let usable = b.has_clipboard && b.is_secure_context in
      (left_behind acts 0 ≡ some 0)
      × (any is_append acts ≡ not usable)
      × (promise ≡ (if usable then writing else settled (succeeded b.exec_command)))
unfolding execute_copy
execute_copy-clean b t = (ground arith, ground arith, ground arith)

-- The ids that some calls ask the parent to delete.
abbrev pub delete_ids : List ItemCall → List ℕ
delete_ids [] = []
delete_ids (on_delete i ∷ cs) = i ∷ delete_ids cs
delete_ids (append_text_area t ∷ cs) = delete_ids cs
delete_ids (remove_text_area ∷ cs) = delete_ids cs
delete_ids (write_text t ∷ cs) = delete_ids cs
delete_ids (focus_text_area ∷ cs) = delete_ids cs
delete_ids (select_text_area ∷ cs) = delete_ids cs
delete_ids (exec_copy ∷ cs) = delete_ids cs
delete_ids (log_error ∷ cs) = delete_ids cs

delete_ids-append : (xs ys : List ItemCall) → delete_ids (xs ++ ys) ≡ delete_ids xs ++ delete_ids ys
delete_ids-append [] ys = refl
delete_ids-append (c ∷ cs) ys = ground (arith, delete_ids-append cs ys)

-- The link's id once for each confirmation among some events.
abbrev pub confirmed : ℕ → List Event → List ℕ
confirmed id [] = []
confirmed id (confirm_delete ∷ es) = id ∷ confirmed id es
confirmed id (_ ∷ es) = confirmed id es

delete_ids-update :
    (env : Env) (b : Browser) (p : Props) (s : State) (e : Event)
    → p.has_on_delete ≡ true
    → delete_ids (calls (update env b p s e).1) ≡ confirmed p.url.id (e ∷ [])
unfolding update
delete_ids-update env b p s e d = ground arith

confirmed-cons :
    (id : ℕ) (e : Event) (es : List Event)
    → confirmed id (e ∷ es) ≡ confirmed id (e ∷ []) ++ confirmed id es
confirmed-cons id e es = ground arith

-- Where the parent gave an `onDelete`, whatever is clicked on a row and in its dialogs, the parent is
-- asked to delete the row's own link once for each confirmation in the delete dialog, and at no other
-- click.
pub run-deletes :
    (env : Env) (b : Browser) (p : Props) (s : State) (es : List Event)
    → p.has_on_delete ≡ true
    → delete_ids (calls (run env b p s es).1) ≡ confirmed p.url.id es
unfolding run_all
run-deletes env b p s [] d = refl
run-deletes env b p s (e ∷ es) d =
    let (s', out) = update env b p s e in
    let later = (run env b p s' es).1 in
    ap delete_ids (calls-append out later)
    ∙ delete_ids-append (calls out) (calls later)
    ∙ rw (delete_ids-update env b p s e d, run-deletes env b p s' es d)
        (sym (confirmed-cons p.url.id e es))
