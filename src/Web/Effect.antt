-- ===== src/Web/Effect.antt =====
-- What a handler does besides setting state, in order. `C` is the type of the calls that the page
-- makes, `T` that of the events which its
-- timers raise, once after a time or at every such time.
use bittuly.Prelude.{ℕ, ◌≡◌, refl, ap, Option, List, [], ◌∷◌, ◌++◌, String}
use bittuly.Api.Auth.{User}

pub data Effect (C T : Type 0) : Type 0 where
  call : C → Effect C T
  timeout : ℕ → T → Effect C T
  interval : ℕ → T → Effect C T
  focus : Effect C T
  toast_error : String → Effect C T
  toast_success : String → Effect C T
  navigate : String → Effect C T
  redirect : String → Effect C T
  navigate_with : String → List (String × String) → Effect C T
  set_item : String → String → Effect C T
  remove_item : String → Effect C T
  set_user : Option User → Effect C T

module _ {C T : Type 0} where
  -- The calls that a handler makes, in order.
  abbrev pub calls : List (Effect C T) → List C
  calls [] = []
  calls (call c ∷ es) = c ∷ calls es
  calls (timeout n t ∷ es) = calls es
  calls (interval n t ∷ es) = calls es
  calls (focus ∷ es) = calls es
  calls (toast_error m ∷ es) = calls es
  calls (toast_success m ∷ es) = calls es
  calls (navigate p ∷ es) = calls es
  calls (redirect p ∷ es) = calls es
  calls (navigate_with p st ∷ es) = calls es
  calls (set_item k v ∷ es) = calls es
  calls (remove_item k ∷ es) = calls es
  calls (set_user u ∷ es) = calls es

  pub calls-append : (xs ys : List (Effect C T)) → calls (xs ++ ys) ≡ calls xs ++ calls ys
  calls-append [] ys = refl
  calls-append (call c ∷ es) ys = ap (λ t. c ∷ t) (calls-append es ys)
  calls-append (timeout n t ∷ es) ys = calls-append es ys
  calls-append (interval n t ∷ es) ys = calls-append es ys
  calls-append (focus ∷ es) ys = calls-append es ys
  calls-append (toast_error m ∷ es) ys = calls-append es ys
  calls-append (toast_success m ∷ es) ys = calls-append es ys
  calls-append (navigate p ∷ es) ys = calls-append es ys
  calls-append (redirect p ∷ es) ys = calls-append es ys
  calls-append (navigate_with p st ∷ es) ys = calls-append es ys
  calls-append (set_item k v ∷ es) ys = calls-append es ys
  calls-append (remove_item k ∷ es) ys = calls-append es ys
  calls-append (set_user u ∷ es) ys = calls-append es ys

-- A page handles events one after another: the last state, and the effects of all of them.
unfoldable pub run_all :
    {S E C : Type 0} → (S → E → S × List (Effect C E)) → S → List E → S × List (Effect C E)
run_all step s [] = (s, [])
run_all step s (e ∷ es) =
    let (s', out) = step s e in let (s'', later) = run_all step s' es in (s'', out ++ later)

-- What every event keeps, all events keep.
pub run_all-invariant :
    {S E C : Type 0}
    → (step : S → E → S × List (Effect C E)) (P : S → Type 0)
    → ((s : S) (e : E) → P s → P (step s e).0)
    → (s : S) (es : List E) → P s
    → P (run_all step s es).0
unfolding run_all
run_all-invariant step P k s [] h = h
run_all-invariant step P k s (e ∷ es) h = run_all-invariant step P k (step s e).0 es (k s e h)
