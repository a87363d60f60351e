-- ===== src/Pages/VerifyOtp/Laws.antt =====
-- When a code is sent, and what the page does on every answer.
use bittuly.Prelude.{
  ◌≡◌, refl, true, false, not, ◌&&◌, ◌||◌, List, [], ◌∷◌, String, some, if◌then◌else◌, truthy, ltb,
  ◌==◌, ==_iff, utf16_length, inl, inr, Bool-cases, arith,
}
use bittuly.Web.Effect.{
  run_all, Effect, call, calls, timeout, redirect, navigate, set_item, set_user,
}
use bittuly.Web.View.{texts, submits}
use bittuly.Api.Client.{Result, resolved, rejected, has_status, is_resolved}
use bittuly.Api.Auth.{User, AuthCall, verify_otp}
use bittuly.Session.{user_id_key}
use bittuly.Pages.VerifyOtp.{
  LocationState, State, Event, submit, verified, shake_over, mount, update, run, view, wrong_length,
}

-- Without a pending token the page shows nothing and sends the visitor to the signup page; with one
-- it stays, and its form can be submitted exactly with a code of at least six characters while no
-- check is under way.
pub mount-guard :
    (l : LocationState) (s : State)
    → s.location ≡ l
    → ((mount l).1 ≡ (if truthy l.pending_token then [] else redirect "/signup" ∷ []))
      × (submits (view s) ≡ (
          if truthy l.pending_token && (not (ltb (utf16_length s.otp) 6) && not s.is_loading)
          then submit ∷ []
          else []))
      × ((if truthy l.pending_token then [] else texts (view s)) ≡ [])
unfolding mount view
mount-guard l s e = (ground arith, ground arith, ground arith)

-- The effects of a check that the server has answered.
abbrev pub verify_effects : Result User → List (Effect AuthCall Event)
verify_effects (resolved u) =
    set_item user_id_key u.id ∷ set_user (some u) ∷ navigate "/dashboard" ∷ []
verify_effects (rejected e) = timeout 500 shake_over ∷ []

-- The text left in the field.
abbrev pub otp_after : String → Result User → String
otp_after otp (resolved u) = otp
otp_after otp (rejected e) = if has_status 422 e then otp else ""

-- A code of six characters is sent with the token, once. The session is set up exactly when the
-- server accepts it; otherwise the form shakes, for half a second, and shows an error, and the code
-- is cleared unless the server called it malformed (422). On every answer the check is over.
pub submit-verified :
    (s : State) (r : Result User)
    → utf16_length s.otp ≡ 6
    → let (s', out) = run s (submit ∷ verified r ∷ []) in
      (out ≡ call (verify_otp s.location.pending_token s.otp) ∷ verify_effects r)
      × (s'.is_loading ≡ false)
      × (truthy s'.error ≡ not (is_resolved r))
      × (s'.otp ≡ otp_after s.otp r)
      × (s'.shaking ≡ (s.shaking || not (is_resolved r)))
      × ((update s' shake_over).0.shaking ≡ false)
unfolding run_all update
submit-verified s (resolved u) h =
    rw ((==_iff (utf16_length s.otp) 6).1 h)
      (ground arith, ground arith, ground arith, ground arith, ground arith, ground arith)
submit-verified s (rejected e) h = elim (Bool-cases (has_status 422 e)) [
  | inl q ↦ rw ((==_iff (utf16_length s.otp) 6).1 h, q) (refl, refl, refl, refl, ground arith, refl)
  | inr q ↦ rw ((==_iff (utf16_length s.otp) 6).1 h, q) (refl, refl, refl, refl, ground arith, refl)
]

-- A code of any other length is sent nowhere: the form shows why, and shakes.
pub submit-wrong_length :
    (s : State)
    → (utf16_length s.otp == 6) ≡ false
    → let (s', out) = update s submit in
      (calls out ≡ [])
      × (s'.error ≡ wrong_length)
      × (s'.otp ≡ s.otp)
      × (s'.shaking ≡ true)
      × (s'.is_loading ≡ s.is_loading)
unfolding update
submit-wrong_length s h = (ground arith, ground arith, ground arith, ground arith, ground arith)
