-- ===== src/Pages/VerifyOtp.antt =====
-- web/src/pages/VerifyOtp.tsx: the state of the page, its handlers and what it shows. Constant class
-- names are left out.
mod Tests
pub mod Laws
use bittuly.Prelude.{
  ℕ, Bool, true, false, not, ◌||◌, Option, none, some, List, [], ◌∷◌, ◌++◌, String, if◌then◌else◌,
  truthy, ltb, ◌==◌, utf16_length,
}
use bittuly.Web.Effect.{Effect, run_all, call, timeout, navigate, redirect, set_item, set_user}
use bittuly.Web.View.{Attr, prop, flag, on, on_text, View, nothing, text, el, seq, ◌▸◌, shown_if}
use bittuly.Api.Client.{Result, resolved, rejected, has_status}
use bittuly.Api.Auth.{User, AuthCall, verify_otp}
use bittuly.Session.{user_id_key}

-- `LocationState`; the empty text where a key is missing.
pub record LocationState : Type 0 where
  pub pending_token : String
  pub email : String

pub record State : Type 0 where
  pub location : LocationState
  pub otp : String
  pub error : String
  pub is_loading : Bool
  pub shaking : Bool

pub data Event : Type 0 where
  otp_changed : String → Event
  submit : Event
  verified : Result User → Event
  shake_over : Event

abbrev pub Out : Type 0
Out = State × List (Effect AuthCall Event)

-- The first render, with the guard's effect.
unfoldable pub mount : LocationState → Out
mount l = (
  record { location = l; otp = ""; error = ""; is_loading = false; shaking = false },
  if not (truthy l.pending_token) then redirect "/signup" ∷ [] else [],
)

abbrev pub wrong_length : String
wrong_length = "Code must be exactly 6 digits."

-- `triggerShake`.
abbrev shake : State → State
shake s = record s { shaking = true }

abbrev shake_effects : List (Effect AuthCall Event)
shake_effects = timeout 500 shake_over ∷ []

handle_submit : State → Out
handle_submit s =
    if not (utf16_length s.otp == 6)
    then (shake (record s { error = wrong_length }), shake_effects)
    else (
      record s { error = ""; is_loading = true },
      call (verify_otp s.location.pending_token s.otp) ∷ [],
    )

verify_done : State → Result User → Out
verify_done s (resolved u) = (
  record s { is_loading = false },
  set_item user_id_key u.id ∷ set_user (some u) ∷ navigate "/dashboard" ∷ [],
)
verify_done s (rejected e) =
    if has_status 422 e
    then (shake (record s { error = wrong_length; is_loading = false }), shake_effects)
    else (
      shake
          (record s { error = "Incorrect code. Please try again."; otp = ""; is_loading = false }),
      shake_effects,
    )

unfoldable pub update : State → Event → Out
unfolding handle_submit verify_done
update s (otp_changed t) = (record s { otp = t; error = "" }, [])
update s submit = handle_submit s
update s (verified r) = verify_done s r
update s shake_over = (record s { shaking = false }, [])

abbrev V : Type 0
V = View Event

slot : String → V
slot index = el "InputOTPSlot" (prop "index" index ∷ []) nothing

otp_form : State → V
unfolding slot
otp_form s = el "form" (on "onSubmit" submit ∷ []) (
    el "div" (prop "className" (if s.shaking then "animate-shake" else "") ∷ []) (
      el "InputOTP"
        (prop "maxLength" "6" ∷ prop "value" s.otp ∷ on_text "onChange" otp_changed ∷ [])
        (el "InputOTPGroup" [] (slot "0" ▸ slot "1" ▸ slot "2" ▸ slot "3" ▸ slot "4" ▸ slot "5")))
    ▸ shown_if (truthy s.error) (el "p" [] (text s.error))
    ▸ el "Button"
        (prop "type" "submit" ∷ flag "disabled" (ltb (utf16_length s.otp) 6 || s.is_loading) ∷ [])
        (text (if s.is_loading then "Verifying…" else "Verify")))

unfoldable pub view : State → V
unfolding otp_form
view s =
    if not (truthy s.location.pending_token)
    then nothing
    else el "div" [] (
        el "div" [] (
          el "h1" [] (text "Bittuly")
          ▸ el "p" [] (text "Check your email")
          ▸ el "p" [] (
              text "We sent a 6-digit code to "
              ▸ el "strong" [] (text s.location.email)
              ▸ text ". It expires in 10 minutes."))
        ▸ otp_form s
        ▸ el "div" [] (
            el "Link" (prop "to" "/signup" ∷ []) (text "Wrong email? Go back")
            ▸ el "TooltipProvider" [] (
                el "Tooltip" [] (
                  el "TooltipTrigger" (flag "asChild" true ∷ [])
                    (el "span" [] (text "Didn't receive it? Resend"))
                  ▸ el "TooltipContent" [] (text "Resend not yet available")))))

-- The state and the effects after several events.
abbrev pub run : State → List Event → Out
run = run_all update
