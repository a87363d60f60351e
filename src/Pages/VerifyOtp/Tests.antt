-- ===== src/Pages/VerifyOtp/Tests.antt =====
-- The code page's theorems at concrete codes.
use bittuly.Prelude.{◌≡◌, refl, false, not, ◌||◌, [], ◌∷◌, truthy, utf16_length}
use bittuly.Web.Effect.{call}
use bittuly.Api.Client.{Result, rejected, is_resolved}
use bittuly.Api.Auth.{User, verify_otp}
use bittuly.Samples.{refused}
use bittuly.Pages.VerifyOtp.{LocationState, State, submit, verified, shake_over, update, run}
use bittuly.Pages.VerifyOtp.Laws.{verify_effects, otp_after, submit-verified}

abbrev wrong : Result User
wrong = rejected (refused 401)

abbrev pending : LocationState
pending = record { pending_token = "t1"; email = "ada@a.example" }

abbrev typed : State
typed = record {
  location = pending;
  otp = "123456";
  error = "";
  is_loading = false;
  shaking = false;
}

six : utf16_length typed.otp ≡ 6
unfolding utf16_length
six = refl

submit-verified_example :
    let (s', out) = run typed (submit ∷ verified wrong ∷ []) in
    (out ≡ call (verify_otp "t1" "123456") ∷ verify_effects wrong)
    × (s'.is_loading ≡ false)
    × (truthy s'.error ≡ not (is_resolved wrong))
    × (s'.otp ≡ otp_after "123456" wrong)
    × (s'.shaking ≡ (false || not (is_resolved wrong)))
    × ((update s' shake_over).0.shaking ≡ false)
submit-verified_example = submit-verified typed wrong six
