-- ===== src/Handler/Orchestrator/Seen.antt =====
-- The prediction, from the ml service's score to the client.
use go_you.Common.{
  true, false, Option, none, some, Text, codes, ◌≡◌, refl, sym, ap, ◌∙◌, if◌then◌else◌, if-true,
  if-false, Bool-cases, inl, inr,
}
use mathlib.Core.Option
use go_you.Json.{Fields, no_fields, num, obj, get, put}
use go_you.AppConfig.{YouConfiguration, onboarding_fraud_output_key}
use go_you.Handler.TransformUpi.{error_entry}
use go_you.Handler.Transform.{cleanup_prediction}
use go_you.Handler.Transform.Predicted.{cleanup_absent, cleanup_error, cleanup_score}
use go_you.Handler.Orchestrator.{carrier, score_carrier}
use go_you.Intelligence.{Ran, skipped, merged}
use go_you.Intelligence.Merge.{Prediction, failed, predicted}

-- What the client is to see of a run.
abbrev pub score_entry : Text → Prediction → Fields
score_entry key failed = error_entry
score_entry key (predicted n) = put key (num n) no_fields

abbrev pub outcome : Ran → Prediction
outcome skipped = failed
outcome (merged out) = out.prediction

abbrev pub seen : YouConfiguration → Ran → Option Fields
seen yc ran =
    if yc.prediction
    then some (score_entry (onboarding_fraud_output_key yc).0 (outcome ran))
    else none

shown :
    (yc : YouConfiguration) (out : Fields) (p : Prediction)
    → yc.prediction ≡ true
    → get (codes "prediction") out ≡ some (obj (score_carrier p))
    → get (codes "prediction") (cleanup_prediction (some yc) out)
      ≡ some (obj (score_entry (onboarding_fraud_output_key yc).0 p))
unfolding score_carrier
shown yc out failed on carried = cleanup_error yc out on carried
shown yc out (predicted n) on carried = cleanup_score yc out n on carried

carrier_on :
    (yc : YouConfiguration) (ran : Ran)
    → yc.prediction ≡ true
    → carrier yc ran ≡ some (score_carrier (outcome ran))
unfolding carrier score_carrier
carrier_on yc skipped on = rw on refl
carrier_on yc (merged out) on = rw on refl

carrier_off : (yc : YouConfiguration) (ran : Ran) → yc.prediction ≡ false → carrier yc ran ≡ none
unfolding carrier
carrier_off yc skipped off = rw off refl
carrier_off yc (merged out) off = rw off refl

-- Where the response carries the prediction that the run of the ml service left, the client sees a
-- prediction exactly if the tenant has it on: the score under the tenant's output key, or an error
-- where the run stopped early or found no score.
pub cleanup_prediction-seen :
    (yc : YouConfiguration) (ran : Ran) (out : Fields)
    → get (codes "prediction") out ≡ Option.map obj (carrier yc ran)
    → get (codes "prediction") (cleanup_prediction (some yc) out) ≡ Option.map obj (seen yc ran)
cleanup_prediction-seen yc ran out carried = elim (Bool-cases yc.prediction) [
  | inl on ↦
      shown yc out (outcome ran) on (carried ∙ ap (Option.map obj) (carrier_on yc ran on))
      ∙ sym (ap (Option.map obj) (if-true yc.prediction _ none on))
  | inr off ↦
      cleanup_absent yc out (carried ∙ ap (Option.map obj) (carrier_off yc ran off))
      ∙ sym (ap (Option.map obj) (if-false yc.prediction _ none off))
]
