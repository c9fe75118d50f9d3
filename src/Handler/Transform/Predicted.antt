-- ===== src/Handler/Transform/Predicted.antt =====
-- The prediction behind its cleanup, by the carrier in front of it.
use go_you.Common.{ℕ, true, not, Option, none, some, codes, ◌==◌, ◌≡◌, refl, ap, ◌∙◌, if-false}
use go_you.Json.{Fields, no_fields, field, num, obj, get, put, as_map}
use go_you.Json.Laws.{get-put_self}
use go_you.AppConfig.{YouConfiguration, onboarding_fraud_output_key}
use go_you.Handler.TransformUpi.{error_entry}
use go_you.Handler.Transform.{
  cleanup_prediction, reshape_prediction, prediction_off, put_score, rename_in, output_key_of,
}
use go_you.Handler.Transform.Cleanup.{rename_in-get}

module _ (yc : YouConfiguration) (out : Fields) where
  abbrev renamed : Fields
  renamed = rename_in (output_key_of (some yc)) out

  carried_on : get (codes "prediction") renamed ≡ get (codes "prediction") out
  unfolding ◌==◌
  carried_on = rename_in-get (codes "prediction") (output_key_of (some yc)) out refl

  cleaned_with :
      (o : Option Fields)
      → as_map (get (codes "prediction") out) ≡ o
      → cleanup_prediction (some yc) out
        ≡ reshape_prediction (some yc) (onboarding_fraud_output_key yc).0 o renamed
  unfolding cleanup_prediction output_key_of
  cleaned_with o e =
      ap
        (λ (p : Option Fields).
          reshape_prediction (some yc) (onboarding_fraud_output_key yc).0 p renamed)
        (ap as_map carried_on ∙ e)

  pub cleanup_absent :
      get (codes "prediction") out ≡ none
      → get (codes "prediction") (cleanup_prediction (some yc) out) ≡ none
  unfolding reshape_prediction
  cleanup_absent e =
      ap (get (codes "prediction")) (cleaned_with none (ap as_map e)) ∙ carried_on ∙ e

  pub cleanup_error :
      yc.prediction ≡ true
      → get (codes "prediction") out ≡ some (obj error_entry)
      → get (codes "prediction") (cleanup_prediction (some yc) out) ≡ some (obj error_entry)
  unfolding reshape_prediction prediction_off get ◌==◌
  cleanup_error on e =
      ap (get (codes "prediction")) (cleaned_with (some error_entry) (ap as_map e))
      ∙ ap (get (codes "prediction")) (if-false (not yc.prediction) _ _ (ap not on))
      ∙ get-put_self (codes "prediction") (obj error_entry) renamed

  pub cleanup_score :
      (n : ℕ)
      → yc.prediction ≡ true
      → get (codes "prediction") out
        ≡ some (obj (field (codes "predicted_score") (num n) no_fields))
      → get (codes "prediction") (cleanup_prediction (some yc) out)
        ≡ some (obj (put (onboarding_fraud_output_key yc).0 (num n) no_fields))
  unfolding reshape_prediction prediction_off put_score get ◌==◌
  cleanup_score n on e =
      ap (get (codes "prediction"))
        (cleaned_with (some (field (codes "predicted_score") (num n) no_fields)) (ap as_map e))
      ∙ ap (get (codes "prediction")) (if-false (not yc.prediction) _ _ (ap not on))
      ∙ get-put_self (codes "prediction")
          (obj (put (onboarding_fraud_output_key yc).0 (num n) no_fields)) renamed
