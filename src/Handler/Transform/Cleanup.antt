-- ===== src/Handler/Transform/Cleanup.antt =====
-- What the steps behind the sections keep, and the response as a whole.
use go_you.Common.{
  Bool, true, false, Option, none, some, Text, codes, ◌==◌, Distinct, Bool-cases, eq_iff, ◌≡◌, ◌⊎◌,
  inl, inr, refl, sym, ap, ◌∙◌, arith,
}
use go_you.Json.{Value, Fields, obj, get, as_map, update_map, keys}
use go_you.Json.Laws.{
  get-put_other, get-delete_other, get-update_map_other, Distinct-put, Distinct-delete,
  Distinct-update_map,
}
use go_you.Handler.Clean.Lookup.{clean_absent, map_at-clean_fields}
use go_you.Handler.TransformUpi.{UpiTransform, error_entry}
use go_you.Handler.Transform.{
  put_score, rename_in, output_key_of, reshape_prediction, cleanup_prediction, strip, cleanup_meta,
  reshape, transform_response, transform_section,
}
use go_you.Handler.Transform.Hidden.{
  Hides, Hides-same, Hides-update, transform_section-static, strip-static,
}
use go_you.AppConfig.{YouConfiguration}

-- A key that a step of the cleanup of the prediction does not write.
abbrev Untouched : Text → Type 0
Untouched j = ((codes "intelligence_data" == j) ≡ false) × ((codes "prediction" == j) ≡ false)

pub rename_in-get :
    (j : Text) (key : Text × Bool) (out : Fields)
    → (codes "intelligence_data" == j) ≡ false
    → get j (rename_in key out) ≡ get j out
unfolding rename_in
rename_in-get j (key, false) out h = refl
rename_in-get j (key, true) out h = get-update_map_other j (codes "intelligence_data") _ out h

put_score-get :
    (j key : Text) (score : Option Value) (out : Fields)
    → Untouched j
    → get j (put_score key score out) ≡ get j out
unfolding put_score
put_score-get j key none out h = refl
put_score-get j key (some v) out h = get-put_other j (codes "prediction") _ out h.1

reshape_prediction-get :
    (j : Text) (yc : Option YouConfiguration) (key : Text) (pred : Option Fields) (out : Fields)
    → Untouched j
    → get j (reshape_prediction yc key pred out) ≡ get j out
unfolding reshape_prediction
reshape_prediction-get j yc key none out h = refl
reshape_prediction-get j yc key (some pred) out h = ground (
  arith,
  get-delete_other j (codes "prediction") out h.1,
  get-put_other j (codes "prediction") (obj error_entry) out h.1,
  put_score-get j key (get (codes "predicted_score") pred) out h,
)

cleanup_prediction-get :
    (j : Text) (yc : Option YouConfiguration) (out : Fields)
    → Untouched j
    → get j (cleanup_prediction yc out) ≡ get j out
unfolding cleanup_prediction
cleanup_prediction-get j yc out h =
    reshape_prediction-get j yc _ _ (rename_in (output_key_of yc) out) h
    ∙ rename_in-get j (output_key_of yc) out h.0

rename_in-Distinct :
    (key : Text × Bool) (out : Fields) → Distinct (keys out) → Distinct (keys (rename_in key out))
unfolding rename_in
rename_in-Distinct (key, false) out h = h
rename_in-Distinct (key, true) out h = Distinct-update_map (codes "intelligence_data") _ out h

put_score-Distinct :
    (key : Text) (score : Option Value) (out : Fields)
    → Distinct (keys out)
    → Distinct (keys (put_score key score out))
unfolding put_score
put_score-Distinct key none out h = h
put_score-Distinct key (some v) out h = Distinct-put (codes "prediction") _ out h

reshape_prediction-Distinct :
    (yc : Option YouConfiguration) (key : Text) (pred : Option Fields) (out : Fields)
    → Distinct (keys out)
    → Distinct (keys (reshape_prediction yc key pred out))
unfolding reshape_prediction
reshape_prediction-Distinct yc key none out h = h
reshape_prediction-Distinct yc key (some pred) out h = ground (
  arith,
  Distinct-delete (codes "prediction") out h,
  Distinct-put (codes "prediction") (obj error_entry) out h,
  put_score-Distinct key (get (codes "predicted_score") pred) out h,
)

strip-get : (j : Text) (out : Fields) → Untouched j → get j (strip out) ≡ get j out
unfolding strip
strip-get j out h = get-update_map_other j (codes "intelligence_data") _ out h.0

-- The two keys under which sections stand.
abbrev pub IsSectionKey : Text → Type 0
IsSectionKey k = (k ≡ codes "phone_data") ⊎ (k ≡ codes "email_data")

sections_Hide :
    (out : Fields) (yc : Option YouConfiguration) (ut : Option UpiTransform) (k : Text)
    → IsSectionKey k
    → Hides k (
        update_map
          (codes "email_data")
          (transform_section yc none)
          (update_map (codes "phone_data") (transform_section yc ut) out))
unfolding ◌==◌
sections_Hide out yc ut k (inl phone) = rw phone (
    Hides-same (codes "phone_data") _ _
      (get-update_map_other (codes "phone_data") (codes "email_data") (transform_section yc none) _
        refl)
      (Hides-update (codes "phone_data") (transform_section yc ut) out
        (λ o _. transform_section-static yc ut o)))
sections_Hide out yc ut k (inr email) = rw email (
    Hides-update (codes "email_data") (transform_section yc none) _
      (λ o _. transform_section-static yc none o))

strip_section-Hides : (j k : Text) (m : Fields) → Hides k m → Hides k (update_map j strip m)
strip_section-Hides j k m h = elim (Bool-cases (j == k)) [
  | inl same ↦
      rw ((eq_iff j k).0 same) (Hides-update k strip m (λ o there. strip-static o ∙ h o there))
  | inr other ↦ Hides-same k m _ (get-update_map_other k j strip m other) h
]

IsSectionKey-Untouched : (k : Text) → IsSectionKey k → Untouched k
unfolding ◌==◌
IsSectionKey-Untouched k (inl phone) = rw phone (refl, refl)
IsSectionKey-Untouched k (inr email) = rw email (refl, refl)

cleanup_meta-Hides :
    (out : Fields) (k : Text) → IsSectionKey k → Hides k out → Hides k (cleanup_meta out)
unfolding cleanup_meta
cleanup_meta-Hides out k key h = strip_section-Hides (codes "email_data") k _ (
    strip_section-Hides (codes "phone_data") k (strip out)
      (Hides-same k out (strip out) (strip-get k out (IsSectionKey-Untouched k key)) h))

predicted-Hides :
    (out : Fields) (yc : Option YouConfiguration) (ut : Option UpiTransform) (k : Text)
    → IsSectionKey k
    → Hides k (reshape out yc true ut)
unfolding reshape
predicted-Hides out yc ut k key =
    Hides-same k _ _ (cleanup_prediction-get k yc _ (IsSectionKey-Untouched k key))
      (sections_Hide out yc ut k key)

reshape-Hides :
    (out : Fields) (yc : Option YouConfiguration) (meta : Bool) (ut : Option UpiTransform)
    (k : Text)
    → IsSectionKey k
    → Hides k (reshape out yc meta ut)
unfolding reshape
reshape-Hides out yc true ut k key = predicted-Hides out yc ut k key
reshape-Hides out yc false ut k key =
    cleanup_meta-Hides (reshape out yc true ut) k key (predicted-Hides out yc ut k key)

predicted-Distinct :
    (out : Fields) (yc : Option YouConfiguration) (ut : Option UpiTransform)
    → Distinct (keys out)
    → Distinct (keys (reshape out yc true ut))
unfolding reshape cleanup_prediction
predicted-Distinct out yc ut h = reshape_prediction-Distinct yc _ _ _ (
    rename_in-Distinct (output_key_of yc) _ (
      Distinct-update_map (codes "email_data") (transform_section yc none) _
        (Distinct-update_map (codes "phone_data") (transform_section yc ut) out h)))

cleanup_meta-Distinct : (out : Fields) → Distinct (keys out) → Distinct (keys (cleanup_meta out))
unfolding cleanup_meta strip
cleanup_meta-Distinct out h = Distinct-update_map (codes "email_data") strip _ (
    Distinct-update_map (codes "phone_data") strip _
      (Distinct-update_map (codes "intelligence_data") _ out h))

reshape-Distinct :
    (out : Fields) (yc : Option YouConfiguration) (meta : Bool) (ut : Option UpiTransform)
    → Distinct (keys out)
    → Distinct (keys (reshape out yc meta ut))
unfolding reshape
reshape-Distinct out yc true ut h = predicted-Distinct out yc ut h
reshape-Distinct out yc false ut h =
    cleanup_meta-Distinct (reshape out yc true ut) (predicted-Distinct out yc ut h)

-- Whatever the response holds, as a map in which a key stands once, and for any tenant and any UPI
-- configuration: the static data of neither section reaches the client.
pub transform_response-hides_static :
    (out : Fields) (yc : Option YouConfiguration) (meta : Bool) (ut : Option UpiTransform)
    (k : Text) (sec : Fields)
    → Distinct (keys out)
    → IsSectionKey k
    → as_map (get k (transform_response out yc meta ut)) ≡ some sec
    → get (codes "static_data") sec ≡ none
unfolding transform_response
transform_response-hides_static out yc meta ut k sec distinct key found =
    let (o, there, e) =
      map_at-clean_fields k (reshape out yc meta ut) sec (reshape-Distinct out yc meta ut distinct)
        found in
    ap (get (codes "static_data")) (sym e)
    ∙ clean_absent (codes "static_data") o (reshape-Hides out yc meta ut k key o there)
