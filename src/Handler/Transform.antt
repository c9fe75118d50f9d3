-- ===== src/Handler/Transform.antt =====
-- internal/handler/transform.go, and the re-keying of account_details in dto.go: the response as the
-- client gets it. The typed response enters as the map that `json.Unmarshal` makes of its JSON.
pub mod Hidden
pub mod Cleanup
pub mod Sites
pub mod Meta
pub mod Predicted
use go_you.Common.{
  ℕ, suc, Bool, true, false, not, ◌&&◌, List, [], ◌∷◌, ◌++◌, ◌+◌, Option, none, some, Text, codes,
  ◌==◌, eqb, get_or, is_some, length, if◌then◌else◌,
}
use go_you.Json.{
  Value, Fields, no_fields, field, bool, num, str, obj, get, put, delete, as_bool, as_list, as_map,
  text_or_empty, update_map,
}
use go_you.Handler.Clean.{clean_fields, remove_fields}
use go_you.Handler.TransformUpi.{
  UpiTransform, transform_upi_response, derive_upi_intelligence, error_entry,
}
use go_you.AppConfig.{YouConfiguration, client_response, onboarding_fraud_output_key, default_key}

-- The status codes of a section and of a response.
abbrev pub section_status_success : ℕ
section_status_success = 2000

abbrev pub section_status_invalid : ℕ
section_status_invalid = 2100

abbrev pub Failure : Type 0
Failure = ℕ × Text

-- The failures of one section, from its status code if it is there, with what an invalid id and any
-- other code count as.
section_failures : Option ℕ → Failure → Failure → List Failure
section_failures none invalid server = []
section_failures (some code) invalid server =
    if eqb code section_status_success
    then []
    else if eqb code section_status_invalid
    then invalid ∷ []
    else server ∷ []

status_of : List Failure → Failure
status_of [] = (2000, codes "SUCCESS")
status_of (f ∷ []) = f
status_of (f ∷ g ∷ fs) = (2500, codes "MULTI_FIELD_ERROR")

-- From the status codes of the sections that are there.
unfoldable pub compute_top_level_status : Option ℕ → Option ℕ → Failure
unfolding section_failures status_of
compute_top_level_status phone email = status_of (
    section_failures phone (2101, codes "INVALID_PHONE") (2201, codes "PHONE_SERVER_ERROR")
    ++ section_failures email (2102, codes "INVALID_EMAIL") (2202, codes "EMAIL_SERVER_ERROR"))

-- One round of `accountDetailsListToMap`.
put_account : Option Fields → Fields → Fields
put_account none m = m
put_account (some entry) m =
    let name = text_or_empty (get (codes "_website") entry) in
    if name == [] then m else put name (obj (delete (codes "_website") entry)) m

account_loop : List Value → Fields → Fields
unfolding put_account
account_loop [] m = m
account_loop (v ∷ vs) m = account_loop vs (put_account (as_map (some v)) m)

unfoldable pub account_details_list_to_map : List Value → Fields
unfolding account_loop
account_details_list_to_map list = account_loop list no_fields

-- What the loop over the sites leaves in.
unfoldable pub shown : Option YouConfiguration → Option UpiTransform → Text → Bool
shown yc ut name =
    if name == codes "UPI"
    then elim ut [ none ↦ false | some u ↦ u.client_response ]
    else elim yc [ none ↦ true | some c ↦ client_response c name ]

unfoldable pub drop_sites : Option YouConfiguration → Option UpiTransform → Fields → Fields
drop_sites yc ut no_fields = no_fields
drop_sites yc ut (field name v m) =
    let rest = drop_sites yc ut m in if shown yc ut name then field name v rest else rest

exists_in : Value → Bool
exists_in v = elim (as_map (some v)) [
  | none ↦ false
  | some entry ↦ get_or false (as_bool (get (codes "user_exist") entry))
]

unfoldable pub count_profiles : Fields → ℕ
unfolding exists_in
count_profiles no_fields = 0
count_profiles (field name v m) =
    let rest = count_profiles m in if exists_in v then suc rest else rest

-- `sec["intelligence_data"] = intel` where it is not empty.
put_unless_empty : Fields → Fields → Fields
put_unless_empty no_fields sec = sec
put_unless_empty (field k v m) sec = put (codes "intelligence_data") (obj (field k v m)) sec

put_intelligence : Fields → Option UpiTransform → Fields → Fields
unfolding put_unless_empty
put_intelligence m none sec = sec
put_intelligence m (some ut) sec =
    put_unless_empty
      (derive_upi_intelligence m (get_or no_fields (as_map (get (codes "intelligence_data") sec)))
        (some ut))
      sec

put_accounts : Fields → Fields → Fields
put_accounts m pd =
    put (codes "social_profile_count") (num (count_profiles m))
      (put (codes "account_details") (obj m) pd)

-- The steps behind the two early returns, over the entries by site.
unfoldable pub transform_accounts :
    Option YouConfiguration → Option UpiTransform → Fields → List Value → Fields → Fields
unfolding put_intelligence put_accounts
transform_accounts yc ut pd list sec =
    let m = transform_upi_response (account_details_list_to_map list) ut in
    put (codes "primary_data") (obj (put_accounts (drop_sites yc ut m) pd))
      (put_intelligence m ut sec)

-- The two early returns: no `primary_data`, and no list of accounts in it.
section_with_list :
    Option YouConfiguration → Option UpiTransform → Fields → Option (List Value) → Fields → Fields
section_with_list yc ut pd none sec = sec
section_with_list yc ut pd (some list) sec = transform_accounts yc ut pd list sec

section_with_data : Option YouConfiguration → Option UpiTransform → Option Fields → Fields → Fields
unfolding section_with_list
section_with_data yc ut none sec = sec
section_with_data yc ut (some pd) sec =
    section_with_list yc ut pd (as_list (get (codes "account_details") pd)) sec

unfoldable pub transform_section : Option YouConfiguration → Option UpiTransform → Fields → Fields
unfolding section_with_data
transform_section yc ut section =
    let sec = delete (codes "static_data") section in
    section_with_data yc ut (as_map (get (codes "primary_data") sec)) sec

abbrev pub fraud_key : Text
fraud_key = codes "onboarding_fraud_detection"

-- `score[keyName] = v` and the deletion behind it.
unfoldable pub rename_score : Text → Fields → Fields
rename_score key score = elim (get fraud_key score) [
  | none ↦ score
  | some v ↦ delete fraud_key (put key v score)
]

pub output_key_of : Option YouConfiguration → Text × Bool
output_key_of none = (default_key, false)
output_key_of (some yc) = onboarding_fraud_output_key yc

pub rename_in : Text × Bool → Fields → Fields
rename_in (key, false) out = out
rename_in (key, true) out =
    update_map (codes "intelligence_data") (update_map (codes "score") (rename_score key)) out

put_score : Text → Option Value → Fields → Fields
put_score key none out = out
put_score key (some score) out = put (codes "prediction") (obj (put key score no_fields)) out

prediction_off : Option YouConfiguration → Bool
prediction_off none = false
prediction_off (some yc) = not yc.prediction

-- From the carrier, if the response has one.
reshape_prediction : Option YouConfiguration → Text → Option Fields → Fields → Fields
unfolding put_score prediction_off
reshape_prediction yc key none out = out
reshape_prediction yc key (some pred) out =
    if prediction_off yc
    then delete (codes "prediction") out
    else if is_some (get (codes "error") pred)
    then put (codes "prediction") (obj error_entry) out
    else put_score key (get (codes "predicted_score") pred) out

unfoldable pub cleanup_prediction : Option YouConfiguration → Fields → Fields
unfolding output_key_of rename_in reshape_prediction
cleanup_prediction yc out =
    let renamed = rename_in (output_key_of yc) out in
    reshape_prediction yc (output_key_of yc).0 (as_map (get (codes "prediction") renamed)) renamed

abbrev pub strip_score : Fields → Fields
strip_score score = delete (codes "reverse_model_list") (remove_fields (codes "meta") score)

-- `strip` on the object that holds the intelligence data.
unfoldable pub strip : Fields → Fields
strip holder =
    update_map (codes "intelligence_data") (update_map (codes "score") strip_score) holder

unfoldable pub cleanup_meta : Fields → Fields
cleanup_meta out =
    update_map (codes "email_data") strip (update_map (codes "phone_data") strip (strip out))

unfoldable pub reshape : Fields → Option YouConfiguration → Bool → Option UpiTransform → Fields
reshape out yc meta_present ut =
    let sections =
      update_map (codes "email_data") (transform_section yc none)
        (update_map (codes "phone_data") (transform_section yc ut) out) in
    let predicted = cleanup_prediction yc sections in
    if meta_present then predicted else cleanup_meta predicted

-- `out` is the response as a map of JSON values.
unfoldable pub transform_response :
    Fields → Option YouConfiguration → Bool → Option UpiTransform → Fields
transform_response out yc meta_present ut = clean_fields (reshape out yc meta_present ut)

-- One section of `keyAccountDetailsForML`.
key_section : Fields → Fields
key_section sec =
    update_map (codes "primary_data")
      (λ pd. elim (as_list (get (codes "account_details") pd)) [
        | none ↦ pd
        | some list ↦ put (codes "account_details") (obj (account_details_list_to_map list)) pd
      ])
      sec

pub key_account_details_for_ml : Fields → Fields
unfolding key_section
key_account_details_for_ml you =
    update_map (codes "email_data") key_section (update_map (codes "phone_data") key_section you)
