-- ===== src/Tests/Features.antt =====
-- Witnesses for the features of the ml service.
use go_you.Common.{true, false, List, [], ◌∷◌, some, Text, codes, ◌==◌, ◌≡◌, refl}
use go_you.Common.Strings.{strip_prefix, contains_text}
use go_you.Json.{Fields, no_fields, field, str, bool, obj, num, get, put}
use go_you.Intelligence.{
  Input, Output, run, takes_up, build_feature_list, merge_features, merge_feature, place,
}
use go_you.Intelligence.Merge.{
  merged_feature_config, overlay, classify_output, parse_bracket_path, write_at, extract_output,
  usable, is_falsey, set_at_path, type_matches, derive_prediction, failed,
}
use go_you.Intelligence.Paths.{get_path, Diverge, set_at_path-reads}
use go_you.Intelligence.Scopes.{Absent, run-scopes}

set_at_path-reads_example :
    (get_path
        (codes "score" ∷ codes "age" ∷ [])
        (set_at_path no_fields (codes "score" ∷ codes "age" ∷ []) (some (num 7)) (codes "int"))
      ≡ some (num 7))
    × ((q : List Text)
        → Diverge (codes "score" ∷ codes "age" ∷ []) q
        → get_path q
            (set_at_path no_fields (codes "score" ∷ codes "age" ∷ []) (some (num 7)) (codes "int"))
          ≡ get_path q no_fields)
unfolding type_matches ◌==◌
set_at_path-reads_example =
    set_at_path-reads no_fields (codes "score") (codes "age" ∷ []) (some (num 7)) (codes "int")

abbrev clause : Text
clause = codes "you_req_json.get('phone') is not None"

abbrev enabled : Fields → Fields
enabled m = field (codes "enabled") (bool true) m

abbrev feature : Fields
feature =
    field (codes "age")
      (obj (
        enabled (
          field (codes "output_type") (str (codes "int"))
            (field (codes "output_path") (str (codes "['age']")) no_fields))))
      no_fields

abbrev ml_cfg : Fields
ml_cfg = enabled (field (codes "feature_list_config") (obj feature) no_fields)

abbrev request : Input
request = record {
  has_phone = false;
  has_email = true;
  common_intelligence = enabled (field (codes "ml_service") (obj ml_cfg) no_fields);
  you_request = no_fields;
}

abbrev answer : List Text → Fields
answer names =
    field (codes "age")
      (obj (field (codes "data") (obj (field (codes "value") (num 7) no_fields)) no_fields))
      no_fields

abbrev result : Output
result = record {
  phone_intel = no_fields;
  email_intel = no_fields;
  common_intel = field (codes "age") (num 7) no_fields;
  prediction = failed;
}

run-scopes_example :
    Absent request result × (failed ≡ derive_prediction (field (codes "age") (num 7) no_fields))
unfolding run get put ◌==◌ build_feature_list takes_up merge_features merge_feature place
    merged_feature_config overlay classify_output parse_bracket_path strip_prefix contains_text
    set_at_path write_at extract_output usable is_falsey type_matches derive_prediction
run-scopes_example = run-scopes (λ t. t) answer (some ml_cfg) request result refl
