-- ===== src/Intelligence/Merge.antt =====
-- internal/intelligence/merge.go: how a feature's value is read and where it is written.
use go_you.Common.{
  ℕ, zero, suc, Bool, true, false, not, ◌||◌, List, [], ◌∷◌, ◌+◌, Option, none, some, Text, codes,
  ◌==◌, eqb, length, is_some, get_or, if◌then◌else◌, ◌>>=◌,
}
use go_you.Common.Strings.{strip_prefix, contains_text}
use go_you.Json.{
  Value, Fields, null, no_fields, no_items, field, bool, num, arr, obj, get, put, as_bool, as_map,
  as_str, text_or_empty,
}
use go_you.Handler.Clean.{is_null}

pub data OutputKind : Type 0 where
  score_entity data_value data_value_data : OutputKind

pub record FeatureConfig : Type 0 where
  pub output_kind : OutputKind
  pub path : List Text
  pub output_type : Text
  pub parent_key : Text

-- The second loop of the overlay: what is nil in the tenant's entry does not count.
unfoldable pub overlay : Fields → Fields → Fields
overlay merged no_fields = merged
overlay merged (field k v t) =
    let rest = overlay merged t in if is_null v then rest else put k v rest

unfoldable pub classify_output : Text → OutputKind
classify_output output =
    if contains_text output (codes "get_score_entity_from_ml_response")
    then score_entity
    else if contains_text output (codes ".get('value', {}).get('data')")
        || contains_text output (codes ".get(\"value\", {}).get(\"data\")")
    then data_value_data
    else data_value

-- What stands before the first quote, and what follows it.
until : ℕ → Text → Option (Text × Text)
until q [] = none
until q (c ∷ s) =
    let later = until q s in
    if eqb c q then some ([], s) else later >>= λ (t, rest). some (c ∷ t, rest)

-- One bracket with the given quote, at the start of the text: its key.
bracket : ℕ → Text → Option Text
unfolding until
bracket q s = do
  inner ← strip_prefix (b'[' ∷ q ∷ []) s
  (key, rest) ← until q inner
  after ← strip_prefix (b']' ∷ []) rest
  some key

-- The alternatives of `bracketRe` in their order.
any_bracket : Text → Option Text
unfolding bracket
any_bracket s = elim (bracket 39 s) [ some key ↦ some key | none ↦ bracket 34 s ]

-- The matches from left to right; `skip` counts the bytes of a match that are still to be passed over.
brackets : ℕ → Text → List Text
unfolding any_bracket
brackets skip [] = []
brackets (suc skip) (c ∷ s) = brackets skip s
brackets zero (c ∷ s) = elim (any_bracket (c ∷ s)) [
  | some key ↦ key ∷ brackets (length key + 3) s
  | none ↦ brackets zero s
]

unfoldable pub parse_bracket_path : Text → List Text
unfolding brackets
parse_bracket_path s = brackets zero s

or_common : Text → Text
or_common key = if key == [] then codes "common_intelligence" else key

config_of : Fields → Option FeatureConfig
unfolding or_common
config_of merged =
    let output_type = text_or_empty (get (codes "output_type") merged) in
    if output_type == []
    then none
    else some (record {
      output_kind = classify_output (text_or_empty (get (codes "output") merged));
      path = parse_bracket_path (text_or_empty (get (codes "output_path") merged));
      output_type = output_type;
      parent_key = or_common (text_or_empty (get (codes "parent_key") merged));
    })

unfoldable pub merged_feature_config : Fields → Fields → Text → Option FeatureConfig
unfolding config_of
merged_feature_config global_cfg tenant_cfg name = do
  g ← as_map (get name global_cfg)
  config_of (overlay g (get_or no_fields (as_map (get name tenant_cfg))))

unfoldable pub is_falsey : Value → Bool
is_falsey null = true
is_falsey (bool b) = not b
is_falsey _ = false

-- The two tests on `feat["error"]`.
unfoldable pub usable : Fields → Bool
usable feat = elim (get (codes "error") feat) [ none ↦ true | some e ↦ is_falsey e ]

abbrev pub map_in : Text → Fields → Fields
map_in key m = get_or no_fields (as_map (get key m))

abbrev pub or_null : Option Value → Value
or_null none = null
or_null (some v) = v

abbrev non_null : Option Value → Option Value
non_null none = none
non_null (some v) = if is_null v then none else some v

extract_kind : OutputKind → Fields → Option Value
extract_kind score_entity feat = some (
    obj (
      put (codes "error") (or_null (get (codes "error") feat))
        (put (codes "meta") (or_null (get (codes "meta") feat)) (map_in (codes "data") feat))))
extract_kind data_value_data feat =
    non_null (get (codes "data") (map_in (codes "value") (map_in (codes "data") feat)))
extract_kind data_value feat = get (codes "value") (map_in (codes "data") feat)

-- `none` is a result that is not ok.
unfoldable pub extract_output : FeatureConfig → Fields → Text → Option Value
unfolding extract_kind
extract_output fc ml_response name = elim (as_map (get name ml_response)) [
  | none ↦ none
  | some feat ↦ if usable feat then extract_kind fc.output_kind feat else none
]

unfoldable pub type_matches : Value → Text → Bool
type_matches v output_type =
    if output_type == codes "bool"
    then is_some (as_bool (some v))
    else if output_type == codes "int"
    then is_num v
    else if output_type == codes "str"
    then is_some (as_str (some v))
    else if output_type == codes "dict"
    then is_some (as_map (some v))
    else if output_type == codes "list"
    then is_arr v
    else true
  where
    is_num : Value → Bool
    is_num (num n) = true
    is_num _ = false

    is_arr : Value → Bool
    is_arr (arr vs) = true
    is_arr _ = false

-- The value for a result that is not ok.
unfoldable pub default_value : Text → Value
default_value output_type =
    if output_type == codes "dict"
    then obj (field (codes "error") (bool true) no_fields)
    else if output_type == codes "list"
    then arr no_items
    else null

-- The loop over the path and the write at its end.
unfoldable pub write_at : List Text → Value → Fields → Fields
write_at [] v m = m
write_at (k ∷ []) v m = put k v m
write_at (k ∷ j ∷ path) v m = put k (obj (write_at (j ∷ path) v (map_in k m))) m

unfoldable pub set_at_path : Fields → List Text → Option Value → Text → Fields
set_at_path m path none output_type = write_at path (default_value output_type) m
set_at_path m path (some v) output_type =
    if type_matches v output_type then write_at path v m else m

pub data Prediction : Type 0 where
  failed : Prediction
  predicted : ℕ → Prediction

prediction_of : Option Value → Prediction
prediction_of (some (num n)) = predicted n
prediction_of _ = failed

unfoldable pub derive_prediction : Fields → Prediction
unfolding prediction_of
derive_prediction common_intel = elim (as_map (get (codes "score") common_intel)) [
  | none ↦ failed
  | some score ↦ elim (as_map (get (codes "onboarding_fraud_detection") score)) [
    | none ↦ failed
    | some ofd ↦
        if get_or false (as_bool (get (codes "error") ofd))
        then failed
        else prediction_of (get (codes "value") ofd)
  ]
]
