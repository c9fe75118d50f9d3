-- ===== src/Intelligence.antt =====
-- internal/intelligence/intelligence.go: which features of the ml service a request asks for, and the
-- merge of their values. The HTTP call is a parameter, and so is `strings.TrimSpace`.
pub mod Merge
pub mod Paths
pub mod Scopes
use go_you.Common.{
  ℕ, Bool, true, false, not, ◌&&◌, ◌||◌, List, [], ◌∷◌, ◌++◌, Option, none, some, Text, codes, ◌==◌,
  eqb, leb, is_some, get_or, if◌then◌else◌, ◌>>=◌,
}
use go_you.Common.Strings.{strip_prefix, contains_text, split_on}
use go_you.Json.{Value, Fields, null, no_fields, field, get, as_bool, as_map, as_str, text_or_empty}
use go_you.Handler.Clean.{is_null}
use go_you.Intelligence.Merge.{
  merged_feature_config, extract_output, set_at_path, derive_prediction, Prediction, failed,
}

-- `[a-zA-Z0-9_]`
is_word : ℕ → Bool
is_word c =
    (leb b'a' c && leb c b'z')
    || (leb b'A' c && leb c b'Z')
    || (leb b'0' c && leb c b'9')
    || eqb c b'_'

-- `\s` of Go's regexp: tab, newline, form feed, carriage return and space.
is_space : ℕ → Bool
is_space c = eqb c 32 || eqb c 9 || eqb c 10 || eqb c 12 || eqb c 13

-- `\s*`
spaces : Text → Text
unfolding is_space
spaces [] = []
spaces (c ∷ s) = elim (is_space c) [ true ↦ spaces s | false ↦ c ∷ s ]

-- `\s+`
some_spaces : Text → Option Text
unfolding spaces is_space
some_spaces [] = none
some_spaces (c ∷ s) = if is_space c then some (spaces s) else none

-- `['"]`
quote : Text → Option Text
quote [] = none
quote (c ∷ s) = if eqb c 39 || eqb c 34 then some s else none

-- The longest run of word characters, and what follows it.
word : Text → Text × Text
unfolding is_word
word [] = ([], [])
word (c ∷ s) = elim (is_word c) [ true ↦ (c ∷ (word s).0, (word s).1) | false ↦ ([], c ∷ s) ]

-- A match of `condFieldRe` at the start of the text: its field. A quote is no word character, and the
-- rest of the pattern starts with one, so the longest run is the only one to try.
unfoldable pub match_clause : Text → Option Text
unfolding quote word some_spaces spaces
match_clause s = do
  call ← strip_prefix (codes "you_req_json.get(") s
  inner ← quote (spaces call)
  closed ← quote (word inner).1
  after ← strip_prefix (codes ")") (spaces closed)
  is ← some_spaces after >>= strip_prefix (codes "is")
  negated ← some_spaces is >>= strip_prefix (codes "not")
  end ← some_spaces negated >>= strip_prefix (codes "None")
  if (word inner).0 == [] then none else some (word inner).0

-- `FindStringSubmatch`: the first match anywhere in the text.
unfoldable pub find_clause : Text → Option Text
find_clause [] = match_clause []
find_clause (c ∷ s) = elim (match_clause (c ∷ s)) [ some f ↦ some f | none ↦ find_clause s ]

-- The request map is never nil here; a nil one would read as empty.
unfoldable pub request_field_present : Fields → Text → Bool
request_field_present you_req name = elim (get name you_req) [
  | none ↦ false
  | some v ↦ not (is_null v)
]

module _ (trim_space : Text → Text) where
  unfoldable pub clauses_hold : Fields → List Text → Bool
  clauses_hold you_req [] = true
  clauses_hold you_req (clause ∷ clauses) = elim (find_clause (trim_space clause)) [
    | none ↦ false
    | some f ↦ request_field_present you_req f && clauses_hold you_req clauses
  ]

  -- A split gives one clause at least.
  unfoldable pub eval_condition : Text → Fields → Bool
  eval_condition cond you_req =
      let c = trim_space cond in
      if contains_text c (codes " or ")
        || contains_text c (codes "==")
        || contains_text c (codes "!=")
      then false
      else clauses_hold you_req (split_on (codes " and ") c)

  -- Whether the walk over the tenant's features takes one up.
  unfoldable pub takes_up : Fields → Fields → Text → Value → Bool
  takes_up global_cfg you_req key v = elim (as_map (some v)) [
    | none ↦ false
    | some entry ↦
        get_or false (as_bool (get (codes "enabled") entry)) && elim (as_map (get key global_cfg)) [
          | none ↦ false
          | some g ↦ elim (text_or_empty (get (codes "condition") g)) [
            | [] ↦ true
            | c ∷ cond ↦ eval_condition (c ∷ cond) you_req
          ]
        ]
  ]

  -- In the order in which Go walks over the tenant's map.
  unfoldable pub build_feature_list : Fields → Fields → Fields → List Text
  build_feature_list no_fields global_cfg you_req = []
  build_feature_list (field key v tenant_cfg) global_cfg you_req =
      let rest = build_feature_list tenant_cfg global_cfg you_req in
      if takes_up global_cfg you_req key v then key ∷ rest else rest

pub record Input : Type 0 where
  pub has_phone : Bool
  pub has_email : Bool
  pub common_intelligence : Fields
  pub you_request : Fields

pub record Output : Type 0 where
  pub phone_intel : Fields
  pub email_intel : Fields
  pub common_intel : Fields
  pub prediction : Prediction

-- `PredictionScore` and `PredictionError` are both zero in the output of a run that stops early.
pub data Ran : Type 0 where
  skipped : Ran
  merged : Output → Ran

abbrev pub no_output : Output
no_output = record {
  phone_intel = no_fields;
  email_intel = no_fields;
  common_intel = no_fields;
  prediction = failed;
}

-- The switch on the parent key, around the write.
unfoldable pub place : Input → Text → (Fields → Fields) → Output → Output
place req parent write out =
    if parent == codes "phone_intelligence"
    then if req.has_phone then record out { phone_intel = write out.phone_intel } else out
    else if parent == codes "email_intelligence"
    then if req.has_email then record out { email_intel = write out.email_intel } else out
    else record out { common_intel = write out.common_intel }

unfoldable pub merge_feature : Input → Fields → Fields → Fields → Text → Output → Output
merge_feature req global_cfg tenant_cfg ml_response name out =
    elim (merged_feature_config global_cfg tenant_cfg name) [
      | none ↦ out
      | some fc ↦
          place req fc.parent_key
            (λ m. set_at_path m fc.path (extract_output fc ml_response name) fc.output_type) out
    ]

unfoldable pub merge_features : Input → Fields → Fields → Fields → List Text → Output → Output
merge_features req global_cfg tenant_cfg ml_response [] out = out
merge_features req global_cfg tenant_cfg ml_response (name ∷ names) out =
    merge_features req global_cfg tenant_cfg ml_response names
      (merge_feature req global_cfg tenant_cfg ml_response name out)

abbrev pub enabled_map : Option Fields → Option Fields
enabled_map none = none
enabled_map (some m) = if get_or false (as_bool (get (codes "enabled") m)) then some m else none

features_of : Fields → Fields
features_of m = get_or no_fields (as_map (get (codes "feature_list_config") m))

predict : Output → Output
predict out = record out { prediction = derive_prediction out.common_intel }

-- `call` is the exchange with the ml service, an empty map on any failure; `ml_cfg` is its configuration.
module _ (trim_space : Text → Text) (call : List Text → Fields) where
  run_features : Input → Fields → Fields → List Text → Ran
  unfolding predict
  run_features req global_cfg tenant_cfg [] = skipped
  run_features req global_cfg tenant_cfg (name ∷ names) = merged (
      predict
        (merge_features req global_cfg tenant_cfg (call (name ∷ names)) (name ∷ names) no_output))

  run_with : Input → Option (Fields × Fields) → Ran
  unfolding run_features features_of
  run_with req none = skipped
  run_with req (some (cfg, ci)) =
      run_features req (features_of cfg) (features_of ci)
        (build_feature_list trim_space (features_of ci) (features_of cfg) req.you_request)

  -- The early returns, by what they leave of the two configurations.
  unfoldable pub run : Option Fields → Input → Ran
  unfolding run_with
  run ml_cfg req = run_with req do
    cfg ← enabled_map ml_cfg
    common ← enabled_map (some req.common_intelligence)
    ci ← enabled_map (as_map (get (codes "ml_service") common))
    some (cfg, ci)
