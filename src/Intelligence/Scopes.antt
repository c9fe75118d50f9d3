-- ===== src/Intelligence/Scopes.antt =====
-- Which scopes a run writes, and which conditions hold.
use go_you.Common.{
  true, false, List, [], ◌∷◌, ◌++◌, Option, none, some, Text, codes, is_some, All, Option-cases,
  ◌≡◌, inl, inr, arith, if◌then◌else◌,
}
use go_you.Common.Strings.{split_on, contains_text}
use go_you.Json.{Value, Fields, no_fields, get}
use go_you.Handler.Clean.{is_null}
use go_you.Intelligence.{
  match_clause, find_clause, request_field_present, clauses_hold, eval_condition, Input, Output,
  merged, place, merge_feature, merge_features, no_output, predict, run_features, run_with, run,
  features_of,
}
use go_you.Intelligence.Merge.{merged_feature_config, derive_prediction}

-- Text in front of a clause does not keep it from being recognized.
pub find_clause-unanchored :
    (junk s f : Text) → match_clause s ≡ some f → is_some (find_clause (junk ++ s)) ≡ true
unfolding find_clause
find_clause-unanchored [] [] f h = ground (arith, h)
find_clause-unanchored [] (c ∷ s) f h = ground (arith, h)
find_clause-unanchored (j ∷ junk) s f h = ground (arith, find_clause-unanchored junk s f h)

-- The clause has a check, and the request has a value that is not nil for the field it names.
abbrev pub Holds : (Text → Text) → Fields → Text → Type 0
Holds trim_space you_req clause =
    (f : Text) × (v : Value) × (find_clause (trim_space clause) ≡ some f)
    × (get f you_req ≡ some v)
    × (is_null v ≡ false)

module _ (trim_space : Text → Text) (you_req : Fields) where
  present :
      (f : Text)
      → request_field_present you_req f ≡ true
      → (v : Value) × (get f you_req ≡ some v) × (is_null v ≡ false)
  unfolding request_field_present
  present f h = elim (Option-cases (get f you_req)) [
    | inl missing ↦ absurd (ground arith)
    | inr (v, found) ↦ (v, found, ground arith)
  ]

  clauses_hold-Holds :
      (clauses : List Text)
      → clauses_hold trim_space you_req clauses ≡ true
      → All (Holds trim_space you_req) clauses
  unfolding clauses_hold
  clauses_hold-Holds [] h = tt
  clauses_hold-Holds (clause ∷ clauses) h = elim (Option-cases (find_clause (trim_space clause))) [
    | inl unknown ↦ absurd (ground arith)
    | inr (f, known) ↦
        let (v, found, given) = present f (ground arith) in
        ((f, v, known, found, given), clauses_hold-Holds clauses (ground arith))
  ]

  -- A condition that is accepted has no " or ", "==" or "!=", and every clause between its " and "s
  -- names a field of which the request has a value.
  pub eval_condition-Holds :
      (cond : Text)
      → eval_condition trim_space cond you_req ≡ true
      → (contains_text (trim_space cond) (codes " or ") ≡ false)
        × (contains_text (trim_space cond) (codes "==") ≡ false)
        × (contains_text (trim_space cond) (codes "!=") ≡ false)
        × All (Holds trim_space you_req) (split_on (codes " and ") (trim_space cond))
  unfolding eval_condition
  eval_condition-Holds cond h = (
    ground arith,
    ground arith,
    ground arith,
    clauses_hold-Holds (split_on (codes " and ") (trim_space cond)) (ground arith),
  )

-- The scopes that a request without a phone number, or without an e-mail address, does not have.
abbrev pub Absent : Input → Output → Type 0
Absent req out =
    (out.phone_intel ≡ (if req.has_phone then out.phone_intel else no_fields))
    × (out.email_intel ≡ (if req.has_email then out.email_intel else no_fields))

place-Absent :
    (req : Input) (parent : Text) (write : Fields → Fields) (out : Output)
    → Absent req out
    → Absent req (place req parent write out)
unfolding place
place-Absent req parent write out h = ground arith

merge_feature-Absent :
    (req : Input) (global_cfg tenant_cfg ml_response : Fields) (name : Text) (out : Output)
    → Absent req out
    → Absent req (merge_feature req global_cfg tenant_cfg ml_response name out)
unfolding merge_feature
merge_feature-Absent req global_cfg tenant_cfg ml_response name out h =
    elim (Option-cases (merged_feature_config global_cfg tenant_cfg name)) [
      | inl unknown ↦ rw (unknown, merge_feature) h
      | inr (fc, known) ↦ rw (known, merge_feature) (place-Absent req fc.parent_key _ out h)
    ]

merge_features-Absent :
    (req : Input) (global_cfg tenant_cfg ml_response : Fields) (names : List Text) (out : Output)
    → Absent req out
    → Absent req (merge_features req global_cfg tenant_cfg ml_response names out)
unfolding merge_features
merge_features-Absent req global_cfg tenant_cfg ml_response [] out h = h
merge_features-Absent req global_cfg tenant_cfg ml_response (name ∷ names) out h =
    merge_features-Absent req global_cfg tenant_cfg ml_response names _
      (merge_feature-Absent req global_cfg tenant_cfg ml_response name out h)

predict-scopes :
    (req : Input) (before out : Output)
    → merged (predict before) ≡ merged out
    → Absent req before
    → Absent req out × (out.prediction ≡ derive_prediction out.common_intel)
unfolding predict
predict-scopes req before out e absent = ground arith

module _ (trim_space : Text → Text) (call : List Text → Fields) where
  run_features-scopes :
      (req : Input) (global_cfg tenant_cfg : Fields) (names : List Text) (out : Output)
      → run_features trim_space call req global_cfg tenant_cfg names ≡ merged out
      → Absent req out × (out.prediction ≡ derive_prediction out.common_intel)
  unfolding run_features
  run_features-scopes req global_cfg tenant_cfg [] out h = absurd (ground arith)
  run_features-scopes req global_cfg tenant_cfg (name ∷ names) out h =
      let before =
        merge_features req global_cfg tenant_cfg (call (name ∷ names)) (name ∷ names) no_output in
      predict-scopes req before out h (
        merge_features-Absent req global_cfg tenant_cfg (call (name ∷ names)) (name ∷ names)
          no_output (ground arith))

  run_with-scopes :
      (req : Input) (o : Option (Fields × Fields)) (out : Output)
      → run_with trim_space call req o ≡ merged out
      → Absent req out × (out.prediction ≡ derive_prediction out.common_intel)
  unfolding run_with
  run_with-scopes req none out h = absurd (ground arith)
  run_with-scopes req (some (cfg, ci)) out h =
      run_features-scopes req (features_of cfg) (features_of ci) _ out h

  -- A run that merges leaves the scope of an identifier that the request does not have empty, whatever
  -- the ml service answers and wherever the features are configured to go, and its prediction is read
  -- from the merged common scope.
  pub run-scopes :
      (ml_cfg : Option Fields) (req : Input) (out : Output)
      → run trim_space call ml_cfg req ≡ merged out
      → Absent req out × (out.prediction ≡ derive_prediction out.common_intel)
  unfolding run
  run-scopes ml_cfg req out h = run_with-scopes req _ out h
