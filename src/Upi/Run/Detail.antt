-- ===== src/Upi/Run/Detail.antt =====
-- What a call of the UPI crawler returns.
use go_you.Common.{
  ℕ, Bool, true, false, List, Option, none, some, ◌>>=◌, Text, codes, ◌==◌, ◌≡◌, ◌∙◌, refl, ap, sym,
  arith, is_some, Option-cases, if◌then◌else◌, inl, inr,
}
use go_you.Common.Int.{pos}
use mathlib.Core.Path.{subst}
use go_you.Json.{Value, Fields, bool, get, put, no_fields, str}
use go_you.Json.Laws.{get-put}
use go_you.Upi.Model.{
  ErrVal, VerifiedName, is_error, Profiles, Config, nil_err, bool_err, profiles_has_error,
}
use go_you.Upi.Sample.{FloatOps, seed_state}
use go_you.Upi.Source.{World}
use go_you.Upi.Plan.{build_meta, last10}
use go_you.Upi.Aggregate.Winner.{IsKeyOrder}
use go_you.Upi.Engine.Phases.{aggregate-IsSettled, IsSettled}
use go_you.Upi.Run.{
  put_text, put_bool, put_verified, strip_plus, raw_profile_map, detail_of, check_detail,
}

get-put-other :
    (j k : Text) (v : Value) (m : Fields) → (k == j) ≡ false → get j (put k v m) ≡ get j m
get-put-other j k v m other = grind (arith, get-put j k v m)

get-put_text : (j k t : Text) (m : Fields) → (k == j) ≡ false → get j (put_text k t m) ≡ get j m
get-put_text j k t m other = ground (arith, get-put-other j k (str t) m)

get-put_verified :
    (j : Text) (vns : Option (List VerifiedName)) (m : Fields)
    → (codes "verified_names" == j) ≡ false
    → get j (put_verified vns m) ≡ get j m
get-put_verified j none m other = refl
get-put_verified j (some vns) m other = get-put-other j (codes "verified_names") _ m other

abbrev mark : Option Bool → ErrVal
mark v = if is_some v then nil_err else bool_err true

abbrev bool_value : Option Bool → Option Value
bool_value none = none
bool_value (some b) = some (bool b)

-- A key that is none of the others reads as in the first write.
raw_profile_map-get :
    (j : Text) (agg : Profiles)
    → (codes "profiles" == j) ≡ false
    → (codes "verified_names" == j) ≡ false
    → (codes "app_name" == j) ≡ false
    → (codes "source" == j) ≡ false
    → (codes "suffix" == j) ≡ false
    → (codes "name" == j) ≡ false
    → get j (raw_profile_map agg) ≡ get j (put_bool (codes "user_exist") agg.user_exist no_fields)
unfolding raw_profile_map
raw_profile_map-get j agg a b c d e f =
    get-put-other j (codes "profiles") _ _ a
    ∙ get-put_verified j agg.verified_names _ b
    ∙ get-put_text j (codes "app_name") agg.app_name _ c
    ∙ get-put_text j (codes "source") agg.source _ d
    ∙ get-put_text j (codes "suffix") agg.suffix _ e
    ∙ get-put_text j (codes "name") agg.name _ f

put_bool-user_exist :
    (v : Option Bool)
    → get (codes "user_exist") (put_bool (codes "user_exist") v no_fields) ≡ bool_value v
unfolding get put ◌==◌
put_bool-user_exist none = refl
put_bool-user_exist (some b) = refl

put_bool-error :
    (v : Option Bool) → get (codes "error") (put_bool (codes "user_exist") v no_fields) ≡ none
unfolding get put ◌==◌
put_bool-error none = refl
put_bool-error (some b) = refl

raw-user_exist :
    (agg : Profiles) → get (codes "user_exist") (raw_profile_map agg) ≡ bool_value agg.user_exist
unfolding ◌==◌
raw-user_exist agg =
    raw_profile_map-get (codes "user_exist") agg refl refl refl refl refl refl
    ∙ put_bool-user_exist agg.user_exist

raw-error : (agg : Profiles) → get (codes "error") (raw_profile_map agg) ≡ none
unfolding ◌==◌
raw-error agg =
    raw_profile_map-get (codes "error") agg refl refl refl refl refl refl
    ∙ put_bool-error agg.user_exist

-- The map says what the verdict says, and has an error mark exactly where there is no verdict.
abbrev pub Tells : Option Bool → Fields → Type 0
Tells v m =
    (get (codes "user_exist") m ≡ bool_value v)
    × (get (codes "error") m ≡ (if is_some v then none else some (bool true)))

detail_of-failed :
    (agg : Profiles)
    → profiles_has_error agg ≡ true
    → detail_of agg ≡ (none, put (codes "error") (bool true) (raw_profile_map agg))
unfolding detail_of
detail_of-failed agg h = rw h refl

detail_of-settled :
    (agg : Profiles)
    → profiles_has_error agg ≡ false
    → detail_of agg ≡ (agg.user_exist, raw_profile_map agg)
unfolding detail_of
detail_of-settled agg h = rw h refl

failed-Tells :
    (agg : Profiles)
    → agg.user_exist ≡ none
    → Tells none (put (codes "error") (bool true) (raw_profile_map agg))
unfolding ◌==◌
failed-Tells agg e = (
  get-put-other (codes "user_exist") (codes "error") _ _ refl
      ∙ raw-user_exist agg
      ∙ ap bool_value e,
  get-put (codes "error") (codes "error") (bool true) (raw_profile_map agg),
)

settled-Tells :
    (agg : Profiles) (v : Bool)
    → agg.user_exist ≡ some v
    → Tells agg.user_exist (raw_profile_map agg)
settled-Tells agg v e = (
  raw-user_exist agg,
  raw-error agg ∙ ap (λ o. if is_some o then none else some (bool true)) (sym e),
)

abbrev TellsBoth : Option Bool × Fields → Type 0
TellsBoth r = Tells r.0 r.1

detail_of-Tells : (agg : Profiles) → IsSettled agg → TellsBoth (detail_of agg)
unfolding profiles_has_error is_error
detail_of-Tells agg settled = elim (Option-cases agg.user_exist) [
  | inl e ↦
      let failed : profiles_has_error agg ≡ true = ap is_error (settled ∙ ap mark e) in
      subst TellsBoth (sym (detail_of-failed agg failed)) (failed-Tells agg e)
  | inr (v, e) ↦
      let fine : profiles_has_error agg ≡ false = ap is_error (settled ∙ ap mark e) in
      subst TellsBoth (sym (detail_of-settled agg fine)) (settled-Tells agg v e)
]

-- Where the configured count of suffixes for the ENRICHED phase is not negative and a walk over a
-- map visits exactly its keys, a call of the UPI crawler always returns a verdict and a map, in
-- which `user_exist` is the verdict, and `error` is there, and is true, exactly where the verdict is
-- nil.
pub check_detail-Tells :
    (world : World) (ops : FloatOps) (hash : Text → ℕ) (cfg : Config) (identifier : Text) (k : ℕ)
    → IsKeyOrder world.visit_keys
    → cfg.enriched_suffix_sample_count ≡ pos k
    → (v : Option Bool) × (m : Fields) × (check_detail world ops hash cfg identifier ≡ some (v, m))
      × Tells v m
unfolding check_detail build_meta
check_detail-Tells world ops hash cfg identifier k visits count =
    let national = last10 (strip_plus identifier) in
    let meta = build_meta ops cfg (seed_state (hash national)) in
    let (agg, ends, settled) = aggregate-IsSettled world national identifier meta visits k count in
    let (same, mark_is) = detail_of-Tells agg settled in
    (
      (detail_of agg).0,
      (detail_of agg).1,
      ap (λ o. o >>= λ a. some (detail_of a)) ends,
      (same, mark_is),
    )
