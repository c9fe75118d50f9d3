-- ===== src/Tests/Requests.antt =====
-- Witnesses for the UPI requests and the client's view of their results.
use go_you.Common.{
  ℕ, Bool, true, false, List, [], ◌∷◌, map, length, All, In, Distinct, any, is_some, Option, none,
  some, Text, codes, ◌==◌, contains, if◌then◌else◌, ◌≡◌, inl, refl, arith, ◌<◌,
}
use go_you.Common.Maps.{lookup, insert}
use go_you.Json.{Fields, no_fields, field, str, texts, bool, maps, to_objects, get}
use go_you.Json.Laws.{HasOnly}
use go_you.Upi.Model.{
  Profile, Profiles, Meta, SourceConfig, SourceMeta, has_error, is_error, nil_err, bool_err,
}
use go_you.Upi.Suffix.{
  is_supported_suffix, supported_suffix, supported_suffix_of, add_apps, add_suffixes, app, upi_apps,
}
use go_you.Upi.Aggregate.{
  is_true, is_false, is_err, filter_named, candidates, suffix_keys, common_suffix_list,
  max_priority, max_suffix, pick_winner, set_winner, agg_hits, agg_profile,
}
use go_you.Upi.Source.{
  World, has_crawler, known_sources, is_self_driven, settle, supported, run_source,
}
use go_you.Upi.Plan.{
  is_common_in, is_common_flow, order_common_first, count_common, build_suffix_sets,
}
use go_you.Upi.Plan.Sets.{others}
use go_you.Upi.Engine.{
  suffixes_of, fan_from, fan_out_sources, run_phase, lite_phase, lite_result, aggregate,
}
use go_you.Upi.Engine.Fan.{IsPlain, run_phase-settle}
use go_you.Upi.Engine.Phases.{aggregate-IsSettled, aggregate-loses_hit}
use go_you.Upi.Run.{check_detail}
use go_you.Upi.Run.Detail.{Tells, check_detail-Tells}
use go_you.Upi.Response.{
  VerifiedNamesConfig, white_list, profiles_value, clean_profile_for_response,
}
use go_you.Upi.Response.Keys.{suffix_of, clean_profile_for_response-HasOnly}
use go_you.Tests.Data.{
  suffixes, mmt, emt, give, config, meta_of, visits_in_order, world_of, world_of-IsFair, national,
  float_ops,
}

abbrev intl : Text
intl = codes "+919876543210"

abbrev world : World
world = world_of (codes "Ravi")

abbrev ask_mmt : SourceMeta
ask_mmt = record {
  source = mmt;
  suffix_list = codes "COMMON" ∷ codes "nobank" ∷ [];
  return_all = false;
}

mmt_is_plain : is_self_driven (codes "MMT_UPI") ≡ false
unfolding is_self_driven ◌==◌
mmt_is_plain = refl

abbrev answer : Profile
answer =
    settle (codes "MMT_UPI") (codes "COMMON")
      (world.validate (codes "MMT_UPI") national (codes "COMMON") ask_mmt)

abbrev sources : List SourceConfig
sources = mmt ∷ give ∷ emt ∷ []

sources-IsPlain : All (IsPlain false) sources
unfolding has_crawler known_sources is_self_driven is_common_flow is_common_in ◌==◌ contains
sources-IsPlain = ((refl, refl, refl), ((refl, refl, refl), ((refl, refl, refl), tt)))

two_others : 0 < length (others sources false)
unfolding is_common_in
two_others = omega arith

axl_known : is_supported_suffix (codes "axl") ≡ true
unfolding is_supported_suffix supported_suffix supported_suffix_of add_apps add_suffixes app
    upi_apps lookup insert ◌==◌
axl_known = refl

abbrev asked_for : List Text
asked_for = codes "axl" ∷ codes "ybl" ∷ codes "ibl" ∷ []

run_phase-settle_example :
    (s : SourceConfig) × In s sources
    × (sm : SourceMeta) × (sm.source ≡ s)
    × In (codes "axl") sm.suffix_list
    × In
        (settle s.name (codes "axl") (world.validate s.name national (codes "axl") sm))
        (run_phase world national intl (order_common_first sources false) false asked_for false)
run_phase-settle_example =
    run_phase-settle world national intl false sources false asked_for (codes "axl")
      (world_of-IsFair (codes "Ravi")) sources-IsPlain two_others (inl refl) axl_known

abbrev meta : Meta
meta = meta_of suffixes (give ∷ [])

aggregate-IsSettled_example :
    (r : Profiles) × (aggregate world national intl meta ≡ some r)
    × (r.err ≡ (if is_some r.user_exist then nil_err else bool_err true))
aggregate-IsSettled_example = aggregate-IsSettled world national intl meta visits_in_order 2 refl

abbrev nameless : World
nameless = world_of []

lite_hit : any is_true (lite_phase nameless national intl meta []) ≡ true
unfolding lite_phase run_phase fan_out_sources fan_from suffixes_of run_source supported has_crawler
    known_sources is_self_driven settle is_common_flow is_common_in order_common_first count_common
    build_suffix_sets is_true has_error is_error ◌==◌ contains
lite_hit = refl

lite_unnamed :
    (lite_result nameless national intl meta (lite_phase nameless national intl meta [])).name ≡ []
unfolding lite_result agg_profile agg_hits set_winner pick_winner max_suffix max_priority
    common_suffix_list suffix_keys candidates filter_named is_false is_err lite_phase run_phase
    fan_out_sources fan_from suffixes_of run_source supported has_crawler known_sources
    is_self_driven settle is_common_flow is_common_in order_common_first count_common
    build_suffix_sets is_true has_error is_error ◌==◌ contains
lite_unnamed = refl

aggregate-loses_hit_example :
    (r : Profiles) × (aggregate nameless national intl meta ≡ some r)
    × (r.user_exist ≡ none)
    × (r.err ≡ bool_err true)
aggregate-loses_hit_example =
    aggregate-loses_hit nameless national intl meta visits_in_order lite_hit lite_unnamed refl refl
      refl refl refl

abbrev hash : Text → ℕ
hash t = 7

check_detail-Tells_example :
    (v : Option Bool) × (m : Fields) × (check_detail world float_ops hash config intl ≡ some (v, m))
    × Tells v m
check_detail-Tells_example =
    check_detail-Tells world float_ops hash config intl 2 visits_in_order refl

abbrev nested : Text → Fields
nested suffix =
    field (codes "suffix") (str suffix) (field (codes "source") (str (codes "MMT_UPI")) no_fields)

abbrev nested_profiles : List Fields
nested_profiles =
    nested (codes "ybl") ∷ nested [] ∷ nested (codes "ybl") ∷ nested (codes "axl") ∷ []

abbrev upi_entry : Fields
upi_entry =
    field (codes "user_exist") (bool true)
      (field (codes "profiles") (maps (to_objects nested_profiles)) no_fields)

no_error : is_some (get (codes "error") upi_entry) ≡ false
unfolding get ◌==◌
no_error = refl

clean_profile_for_response-HasOnly_example :
    HasOnly
      (codes "profiles" ∷ codes "verified_names" ∷ white_list)
      (clean_profile_for_response upi_entry none [])
    × All (λ k. get k (clean_profile_for_response upi_entry none []) ≡ get k upi_entry) white_list
    × ((ps : List Fields) × (get (codes "profiles") (clean_profile_for_response upi_entry none [])
          ≡ some (profiles_value ps))
        × All (HasOnly white_list) ps
        × Distinct (map suffix_of ps))
clean_profile_for_response-HasOnly_example =
    clean_profile_for_response-HasOnly upi_entry none [] no_error

abbrev names_config : VerifiedNamesConfig
names_config = record {
  enabled = true;
  name = none;
  upi_ids = some true;
  alphanumeric_id = none;
  encoding = none;
  source = none;
}

abbrev upi_ids : List Text
upi_ids = codes "9876543210@ybl" ∷ codes "ravi@axl" ∷ []

abbrev verified : Fields
verified =
    field (codes "source") (str (codes "PHONEPE")) (
      field (codes "name") (str (codes "Ravi")) (field (codes "upi_ids") (texts upi_ids) no_fields))
