-- ===== src/Upi/Run.antt =====
-- internal/crawler/upi/run.go: one call of the UPI crawler, and the map in which it hands its result on.
pub mod Detail
use go_you.Common.{
  ℕ, Bool, true, false, not, List, [], ◌∷◌, map, Option, none, some, ◌>>=◌, Text, codes, ◌==◌, eqb,
  if◌then◌else◌,
}
use go_you.Json.{
  Value, Fields, no_fields, bool, str, arr, maps, texts, obj, null, put, to_objects, to_items,
}
use go_you.Upi.Model.{Profile, has_error, VerifiedName, Profiles, profiles_has_error, Config}
use go_you.Upi.Sample.{FloatOps, seed_state}
use go_you.Upi.Source.{World}
use go_you.Upi.Plan.{build_meta, last10}
use go_you.Upi.Engine.{aggregate}

unfoldable pub strip_plus : Text → Text
strip_plus [] = []
strip_plus (c ∷ s) = if eqb c b'+' then s else c ∷ s

abbrev pub put_text : Text → Text → Fields → Fields
put_text k s m = if s == [] then m else put k (str s) m

abbrev pub put_bool : Text → Option Bool → Fields → Fields
put_bool k none m = m
put_bool k (some b) m = put k (bool b) m

abbrev put_error : Bool → Fields → Fields
put_error e m = if e then put (codes "error") (bool true) m else m

-- One round of `profilesToMaps`.
unfoldable pub profile_to_map : Profile → Fields
profile_to_map p = put_error (has_error p) (
    put_text (codes "match_type") p.match_type (
      put_text (codes "app_name") p.app_name (
        put_text (codes "vpa") p.vpa (
          put_text (codes "name") p.name (
            put_bool (codes "user_exist") p.user_exist (
              put (codes "suffix") (str p.suffix)
                (put (codes "source") (str p.source) no_fields)))))))

unfoldable pub profiles_to_maps : List Profile → List Fields
profiles_to_maps = map profile_to_map

-- `map[string]any{"source": …, "name": …, "upi_ids": …}` of `verifiedNamesFromProfiles`.
abbrev name_value : Option Text → Value
name_value none = null
name_value (some t) = str t

abbrev pub verified_name_map : VerifiedName → Fields
verified_name_map vn =
    put (codes "upi_ids") (texts vn.upi_ids)
      (put (codes "name") (name_value vn.name) (put (codes "source") (str vn.source) no_fields))

abbrev pub put_verified : Option (List VerifiedName) → Fields → Fields
put_verified none m = m
put_verified (some vns) m =
    put (codes "verified_names") (maps (to_objects (map verified_name_map vns))) m

unfoldable pub raw_profile_map : Profiles → Fields
raw_profile_map agg = put (codes "profiles") (maps (to_objects (profiles_to_maps agg.profiles))) (
    put_verified agg.verified_names (
      put_text (codes "app_name") agg.app_name (
        put_text (codes "source") agg.source (
          put_text (codes "suffix") agg.suffix (
            put_text (codes "name") agg.name
              (put_bool (codes "user_exist") agg.user_exist no_fields))))))

-- The result of an aggregate: its verdict and its map, which holds an error mark where it failed.
unfoldable pub detail_of : Profiles → Option Bool × Fields
detail_of agg =
    let entry = raw_profile_map agg in
    if profiles_has_error agg
    then (none, put (codes "error") (bool true) entry)
    else (agg.user_exist, entry)

-- `CheckDetail`, with the hash of the seed and what the request meets outside as parameters.
unfoldable pub check_detail :
    World → FloatOps → (Text → ℕ) → Config → Text → Option (Option Bool × Fields)
check_detail world ops hash cfg identifier =
    let national = last10 (strip_plus identifier) in
    let meta = build_meta ops cfg (seed_state (hash national)) in
    aggregate world national identifier meta >>= λ agg. some (detail_of agg)
