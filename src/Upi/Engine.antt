-- ===== src/Upi/Engine.antt =====
-- `aggregate` and `fanOutSources` of internal/crawler/upi/engine.go: the phases of one request. The
-- panic of `sorted[:k]` on a negative count is `none`.
pub mod Fan
pub mod Phases
use go_you.Common.{
  ℕ, zero, suc, ◌+◌, ◌-◌, Bool, true, false, not, ◌&&◌, ◌||◌, List, [], ◌∷◌, ◌++◌, map, Option,
  none, some, ◌>>=◌, Text, codes, ◌==◌, contains, keep, eqb, ltb, length, take, concat, is_some,
  if◌then◌else◌, max,
}
use go_you.Common.Int.{ℤ, pos, negsuc, ltb_ℤ}
use go_you.Upi.Model.{
  Profile, has_error, is_nil_err, SuffixEntry, SourceConfig, Meta, Profiles, SourceMeta,
  empty_profiles,
}
use go_you.Upi.Suffix.{common_suffix_constant}
use go_you.Upi.Source.{World, has_crawler, run_source}
use go_you.Upi.Aggregate.{agg_profile}
use go_you.Upi.VerifiedNames.{verified_names_from_profiles}
use go_you.Upi.Plan.{
  is_common_flow, order_common_first, count_common, build_suffix_sets,
  sort_suffixes_by_priority_desc, entry_names, suffix_names_for, remove_suffixes,
  remove_suffix_entries, repeat_suffixes, last10, min_ℤ,
}

-- The suffixes of the source at the head: the constant for a common-flow source, else its set.
abbrev head_set : List (List Text) → List Text
head_set [] = []
head_set (s ∷ ss) = s

abbrev pub tail_sets : List (List Text) → List (List Text)
tail_sets [] = []
tail_sets (s ∷ ss) = ss

unfoldable pub suffixes_of : SourceConfig → List (List Text) → List Text
suffixes_of s sets = if is_common_flow s then common_suffix_constant ∷ [] else head_set sets

module _ (world : World) (national intl : Text) where
  abbrev pub asked : SourceConfig → List Text → Bool → List Profile
  asked s suffixes return_all =
      run_source world national intl
        (record { source = s; suffix_list = suffixes; return_all = return_all })

  -- The loop that starts the goroutines: the `i`-th source goes with the `i`-th set.
  unfoldable pub fan_from : List SourceConfig → List (List Text) → Bool → List (List Profile)
  unfolding suffixes_of
  fan_from [] sets return_all = []
  fan_from (s ∷ rest) sets return_all =
      let later = fan_from rest (tail_sets sets) return_all in
      if has_crawler s.name then asked s (suffixes_of s sets) return_all ∷ later else later

  unfoldable pub fan_out_sources : List SourceConfig → List (List Text) → Bool → List Profile
  fan_out_sources sources sets return_all =
      concat (world.arrive_sources (fan_from sources sets return_all))

  -- The loop over the TPI sources: all that they deliver.
  unfoldable pub ask_tpi : List SourceConfig → List Profile
  ask_tpi [] = []
  ask_tpi (s ∷ rest) =
      let later = ask_tpi rest in
      if has_crawler s.name then asked s (common_suffix_constant ∷ []) false ++ later else later

  -- The suffix sets of one phase, and what the sources deliver for them.
  unfoldable pub run_phase : List SourceConfig → Bool → List Text → Bool → List Profile
  run_phase sources enriched suffix_names return_all =
      let common_count = count_common sources enriched in
      fan_out_sources sources
        (build_suffix_sets common_count (length sources - common_count) suffix_names) return_all

-- What the TPI loop keeps of the profiles: those without an error, the count of the others, and the
-- keys of `tpiSuffixes`.
unfoldable pub tpi_hits : List Profile → List Profile
tpi_hits = keep (λ p. not (has_error p))

unfoldable pub tpi_err_count : List Profile → ℕ
tpi_err_count ps = length (keep has_error ps)

unfoldable pub tpi_suffixes : List Profile → List Text
unfolding tpi_hits
tpi_suffixes ps = keep (λ s. not (s == [])) (map (λ p. p.suffix) (tpi_hits ps))

unfoldable pub err_in_all_tpi : List SourceConfig → List Profile → Bool
unfolding tpi_hits tpi_err_count
err_in_all_tpi sources ps =
    ltb 0 (length sources)
    && eqb (tpi_err_count ps) (length sources)
    && eqb (length (tpi_hits ps)) 0

-- The sources and the suffixes of the ENRICHED phase where LITE had a hit: only its suffix, with as
-- many sources as configured and at least one.
abbrev count_for_ha : ℤ → ℕ
count_for_ha (pos n) = max 1 n
count_for_ha (negsuc n) = 1

unfoldable pub plan_after_hit : Meta → Text → List SourceConfig × List SuffixEntry
plan_after_hit meta suffix =
    let sources =
      take (count_for_ha meta.enriched_sources_count_for_ha)
        (order_common_first meta.enriched_sources true) in
    (sources, repeat_suffixes (keep (λ e. e.name == suffix) meta.suffix_list) (length sources))

-- `sorted[:k]`: a negative count panics.
unfoldable pub take_ℤ : ℤ → List SuffixEntry → Option (List SuffixEntry)
take_ℤ (pos k) list = some (take k list)
take_ℤ (negsuc k) list = none

-- The same where LITE had none: the suffixes of the highest priority.
unfoldable pub plan_after_error : Meta → List Text → Option (List SourceConfig × List SuffixEntry)
unfolding take_ℤ
plan_after_error meta dropped =
    let sorted = remove_suffix_entries (sort_suffixes_by_priority_desc meta.suffix_list) dropped in
    take_ℤ (min_ℤ meta.enriched_suffix_sample_count (pos (length sorted))) sorted >>= λ list.
    some (take (length list) (order_common_first meta.enriched_sources true), list)

unfoldable pub plan_enriched :
    Meta → Profiles → List Text → Option (List SourceConfig × List SuffixEntry)
plan_enriched meta agg dropped =
    if is_nil_err agg.err && is_some agg.user_exist
    then some (plan_after_hit meta agg.suffix)
    else plan_after_error meta dropped

module _ (world : World) (national intl : Text) (meta : Meta) where
  unfoldable pub lite_phase : List Text → List Profile
  lite_phase dropped =
      run_phase world national intl (order_common_first meta.lite_sources false) false
        (remove_suffixes (suffix_names_for meta.suffix_list meta.lite_seq) dropped)
        meta.lite_return_all

  unfoldable pub enriched_phase : Profiles → List Text → Option (List Profile)
  enriched_phase agg dropped = plan_enriched meta agg dropped >>= λ plan.
      some (run_phase world national intl plan.0 true (entry_names plan.1) meta.enriched_return_all)

  unfoldable pub with_names : List Profile → Profiles → Profiles
  with_names ps agg = record agg {
    verified_names = some (verified_names_from_profiles (last10 national) ps);
  }

  -- The aggregate of the LITE phase, and whether the request ends with it.
  unfoldable pub lite_result : List Profile → Profiles
  lite_result ps = record (agg_profile world.visit_keys ps meta) { profiles = ps; meta = meta }

  abbrev is_no : Option Bool → Bool
  is_no none = false
  is_no (some b) = not b

  unfoldable pub ends_at_lite : Profiles → Bool
  ends_at_lite agg = is_no agg.user_exist || not (agg.name == [])

  -- The end of `aggregate`: the aggregate of the TPI and the ENRICHED profiles.
  unfoldable pub finish : List Profile → List Profile → Profiles
  finish profile_list enriched_list =
      let agg = agg_profile world.visit_keys enriched_list meta in
      let all = profile_list ++ enriched_list in
      record (with_names all (record agg { profiles = all; meta = meta })) {
        enriched_error = agg.err;
      }

  -- From the ENRICHED phase on.
  unfoldable pub go_enriched : List Profile → List Profile → List Text → Profiles → Option Profiles
  unfolding finish
  go_enriched profile_list enriched_list dropped agg =
      if meta.enriched && ltb 0 (length meta.enriched_sources)
      then (enriched_phase agg dropped >>= λ more.
          some (finish profile_list (enriched_list ++ more)))
      else some (finish profile_list enriched_list)

  -- From the LITE phase on.
  unfoldable pub go_organic : List Profile → List Text → Option Profiles
  unfolding go_enriched
  go_organic enriched_list dropped =
      let ps = lite_phase dropped in
      let agg = lite_result ps in
      if meta.lite && ltb 0 (length meta.lite_sources)
      then (if ends_at_lite agg
          then some (with_names ps agg)
          else if world.expired
          then some (record agg { lite_error = agg.err })
          else go_enriched ps enriched_list dropped (record agg { lite_error = agg.err }))
      else go_enriched [] enriched_list dropped (empty_profiles meta)

  unfoldable pub aggregate : Option Profiles
  unfolding go_organic
  aggregate =
      let delivered = ask_tpi world national intl meta.tpi_sources in
      if meta.hit_organic_sources || err_in_all_tpi meta.tpi_sources delivered
      then go_organic (tpi_hits delivered) (tpi_suffixes delivered)
      else some (finish [] (tpi_hits delivered))
