-- ===== src/Upi/Engine/Phases.antt =====
-- What the phases of a request answer.
use go_you.Common.{
  ℕ, Bool, true, false, ◌&&◌, ◌||◌, List, [], ◌++◌, Option, none, some, ◌>>=◌, Text, ◌==◌, ◌≡◌, ◌∙◌,
  refl, ap, arith, ltb, length, is_some, any, if◌then◌else◌, if-true, if-false, inl, inr,
  Bool-cases,
}
use go_you.Common.Int.{pos}
use go_you.Upi.Model.{Profile, Meta, Profiles, nil_err, bool_err, is_nil_err, empty_profiles}
use go_you.Upi.Aggregate.{agg_profile, is_true}
use go_you.Upi.Aggregate.Winner.{IsKeyOrder}
use go_you.Upi.Aggregate.Verdict.{verdict, agg_profile-verdict}
use go_you.Upi.Source.{World}
use go_you.Upi.Engine.{
  tpi_hits, tpi_suffixes, ask_tpi, err_in_all_tpi, take_ℤ, plan_after_error, plan_enriched,
  lite_phase, enriched_phase, with_names, lite_result, ends_at_lite, finish, go_enriched,
  go_organic, aggregate,
}

-- No result is both a verdict and an error, or neither.
abbrev pub IsSettled : Profiles → Type 0
IsSettled agg = agg.err ≡ (if is_some agg.user_exist then nil_err else bool_err true)

-- The computation ends with a result of which `P` holds.
Ends : (Profiles → Type 0) → Option Profiles → Type 0
Ends P o = (r : Profiles) × (o ≡ some r) × P r

Ends-some : (P : Profiles → Type 0) (r : Profiles) → P r → Ends P (some r)
unfolding Ends
Ends-some P r h = (r, refl, h)

Ends-if :
    (P : Profiles → Type 0) (b : Bool) (x y : Option Profiles)
    → Ends P x
    → Ends P y
    → Ends P (if b then x else y)
Ends-if P true x y hx hy = hx
Ends-if P false x y hx hy = hy

-- With a sample count that is not negative, the plan of the ENRICHED phase is always made.
plan_after_error-total :
    (meta : Meta) (dropped : List Text) (k : ℕ)
    → meta.enriched_suffix_sample_count ≡ pos k
    → is_some (plan_after_error meta dropped) ≡ true
unfolding plan_after_error take_ℤ
plan_after_error-total meta dropped k e = rw e (ground arith)

plan_enriched-total :
    (meta : Meta) (agg : Profiles) (dropped : List Text) (k : ℕ)
    → meta.enriched_suffix_sample_count ≡ pos k
    → is_some (plan_enriched meta agg dropped) ≡ true
unfolding plan_enriched
plan_enriched-total meta agg dropped k e =
    elim (Bool-cases (is_nil_err agg.err && is_some agg.user_exist)) [
      | inl hit ↦ rw hit refl
      | inr none_hit ↦ rw none_hit (plan_after_error-total meta dropped k e)
    ]

bind-some :
    {A B : Type 0} (o : Option A) (f : A → B)
    → is_some o ≡ true
    → (b : B) × ((o >>= λ a. some (f a)) ≡ some b)
bind-some none f h = absurd (ground arith)
bind-some (some a) f h = (f a, refl)

module _ (world : World) (national intl : Text) (meta : Meta)
    (visits : IsKeyOrder world.visit_keys) where
  finish-IsSettled : (ps qs : List Profile) → IsSettled (finish world national intl meta ps qs)
  unfolding finish with_names verdict
  finish-IsSettled ps qs =
      let (verdict_is, err_is) = agg_profile-verdict world.visit_keys visits qs meta in
      rw verdict_is err_is

  lite_result-IsSettled : (ps : List Profile) → IsSettled (lite_result world national intl meta ps)
  unfolding lite_result
  lite_result-IsSettled ps =
      let (verdict_is, err_is) = agg_profile-verdict world.visit_keys visits ps meta in
      rw verdict_is err_is

  module _ (k : ℕ) (count : meta.enriched_suffix_sample_count ≡ pos k) where
    enriched_phase-total :
        (agg : Profiles) (dropped : List Text)
        → (more : List Profile) × (enriched_phase world national intl meta agg dropped ≡ some more)
    unfolding enriched_phase
    enriched_phase-total agg dropped =
        bind-some (plan_enriched meta agg dropped) _ (plan_enriched-total meta agg dropped k count)

    go_enriched-Ends :
        (ps qs : List Profile) (dropped : List Text) (agg : Profiles)
        → Ends IsSettled (go_enriched world national intl meta ps qs dropped agg)
    unfolding go_enriched
    go_enriched-Ends ps qs dropped agg =
        let (more, e) = enriched_phase-total agg dropped in
        Ends-if IsSettled (meta.enriched && ltb 0 (length meta.enriched_sources))
          (enriched_phase world national intl meta agg dropped >>= λ more'.
            some (finish world national intl meta ps (qs ++ more')))
          (some (finish world national intl meta ps qs))
          (rw e (Ends-some IsSettled _ (finish-IsSettled ps (qs ++ more))))
          (Ends-some IsSettled _ (finish-IsSettled ps qs))

    go_organic-Ends :
        (qs : List Profile) (dropped : List Text)
        → Ends IsSettled (go_organic world national intl meta qs dropped)
    unfolding go_organic with_names
    go_organic-Ends qs dropped =
        let ps = lite_phase world national intl meta dropped in
        let agg = lite_result world national intl meta ps in
        let agg' : Profiles = record agg { lite_error = agg.err } in
        let named = with_names world national intl meta ps agg in
        let settled = lite_result-IsSettled ps in
        let later = go_enriched-Ends ps qs dropped agg' in
        let after =
          if world.expired
          then some agg'
          else go_enriched world national intl meta ps qs dropped agg' in
        let ended = ends_at_lite world national intl meta agg in
        Ends-if IsSettled (meta.lite && ltb 0 (length meta.lite_sources))
          (if ended then some named else after)
          (go_enriched world national intl meta [] qs dropped (empty_profiles meta))
          (Ends-if IsSettled ended (some named) after (Ends-some IsSettled named settled) (
            Ends-if IsSettled world.expired (some agg')
              (go_enriched world national intl meta ps qs dropped agg')
              (Ends-some IsSettled agg' settled) later))
          (go_enriched-Ends [] qs dropped (empty_profiles meta))

  -- Where the configured count of suffixes for the ENRICHED phase is not negative and a walk over a
  -- map visits exactly its keys, a request always ends with a result, whatever the sources answer
  -- and in whichever phase it ends; and the result either has a verdict and no error, or no verdict
  -- and the error mark `true`.
  pub aggregate-IsSettled :
      (k : ℕ)
      → meta.enriched_suffix_sample_count ≡ pos k
      → (r : Profiles) × (aggregate world national intl meta ≡ some r)
        × (r.err ≡ (if is_some r.user_exist then nil_err else bool_err true))
  unfolding aggregate Ends
  aggregate-IsSettled k count =
      let delivered = ask_tpi world national intl meta.tpi_sources in
      let kept = tpi_hits delivered in
      Ends-if IsSettled (meta.hit_organic_sources || err_in_all_tpi meta.tpi_sources delivered)
        (go_organic world national intl meta kept (tpi_suffixes delivered))
        (some (finish world national intl meta [] kept))
        (go_organic-Ends k count kept (tpi_suffixes delivered))
        (Ends-some IsSettled _ (finish-IsSettled [] kept))

  no_sources :
      go_organic world national intl meta
        (tpi_hits (ask_tpi world national intl []))
        (tpi_suffixes (ask_tpi world national intl []))
      ≡ go_organic world national intl meta [] []
  unfolding ask_tpi tpi_suffixes tpi_hits
  no_sources = refl

  open_end :
      any is_true (lite_phase world national intl meta []) ≡ true
      → (lite_result world national intl meta (lite_phase world national intl meta [])).name ≡ []
      → ends_at_lite world national intl meta
          (lite_result world national intl meta (lite_phase world national intl meta []))
        ≡ false
  unfolding ends_at_lite lite_result verdict ◌==◌
  open_end hit unnamed =
      let ps = lite_phase world national intl meta [] in
      let (verdict_is, _) = agg_profile-verdict world.visit_keys visits ps meta in
      let yes : (agg_profile world.visit_keys ps meta).user_exist ≡ some true =
        verdict_is ∙ if-true _ _ _ hit in
      rw (yes, unnamed) refl

  -- A request whose LITE phase is on and settles nothing goes on with the ENRICHED phase.
  go_organic-passes :
      (qs : List Profile) (dropped : List Text)
      → (meta.lite && ltb 0 (length meta.lite_sources)) ≡ true
      → ends_at_lite world national intl meta
          (lite_result world national intl meta (lite_phase world national intl meta dropped))
        ≡ false
      → world.expired ≡ false
      → let ps = lite_phase world national intl meta dropped in
        let agg = lite_result world national intl meta ps in
        go_organic world national intl meta qs dropped
        ≡ go_enriched world national intl meta ps qs dropped (record agg { lite_error = agg.err })
  unfolding go_organic
  go_organic-passes qs dropped lite_on open_end in_time =
      if-true _ _ _ lite_on ∙ if-false _ _ _ open_end ∙ if-false _ _ _ in_time

  go_enriched-off :
      (ps qs : List Profile) (dropped : List Text) (agg : Profiles)
      → meta.enriched ≡ false
      → go_enriched world national intl meta ps qs dropped agg
        ≡ some (finish world national intl meta ps qs)
  unfolding go_enriched
  go_enriched-off ps qs dropped agg off =
      if-false _ _ _ (ap (λ b. b && ltb 0 (length meta.enriched_sources)) off)

  aggregate-organic :
      meta.tpi_sources ≡ []
      → meta.hit_organic_sources ≡ true
      → aggregate world national intl meta ≡ go_organic world national intl meta [] []
  unfolding aggregate
  aggregate-organic no_tpi organic =
      if-true _ _ _ (
        ap
          (λ b. b || err_in_all_tpi meta.tpi_sources (ask_tpi world national intl meta.tpi_sources))
          organic)
      ∙ ap
          (λ sources.
            go_organic world national intl meta (tpi_hits (ask_tpi world national intl sources))
              (tpi_suffixes (ask_tpi world national intl sources)))
          no_tpi
      ∙ no_sources

  -- Where the LITE phase finds the number (some profile is true) but its aggregate has no name, the
  -- ENRICHED phase is off, the deadline has not passed, no TPI source is configured, and a walk over
  -- a map visits exactly its keys, the request still ends as an error without a verdict.
  pub aggregate-loses_hit :
      any is_true (lite_phase world national intl meta []) ≡ true
      → (lite_result world national intl meta (lite_phase world national intl meta [])).name ≡ []
      → meta.tpi_sources ≡ []
      → meta.hit_organic_sources ≡ true
      → (meta.lite && ltb 0 (length meta.lite_sources)) ≡ true
      → meta.enriched ≡ false
      → world.expired ≡ false
      → (r : Profiles) × (aggregate world national intl meta ≡ some r)
        × (r.user_exist ≡ none)
        × (r.err ≡ bool_err true)
  unfolding finish with_names verdict
  aggregate-loses_hit hit unnamed no_tpi organic lite_on enriched_off in_time =
      let ps = lite_phase world national intl meta [] in
      let (verdict_is, err_is) = agg_profile-verdict world.visit_keys visits [] meta in
      (
        finish world national intl meta ps [],
        aggregate-organic no_tpi organic
            ∙ go_organic-passes [] [] lite_on (open_end hit unnamed) in_time
            ∙ go_enriched-off ps [] [] _ enriched_off,
        verdict_is,
        err_is,
      )
