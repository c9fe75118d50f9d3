-- ===== src/Upi/Engine/Fan.antt =====
-- What the sources of one phase deliver for its suffixes.
use go_you.Common.{
  ◌-◌, ◌<◌, Bool, true, false, List, [], ◌∷◌, ◌++◌, ◌≡◌, ◌∙◌, refl, ap, sym, arith, All, In,
  In-keep, length, replicate, Text, ltb, inl, inr,
}
use mathlib.Core.Path.{subst}
use go_you.Upi.Model.{Profile, SourceConfig, SourceMeta}
use go_you.Upi.Suffix.{common_suffix_constant, is_supported_suffix}
use go_you.Upi.Split.{split_list}
use go_you.Upi.Split.Chunks.{split_list-concat}
use go_you.Upi.Source.{World, IsFair, has_crawler, is_self_driven, settle}
use go_you.Upi.Source.Probes.{run_source-In}
use go_you.Upi.Plan.{
  is_common_in, is_common_flow, order_common_first, count_common, build_suffix_sets,
}
use go_you.Upi.Plan.Sets.{commons, others, count_common-order_common_first, In-concat}
use go_you.Upi.Engine.{asked, suffixes_of, fan_from, fan_out_sources, run_phase}

-- A source with a crawler of its own kind, whose common flow is that of the phase.
abbrev pub IsPlain : Bool → SourceConfig → Type 0
IsPlain enriched s =
    (has_crawler s.name ≡ true)
    × (is_self_driven s.name ≡ false)
    × (is_common_flow s ≡ is_common_in enriched s)

plain-others :
    (enriched : Bool) (sources : List SourceConfig)
    → All (IsPlain enriched) sources
    → All (λ s. (has_crawler s.name ≡ true) × (is_common_flow s ≡ false)) (others sources enriched)
plain-others enriched [] hs = tt
plain-others enriched (s ∷ rest) ((known, _, flow), hs) =
    ground (arith, plain-others enriched rest hs)

plain-In :
    (enriched : Bool) (s : SourceConfig) (sources : List SourceConfig)
    → All (IsPlain enriched) sources
    → In s sources
    → is_self_driven s.name ≡ false
plain-In enriched s [] hs h = absurd h
plain-In enriched s (x ∷ rest) ((_, calm, _), hs) (inl same) =
    ap (λ y. is_self_driven y.name) (sym same) ∙ calm
plain-In enriched s (x ∷ rest) (_, hs) (inr later) = plain-In enriched s rest hs later

-- The suffix sets of the ordered sources of a phase.
ordered_sets : List SourceConfig → Bool → List Text → List (List Text)
ordered_sets sources enriched suffix_names =
    replicate (length (commons sources enriched)) (common_suffix_constant ∷ [])
    ++ split_list suffix_names (length (others sources enriched))

sets-ordered :
    (sources : List SourceConfig) (enriched : Bool) (suffix_names : List Text)
    → 0 < length (others sources enriched)
    → let ordered = order_common_first sources enriched in
      let n = count_common ordered enriched in
      build_suffix_sets n (length ordered - n) suffix_names
      ≡ ordered_sets sources enriched suffix_names
unfolding build_suffix_sets ordered_sets
sets-ordered sources enriched suffix_names h =
    let (front, back) = count_common-order_common_first sources enriched in
    let more : ltb 0 (length (others sources enriched)) ≡ true = ground arith in
    rw (back, front, more) refl

module _ (world : World) (national intl : Text) (return_all : Bool) where
  -- The sources in front, with a set each, only add to what is delivered.
  fan_from-append :
      (front back : List SourceConfig) (x : List Text) (sets : List (List Text)) (ps : List Profile)
      → In ps (fan_from world national intl back sets return_all)
      → In ps (
          fan_from world national intl
            (front ++ back)
            (replicate (length front) x ++ sets)
            return_all)
  unfolding fan_from
  fan_from-append [] back x sets ps h = h
  fan_from-append (s ∷ front) back x sets ps h =
      ground (arith, fan_from-append front back x sets ps h)

  -- Sources that are not common, with as many sets: each set goes to one of them.
  fan_from-sets :
      (sources : List SourceConfig) (sets : List (List Text)) (set : List Text)
      → All (λ s. (has_crawler s.name ≡ true) × (is_common_flow s ≡ false)) sources
      → length sets ≡ length sources
      → In set sets
      → (s : SourceConfig) × In s sources
        × In
            (asked world national intl s set return_all)
            (fan_from world national intl sources sets return_all)
  unfolding fan_from suffixes_of
  fan_from-sets [] [] set hs e h = absurd h
  fan_from-sets [] (c ∷ sets) set hs e h = absurd (omega arith)
  fan_from-sets (s ∷ rest) [] set hs e h = absurd h
  fan_from-sets (s ∷ rest) (c ∷ sets) set ((known, plain), hs) e (inl same) = (
    s,
    inl refl,
    rw (known, plain) (inl (ap (λ l. asked world national intl s l return_all) same)),
  )
  fan_from-sets (s ∷ rest) (c ∷ sets) set ((known, plain), hs) e (inr later) =
      let (src, src_in, got) = fan_from-sets rest sets set hs (omega arith) later in
      (src, inr src_in, rw known (inr got))

  run_phase-sets :
      (sources : List SourceConfig) (enriched : Bool) (suffix_names : List Text) (set : List Text)
      → IsFair world
      → All (IsPlain enriched) sources
      → 0 < length (others sources enriched)
      → In set (split_list suffix_names (length (others sources enriched)))
      → (s : SourceConfig) × In s sources
        × ((p : Profile)
            → In p (asked world national intl s set return_all)
            → In p (
                run_phase world national intl
                  (order_common_first sources enriched)
                  enriched
                  suffix_names
                  return_all))
  unfolding run_phase fan_out_sources order_common_first ordered_sets
  run_phase-sets sources enriched suffix_names set fair plain some_other set_in =
      let back = others sources enriched in
      let (n_sets, _, _) = split_list-concat suffix_names (length back) some_other in
      let (s, s_in, got) =
        fan_from-sets back (split_list suffix_names (length back)) set
          (plain-others enriched sources plain) n_sets set_in in
      let started =
        fan_from-append (commons sources enriched) back (common_suffix_constant ∷ []) _ _ got in
      (
        s,
        ((In-keep s _ sources).0 s_in).0,
        λ p p_in.
            rw (sets-ordered sources enriched suffix_names some_other)
              ((In-concat p _).1 (_, (fair.sources_kept _ _).1 started, p_in)),
      )

  -- A phase asks for every suffix: where each of its sources has a crawler that is not self-driven
  -- and counts as common in this phase exactly where `isCommonFlow` says so, where one of them is
  -- not common, and where nothing is lost on the channels, then the answer of some source of the
  -- phase for any known suffix of the phase's list is among the delivered profiles.
  pub run_phase-settle :
      (sources : List SourceConfig) (enriched : Bool) (suffix_names : List Text) (suffix : Text)
      → IsFair world
      → All (IsPlain enriched) sources
      → 0 < length (others sources enriched)
      → In suffix suffix_names
      → is_supported_suffix suffix ≡ true
      → (s : SourceConfig) × In s sources
        × (sm : SourceMeta) × (sm.source ≡ s)
        × In suffix sm.suffix_list
        × In (settle s.name suffix (world.validate s.name national suffix sm)) (
            run_phase world national intl
              (order_common_first sources enriched)
              enriched
              suffix_names
              return_all)
  run_phase-settle sources enriched suffix_names suffix fair plain some_other suffix_in known =
      let n = length (others sources enriched) in
      let (n_sets, whole, _) = split_list-concat suffix_names n some_other in
      let (set, set_in, in_set) =
        (In-concat suffix (split_list suffix_names n)).0
          (subst (λ l. In suffix l) (sym whole) suffix_in) in
      let (s, s_in, got) =
        run_phase-sets sources enriched suffix_names set fair plain some_other set_in in
      let sm : SourceMeta = record { source = s; suffix_list = set; return_all = return_all } in
      (
        s,
        s_in,
        sm,
        refl,
        in_set,
        got _ (
            (run_source-In world national intl sm _ fair (plain-In enriched s sources plain s_in)).1
              (suffix, in_set, ground arith, refl)),
      )
