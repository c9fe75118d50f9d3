-- ===== src/Upi/Source/Probes.antt =====
-- What one source delivers.
use go_you.Common.{Bool, true, false, ◌||◌, map, Text, ◌==◌, In, In-keep, In-map, ◌↔◌, ◌≡◌, keep}
use go_you.Upi.Model.{Profile, SourceMeta}
use go_you.Upi.Suffix.{common_suffix_constant, is_supported_suffix}
use go_you.Upi.Source.{World, IsFair, is_self_driven, settle, supported, run_source}

-- A source that is not self-driven delivers exactly the settled answers to its supported suffixes: each
-- suffix of its list that is COMMON or known is answered, and no other is asked.
pub run_source-In :
    (world : World) (national intl : Text) (sm : SourceMeta) (p : Profile)
    → IsFair world
    → is_self_driven sm.source.name ≡ false
    → In p (run_source world national intl sm) ↔ (
        (s : Text) × In s sm.suffix_list
        × ((s == common_suffix_constant || is_supported_suffix s) ≡ true)
        × (settle sm.source.name s (world.validate sm.source.name national s sm) ≡ p))
unfolding run_source supported
run_source-In world national intl sm p fair plain =
    let name = sm.source.name in
    let test : Text → Bool = λ s. s == common_suffix_constant || is_supported_suffix s in
    let answer : Text → Profile = λ s. settle name s (world.validate name national s sm) in
    let answers = map answer (keep test sm.suffix_list) in
    rw plain (
      λ h.
          let (s, s_in, e) = (In-map answer _ p).0 ((fair.profiles_kept p answers).0 h) in
          let (listed, known) = (In-keep s test sm.suffix_list).0 s_in in (s, listed, known, e),
      λ (s, listed, known, e).
          (fair.profiles_kept p answers).1
            ((In-map answer _ p).1 (s, (In-keep s test sm.suffix_list).1 (listed, known), e)),
    )
