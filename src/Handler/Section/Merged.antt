-- ===== src/Handler/Section/Merged.antt =====
-- The digital age of a phone section behind the merge of the ml service's answer.
use go_you.Common.{ℕ, true, List, Option, some, Text, codes, ◌==◌, ◌≡◌, refl, ap, ◌∙◌}
use go_you.Json.{Fields, get}
use go_you.AppConfig.{YouConfiguration, intelligence_bool}
use go_you.StaticData.{
  Date, aged, to_map, latest_revocation, phone_digital_age, digital_age, static_seen_dates,
}
use go_you.StaticData.Age.{age_at, digital_age-revoked}
use go_you.Handler.Section.{
  attach, merge_into, merge_intelligence_data, is_usable_digital_age, phone_static_intelligence,
}

aged_usable : (y m a : ℕ) → is_usable_digital_age (some (to_map (aged y m a))) ≡ true
unfolding is_usable_digital_age to_map get ◌==◌
aged_usable y m a = refl

attached_kept :
    (y n a : ℕ) (ids : List Text) (m : Fields)
    → (merge_intelligence_data (attach true (aged y n a) ids) m).digital_age
      ≡ some (to_map (aged y n a))
unfolding attach merge_intelligence_data merge_into
attached_kept y n a ids m = rw (aged_usable y n a) refl

module _ (trim_space : Text → Text) (format : ℕ → Text) (now : Date) where
  revoked_age :
      (static revocations : Fields) (r : Date)
      → latest_revocation revocations ≡ some r
      → phone_digital_age trim_space static revocations now ≡ age_at r now
  unfolding phone_digital_age
  revoked_age static revocations r revoked =
      ap (λ (o : Option Date). digital_age trim_space (static_seen_dates static) o now) revoked
      ∙ digital_age-revoked trim_space (static_seen_dates static) now r

  -- Where the tenant's digital age is on and the phone's metadata has a revocation, the digital age that
  -- the section ends with is the revocation's, whatever dates the static document holds and whatever
  -- the ml service answers.
  pub merged_digital_age-revoked :
      (yc : YouConfiguration) (static revocations m : Fields) (r : Date)
      → intelligence_bool yc (codes "digital_age") ≡ true
      → latest_revocation revocations ≡ some r
      → (merge_intelligence_data
          (phone_static_intelligence trim_space format now (some yc) static revocations)
          m).digital_age
        ≡ some (to_map (age_at r now))
  unfolding phone_static_intelligence
  merged_digital_age-revoked yc static revocations m r on revoked =
      rw (on, revoked_age static revocations r revoked) (attached_kept r.year r.month _ _ m)
