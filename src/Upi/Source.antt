-- ===== src/Upi/Source.antt =====
-- internal/crawler/upi/source.go and `getSourceCrawler` of util.go: one source asked for its suffixes.
-- The sources speak HTTP, so what a probe answers is a parameter, as is the order in which the
-- goroutines of one call deliver their profiles.
pub mod Probes
use go_you.Common.{
  ℕ, Bool, true, false, ◌||◌, List, [], ◌∷◌, map, Option, none, some, Text, codes, ◌==◌, contains,
  keep, if◌then◌else◌, In, ◌↔◌,
}
use go_you.Upi.Model.{Profile, ErrVal, nil_err, text_err, SourceConfig, SourceMeta}
use go_you.Upi.Suffix.{
  common_suffix_constant, is_supported_suffix, app_name_for_suffix, flow_for_suffix,
}

-- What `validate` returns: a profile, or none with the text of its error, if it has one.
pub data Probe : Type 0 where
  found : Profile → Probe
  failed : Option Text → Probe

-- What a request meets outside of this code. `validate` and `drive` answer for a source's name;
-- `arrive` is the order in which the profiles of one source come in, `arrive_sources` that of the
-- sources, `visit_keys` that of a map's keys; `expired` is `ctx.Err() != nil` behind the LITE phase.
pub record World : Type 0 where
  pub validate : Text → Text → Text → SourceMeta → Probe
  pub drive : Text → Text → Text → SourceMeta → List Profile
  pub arrive : List Profile → List Profile
  pub arrive_sources : List (List Profile) → List (List Profile)
  pub visit_keys : List Text → List Text
  pub expired : Bool

-- Nothing is lost and nothing made up on a channel or in a walk over a map.
pub record IsFair (world : World) : Type 0 where
  pub profiles_kept : (p : Profile) (ps : List Profile) → In p (world.arrive ps) ↔ In p ps
  pub sources_kept :
      (ps : List Profile) (pss : List (List Profile)) → In ps (world.arrive_sources pss) ↔ In ps pss
  pub keys_kept : (keys : List Text) (t : Text) → In t (world.visit_keys keys) ↔ In t keys

-- The names for which `getSourceCrawler` has a crawler.
unfoldable pub known_sources : List Text
known_sources = map codes (
    "CASH_FREE_UPI" ∷ "CONFIRMTKT_UPI" ∷ "MMT_UPI" ∷ "EMT_UPI" ∷ "GIVE_UPI" ∷ "NYKAA_UPI"
    ∷ "RAILYATRI_UPI" ∷ "GOIBIBO_UPI" ∷ "IndiGo_UPI" ∷ "PRACTO_UPI" ∷ "KETTO_UPI" ∷ "JUST_PAY_UPI"
    ∷ "KAYAK_EMT" ∷ "BRB_RAZORPAY_UPI" ∷ "PHONEPE_EMULATOR" ∷ [])

-- `getSourceCrawler(name) != nil`
unfoldable pub has_crawler : Text → Bool
has_crawler name = contains name known_sources

-- The crawlers with a `run` method.
unfoldable pub is_self_driven : Text → Bool
is_self_driven name = name == codes "CASH_FREE_UPI" || name == codes "PHONEPE_EMULATOR"

abbrev pub error_text : Option Text → Text
error_text none = codes "error"
error_text (some t) = t

-- `trueP` and `falseP`
abbrev app_of : Text → Text
app_of suffix =
    if suffix == common_suffix_constant then common_suffix_constant else app_name_for_suffix suffix

unfoldable pub true_p : Text → Text → Text → Text → Profile
true_p src suffix name vpa = record {
  source = src;
  flow = flow_for_suffix suffix;
  suffix = suffix;
  app_name = app_of suffix;
  user_exist = some true;
  name = name;
  vpa = vpa;
  err = nil_err;
  vpa_mismatch = none;
  vpa_match = [];
  masked_vpa = [];
  match_type = [];
}

unfoldable pub false_p : Text → Text → Profile
unfolding true_p
false_p src suffix = record (true_p src suffix [] []) { user_exist = some false }

-- The profile that stands for a failed probe.
unfoldable pub error_profile : Text → Text → Option Text → Profile
error_profile src suffix err = record {
  source = src;
  flow = flow_for_suffix suffix;
  suffix = suffix;
  app_name = [];
  user_exist = none;
  name = [];
  vpa = [];
  err = text_err (error_text err);
  vpa_mismatch = none;
  vpa_match = [];
  masked_vpa = [];
  match_type = [];
}

unfoldable pub settle : Text → Text → Probe → Profile
settle src suffix (found p) = p
settle src suffix (failed err) = error_profile src suffix err

-- The suffixes that a source is asked for.
unfoldable pub supported : List Text → List Text
supported = keep (λ s. s == common_suffix_constant || is_supported_suffix s)

module _ (world : World) (national intl : Text) where
  unfoldable pub run_source : SourceMeta → List Profile
  run_source sm =
      let name = sm.source.name in
      if is_self_driven name
      then world.drive name national intl sm
      else world.arrive
          (map (λ s. settle name s (world.validate name national s sm)) (supported sm.suffix_list))
