-- ===== src/Tests/Data.antt =====
-- Test data: profiles, sources, a configuration and the worlds that answer them.
use go_you.Common.{ℕ, Bool, true, false, List, [], ◌∷◌, Option, none, some, Text, codes, In, ◌↔◌}
use go_you.Common.Int.{pos}
use go_you.Upi.Model.{
  Profile, nil_err, text_err, SuffixEntry, SourceCommon, SourceConfig, Config, Meta,
}
use go_you.Upi.Sample.{FloatOps}
use go_you.Upi.Source.{World, IsFair, found}

abbrev pub profile : Text → Text → Option Bool → Text → Profile
profile source suffix user_exist name = record {
  source = source;
  flow = codes "NON_COMMON";
  suffix = suffix;
  app_name = codes "PHONEPE";
  user_exist = user_exist;
  name = name;
  vpa = [];
  err = nil_err;
  vpa_mismatch = none;
  vpa_match = [];
  masked_vpa = [];
  match_type = [];
}

abbrev pub hit_ybl : Profile
hit_ybl = profile (codes "MMT_UPI") (codes "ybl") (some true) (codes "Ravi")

abbrev pub hit_axl : Profile
hit_axl = profile (codes "EMT_UPI") (codes "axl") (some true) (codes "R Kumar")

abbrev pub miss_ibl : Profile
miss_ibl = profile (codes "MMT_UPI") (codes "ibl") (some false) []

abbrev pub unnamed_ybl : Profile
unnamed_ybl = profile (codes "MMT_UPI") (codes "ybl") (some true) []

abbrev pub failed_ibl : Profile
failed_ibl = record miss_ibl { user_exist = none; err = text_err (codes "timeout") }

abbrev pub entry : Text → ℕ → SuffixEntry
entry name priority = record { name = name; priority = pos priority }

abbrev pub suffixes : List SuffixEntry
suffixes = entry (codes "ybl") 2 ∷ entry (codes "axl") 5 ∷ entry (codes "ibl") 2 ∷ []

abbrev pub source : Text → Text → Option SourceCommon → SourceConfig
source name kind common = record {
  name = name;
  kind = kind;
  weight = 0x3ff0000000000000;
  enabled = true;
  timeout = 0;
  common = common;
}

abbrev pub mmt : SourceConfig
mmt = source (codes "MMT_UPI") (codes "LITE") none

abbrev pub emt : SourceConfig
emt = source (codes "EMT_UPI") (codes "LITE") none

abbrev pub give : SourceConfig
give = source (codes "GIVE_UPI") (codes "LITE") (some (record { lite = true; enriched = false }))

abbrev pub config : Config
config = record {
  client_response = true;
  suffix_list = suffixes;
  source_list = mmt ∷ emt ∷ give ∷ [];
  tpi_sources = [];
  hit_organic_sources = true;
  lite = true;
  lite_return_all = false;
  lite_seq = true;
  enriched = false;
  enriched_return_all = false;
  enriched_seq = false;
  lite_sources_sample_count = pos 3;
  enriched_sources_sample_count = pos 2;
  enriched_sources_count_for_ha = pos 1;
  enriched_suffix_sample_count = pos 2;
}

-- The metadata with these suffixes and LITE sources, and no other source.
abbrev pub meta_of : List SuffixEntry → List SourceConfig → Meta
meta_of suffix_list lite_sources = record {
  lite = true;
  lite_return_all = false;
  lite_seq = true;
  enriched = false;
  enriched_return_all = false;
  enriched_seq = false;
  hit_organic_sources = true;
  suffix_list = suffix_list;
  source_list = [];
  tpi_sources = [];
  lite_sources = lite_sources;
  enriched_sources = [];
  enriched_suffix_sample_count = pos 2;
  enriched_sources_count_for_ha = pos 1;
}

abbrev pub in_order : List Text → List Text
in_order keys = keys

abbrev pub visits_in_order : (keys : List Text) (t : Text) → In t (in_order keys) ↔ In t keys
visits_in_order keys t = (λ h. h, λ h. h)

-- A world in which every probe finds a profile with this name, and all arrives in order.
abbrev pub world_of : Text → World
world_of name = record {
  validate = λ source national suffix sm. found (profile source suffix (some true) name);
  drive = λ source national intl sm. [];
  arrive = λ ps. ps;
  arrive_sources = λ pss. pss;
  visit_keys = in_order;
  expired = false;
}

abbrev pub world_of-IsFair : (name : Text) → IsFair (world_of name)
world_of-IsFair name = record {
  profiles_kept = λ p ps. (λ h. h, λ h. h);
  sources_kept = λ ps pss. (λ h. h, λ h. h);
  keys_kept = λ keys t. (λ h. h, λ h. h);
}

abbrev pub national : Text
national = codes "9876543210"

-- Operations for a draw in which every key is the word drawn for it.
abbrev pub float_ops : FloatOps
float_ops = record {
  le_zero = λ x. false;
  gt = λ x y. false;
  pow = λ x y. x;
  reciprocal = λ x. x;
  unit = λ x. x;
  tiny_weight = 1;
  tiny_draw = 1;
}
