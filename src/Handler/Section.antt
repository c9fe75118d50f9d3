-- ===== src/Handler/Section.antt =====
-- internal/handler/persona.go: a section from the results of a round, its intelligence data, and the
-- gates of its lanes. A nil map that differs from an empty one is `none`.
pub mod Accounts
pub mod Count
pub mod Merged
use go_you.Common.{
  ℕ, suc, Bool, true, false, not, ◌&&◌, ◌||◌, List, [], ◌∷◌, Option, none, some, Text, codes, ◌==◌,
  is_some, get_or, or_if_empty, if◌then◌else◌, eqb, length,
}
use go_you.Common.Strings.{strip_prefix}
use go_you.Json.{
  Value, Fields, no_fields, str, texts, arr, get, elements, as_bool, as_map, as_str, text_or_empty,
  bool, field,
}
use go_you.AccountDetails.{AccountDetails}
use go_you.Crawler.{Result, Failure, timed_out, failure}
use go_you.AppConfig.{
  YouConfiguration, is_phone_info_enabled, is_domain_intelligence_enabled, is_postpaid_enabled,
  intelligence_bool, is_common_intelligence_enabled,
}
use go_you.StaticData.{DigitalAge, Date, phone_digital_age, email_digital_age, to_map}
use go_you.StaticData.Linked.{linked_ids}

pub record PrimaryData : Type 0 where
  pub account_details : List AccountDetails
  pub social_profile_count : ℕ

pub record Section : Type 0 where
  pub key : Text
  pub kind : Text
  pub primary_data : PrimaryData
  pub status_code : ℕ
  pub status : Text

unfoldable pub account : Result → AccountDetails
account res = elim res.err [
  | some e ↦ record { website = res.website; user_exist = none; error = true; details = no_fields }
  | none ↦ record {
    website = res.website;
    user_exist = res.user_exist;
    error = false;
    details = res.details;
  }
]

unfoldable pub accounts : List Result → List AccountDetails
unfolding account
accounts [] = []
accounts (res ∷ results) = account res ∷ accounts results

-- Whether the loop counts a result as a profile.
unfoldable pub is_hit : Result → Bool
is_hit res = not (is_some res.err) && get_or false res.user_exist

unfoldable pub count_hits : List Result → ℕ
count_hits [] = 0
count_hits (res ∷ results) = let rest = count_hits results in if is_hit res then suc rest else rest

unfoldable pub build_section : Text → Text → List Result → Section
unfolding accounts
build_section kind key results = record {
  key = key;
  kind = kind;
  primary_data = record {
    account_details = accounts results;
    social_profile_count = count_hits results;
  };
  status_code = 2000;
  status = codes "SUCCESS";
}

-- The label of a result's status; the sentinel is told by its text.
pub crawler_status : Result → Text
crawler_status res = elim res.err [
  | none ↦ codes "ok"
  | some timed_out ↦ codes "timeout"
  | some (failure message) ↦
      if message == codes "timed out" then codes "timeout" else codes "failed"
]

-- A nil configuration is `none`.
pub phone_meta_on : Option YouConfiguration → Bool
phone_meta_on none = true
phone_meta_on (some yc) = is_phone_info_enabled yc

pub email_meta_on : Option YouConfiguration → Bool
email_meta_on none = true
email_meta_on (some yc) = is_domain_intelligence_enabled yc

pub postpaid_on : Option YouConfiguration → Bool
postpaid_on none = true
postpaid_on (some yc) = is_postpaid_enabled yc

pub breach_on : Option YouConfiguration → Bool
breach_on none = true
breach_on (some yc) = yc.breach

pub phone_static_needed : Option YouConfiguration → Bool
phone_static_needed none = true
phone_static_needed (some yc) =
    yc.breach
    || intelligence_bool yc (codes "digital_age")
    || intelligence_bool yc (codes "linked_ids")
    || is_common_intelligence_enabled yc

pub email_static_needed : Option YouConfiguration → Bool
email_static_needed none = false
email_static_needed (some yc) =
    intelligence_bool yc (codes "linked_ids") || is_common_intelligence_enabled yc

pub record IntelligenceData : Type 0 where
  pub score : Option Fields
  pub bank_verified_name : Text
  pub verified_names_status : Text
  pub associated_names : List Text
  pub linked_ids : List Text
  pub non_verified_names : List Text
  pub digital_age : Option Fields

strings_of : List Value → List Text
strings_of [] = []
strings_of (str s ∷ vs) = s ∷ strings_of vs
strings_of (_ ∷ vs) = strings_of vs

-- `toStringList`; its nil is the empty list.
to_string_list : Option Value → List Text
unfolding strings_of
to_string_list (some (texts ts)) = ts
to_string_list (some (arr vs)) = strings_of (elements vs)
to_string_list _ = []

unfoldable pub map_to_intelligence_data : Fields → IntelligenceData
unfolding to_string_list
map_to_intelligence_data m = record {
  score = as_map (get (codes "score") m);
  bank_verified_name = text_or_empty (get (codes "bank_verified_name") m);
  verified_names_status = text_or_empty (get (codes "verified_names_status") m);
  associated_names = to_string_list (get (codes "associated_names") m);
  linked_ids = to_string_list (get (codes "linked_ids") m);
  non_verified_names = to_string_list (get (codes "non_verified_names") m);
  digital_age = as_map (get (codes "digital_age") m);
}

unfoldable pub is_usable_digital_age : Option Fields → Bool
is_usable_digital_age none = false
is_usable_digital_age (some da) =
    if get_or false (as_bool (get (codes "error") da))
    then false
    else is_some (get (codes "year") da)

-- The first map that is there.
abbrev pub prefer_map : Option Fields → Option Fields → Option Fields
prefer_map none old = old
prefer_map (some m) old = some m

-- Behind the check for a nil base.
unfoldable pub merge_into : IntelligenceData → IntelligenceData → IntelligenceData
merge_into base ml = record {
  score = ml.score;
  bank_verified_name = or_if_empty ml.bank_verified_name base.bank_verified_name;
  verified_names_status = or_if_empty ml.verified_names_status base.verified_names_status;
  associated_names = or_if_empty ml.associated_names base.associated_names;
  linked_ids = or_if_empty base.linked_ids ml.linked_ids;
  non_verified_names = or_if_empty ml.non_verified_names base.non_verified_names;
  digital_age =
      if is_usable_digital_age base.digital_age
      then base.digital_age
      else prefer_map ml.digital_age base.digital_age;
}

unfoldable pub merge_intelligence_data : Option IntelligenceData → Fields → IntelligenceData
merge_intelligence_data none m = map_to_intelligence_data m
merge_intelligence_data (some base) m = merge_into base (map_to_intelligence_data m)

abbrev pub no_intelligence : IntelligenceData
no_intelligence = record {
  score = none;
  bank_verified_name = [];
  verified_names_status = [];
  associated_names = [];
  linked_ids = [];
  non_verified_names = [];
  digital_age = none;
}

-- The block where the digital age or linked ids were derived: `none` for neither.
attach : Bool → DigitalAge → List Text → Option IntelligenceData
attach true da ids =
    some (record no_intelligence { digital_age = some (to_map da); linked_ids = ids })
attach false da [] = none
attach false da (id ∷ ids) = some (record no_intelligence { linked_ids = id ∷ ids })

ids_if : Bool → List Text → List Text
ids_if b ids = if b then ids else []

-- `trim_space` and `format` are those of the static data; `now` is the day of the call, `static` the
-- static document and `revocations` those of the phone's metadata, each empty for nil.
module _ (trim_space : Text → Text) (format : ℕ → Text) (now : Date) where
  unfoldable pub phone_static_intelligence :
      Option YouConfiguration → Fields → Fields → Option IntelligenceData
  unfolding attach ids_if
  phone_static_intelligence none static revocations = none
  phone_static_intelligence (some yc) static revocations =
      attach (intelligence_bool yc (codes "digital_age"))
        (phone_digital_age trim_space static revocations now)
        (ids_if (intelligence_bool yc (codes "linked_ids")) (linked_ids format static true))

  pub email_static_intelligence :
      Option YouConfiguration → Fields → List Fields → Option IntelligenceData
  unfolding attach ids_if
  email_static_intelligence none static breaches = none
  email_static_intelligence (some yc) static breaches =
      attach (intelligence_bool yc (codes "digital_age"))
        (email_digital_age trim_space breaches now)
        (ids_if (intelligence_bool yc (codes "linked_ids")) (linked_ids format static false))
