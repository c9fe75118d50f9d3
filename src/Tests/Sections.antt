-- ===== src/Tests/Sections.antt =====
-- Witnesses for the sections, their phone number and their intelligence data.
use go_you.Common.{
  keep, is_some, List, true, false, [], ◌∷◌, ◌++◌, ◌≤◌, length, none, some, Text, codes, ◌==◌, In,
  Distinct, ◌≡◌, ◌≢◌, ◌↔◌, ◌⊎◌, inl, inr, refl,
}
use mathlib.Core.Option
use go_you.Common.Maps.{lookup, insert}
use go_you.Json.{Fields, no_fields, field, bool, str, num, obj, arr, item, no_items, get}
use go_you.AppConfig.{YouConfiguration, bool_at, intelligence_bool}
use go_you.Breach
use go_you.Breach.{Breach}
use go_you.Breach.Sound.{RestsOn, phone-RestsOn}
use go_you.Crawler.{
  Crawler, Result, Runner, answered, check, empty_result, erred, failed_result, failure, look_up,
  new_runner, next, over, phone, probe_one, probe_with, run_sites, selected,
}
use go_you.StaticData.{Date, failed, to_map, to_int, latest_revocation, clean_dates, digital_age}
use go_you.StaticData.Age.{age_at, IsEarliest, digital_age-IsEarliest}
use go_you.StaticData.Linked.{linked_ids}
use go_you.StaticData.Linked.Window.{linked_ids-window}
use go_you.Handler.Section.{build_section, merge_intelligence_data, phone_static_intelligence}
use go_you.AccountDetails.{AccountDetails}
use go_you.Handler.Section.Accounts.{IsAccount, says_found, build_section-IsAccount}
use go_you.Handler.Section.Merged.{merged_digital_age-revoked}
use go_you.Handler.Phone.{is_national, match_phone, parse_phone, national_from_identifier}
use go_you.Handler.Phone.Forms.{IsForm}
use go_you.Handler.Phone.Parsed.{match_phone-IsForm, parse_phone-normal}
use go_you.Handler.Orchestrator.{carrier}
use go_you.Handler.Orchestrator.Seen.{seen, cleanup_prediction-seen}
use go_you.Handler.Transform.{cleanup_prediction}
use go_you.Intelligence.{merged, Ran}
use go_you.Intelligence.Merge.{predicted}

abbrev number : Text
number = codes "9607639515"

abbrev dashed : Text
dashed = codes "091 - 9607639515"

match_phone-IsForm_example : (match_phone dashed ≡ some number) ↔ IsForm dashed number
match_phone-IsForm_example = match_phone-IsForm dashed number

parse_phone-normal_example :
    (parse_phone (λ s. s) (codes "0" ++ number) ≡ codes "+91" ++ number)
    × (national_from_identifier (parse_phone (λ s. s) (codes "0" ++ number)) ≡ number)
    × (parse_phone (λ s. s) (parse_phone (λ s. s) (codes "0" ++ number))
        ≡ parse_phone (λ s. s) (codes "0" ++ number))
unfolding is_national
parse_phone-normal_example =
    parse_phone-normal (λ s. s) (codes "0" ++ number) number (codes "0", inr (inl refl), refl, refl)
      refl

abbrev flipkart : Crawler
flipkart = record {
  website = codes "FLIPKART";
  kind = phone;
  probe = check (λ identifier proxy. answered true);
}

abbrev swiggy : Crawler
swiggy = record {
  website = codes "SWIGGY";
  kind = phone;
  probe = check (λ identifier proxy. erred (codes "status 403"));
}

abbrev runner : Runner
runner = new_runner none (flipkart ∷ swiggy ∷ [])

abbrev sites : List Text
sites = codes "FLIPKART" ∷ codes "SWIGGY" ∷ []

abbrev found : Result
found = record {
  website = codes "FLIPKART";
  kind = phone;
  user_exist = some true;
  details = no_fields;
  err = none;
}

abbrev lost : Result
lost = record {
  website = codes "SWIGGY";
  kind = phone;
  user_exist = none;
  details = no_fields;
  err = some (failure (codes "status 403"));
}

build_section-IsAccount_example :
    let primary = (build_section (codes "phone") number (lost ∷ found ∷ [])).primary_data in
    ((a : AccountDetails)
      → In a primary.account_details
      → (site : Text) × (c : Crawler) × In site sites
        × (look_up runner phone site ≡ some c)
        × IsAccount runner number c a)
    × ((site : Text) (c : Crawler)
        → In site sites
        → look_up runner phone site ≡ some c
        → (a : AccountDetails) × In a primary.account_details × IsAccount runner number c a)
    × (length primary.account_details
        ≡ length (keep (λ site. is_some (look_up runner phone site)) sites))
    × (primary.social_profile_count ≡ length (keep says_found primary.account_details))
unfolding run_sites selected probe_one probe_with failed_result empty_result new_runner lookup
    insert ◌==◌
build_section-IsAccount_example =
    build_section-IsAccount runner (λ w. false) phone number sites (lost ∷ found ∷ [])
      (codes "phone") number (next (found ∷ []) [] (found ∷ []) lost (next [] [] [] found over))

abbrev today : Date
today = record { year = 2025; month = 6; day = 1 }

abbrev tenant : YouConfiguration
tenant = record {
  raw = no_fields;
  websites = [];
  breach = false;
  phone_meta = false;
  email_meta = false;
  prediction = true;
  request_timeout = [];
  common_intelligence = no_fields;
  intelligence = field (codes "digital_age") (bool true) no_fields;
  email_info = no_fields;
  phone_info = no_fields;
}

abbrev revoked : Fields
revoked =
    field (codes "total_revocations") (num 2)
      (field (codes "year") (num 2019) (field (codes "month") (num 4) no_fields))

abbrev april : Date
april = record { year = 2019; month = 4; day = 1 }

merged_digital_age-revoked_example :
    (merge_intelligence_data
      (phone_static_intelligence (λ s. s) (λ n. []) today (some tenant) no_fields revoked)
      no_fields).digital_age
    ≡ some (to_map (age_at april today))
unfolding intelligence_bool latest_revocation to_int bool_at get ◌==◌
merged_digital_age-revoked_example =
    merged_digital_age-revoked (λ s. s) (λ n. []) today tenant no_fields revoked no_fields april
      refl refl

abbrev dates : List Text
dates = codes "2019-04-30T10:00:00Z" ∷ codes "05 - 11 - 2014" ∷ codes "soon" ∷ []

digital_age-IsEarliest_example :
    ((clean_dates (λ s. s) dates ≡ []) × (digital_age (λ s. s) dates none today ≡ failed))
    ⊎ ((e : Date) × IsEarliest e (clean_dates (λ s. s) dates)
        × (digital_age (λ s. s) dates none today ≡ age_at e today))
digital_age-IsEarliest_example = digital_age-IsEarliest (λ s. s) dates today

abbrev static : Fields
static =
    field (codes "dunzo")
      (arr (
        item
          (obj (
            field (codes "payload")
              (obj (field (codes "primary_email") (str (codes "jo@example.org")) no_fields))
              no_fields))
          no_items))
      no_fields

linked_ids-window_example :
    (length (linked_ids (λ n. []) static true) ≤ 10)
    × Distinct (linked_ids (λ n. []) static true)
    × (¬ In [] (linked_ids (λ n. []) static true))
linked_ids-window_example = linked_ids-window (λ n. []) static true

abbrev ran : Ran
ran = merged (record {
  phone_intel = no_fields;
  email_intel = no_fields;
  common_intel = no_fields;
  prediction = predicted 7;
})

abbrev stashed : Fields
stashed =
    field (codes "prediction") (obj (field (codes "predicted_score") (num 7) no_fields)) no_fields

cleanup_prediction-seen_example :
    get (codes "prediction") (cleanup_prediction (some tenant) stashed)
    ≡ Option.map obj (seen tenant ran)
unfolding carrier get ◌==◌
cleanup_prediction-seen_example = cleanup_prediction-seen tenant ran stashed refl

abbrev leaked : Fields
leaked =
    field (codes "primary_ph") (str number)
      (field (codes "email") (str (codes "jo@example.org")) no_fields)

abbrev persona : Fields
persona =
    field (codes "dunzo")
      (arr (item (obj (field (codes "payload") (obj leaked) no_fields)) no_items)) no_fields

phone-RestsOn_example :
    ((b : Breach)
      → In b (Breach.phone (λ s. s) (λ n. []) none number number persona).breaches
      → RestsOn (λ s. s) (λ n. []) none number persona b)
    × (((Breach.phone (λ s. s) (λ n. []) none number number persona).breaches_status
          ≡ codes "found")
        ↔ ((Breach.phone (λ s. s) (λ n. []) none number number persona).breaches ≢ []))
phone-RestsOn_example = phone-RestsOn (λ s. s) (λ n. []) none number number persona
