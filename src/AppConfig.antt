-- ===== src/AppConfig.antt =====
-- internal/appconfig/youconfig.go: the tenant's `youConfig` object and the gates read from it. A nil
-- map reads as an empty one; a timeout, a float64 that is only chosen, is a number.
pub mod Timeouts
pub mod Websites
pub mod Fetcher
use go_you.Common.{
  ℕ, Bool, true, false, not, ◌&&◌, ◌||◌, List, [], ◌∷◌, ◌-◌, Option, none, some, Text, codes, ◌==◌,
  length, get_elem?, get_or, is_some, if◌then◌else◌, ◌>>=◌,
}
use go_you.Common.Int.{ℤ, pos, pos_part, ltb_ℤ}
use go_you.Common.Maps.{Dict, lookup}
use go_you.Json.{Value, Fields, obj, bool, get, as_bool, as_map, as_str}

pub record WebsiteEntry : Type 0 where
  pub enabled : Bool
  pub phone_enabled : Option Bool
  pub email_enabled : Option Bool
  pub client_response : Option Bool
  pub cache : Option Bool

pub record YouConfiguration : Type 0 where
  pub raw : Fields
  pub websites : Dict WebsiteEntry
  pub breach : Bool
  pub phone_meta : Bool
  pub email_meta : Bool
  pub prediction : Bool
  pub request_timeout : List ℕ
  pub common_intelligence : Fields
  pub intelligence : Fields
  pub email_info : Fields
  pub phone_info : Fields

unfoldable pub bool_at : Fields → Text → Bool
bool_at m key = get_or false (as_bool (get key m))

unfoldable pub bool_ptr_from : Fields → Text → Option Bool
bool_ptr_from m key = as_bool (get key m)

-- A comma-ok read of a flag whose absence means true.
abbrev pub not_off : Option Bool → Bool
not_off none = true
not_off (some b) = b

abbrev pub map_at : Fields → Text → Option Fields
map_at m key = as_map (get key m)

-- The switch on the kind.
unfoldable pub kind_enabled : Text → WebsiteEntry → Bool
kind_enabled kind e =
    if kind == codes "phone"
    then not_off e.phone_enabled
    else if kind == codes "email"
    then not_off e.email_enabled
    else false

unfoldable pub is_website_enabled : YouConfiguration → Text → Text → Bool
is_website_enabled yc website kind = elim (lookup website yc.websites) [
  | none ↦ false
  | some e ↦ if not e.enabled then false else kind_enabled kind e
]

unfoldable pub client_response : YouConfiguration → Text → Bool
client_response yc website = not_off (lookup website yc.websites >>= λ e. e.client_response)

-- `IsPhoneInfoEnabled` and `isEmailInfoEnabled` over their maps.
info_enabled : Fields → Bool
info_enabled info = elim (get (codes "enabled") info) [
  | none ↦ true
  | some v ↦ not_off (as_bool (some v))
]

pub is_phone_info_enabled : YouConfiguration → Bool
is_phone_info_enabled yc = info_enabled yc.phone_info

is_email_info_enabled : YouConfiguration → Bool
is_email_info_enabled yc = info_enabled yc.email_info

pub is_postpaid_enabled : YouConfiguration → Bool
is_postpaid_enabled yc = is_phone_info_enabled yc && bool_at yc.phone_info (codes "postpaid")

pub is_dnd_enabled : YouConfiguration → Bool
is_dnd_enabled yc = is_phone_info_enabled yc && bool_at yc.phone_info (codes "dnd_status")

pub is_domain_intelligence_enabled : YouConfiguration → Bool
is_domain_intelligence_enabled yc =
    if not (is_email_info_enabled yc)
    then false
    else elim (map_at yc.email_info (codes "domain_intelligence")) [
      | none ↦ false
      | some di ↦ bool_at di (codes "enabled")
    ]

unfoldable pub is_common_intelligence_enabled : YouConfiguration → Bool
is_common_intelligence_enabled yc = bool_at yc.common_intelligence (codes "enabled")

pub is_intelligence_enabled : YouConfiguration → Bool
is_intelligence_enabled yc = bool_at yc.intelligence (codes "enabled")

unfoldable pub enriched_data_api_enabled : YouConfiguration → Bool
enriched_data_api_enabled yc =
    bool_at yc.intelligence (codes "enabled") && bool_at yc.intelligence (codes "enriched_data_api")

-- The four gates under `common_intelligence.enabled` that differ in their key alone.
common_check : YouConfiguration → Text → Bool
common_check yc key =
    bool_at yc.common_intelligence (codes "enabled") && bool_at yc.common_intelligence key

unfoldable pub demat_check_enabled : YouConfiguration → Bool
unfolding common_check
demat_check_enabled yc = common_check yc (codes "demat_check")

unfoldable pub mutual_fund_check_enabled : YouConfiguration → Bool
unfolding common_check
mutual_fund_check_enabled yc = common_check yc (codes "mutual_fund_check")

unfoldable pub credit_card_check_enabled : YouConfiguration → Bool
unfolding common_check
credit_card_check_enabled yc = common_check yc (codes "credit_card_check")

unfoldable pub fintech_count_enabled : YouConfiguration → Bool
unfolding common_check
fintech_count_enabled yc = common_check yc (codes "fintech_count")

unfoldable pub phone_to_address_enabled : YouConfiguration → Bool
phone_to_address_enabled yc =
    let ci = yc.common_intelligence in
    if not (bool_at ci (codes "enabled"))
    then false
    else if bool_at ci (codes "phone_to_address")
    then true
    else elim (map_at ci (codes "phone_to_address_with_raw")) [
      | none ↦ false
      | some m ↦ bool_at m (codes "enabled")
    ]

-- The three caching gates are false for a nil configuration.
unfoldable pub is_caching_enabled : Option YouConfiguration → Bool
is_caching_enabled none = false
is_caching_enabled (some yc) = bool_at yc.raw (codes "caching")

pub is_phone_info_caching_enabled : Option YouConfiguration → Bool
is_phone_info_caching_enabled none = false
is_phone_info_caching_enabled (some yc) = bool_at yc.phone_info (codes "caching")

pub is_email_info_caching_enabled : Option YouConfiguration → Bool
is_email_info_caching_enabled none = false
is_email_info_caching_enabled (some yc) = bool_at yc.email_info (codes "caching")

abbrev pub default_key : Text
default_key = codes "identity_fraud_score"

-- The choice of the key from `output_key_name`.
output_key : Option Text → Text
output_key none = default_key
output_key (some name) =
    if name == [] then default_key else if name == codes "identity_fraud" then default_key else name

abbrev only_enabled : Fields → Option Fields
only_enabled o = if bool_at o (codes "enabled") then some o else none

-- `score.onboarding_fraud_detection`, where it and the two objects above it are enabled.
fraud_detection : YouConfiguration → Option Fields
fraud_detection yc = do
  ci ← only_enabled yc.common_intelligence
  score ← map_at ci (codes "score")
  enabled ← only_enabled score
  ofd ← map_at enabled (codes "onboarding_fraud_detection")
  only_enabled ofd

rename_to : Option Fields → Text × Bool
unfolding output_key
rename_to none = (default_key, false)
rename_to (some ofd) = (output_key (as_str (get (codes "output_key_name") ofd)), true)

-- The key, and whether the score is renamed to it.
unfoldable pub onboarding_fraud_output_key : YouConfiguration → Text × Bool
unfolding fraud_detection rename_to
onboarding_fraud_output_key yc = rename_to (fraud_detection yc)

-- What a call of `RequestTimeoutFor` ends in; `panics` is an index out of range.
pub data Timeout : Type 0 where
  unset : Timeout
  timeout : ℕ → Timeout
  panics : Timeout

index_timeouts : List ℕ → ℕ → Timeout
index_timeouts ts i = elim (get_elem? ts i) [ none ↦ panics | some t ↦ timeout t ]

clamp_count : ℕ → ℤ → ℤ
clamp_count n count =
    let idx = if ltb_ℤ (pos n) count then pos n else count in
    if ltb_ℤ idx (pos 1) then pos 1 else idx

choose_timeout : List ℕ → ℤ → Timeout
unfolding index_timeouts clamp_count
choose_timeout [] count = unset
choose_timeout (t ∷ ts) count =
    index_timeouts (t ∷ ts) (pos_part (clamp_count (length (t ∷ ts)) count) - 1)

-- `requestCount` is an int; after the clamp `idx - 1` is not negative.
unfoldable pub request_timeout_for : YouConfiguration → ℤ → Timeout
unfolding choose_timeout
request_timeout_for yc count = choose_timeout yc.request_timeout count

unfoldable pub website_enabled_flag : YouConfiguration → Text → Bool
website_enabled_flag yc site = elim (lookup site yc.websites) [ none ↦ false | some e ↦ e.enabled ]

unfoldable pub website_config_value : YouConfiguration → Text → Text → Option Value
website_config_value yc site key = do
  ws ← map_at yc.raw (codes "websites")
  entry ← map_at ws site
  get key entry

unfoldable pub intelligence_bool : YouConfiguration → Text → Bool
intelligence_bool yc key = bool_at yc.intelligence key

unfoldable pub verified_names_enabled : YouConfiguration → Bool
verified_names_enabled yc = elim (map_at yc.intelligence (codes "verified_names_config")) [
  | none ↦ false
  | some vn ↦ bool_at vn (codes "enabled")
]

pub record VerifiedNamesRaw : Type 0 where
  pub enabled : Bool
  pub name : Option Bool
  pub upi_ids : Option Bool
  pub encoding : Option Bool
  pub alphanumeric_id : Option Bool
  pub source : Option Bool

unfoldable pub verified_names_config : YouConfiguration → VerifiedNamesRaw
verified_names_config yc = elim (map_at yc.intelligence (codes "verified_names_config")) [
  | none ↦ record {
    enabled = false;
    name = none;
    upi_ids = none;
    encoding = none;
    alphanumeric_id = none;
    source = none;
  }
  | some vn ↦ record {
    enabled = bool_at vn (codes "enabled");
    name = bool_ptr_from vn (codes "name");
    upi_ids = bool_ptr_from vn (codes "upi_ids");
    encoding = bool_ptr_from vn (codes "encoding");
    alphanumeric_id = bool_ptr_from vn (codes "alphanumeric_id");
    source = bool_ptr_from vn (codes "source");
  }
]
