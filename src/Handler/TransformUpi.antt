-- ===== src/Handler/TransformUpi.antt =====
-- internal/handler/transform_upi.go: the client's UPI and PHONEPE entries, and what the UPI entry
-- adds to a section's intelligence data.
pub mod Status
use go_you.Common.{
  ℕ, Bool, true, false, not, ◌&&◌, ◌||◌, List, [], ◌∷◌, Option, none, some, Text, codes, ◌==◌,
  is_some, get_or, if◌then◌else◌,
}
use go_you.Json.{
  Value, Fields, no_fields, field, no_items, bool, str, arr, obj, get, put, as_bool, as_str, as_map,
  text_or_empty,
}
use go_you.Handler.Clean.{is_null}
use go_you.Upi.Response.{VerifiedNamesConfig, coerce_maps, clean_profile_for_response}
use go_you.AppConfig.{
  YouConfiguration, VerifiedNamesRaw, website_enabled_flag, intelligence_bool,
  verified_names_enabled, verified_names_config, website_config_value,
}

-- `cfg` is left out: it is set and not read.
pub record UpiTransform : Type 0 where
  pub vn_cfg : Option VerifiedNamesConfig
  pub phonepe_enabled : Bool
  pub bank_verified_name_disabled : Bool
  pub verified_names_enabled : Bool
  pub client_response : Bool

-- `map[string]any{"error": true}`
abbrev pub error_entry : Fields
error_entry = field (codes "error") (bool true) no_fields

-- The VPAs that came from the e-mail address.
unfoldable pub email_vpas : List Fields → List Text
email_vpas [] = []
email_vpas (p ∷ ps) =
    let rest = email_vpas ps in
    let vpa = text_or_empty (get (codes "vpa") p) in
    if text_or_empty (get (codes "match_type") p) == codes "email" && not (vpa == [])
    then vpa ∷ rest
    else rest

-- What one profile says of PHONEPE, if anything.
unfoldable pub phonepe_verdict : Fields → Option Bool
phonepe_verdict p = elim (as_str (get (codes "app_name") p)) [
  | none ↦ none
  | some app ↦
      if app == codes "PHONEPE" && not (is_some (get (codes "error") p))
      then as_bool (get (codes "user_exist") p)
      else none
]

-- `sawTrue` and `sawFalse` behind the loop.
unfoldable pub saw : Bool → List Fields → Bool
saw b [] = false
saw b (p ∷ ps) = elim (phonepe_verdict p) [
  | none ↦ saw b ps
  | some true ↦ if b then true else saw b ps
  | some false ↦ if b then saw b ps else true
]

abbrev pub verdict_entry : Bool → Fields
verdict_entry b = field (codes "user_exist") (bool b) no_fields

unfoldable pub derive_phone_pe : Fields → Fields
derive_phone_pe raw = elim (coerce_maps (get (codes "profiles") raw)) [
  | none ↦ error_entry
  | some profs ↦
      if saw true profs
      then verdict_entry true
      else if saw false profs
      then verdict_entry false
      else error_entry
]

-- The entries for a raw UPI entry.
upi_entry : UpiTransform → Fields → Fields
unfolding email_vpas
upi_entry ut raw =
    if is_some (get (codes "error") raw)
    then error_entry
    else clean_profile_for_response raw ut.vn_cfg
        (email_vpas (get_or [] (coerce_maps (get (codes "profiles") raw))))

phonepe_entry : Fields → Fields
phonepe_entry raw = if is_some (get (codes "error") raw) then error_entry else derive_phone_pe raw

put_phonepe : UpiTransform → Fields → Fields → Fields
put_phonepe ut raw m =
    if ut.phonepe_enabled then put (codes "PHONEPE") (obj (phonepe_entry raw)) m else m

unfoldable pub transform_upi_response : Fields → Option UpiTransform → Fields
unfolding upi_entry phonepe_entry put_phonepe
transform_upi_response m none = m
transform_upi_response m (some ut) = elim (as_map (get (codes "UPI") m)) [
  | none ↦ m
  | some raw ↦ put_phonepe ut raw (put (codes "UPI") (obj (upi_entry ut raw)) m)
]

-- `"bank_verified_name"`, `"verified_names_status"`
abbrev pub name_key : Text
name_key = codes "bank_verified_name"

abbrev pub status_key : Text
status_key = codes "verified_names_status"

put_status : Text → Fields → Fields
put_status status intel = put status_key (str status) intel

put_found : Text → Fields → Fields
unfolding put_status
put_found name intel =
    if name == [] then intel else put_status (codes "found") (put name_key (str name) intel)

pub not_found : Fields → Bool
not_found entry = elim (as_bool (get (codes "user_exist") entry)) [
  | none ↦ not (is_some (get (codes "name") entry))
  | some ue ↦ not ue || not (is_some (get (codes "name") entry))
]

-- The three writes where the bank's verified name is not disabled.
put_bank_name : Fields → Fields → Fields
unfolding put_found not_found put_status
put_bank_name entry intel =
    let found = put_found (text_or_empty (get (codes "name") entry)) intel in
    let checked = if not_found entry then put_status (codes "not-found") found else found in
    if is_some (get (codes "error") entry) then put_status (codes "error") checked else checked

verified_names_value : Option Value → Value
verified_names_value none = arr no_items
verified_names_value (some v) = if is_null v then arr no_items else v

derive : UpiTransform → Fields → Fields → Fields
unfolding put_bank_name verified_names_value
derive ut entry intel =
    let named = if ut.bank_verified_name_disabled then intel else put_bank_name entry intel in
    if ut.verified_names_enabled
    then put (codes "verified_names") (verified_names_value (get (codes "verified_names") entry))
        named
    else named

-- A nil `intel` is an empty map.
unfoldable pub derive_upi_intelligence : Fields → Fields → Option UpiTransform → Fields
unfolding derive
derive_upi_intelligence account_details intel none = intel
derive_upi_intelligence account_details intel (some ut) =
    elim (as_map (get (codes "UPI") account_details)) [
      | none ↦ intel
      | some entry ↦ derive ut entry intel
    ]

unfoldable pub to_upi_verified_names_config : Option VerifiedNamesRaw → Option VerifiedNamesConfig
to_upi_verified_names_config none = none
to_upi_verified_names_config (some r) = some (record {
  enabled = r.enabled;
  name = r.name;
  upi_ids = r.upi_ids;
  alphanumeric_id = r.alphanumeric_id;
  encoding = r.encoding;
  source = r.source;
})

-- From the `CLIENT_RESPONSE` of the UPI crawler's configuration, `none` where it is not registered.
unfoldable pub resolve_upi_transform : Option Bool → Option YouConfiguration → Option UpiTransform
unfolding to_upi_verified_names_config
resolve_upi_transform none yc = none
resolve_upi_transform (some global) none = some (record {
  vn_cfg = none;
  phonepe_enabled = false;
  bank_verified_name_disabled = false;
  verified_names_enabled = false;
  client_response = global;
})
resolve_upi_transform (some global) (some yc) = some (record {
  vn_cfg = to_upi_verified_names_config (some (verified_names_config yc));
  phonepe_enabled = website_enabled_flag yc (codes "PHONEPE");
  bank_verified_name_disabled = intelligence_bool yc (codes "is_disabled_bank_verified_name");
  verified_names_enabled = verified_names_enabled yc;
  client_response =
      get_or global (as_bool (website_config_value yc (codes "UPI") (codes "CLIENT_RESPONSE")));
})
