-- ===== src/AccountDetails.antt =====
-- internal/model/account_details.go: the JSON form of one site's entry. The objects stand for the JSON
-- text that `encoding/json` makes of them and reads back.
pub mod RoundTrip
use go_you.Common.{
  ℕ, Bool, true, false, List, [], ◌∷◌, Option, none, some, Text, codes, ◌==◌, if◌then◌else◌,
}
use go_you.Json.{Value, Fields, no_fields, field, null, bool, str, get, put, delete, text_or_empty}

pub record AccountDetails : Type 0 where
  pub website : Text
  pub user_exist : Option Bool
  pub error : Bool
  pub details : Fields

abbrev pub website_key : Text
website_key = codes "_website"

abbrev pub exist_key : Text
exist_key = codes "user_exist"

abbrev pub error_key : Text
error_key = codes "error"

put_exist : Option Bool → Fields → Fields
put_exist none out = out
put_exist (some b) out = put exist_key (bool b) out

-- The loop that layers `Data` over the map; its keys are different, so the order does not matter.
layer : Fields → Fields → Fields
layer no_fields out = out
layer (field k v m) out = put k v (layer m out)

pub put_website : Text → Fields → Fields
put_website website out = if website == [] then out else put website_key (str website) out

unfoldable pub marshal : AccountDetails → Fields
unfolding put_exist layer put_website
marshal a = put_website a.website (
    if a.error
    then field error_key (bool true) no_fields
    else layer a.details (put_exist a.user_exist no_fields))

-- `json.Unmarshal` of a raw value into a bool: a null leaves the zero value, without an error.
read_bool : Option Value → Option Bool
read_bool none = none
read_bool (some null) = some false
read_bool (some (bool b)) = some b
read_bool (some v) = none

is_set : Option Bool → Bool
is_set none = false
is_set (some b) = b

unfoldable pub unmarshal : Fields → AccountDetails
unfolding read_bool is_set
unmarshal raw = record {
  website = text_or_empty (get website_key raw);
  user_exist = read_bool (get exist_key raw);
  error = is_set (read_bool (get error_key raw));
  details = delete error_key (delete exist_key (delete website_key raw));
}
