-- ===== src/Tests/Responses.antt =====
-- Witnesses for the shape of the response and the entries of accounts.
use go_you.Common.{
  true, false, List, [], ◌∷◌, none, some, Text, codes, ◌==◌, ◌≡◌, inl, refl, if◌then◌else◌,
}
use go_you.Json.{
  Value, Fields, no_fields, field, str, bool, obj, arr, num, no_items, item, get, put, delete,
  as_map, update_map,
}
use go_you.AccountDetails.{AccountDetails, marshal, unmarshal, put_website, error_key}
use go_you.AccountDetails.RoundTrip.{unmarshal-marshal, marshal-unmarshal_marked}
use go_you.Handler.TransformUpi.{UpiTransform, transform_upi_response, error_entry}
use go_you.Handler.Transform.{
  transform_response, transform_section, count_profiles, account_details_list_to_map, cleanup_meta,
  reshape, cleanup_prediction, strip,
}
use go_you.Handler.Clean.{clean_empty}
use go_you.Handler.Transform.Cleanup.{transform_response-hides_static}
use go_you.Handler.Transform.Sites.{transform_section-sends}

abbrev ut : UpiTransform
ut = record {
  vn_cfg = none;
  phonepe_enabled = true;
  bank_verified_name_disabled = false;
  verified_names_enabled = false;
  client_response = true;
}

abbrev accounts : List Value
accounts =
    obj (field (codes "_website") (str (codes "UPI")) error_entry)
    ∷ obj (
        field (codes "_website") (str (codes "FLIPKART"))
          (field (codes "user_exist") (bool true) no_fields))
    ∷ []

abbrev primary : Fields
primary =
    field (codes "account_details")
      (arr (
        item (obj (field (codes "_website") (str (codes "UPI")) error_entry)) (
          item
            (obj (
              field (codes "_website") (str (codes "FLIPKART"))
                (field (codes "user_exist") (bool true) no_fields)))
            no_items)))
      no_fields

abbrev section : Fields
section =
    field (codes "static_data") (obj no_fields)
      (field (codes "primary_data") (obj primary) no_fields)

transform_section-sends_example :
    (pd' : Fields) × (m : Fields) × (as_map
        (get (codes "primary_data") (transform_section none (some ut) section))
      ≡ some pd')
    × (get (codes "account_details") pd' ≡ some (obj m))
    × (get (codes "social_profile_count") pd' ≡ some (num (count_profiles m)))
    × (get (codes "UPI") m ≡ (
        if true
        then get
            (codes "UPI")
            (transform_upi_response (account_details_list_to_map accounts) (some ut))
        else none))
    × ((site : Text)
        → (codes "UPI" == site) ≡ false
        → (codes "PHONEPE" == site) ≡ false
        → get site m ≡ (if true then get site (account_details_list_to_map accounts) else none))
unfolding get ◌==◌
transform_section-sends_example =
    transform_section-sends none (some ut) section primary accounts refl refl

abbrev scored : Fields
scored =
    field (codes "intelligence_data")
      (obj (field (codes "score") (obj (field (codes "meta") (bool true) no_fields)) no_fields))
      no_fields

abbrev small : Fields
small =
    field (codes "phone_data")
      (obj (
        field (codes "static_data") (obj no_fields)
          (field (codes "status_code") (num 2000) no_fields)))
      no_fields

transform_response-hides_static_example :
    get (codes "static_data") (field (codes "status_code") (num 2000) no_fields) ≡ none
unfolding transform_response reshape update_map transform_section cleanup_prediction cleanup_meta
    strip clean_empty get put delete ◌==◌
transform_response-hides_static_example =
    transform_response-hides_static small none false (some ut) (codes "phone_data")
      (field (codes "status_code") (num 2000) no_fields) ((λ m. m), tt) (inl refl) refl

abbrev flipkart : AccountDetails
flipkart = record {
  website = codes "FLIPKART";
  user_exist = some true;
  error = false;
  details = field (codes "handle") (str (codes "jo")) no_fields;
}

unmarshal-marshal_example :
    ((unmarshal (marshal flipkart)).website ≡ codes "FLIPKART")
    × ((unmarshal (marshal flipkart)).user_exist ≡ some true)
    × ((unmarshal (marshal flipkart)).error ≡ false)
    × ((k : Text) → get k (unmarshal (marshal flipkart)).details ≡ get k flipkart.details)
unfolding get ◌==◌
unmarshal-marshal_example =
    unmarshal-marshal flipkart refl (record { no_website = refl; no_exist = refl; no_error = refl })

abbrev upi_failed : AccountDetails
upi_failed = record {
  website = codes "UPI";
  user_exist = none;
  error = false;
  details = field (codes "error") (bool true) (field (codes "profiles") (arr no_items) no_fields);
}

marshal-unmarshal_marked_example :
    marshal (unmarshal (marshal upi_failed))
    ≡ put_website (codes "UPI") (field error_key (bool true) no_fields)
unfolding get ◌==◌
marshal-unmarshal_marked_example = marshal-unmarshal_marked upi_failed refl refl refl
