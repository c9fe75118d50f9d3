-- ===== src/Upi/Response.antt =====
-- internal/crawler/upi/response.go: the client's view of a UPI entry.
pub mod Keys
pub mod Ids
use go_you.Common.{
  ℕ, Bool, true, false, not, ◌||◌, List, [], ◌∷◌, ◌++◌, Option, none, some, Text, codes, ◌==◌,
  contains, keep, get_or, is_some, if◌then◌else◌,
}
use go_you.Common.Maps.{lookup}
use go_you.Json.{
  Value, Fields, Objects, no_fields, nil_maps, bool, str, texts, arr, maps, obj, get, put, elements,
  members, to_objects, as_str, text_or_empty, is_empty,
}
use go_you.Upi.Suffix.{other_app_name, app_name_encoding}
use go_you.Upi.Format.{is_upi_format_correct}

pub record VerifiedNamesConfig : Type 0 where
  pub enabled : Bool
  pub name : Option Bool
  pub upi_ids : Option Bool
  pub alphanumeric_id : Option Bool
  pub encoding : Option Bool
  pub source : Option Bool

unfoldable pub bool_or_nil_true : Option Bool → Bool
bool_or_nil_true none = true
bool_or_nil_true (some b) = b

abbrev pub is_true_flag : Option Bool → Bool
is_true_flag none = false
is_true_flag (some b) = b

objects_of : List Value → List Fields
objects_of [] = []
objects_of (obj m ∷ vs) = m ∷ objects_of vs
objects_of (_ ∷ vs) = objects_of vs

-- `CoerceMaps`; its nil result is `none`.
unfoldable pub coerce_maps : Option Value → Option (List Fields)
unfolding objects_of
coerce_maps (some (maps os)) = some (members os)
coerce_maps (some (arr vs)) = some (objects_of (elements vs))
coerce_maps _ = none

strings_of : List Value → List Text
strings_of [] = []
strings_of (str s ∷ vs) = s ∷ strings_of vs
strings_of (_ ∷ vs) = strings_of vs

unfoldable pub to_string_slice : Option Value → List Text
unfolding strings_of
to_string_slice (some (texts ts)) = ts
to_string_slice (some (arr vs)) = strings_of (elements vs)
to_string_slice _ = []

-- `"user_exist"`, `"suffix"`, `"vpa"`, `"name"`
abbrev pub white_list : List Text
white_list = codes "user_exist" ∷ codes "suffix" ∷ codes "vpa" ∷ codes "name" ∷ []

abbrev pub put_if : Text → Option Value → Fields → Fields
put_if k none m = m
put_if k (some v) m = put k v m

-- The loop that copies the keys that are present.
unfoldable pub copy_keys : List Text → Fields → Fields → Fields
copy_keys [] from to = to
copy_keys (k ∷ ks) from to = copy_keys ks from (put_if k (get k from) to)

abbrev pub cons_unless_empty : Fields → List Fields → List Fields
cons_unless_empty no_fields rest = rest
cons_unless_empty m rest = m ∷ rest

-- The loop over the nested profiles, with the suffixes seen so far.
unfoldable pub clean_profiles : List Text → List Fields → List Fields
clean_profiles seen [] = []
clean_profiles seen (p ∷ ps) =
    let suffix = text_or_empty (get (codes "suffix") p) in
    let skip = suffix == [] || contains suffix seen in
    let rest = clean_profiles (if skip then seen else suffix ∷ seen) ps in
    if skip then rest else cons_unless_empty (copy_keys white_list p no_fields) rest

-- The ids that stay, and the entry that they go into.
unfoldable pub filter_ids : VerifiedNamesConfig → List Text → List Text → List Text
filter_ids cfg email_vpa_ids ids =
    if not (is_true_flag cfg.alphanumeric_id)
    then keep (λ id. is_upi_format_correct id || contains id email_vpa_ids) ids
    else ids

abbrev pub put_ids : List Text → Fields → Fields
put_ids [] upd = upd
put_ids (id ∷ ids) upd = put (codes "upi_ids") (texts (id ∷ ids)) upd

pub put_name : VerifiedNamesConfig → Fields → Fields → Fields
put_name cfg vn upd =
    let name = text_or_empty (get (codes "name") vn) in
    if bool_or_nil_true cfg.name
    then (if name == [] then upd else put (codes "name") (str name) upd)
    else upd

pub put_upi_ids : VerifiedNamesConfig → List Text → Fields → Fields → Fields
unfolding filter_ids
put_upi_ids cfg email_vpa_ids vn upd =
    if is_true_flag cfg.upi_ids
    then put_ids (filter_ids cfg email_vpa_ids (to_string_slice (get (codes "upi_ids") vn))) upd
    else upd

pub put_source : VerifiedNamesConfig → Fields → Fields → Fields
put_source cfg vn upd =
    let src = text_or_empty (get (codes "source") vn) in
    put (codes "source")
      (str (
        if bool_or_nil_true cfg.encoding
        then get_or other_app_name (lookup src app_name_encoding)
        else src))
      upd

-- One round of `filterVerifiedNames`.
unfoldable pub filter_verified_name : VerifiedNamesConfig → List Text → Fields → Fields
filter_verified_name cfg email_vpa_ids vn =
    put_source cfg vn (put_upi_ids cfg email_vpa_ids vn (put_name cfg vn no_fields))

unfoldable pub filter_entries : VerifiedNamesConfig → List Text → List Fields → List Fields
filter_entries cfg email_vpa_ids [] = []
filter_entries cfg email_vpa_ids (vn ∷ vns) =
    cons_unless_empty (filter_verified_name cfg email_vpa_ids vn)
      (filter_entries cfg email_vpa_ids vns)

-- Nil where there is no list or no configuration.
unfoldable pub filter_verified_names :
    Option (List Fields) → Option VerifiedNamesConfig → List Text → Value
unfolding filter_entries
filter_verified_names none cfg email_vpa_ids = nil_maps
filter_verified_names (some vns) none email_vpa_ids = nil_maps
filter_verified_names (some vns) (some cfg) email_vpa_ids =
    maps (to_objects (filter_entries cfg email_vpa_ids vns))

-- `var cleanProfiles`: nil until the first append.
abbrev pub profiles_value : List Fields → Value
profiles_value [] = nil_maps
profiles_value (p ∷ ps) = maps (to_objects (p ∷ ps))

put_profiles : Fields → Fields → Fields
put_profiles upi_profile clean =
    put (codes "profiles")
      (profiles_value
        (clean_profiles [] (get_or [] (coerce_maps (get (codes "profiles") upi_profile)))))
      clean

put_verified_names : Fields → Option VerifiedNamesConfig → List Text → Fields → Fields
put_verified_names upi_profile cfg email_vpa_ids clean =
    let names = get (codes "verified_names") upi_profile in
    if is_some names
    then put (codes "verified_names") (filter_verified_names (coerce_maps names) cfg email_vpa_ids)
        clean
    else clean

unfoldable pub clean_profile_for_response : Fields → Option VerifiedNamesConfig → List Text → Fields
unfolding put_profiles put_verified_names
clean_profile_for_response upi_profile cfg email_vpa_ids =
    if is_some (get (codes "error") upi_profile)
    then put (codes "error") (bool true) no_fields
    else put_verified_names upi_profile cfg email_vpa_ids
        (put_profiles upi_profile (copy_keys white_list upi_profile no_fields))
