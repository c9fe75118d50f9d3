-- ===== src/Breach.antt =====
-- internal/breach/phone_static.go and `Phone` of breach.go: the breaches of a phone number out of its
-- static document. The fields of a document stand in the order in which Go walks over the map;
-- `strings.ToLower` and the print of a float are parameters.
pub mod Sources
pub mod Sound
use go_you.Common.{
  ℕ, Bool, true, false, List, [], ◌∷◌, ◌++◌, Option, none, some, Text, codes, ◌==◌, contains,
  is_some, get_or, if◌then◌else◌, ◌>>=◌,
}
use go_you.Common.Maps.{Dict, lookup, insert}
use go_you.Json.{Value, Fields, no_fields, field, num, str, get, keys, as_map, as_str}
use go_you.StaticData.{as_payload_list}
use go_you.StaticData.Linked.{text_leb, sort_keys}
use go_you.Breach.Sources.{source_mapping}

abbrev attributes_mapping : Dict Text
attributes_mapping =
    (codes "name", codes "Name")
    ∷ (codes "gender", codes "Gender")
    ∷ (codes "email", codes "Email")
    ∷ (codes "address", codes "Address")
    ∷ []

pub record Breach : Type 0 where
  pub name : Text
  pub leaked : Text
  pub date : Text

pub record BreachDetails : Type 0 where
  pub phone : Text
  pub breaches : List Breach
  pub breaches_status : Text

add_label : Text → List Text → List Text
add_label l ls = if contains l ls then ls else l ∷ ls

seen_labels : List Text → List Text
unfolding add_label
seen_labels [] = []
seen_labels (attr ∷ attrs) =
    let rest = seen_labels attrs in
    elim (lookup attr attributes_mapping) [ none ↦ rest | some l ↦ add_label l rest ]

unfoldable pub leaked_attr_labels : Fields → List Text
unfolding seen_labels
leaked_attr_labels payload = sort_keys (seen_labels (keys payload))

-- `strings.Join(labels, " ,")`
pub join_labels : List Text → Text
join_labels [] = []
join_labels (l ∷ []) = l
join_labels (l ∷ k ∷ ls) = l ++ codes " ," ++ join_labels (k ∷ ls)

-- What the value of the config holds; a value that is not a map is a nil map.
unfoldable pub breach_dates : Option Value → Text → Option Text
breach_dates row source = as_map row >>= λ dates. as_str (get source dates)

insert_breach : Breach → List Breach → List Breach
insert_breach b [] = b ∷ []
insert_breach b (c ∷ cs) =
    let rest = insert_breach b cs in if text_leb b.name c.name then b ∷ c ∷ cs else c ∷ rest

sort_breaches : List Breach → List Breach
unfolding insert_breach
sort_breaches [] = []
sort_breaches (b ∷ bs) = insert_breach b (sort_breaches bs)

pub breach_of : Text → List Text → Option Text → Breach
unfolding join_labels
breach_of source labels date = record {
  name = source;
  leaked = join_labels labels;
  date = get_or (codes "NA") date;
}

add_breach : Text → List Text → Option Text → List Breach → List Breach
unfolding breach_of
add_breach source [] date rest = rest
add_breach source (l ∷ ls) date rest = breach_of source (l ∷ ls) date ∷ rest

put_match : Text → Option Fields → Dict Fields → Dict Fields
put_match mapped none out = out
put_match mapped (some payload) out = insert mapped payload out

module _ (format : ℕ → Text) where
  pub payload_str : Option Value → Text
  payload_str (some (str s)) = s
  payload_str (some (num n)) = format n
  payload_str _ = []

  -- The first payload of a source whose key has the id.
  first_match : Text → Text → List Fields → Option Fields
  unfolding payload_str
  first_match login_id key [] = none
  first_match login_id key (pw ∷ pws) =
      let rest = first_match login_id key pws in
      elim (as_map (get (codes "payload") pw)) [
        | none ↦ rest
        | some payload ↦ if payload_str (get key payload) == login_id then some payload else rest
      ]

  leaks : Text → Text → Dict Fields → Fields → Dict Fields
  unfolding first_match put_match
  leaks login_id key out no_fields = out
  leaks login_id key out (field src v static) =
      leaks login_id key
        (elim (lookup src source_mapping) [
          | none ↦ out
          | some mapped ↦ put_match mapped (first_match login_id key (as_payload_list v)) out
        ])
        static

  unfoldable pub leaks_by_type : Fields → Text → Text → Dict Fields
  unfolding leaks
  leaks_by_type static login_id key = leaks login_id key [] static

module _ (lower : Text → Text) where
  -- The loop of `buildBreaches`, in front of its sort.
  collect : Dict Fields → (Text → Option Text) → List Breach
  unfolding add_breach
  collect [] dates = []
  collect ((source, payload) ∷ matched) dates =
      add_breach source (leaked_attr_labels payload) (dates (lower source)) (collect matched dates)

  unfoldable pub build_breaches : Dict Fields → (Text → Option Text) → List Breach
  unfolding collect sort_breaches
  build_breaches matched dates = sort_breaches (collect matched dates)

status_of : List Breach → Text
status_of [] = codes "not-found"
status_of (b ∷ bs) = codes "found"

module _ (lower : Text → Text) (format : ℕ → Text) where
  unfoldable pub phone_breach_from_static :
      Fields → Text → (Text → Option Text) → List Breach × Text
  unfolding status_of
  phone_breach_from_static static login_id dates =
      let breaches =
        build_breaches lower (leaks_by_type format static login_id (codes "primary_ph")) dates in
      (breaches, status_of breaches)

  -- `row` is what the config gives for the dates.
  unfoldable pub phone : Option Value → Text → Text → Fields → BreachDetails
  phone row intl login_id static =
      let (breaches, status) = phone_breach_from_static static login_id (breach_dates row) in
      record { phone = intl; breaches = breaches; breaches_status = status }
