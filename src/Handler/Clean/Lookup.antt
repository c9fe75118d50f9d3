-- ===== src/Handler/Clean/Lookup.antt =====
-- Reads from a cleaned map.
use go_you.Common.{
  true, false, Text, ◌==◌, eq_iff, Option, none, some, In, Distinct, Bool-cases, ◌≡◌, inl, inr,
  refl, ap, ◌∙◌, sym, arith,
}
use go_you.Json.{Value, Fields, no_fields, field, obj, get, keys, as_map}
use go_you.Handler.Clean.{is_null, clean_empty, clean_fields}

get_absent : (j : Text) (m : Fields) → ¬ In j (keys m) → get j m ≡ none
unfolding get
get_absent j no_fields h = refl
get_absent j (field k v m) h = ground (arith, eq_iff k j, get_absent j m (λ e. h (inr e)))

pub clean_absent : (j : Text) (m : Fields) → get j m ≡ none → get j (clean_fields m) ≡ none
unfolding get clean_fields
clean_absent j no_fields h = refl
clean_absent j (field k v m) h = ground (arith, clean_absent j m)

abbrev pub cleaned : Option Value → Option Value
cleaned none = none
cleaned (some v) = elim (is_null v) [ true ↦ none | false ↦ some (clean_empty v) ]

-- In a Go map, in which a key stands once, each key reads as its cleaned value.
pub get-clean_fields :
    (j : Text) (m : Fields) → Distinct (keys m) → get j (clean_fields m) ≡ cleaned (get j m)
unfolding get clean_fields
get-clean_fields j no_fields h = refl
get-clean_fields j (field k v m) (new, rest) = elim (Bool-cases (k == j)) [
  | inl same ↦
      let gone : get j (clean_fields m) ≡ none =
        clean_absent j m (get_absent j m (rw ((eq_iff k j).0 same) at new)) in
      ground (arith, gone)
  | inr other ↦ ground (arith, get-clean_fields j m rest)
]

from_cleaned :
    (v : Option Value) (sec : Fields)
    → as_map (cleaned v) ≡ some sec
    → (o : Fields) × (as_map v ≡ some o) × (clean_fields o ≡ sec)
unfolding clean_empty
from_cleaned none sec h = absurd (ground arith)
from_cleaned (some (obj o)) sec h = (o, refl, ground arith)
from_cleaned (some v) sec h = absurd (ground arith)

-- A map that is read from a cleaned map is a cleaned map.
pub map_at-clean_fields :
    (j : Text) (m sec : Fields)
    → Distinct (keys m)
    → as_map (get j (clean_fields m)) ≡ some sec
    → (o : Fields) × (as_map (get j m) ≡ some o) × (clean_fields o ≡ sec)
map_at-clean_fields j m sec distinct found =
    from_cleaned (get j m) sec (sym (ap as_map (get-clean_fields j m distinct)) ∙ found)
