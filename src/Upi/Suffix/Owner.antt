-- ===== src/Upi/Suffix/Owner.antt =====
-- Which app a suffix belongs to: what the two maps of suffix.go answer.
use go_you.Common.{
  List, [], ◌∷◌, Option, none, some, Text, ◌==◌, eq_iff, contains, get_or, is_some, ◌≡◌, refl, ◌||◌,
  if◌then◌else◌, arith,
}
use go_you.Common.Maps.{Dict, lookup, insert, lookup-insert}
use go_you.Upi.Suffix.{
  UpiApp, upi_apps, add_suffixes, add_apps, supported_suffix_of, supported_suffix,
  common_suffix_constant, other_app_name, app_name_for_suffix, is_supported_suffix,
}

-- The last app of a table that lists the suffix.
pub last_owner : Text → List UpiApp → Option Text
last_owner s [] = none
last_owner s (a ∷ rest) = elim (last_owner s rest) [
  | some n ↦ some n
  | none ↦ if contains s a.suffixes then some a.app_name else none
]

abbrev pub or_else : Option Text → Option Text → Option Text
or_else none b = b
or_else (some a) b = some a

lookup-add_suffixes :
    (s name : Text) (ss : List Text) (m : Dict Text)
    → lookup s (add_suffixes name ss m) ≡ (if contains s ss then some name else lookup s m)
unfolding add_suffixes contains
lookup-add_suffixes s name [] m = refl
lookup-add_suffixes s name (t ∷ ss) m =
    ground (arith, lookup-add_suffixes s name ss (insert t name m), lookup-insert s t name m)

lookup-add_apps :
    (s : Text) (apps : List UpiApp) (m : Dict Text)
    → lookup s (add_apps apps m) ≡ or_else (last_owner s apps) (lookup s m)
unfolding add_apps last_owner
lookup-add_apps s [] m = refl
lookup-add_apps s (a ∷ rest) m = ground (
  arith,
  lookup-add_apps s rest (add_suffixes a.app_name a.suffixes m),
  lookup-add_suffixes s a.app_name a.suffixes m,
)

-- In the map built from any table of apps, a suffix stands for the last app that lists it; a suffix
-- that no app lists is absent, but for COMMON, which stands for itself unless an app lists it.
pub supported_suffix_of-last_owner :
    (s : Text) (apps : List UpiApp)
    → lookup s (supported_suffix_of apps)
      ≡ or_else
          (last_owner s apps)
          (if common_suffix_constant == s then some common_suffix_constant else none)
unfolding supported_suffix_of lookup
supported_suffix_of-last_owner s apps =
    ground (arith, lookup-add_apps s apps ((common_suffix_constant, common_suffix_constant) ∷ []))

common_unowned : last_owner common_suffix_constant upi_apps ≡ none
unfolding last_owner upi_apps contains ◌==◌
common_unowned = refl

-- The app of a suffix is COMMON for COMMON, the last app of the table that lists it, or UNKNOWN; and
-- a suffix is supported exactly if it is COMMON or some app of the table lists it.
pub app_name_for_suffix-last_owner :
    (s : Text)
    → (app_name_for_suffix s ≡ (
        if s == common_suffix_constant
        then common_suffix_constant
        else get_or other_app_name (last_owner s upi_apps)))
      × (is_supported_suffix s ≡ (s == common_suffix_constant || is_some (last_owner s upi_apps)))
unfolding app_name_for_suffix is_supported_suffix supported_suffix
app_name_for_suffix-last_owner s = ground (
  arith,
  eq_iff s common_suffix_constant,
  eq_iff common_suffix_constant s,
  common_unowned,
  supported_suffix_of-last_owner s upi_apps,
)
