-- ===== src/Upi/VerifiedNames.antt =====
-- The verified names of internal/crawler/upi/aggregate.go: one entry for each app among the true
-- profiles, with the VPAs found for it.
pub mod Step
pub mod Names
use go_you.Common.{
  ℕ, Bool, true, false, not, ◌&&◌, ◌||◌, List, [], ◌∷◌, ◌++◌, map, Option, none, some, Text, codes,
  ◌==◌, contains, get_or, if◌then◌else◌,
}
use go_you.Common.Maps.{Dict, lookup, insert}
use go_you.Upi.Model.{Profile, has_error, VerifiedName}
use go_you.Upi.Suffix.{
  common_suffix_constant, other_app_name, supported_suffix, suffix_from_vpa, vpa_for,
}

unfoldable pub construct_vpa_for_profile : Text → Profile → Text
unfolding vpa_for
construct_vpa_for_profile phone p =
    if not (p.vpa == [])
    then p.vpa
    else if not (p.suffix == []) && not (p.suffix == common_suffix_constant)
    then vpa_for phone p.suffix
    else []

unfoldable pub app_name_from_profile : Profile → Text
app_name_from_profile p =
    let app_name = if p.app_name == [] then other_app_name else p.app_name in
    if app_name == codes "COMMON" && not (p.vpa == [])
    then get_or other_app_name (lookup (suffix_from_vpa p.vpa) supported_suffix)
    else app_name

-- The variables of the loop. `names` keeps the name of the first profile of an app.
pub record State : Type 0 where
  pub order : List Text
  pub names : Dict Text
  pub app_ids : Dict (List Text)
  pub seen_ids : List Text

abbrev pub start : State
start = record { order = []; names = []; app_ids = []; seen_ids = [] }

abbrev is_false_or_nil : Option Bool → Bool
is_false_or_nil none = true
is_false_or_nil (some b) = not b

-- The profiles that the loop does not pass over at once.
unfoldable pub counts : Profile → Bool
unfolding has_error
counts p = not (has_error p || is_false_or_nil p.user_exist)

-- The write of one id under one app.
unfoldable pub add_id : State → Text → Text → Text → Option (List Text) → State
add_id st app name id none = record {
  order = st.order ++ app ∷ [];
  names = insert app name st.names;
  app_ids = insert app (id ∷ []) st.app_ids;
  seen_ids = id ∷ st.seen_ids;
}
add_id st app name id (some ids) =
    if contains id ids
    then st
    else record st { app_ids = insert app (ids ++ id ∷ []) st.app_ids; seen_ids = id ∷ st.seen_ids }

unfoldable pub visit_id : State → Text → Text → Text → State
visit_id st app name id =
    if id == []
    then st
    else if contains id st.seen_ids
    then st
    else add_id st app name id (lookup app st.app_ids)

-- One round of the loop.
unfoldable pub visit : Text → State → Profile → State
visit phone st p =
    if counts p
    then visit_id st (app_name_from_profile p) p.name (construct_vpa_for_profile phone p)
    else st

unfoldable pub visit_all : Text → State → List Profile → State
visit_all phone st [] = st
visit_all phone st (p ∷ ps) = visit_all phone (visit phone st p) ps

abbrev pub ids_at : Dict (List Text) → Text → List Text
ids_at m a = get_or [] (lookup a m)

abbrev name_or_nil : Text → Option Text
name_or_nil name = if name == [] then none else some name

unfoldable pub entry_of : State → Text → VerifiedName
entry_of st a = record {
  source = a;
  name = name_or_nil (get_or [] (lookup a st.names));
  upi_ids = ids_at st.app_ids a;
}

unfoldable pub verified_names_from_profiles : Text → List Profile → List VerifiedName
unfolding entry_of
verified_names_from_profiles phone ps =
    let st = visit_all phone start ps in map (entry_of st) st.order
