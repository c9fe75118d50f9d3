-- ===== src/Handler/Transform/Hidden.antt =====
-- What of a section the client does not see.
use go_you.Common.{
  List, Option, none, some, Text, codes, ◌==◌, Option-cases, ◌≡◌, inl, inr, refl, sym, ap, ◌∙◌,
}
use mathlib.Core.Option
use go_you.Json.{Value, Fields, no_fields, field, get, delete, as_map, update_map}
use go_you.Json.Laws.{get-put_other, get-delete_self, get-update_map_other, map_at-update_map}
use go_you.Handler.TransformUpi.{UpiTransform}
use go_you.Handler.Transform.{
  transform_accounts, section_with_list, section_with_data, put_unless_empty, transform_section,
  put_intelligence, strip,
}
use go_you.AppConfig.{YouConfiguration}

abbrev static_key : Text
static_key = codes "static_data"

put_unless_empty-static :
    (intel sec : Fields) → get static_key (put_unless_empty intel sec) ≡ get static_key sec
unfolding put_unless_empty ◌==◌
put_unless_empty-static no_fields sec = refl
put_unless_empty-static (field k v m) sec = get-put_other static_key _ _ sec refl

put_intelligence-static :
    (m : Fields) (ut : Option UpiTransform) (sec : Fields)
    → get static_key (put_intelligence m ut sec) ≡ get static_key sec
unfolding put_intelligence
put_intelligence-static m none sec = refl
put_intelligence-static m (some ut) sec = put_unless_empty-static _ sec

accounts-static :
    (yc : Option YouConfiguration) (ut : Option UpiTransform) (pd : Fields) (list : List Value)
    (sec : Fields)
    → get static_key (transform_accounts yc ut pd list sec) ≡ get static_key sec
unfolding transform_accounts ◌==◌
accounts-static yc ut pd list sec =
    get-put_other static_key (codes "primary_data") _ (put_intelligence _ ut sec) refl
    ∙ put_intelligence-static _ ut sec

section_with_list-static :
    (yc : Option YouConfiguration) (ut : Option UpiTransform) (pd : Fields)
    (list : Option (List Value)) (sec : Fields)
    → get static_key (section_with_list yc ut pd list sec) ≡ get static_key sec
unfolding section_with_list
section_with_list-static yc ut pd none sec = refl
section_with_list-static yc ut pd (some list) sec = accounts-static yc ut pd list sec

section_with_data-static :
    (yc : Option YouConfiguration) (ut : Option UpiTransform) (pd : Option Fields) (sec : Fields)
    → get static_key (section_with_data yc ut pd sec) ≡ get static_key sec
unfolding section_with_data
section_with_data-static yc ut none sec = refl
section_with_data-static yc ut (some pd) sec = section_with_list-static yc ut pd _ sec

-- The section that leaves the transform has no static data, on every branch.
pub transform_section-static :
    (yc : Option YouConfiguration) (ut : Option UpiTransform) (sec : Fields)
    → get static_key (transform_section yc ut sec) ≡ none
unfolding transform_section
transform_section-static yc ut sec =
    section_with_data-static yc ut _ (delete static_key sec) ∙ get-delete_self static_key sec

pub strip-static : (sec : Fields) → get static_key (strip sec) ≡ get static_key sec
unfolding strip ◌==◌
strip-static sec = get-update_map_other static_key (codes "intelligence_data") _ sec refl

-- What stands at the key, if it is a section, has no static data.
abbrev pub Hides : Text → Fields → Type 0
Hides k m = (sec : Fields) → as_map (get k m) ≡ some sec → get static_key sec ≡ none

pub Hides-same : (k : Text) (m n : Fields) → get k n ≡ get k m → Hides k m → Hides k n
Hides-same k m n e h sec found = h sec (ap as_map (sym e) ∙ found)

-- An update at the key itself.
pub Hides-update :
    (k : Text) (f : Fields → Fields) (m : Fields)
    → ((o : Fields) → as_map (get k m) ≡ some o → get static_key (f o) ≡ none)
    → Hides k (update_map k f m)
Hides-update k f m h sec found = elim (Option-cases (as_map (get k m))) [
  | inl missing ↦ cc (map_at-update_map k f m, missing, found)
  | inr (o, there) ↦
      let same : some (f o) ≡ some sec =
        sym (map_at-update_map k f m ∙ ap (Option.map f) there) ∙ found in
      ap (λ (x : Option Fields). get static_key (Option.get_or x sec)) (sym same) ∙ h o there
]
