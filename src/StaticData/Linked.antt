-- ===== src/StaticData/Linked.antt =====
-- internal/staticdata/derive.go: the linked ids.
pub mod Window
use go_you.Common.{
  ℕ, zero, suc, Bool, true, false, not, ◌&&◌, ◌||◌, List, [], ◌∷◌, ◌++◌, ◌+◌, Option, none, some,
  Text, codes, ◌==◌, eqb, ltb, contains, is_some, get_or, if◌then◌else◌,
}
use go_you.Common.Strings.{strip_prefix}
use go_you.Json.{Value, Fields, null, num, str, get, as_map, keys}
use go_you.Handler.Clean.{is_null}
use go_you.StaticData.{as_payload_list}

-- Go's `<=` on strings, byte by byte.
pub text_leb : Text → Text → Bool
text_leb [] t = true
text_leb (c ∷ s) [] = false
text_leb (c ∷ s) (d ∷ t) = ltb c d || (eqb c d && text_leb s t)

insert_key : Text → List Text → List Text
unfolding text_leb
insert_key k [] = k ∷ []
insert_key k (j ∷ js) = let rest = insert_key k js in if text_leb k j then k ∷ j ∷ js else j ∷ rest

-- `sort.Strings`
pub sort_keys : List Text → List Text
unfolding insert_key
sort_keys [] = []
sort_keys (k ∷ ks) = insert_key k (sort_keys ks)

-- The text in front of the first ".0".
unfoldable pub cut : Text → Text
cut [] = []
cut (c ∷ s) =
    let rest = cut s in if is_some (strip_prefix (codes ".0") (c ∷ s)) then [] else c ∷ rest

pub record Linked : Type 0 where
  pub ids : List Text
  pub iter : ℕ

add_id : Text → List Text → List Text
add_id val ids = if val == [] || contains val ids then ids else ids ++ (val ∷ [])

-- `format` is `strconv.FormatFloat(t, 'f', -1, 64)`.
module _ (format : ℕ → Text) where
  pub id_string : Value → Text
  unfolding cut
  id_string (str s) = cut s
  id_string (num n) = cut (format n)
  id_string _ = []

  count_id : Value → Linked → Linked
  unfolding id_string add_id
  count_id v st = record {
    ids = (if ltb st.iter 10 then add_id (id_string v) st.ids else st.ids);
    iter = st.iter + 1;
  }

  visit_value : Option Value → Linked → Linked
  unfolding count_id
  visit_value none st = st
  visit_value (some v) st = if is_null v then st else count_id v st

  visit_payloads : Text → List Fields → Linked → Linked
  unfolding visit_value
  visit_payloads key [] st = st
  visit_payloads key (pw ∷ pws) st =
      visit_payloads key pws (elim (as_map (get (codes "payload") pw)) [
        | none ↦ st
        | some payload ↦ visit_value (get key payload) st
      ])

  visit_sources : Text → Fields → List Text → Linked → Linked
  unfolding visit_payloads
  visit_sources key static [] st = st
  visit_sources key static (src ∷ srcs) st =
      visit_sources key static srcs
        (visit_payloads key (as_payload_list (get_or null (get src static))) st)

  -- For a phone number the linked e-mail addresses, and the other way round.
  unfoldable pub linked_ids : Fields → Bool → List Text
  unfolding visit_sources sort_keys
  linked_ids static phone =
      (visit_sources (if phone then codes "primary_email" else codes "primary_ph") static
        (sort_keys (keys static)) (record { ids = []; iter = 0 })).ids
