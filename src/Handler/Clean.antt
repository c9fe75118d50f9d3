-- ===== src/Handler/Clean.antt =====
-- `cleanEmpty` of internal/handler/persona.go and `removeKeyRecursive` of internal/handler/transform.go:
-- what is taken out of nested JSON values, in place or in a copy.
pub mod Removed
pub mod Lookup
use go_you.Common.{ℕ, Bool, true, false, Text, ◌==◌, Option, none, some}
use go_you.Json.{
  Value, Items, Objects, Fields, null, nil_maps, bool, num, str, texts, arr, maps, obj, no_items,
  item, no_fields, field, no_objects, object, delete,
}

-- `v == nil`
abbrev pub is_null : Value → Bool
is_null null = true
is_null _ = false

-- The typed slices are neither `map[string]any` nor `[]any`, and are returned as they are.
unfoldable mutual
  pub clean_empty : Value → Value
  clean_empty (obj m) = obj (clean_fields m)
  clean_empty (arr vs) = arr (clean_items vs)
  clean_empty null = null
  clean_empty nil_maps = nil_maps
  clean_empty (bool b) = bool b
  clean_empty (num n) = num n
  clean_empty (str s) = str s
  clean_empty (texts ts) = texts ts
  clean_empty (maps os) = maps os

  pub clean_fields : Fields → Fields
  clean_fields no_fields = no_fields
  clean_fields (field k v m) =
      let rest = clean_fields m in
      let kept = clean_empty v in elim (is_null v) [ true ↦ rest | false ↦ field k kept rest ]

  pub clean_items : Items → Items
  clean_items no_items = no_items
  clean_items (item v vs) =
      let rest = clean_items vs in
      let kept = clean_empty v in elim (is_null v) [ true ↦ rest | false ↦ item kept rest ]

-- The walk for one key.
unfoldable mutual
  pub remove_key : Text → Value → Value
  remove_key key (obj m) = obj (remove_fields key m)
  remove_key key (arr vs) = arr (remove_items key vs)
  remove_key key null = null
  remove_key key nil_maps = nil_maps
  remove_key key (bool b) = bool b
  remove_key key (num n) = num n
  remove_key key (str s) = str s
  remove_key key (texts ts) = texts ts
  remove_key key (maps os) = maps os

  pub remove_fields : Text → Fields → Fields
  remove_fields key no_fields = no_fields
  remove_fields key (field k v m) =
      let rest = remove_fields key m in
      let kept = remove_key key v in elim (k == key) [ true ↦ rest | false ↦ field k kept rest ]

  pub remove_items : Text → Items → Items
  remove_items key no_items = no_items
  remove_items key (item v vs) = item (remove_key key v) (remove_items key vs)
