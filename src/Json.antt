-- ===== src/Json.antt =====
-- The `any` values that the service reshapes, and `map[string]any`. The typed slices that Go keeps
-- apart from `[]any` are constructors of their own; a nil `[]map[string]any` is `nil_maps`.
pub mod Laws
use go_you.Common.{
  ℕ, Bool, true, false, List, [], ◌∷◌, Option, none, some, Text, ◌==◌, if◌then◌else◌, length,
}

mutual
  pub data Value : Type 0 where
    null nil_maps : Value
    bool : Bool → Value
    num : ℕ → Value
    str : Text → Value
    texts : List Text → Value
    arr : Items → Value
    maps : Objects → Value
    obj : Fields → Value

  pub data Items : Type 0 where
    no_items : Items
    item : Value → Items → Items

  pub data Objects : Type 0 where
    no_objects : Objects
    object : Fields → Objects → Objects

  pub data Fields : Type 0 where
    no_fields : Fields
    field : Text → Value → Fields → Fields

-- `m[k]` with its `ok`.
unfoldable pub get : Text → Fields → Option Value
get k no_fields = none
get k (field j v m) = elim (j == k) [ true ↦ some v | false ↦ get k m ]

-- `m[k] = v`
unfoldable pub put : Text → Value → Fields → Fields
put k v no_fields = field k v no_fields
put k v (field j w m) = elim (j == k) [ true ↦ field k v m | false ↦ field j w (put k v m) ]

-- `delete(m, k)`
unfoldable pub delete : Text → Fields → Fields
delete k no_fields = no_fields
delete k (field j w m) = elim (j == k) [ true ↦ delete k m | false ↦ field j w (delete k m) ]

abbrev pub elements : Items → List Value
elements no_items = []
elements (item v vs) = v ∷ elements vs

abbrev pub to_items : List Value → Items
to_items [] = no_items
to_items (v ∷ vs) = item v (to_items vs)

abbrev pub members : Objects → List Fields
members no_objects = []
members (object o os) = o ∷ members os

abbrev pub to_objects : List Fields → Objects
to_objects [] = no_objects
to_objects (o ∷ os) = object o (to_objects os)

-- The type assertions with their `ok`.
abbrev pub as_bool : Option Value → Option Bool
as_bool (some (bool b)) = some b
as_bool _ = none

abbrev pub as_str : Option Value → Option Text
as_str (some (str s)) = some s
as_str _ = none

abbrev pub as_map : Option Value → Option Fields
as_map (some (obj m)) = some m
as_map _ = none

abbrev pub as_list : Option Value → Option (List Value)
as_list (some (arr vs)) = some (elements vs)
as_list _ = none

-- `s, _ := v.(string)`
abbrev pub text_or_empty : Option Value → Text
text_or_empty (some (str s)) = s
text_or_empty _ = []

abbrev pub is_empty : Fields → Bool
is_empty no_fields = true
is_empty (field k v m) = false

-- A nested map changed in place, where there is one at the key.
unfoldable pub update_map : Text → (Fields → Fields) → Fields → Fields
update_map k f m = elim (as_map (get k m)) [ none ↦ m | some o ↦ put k (obj (f o)) m ]

abbrev pub keys : Fields → List Text
keys no_fields = []
keys (field k v m) = k ∷ keys m
