-- ===== src/Handler/Clean/Removed.antt =====
-- What is left of a value.
use go_you.Common.{
  Bool, true, false, not, ◌&&◌, Text, ◌==◌, eq_iff, Option, none, some, ◌≡◌, ◌∙◌, refl, ap, sym,
  arith, ◌↔◌,
}
use go_you.Json.{
  Value, Items, Fields, null, nil_maps, bool, num, str, texts, arr, maps, obj, no_items, item,
  no_fields, field, get, delete,
}
use go_you.Handler.Clean.{
  is_null, clean_empty, clean_fields, clean_items, remove_key, remove_fields, remove_items,
}

-- No map and no list in the value holds nil, at any depth.
mutual
  pub no_null : Value → Bool
  no_null (obj m) = no_null_fields m
  no_null (arr vs) = no_null_items vs
  no_null null = true
  no_null nil_maps = true
  no_null (bool b) = true
  no_null (num n) = true
  no_null (str s) = true
  no_null (texts ts) = true
  no_null (maps os) = true

  pub no_null_fields : Fields → Bool
  no_null_fields no_fields = true
  no_null_fields (field k v m) = not (is_null v) && no_null v && no_null_fields m

  pub no_null_items : Items → Bool
  no_null_items no_items = true
  no_null_items (item v vs) = not (is_null v) && no_null v && no_null_items vs

-- No map in the value has the key, at any depth.
mutual
  pub lacks : Text → Value → Bool
  lacks key (obj m) = lacks_fields key m
  lacks key (arr vs) = lacks_items key vs
  lacks key null = true
  lacks key nil_maps = true
  lacks key (bool b) = true
  lacks key (num n) = true
  lacks key (str s) = true
  lacks key (texts ts) = true
  lacks key (maps os) = true

  pub lacks_fields : Text → Fields → Bool
  lacks_fields key no_fields = true
  lacks_fields key (field k v m) = not (k == key) && lacks key v && lacks_fields key m

  pub lacks_items : Text → Items → Bool
  lacks_items key no_items = true
  lacks_items key (item v vs) = lacks key v && lacks_items key vs

is_null-clean : (v : Value) → is_null (clean_empty v) ≡ is_null v
unfolding clean_empty
is_null-clean (obj m) = refl
is_null-clean (arr vs) = refl
is_null-clean null = refl
is_null-clean nil_maps = refl
is_null-clean (bool b) = refl
is_null-clean (num n) = refl
is_null-clean (str s) = refl
is_null-clean (texts ts) = refl
is_null-clean (maps os) = refl

mutual
  unfolding clean_empty no_null

  clean-no_null : (v : Value) → no_null (clean_empty v) ≡ true
  clean-no_null (obj m) = clean_fields-no_null m
  clean-no_null (arr vs) = clean_items-no_null vs
  clean-no_null null = refl
  clean-no_null nil_maps = refl
  clean-no_null (bool b) = refl
  clean-no_null (num n) = refl
  clean-no_null (str s) = refl
  clean-no_null (texts ts) = refl
  clean-no_null (maps os) = refl

  clean_fields-no_null : (m : Fields) → no_null_fields (clean_fields m) ≡ true
  clean_fields-no_null no_fields = refl
  clean_fields-no_null (field k v m) =
      ground (arith, is_null-clean v, clean-no_null v, clean_fields-no_null m)

  clean_items-no_null : (vs : Items) → no_null_items (clean_items vs) ≡ true
  clean_items-no_null no_items = refl
  clean_items-no_null (item v vs) =
      ground (arith, is_null-clean v, clean-no_null v, clean_items-no_null vs)

-- A value without such nils is left as it is.
mutual
  unfolding clean_empty no_null

  clean_same : (v : Value) → no_null v ≡ true → clean_empty v ≡ v
  clean_same (obj m) h = ap obj (clean_fields_same m h)
  clean_same (arr vs) h = ap arr (clean_items_same vs h)
  clean_same null h = refl
  clean_same nil_maps h = refl
  clean_same (bool b) h = refl
  clean_same (num n) h = refl
  clean_same (str s) h = refl
  clean_same (texts ts) h = refl
  clean_same (maps os) h = refl

  clean_fields_same : (m : Fields) → no_null_fields m ≡ true → clean_fields m ≡ m
  clean_fields_same no_fields h = refl
  clean_fields_same (field k v m) h = ground (arith, clean_same v, clean_fields_same m)

  clean_items_same : (vs : Items) → no_null_items vs ≡ true → clean_items vs ≡ vs
  clean_items_same no_items h = refl
  clean_items_same (item v vs) h = ground (arith, clean_same v, clean_items_same vs)

-- A cleaned value has no nil in a map or a list at any depth, and cleaning changes exactly the values
-- that have one: a value without is left as it is, and so cleaning twice is cleaning once.
pub clean_empty-no_null :
    (v : Value)
    → (no_null (clean_empty v) ≡ true)
      × ((clean_empty v ≡ v) ↔ (no_null v ≡ true))
      × (clean_empty (clean_empty v) ≡ clean_empty v)
clean_empty-no_null v = (
  clean-no_null v,
  (λ e. ap no_null (sym e) ∙ clean-no_null v, clean_same v),
  clean_same (clean_empty v) (clean-no_null v),
)

mutual
  unfolding remove_key lacks

  remove-lacks : (key : Text) (v : Value) → lacks key (remove_key key v) ≡ true
  remove-lacks key (obj m) = remove_fields-lacks key m
  remove-lacks key (arr vs) = remove_items-lacks key vs
  remove-lacks key null = refl
  remove-lacks key nil_maps = refl
  remove-lacks key (bool b) = refl
  remove-lacks key (num n) = refl
  remove-lacks key (str s) = refl
  remove-lacks key (texts ts) = refl
  remove-lacks key (maps os) = refl

  pub remove_fields-lacks :
      (key : Text) (m : Fields) → lacks_fields key (remove_fields key m) ≡ true
  remove_fields-lacks key no_fields = refl
  remove_fields-lacks key (field k v m) =
      ground (arith, remove-lacks key v, remove_fields-lacks key m)

  remove_items-lacks : (key : Text) (vs : Items) → lacks_items key (remove_items key vs) ≡ true
  remove_items-lacks key no_items = refl
  remove_items-lacks key (item v vs) = ground (arith, remove-lacks key v, remove_items-lacks key vs)

abbrev pub changed : (Value → Value) → Option Value → Option Value
changed f none = none
changed f (some v) = some (f v)

get-remove_fields :
    (key j : Text) (m : Fields)
    → (j == key) ≡ false
    → get j (remove_fields key m) ≡ changed (remove_key key) (get j m)
unfolding remove_key get
get-remove_fields key j no_fields h = refl
get-remove_fields key j (field k v m) h =
    ground (arith, eq_iff k key, eq_iff k j, eq_iff j key, get-remove_fields key j m h)

-- Behind the removal of a key no map of the value has it, at any depth; and at the top of a map every
-- other key is there as before, with the key removed from its value.
pub remove_key-lacks :
    (key : Text) (m : Fields)
    → (lacks key (remove_key key (obj m)) ≡ true)
      × ((j : Text)
          → (j == key) ≡ false
          → get j (remove_fields key m) ≡ changed (remove_key key) (get j m))
remove_key-lacks key m = (remove-lacks key (obj m), λ j h. get-remove_fields key j m h)

pub lacks-delete :
    (j k : Text) (m : Fields) → lacks_fields k m ≡ true → lacks_fields k (delete j m) ≡ true
unfolding delete lacks
lacks-delete j k no_fields h = refl
lacks-delete j k (field i v m) h = ground (arith, lacks-delete j k m)
