-- ===== src/Json/Laws.antt =====
-- Reads after writes.
use go_you.Common.{
  true, false, List, Option, none, some, Text, ◌==◌, eq_iff, ==_refl, if◌then◌else◌, if-true,
  if-false, Bool-cases, Option-cases, ◌≡◌, ◌⊎◌, inl, inr, refl, sym, ap, ◌∙◌, arith, is_some, In,
  Distinct,
}
use mathlib.Core.Option
use go_you.Json.{Value, Fields, no_fields, field, obj, get, put, delete, as_map, update_map, keys}

pub get-put :
    (j k : Text) (v : Value) (m : Fields) → get j (put k v m) ≡ (if k == j then some v else get j m)
unfolding get put
get-put j k v no_fields = ground arith
get-put j k v (field i w m) = ground (arith, eq_iff k j, eq_iff i k, eq_iff i j, get-put j k v m)

pub get-delete : (j k : Text) (m : Fields) → get j (delete k m) ≡ (if k == j then none else get j m)
unfolding get delete
get-delete j k no_fields = ground arith
get-delete j k (field i w m) = ground (arith, eq_iff k j, eq_iff i k, eq_iff i j, get-delete j k m)

-- Every key of the map is one of the list's.
abbrev pub HasOnly : List Text → Fields → Type 0
HasOnly keys m = (k : Text) → is_some (get k m) ≡ true → In k keys

pub get-put_other :
    (j k : Text) (v : Value) (m : Fields) → (k == j) ≡ false → get j (put k v m) ≡ get j m
get-put_other j k v m h = get-put j k v m ∙ if-false _ _ _ h

pub get-put_self : (k : Text) (v : Value) (m : Fields) → get k (put k v m) ≡ some v
get-put_self k v m = get-put k k v m ∙ if-true _ _ _ (==_refl k)

pub get-delete_other : (j k : Text) (m : Fields) → (k == j) ≡ false → get j (delete k m) ≡ get j m
get-delete_other j k m h = get-delete j k m ∙ if-false _ _ _ h

pub get-delete_self : (k : Text) (m : Fields) → get k (delete k m) ≡ none
get-delete_self k m = get-delete k k m ∙ if-true _ _ _ (==_refl k)

pub update_map_missing :
    (k : Text) (f : Fields → Fields) (m : Fields) → as_map (get k m) ≡ none → update_map k f m ≡ m
unfolding update_map
update_map_missing k f m missing = rw (missing, update_map)

pub update_map_found :
    (k : Text) (f : Fields → Fields) (m o : Fields)
    → as_map (get k m) ≡ some o
    → update_map k f m ≡ put k (obj (f o)) m
unfolding update_map
update_map_found k f m o found = rw (found, update_map)

pub get-update_map_other :
    (j k : Text) (f : Fields → Fields) (m : Fields)
    → (k == j) ≡ false
    → get j (update_map k f m) ≡ get j m
get-update_map_other j k f m h = elim (Option-cases (as_map (get k m))) [
  | inl missing ↦ ap (get j) (update_map_missing k f m missing)
  | inr (o, found) ↦ ap (get j) (update_map_found k f m o found) ∙ get-put_other j k (obj (f o)) m h
]

pub map_at-update_map :
    (k : Text) (f : Fields → Fields) (m : Fields)
    → as_map (get k (update_map k f m)) ≡ Option.map f (as_map (get k m))
map_at-update_map k f m = elim (Option-cases (as_map (get k m))) [
  | inl missing ↦
      ap (λ (n : Fields). as_map (get k n)) (update_map_missing k f m missing)
      ∙ missing
      ∙ sym (ap (Option.map f) missing)
  | inr (o, found) ↦
      ap (λ (n : Fields). as_map (get k n)) (update_map_found k f m o found)
      ∙ ap as_map (get-put_self k (obj (f o)) m)
      ∙ sym (ap (Option.map f) found)
]

-- A write keeps the keys of a map different, and so does a deletion.
keys-put : (j k : Text) (v : Value) (m : Fields) → In j (keys (put k v m)) → (k ≡ j) ⊎ In j (keys m)
unfolding put
keys-put j k v no_fields h = ground arith
keys-put j k v (field i w m) h = ground (arith, eq_iff i k, keys-put j k v m)

pub Distinct-put :
    (k : Text) (v : Value) (m : Fields) → Distinct (keys m) → Distinct (keys (put k v m))
unfolding put
Distinct-put k v no_fields h = (λ e. e, tt)
Distinct-put k v (field i w m) (new, rest) = elim (Bool-cases (i == k)) [
  | inl same ↦ rw (same, put) (rw ((eq_iff i k).0 same) at new, rest)
  | inr other ↦
      rw (other, put)
        (
          λ e. elim (keys-put i k v m e) [
            | inl hit ↦ ground (arith, eq_iff i k)
            | inr old ↦ new old
          ],
          Distinct-put k v m rest,
        )
]

keys-delete : (j k : Text) (m : Fields) → In j (keys (delete k m)) → In j (keys m)
unfolding delete
keys-delete j k no_fields h = h
keys-delete j k (field i w m) h = ground (arith, keys-delete j k m)

pub Distinct-delete : (k : Text) (m : Fields) → Distinct (keys m) → Distinct (keys (delete k m))
unfolding delete
Distinct-delete k no_fields h = h
Distinct-delete k (field i w m) (new, rest) = elim (Bool-cases (i == k)) [
  | inl same ↦ rw (same, delete) (Distinct-delete k m rest)
  | inr other ↦ rw (other, delete) (λ e. new (keys-delete i k m e), Distinct-delete k m rest)
]

pub Distinct-update_map :
    (k : Text) (f : Fields → Fields) (m : Fields)
    → Distinct (keys m)
    → Distinct (keys (update_map k f m))
Distinct-update_map k f m h = elim (Option-cases (as_map (get k m))) [
  | inl missing ↦ rw (update_map_missing k f m missing) h
  | inr (o, found) ↦ rw (update_map_found k f m o found) (Distinct-put k (obj (f o)) m h)
]

-- A map that stands at a key behind an update was made of one that stood there before.
pub update_map-made :
    (k : Text) (f : Fields → Fields) (m s : Fields)
    → as_map (get k (update_map k f m)) ≡ some s
    → (o : Fields) × (as_map (get k m) ≡ some o) × (f o ≡ s)
update_map-made k f m s found = made (as_map (get k m)) (sym (map_at-update_map k f m) ∙ found)
  where
    made : (o : Option Fields) → Option.map f o ≡ some s → (x : Fields) × (o ≡ some x) × (f x ≡ s)
    made none h = absurd (ground arith)
    made (some x) h = (x, refl, ground arith)
