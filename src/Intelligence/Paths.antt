-- ===== src/Intelligence/Paths.antt =====
-- Where a feature's value can be read again, and what its write leaves alone.
use go_you.Common.{
  false, List, [], ◌∷◌, Option, none, some, Text, ◌==◌, eq_iff, Bool-cases, Option-cases, ◌≡◌, ◌≢◌,
  ◌⊎◌, inl, inr, refl, sym, ap, ◌∙◌, arith, if◌then◌else◌, ◌>>=◌,
}
use go_you.Json.{Value, Fields, no_fields, obj, get, put, as_map}
use go_you.Json.Laws.{get-put_other, get-put_self}
use go_you.Intelligence.Merge.{write_at, set_at_path, default_value, type_matches, map_in}

-- The value at a path that is not empty.
abbrev pub get_path : List Text → Fields → Option Value
get_path [] m = none
get_path (k ∷ []) m = get k m
get_path (k ∷ j ∷ path) m = as_map (get k m) >>= get_path (j ∷ path)

-- The two paths part before either ends.
abbrev pub Diverge : List Text → List Text → Type 0
Diverge [] q = ⊥
Diverge (k ∷ p) [] = ⊥
Diverge (k ∷ p) (j ∷ q) = (k ≢ j) ⊎ Diverge p q

get_path-same :
    (k : Text) (p : List Text) (m n : Fields)
    → get k m ≡ get k n
    → get_path (k ∷ p) m ≡ get_path (k ∷ p) n
get_path-same k [] m n e = e
get_path-same k (j ∷ p) m n e = ap (λ (v : Option Value). as_map v >>= get_path (j ∷ p)) e

get_path-empty : (p : List Text) → get_path p no_fields ≡ none
unfolding get
get_path-empty [] = refl
get_path-empty (k ∷ []) = refl
get_path-empty (k ∷ j ∷ p) = refl

get_path-map_in :
    (k : Text) (p : List Text) (m : Fields)
    → get_path p (map_in k m) ≡ (as_map (get k m) >>= get_path p)
get_path-map_in k p m = elim (Option-cases (as_map (get k m))) [
  | inl missing ↦ rw missing (get_path-empty p)
  | inr (o, found) ↦ rw found refl
]

get_path-put :
    (k j : Text) (p : List Text) (o m : Fields)
    → get_path (k ∷ j ∷ p) (put k (obj o) m) ≡ get_path (j ∷ p) o
get_path-put k j p o m =
    ap (λ (v : Option Value). as_map v >>= get_path (j ∷ p)) (get-put_self k (obj o) m)

write_at-read :
    (k : Text) (p : List Text) (v : Value) (m : Fields)
    → get_path (k ∷ p) (write_at (k ∷ p) v m) ≡ some v
unfolding write_at
write_at-read k [] v m = get-put_self k v m
write_at-read k (j ∷ p) v m =
    get_path-put k j p (write_at (j ∷ p) v (map_in k m)) m ∙ write_at-read j p v (map_in k m)

other_key : (k j : Text) → k ≢ j → (k == j) ≡ false
other_key k j h = ground (arith, eq_iff k j)

write_at-other :
    (p q : List Text) (v : Value) (m : Fields)
    → Diverge p q
    → get_path q (write_at p v m) ≡ get_path q m
unfolding write_at
write_at-other [] q v m h = absurd h
write_at-other (k ∷ p) [] v m h = absurd h
write_at-other (k ∷ []) (j ∷ q) v m h = elim h [
  | inl differ ↦ get_path-same j q _ m (get-put_other j k v m (other_key k j differ))
  | inr later ↦ absurd later
]
write_at-other (k ∷ i ∷ p) (j ∷ []) v m h = elim h [
  | inl differ ↦ get_path-same j [] _ m (get-put_other j k _ m (other_key k j differ))
  | inr later ↦ absurd later
]
write_at-other (k ∷ i ∷ p) (j ∷ l ∷ q) v m h = elim (Bool-cases (k == j)) [
  | inl same ↦
      let later : Diverge (i ∷ p) (l ∷ q) = elim h [
        | inl differ ↦ absurd (differ ((eq_iff k j).0 same))
        | inr later ↦ later
      ] in
      rw (sym ((eq_iff k j).0 same)) (
        get_path-put k l q (write_at (i ∷ p) v (map_in k m)) m
        ∙ write_at-other (i ∷ p) (l ∷ q) v (map_in k m) later
        ∙ get_path-map_in k (l ∷ q) m)
  | inr differ ↦ get_path-same j (l ∷ q) _ m (get-put_other j k _ m differ)
]

-- What a path holds behind the write of a result.
abbrev pub written : Option Value → Text → Option Value → Option Value
written none output_type old = some (default_value output_type)
written (some v) output_type old = if type_matches v output_type then some v else old

-- A result is written at a path that is not empty: the value where it has the configured type, the
-- type's default where there is none, and nothing where the type is another one. Every path that parts
-- from this one reads as before.
pub set_at_path-reads :
    (m : Fields) (k : Text) (p : List Text) (o : Option Value) (output_type : Text)
    → (get_path (k ∷ p) (set_at_path m (k ∷ p) o output_type)
        ≡ written o output_type (get_path (k ∷ p) m))
      × ((q : List Text)
          → Diverge (k ∷ p) q
          → get_path q (set_at_path m (k ∷ p) o output_type) ≡ get_path q m)
unfolding set_at_path
set_at_path-reads m k p none output_type =
    (write_at-read k p _ m, λ q h. write_at-other (k ∷ p) q _ m h)
set_at_path-reads m k p (some v) output_type = elim (Bool-cases (type_matches v output_type)) [
  | inl fits ↦ rw (fits, set_at_path) (write_at-read k p v m, λ q h. write_at-other (k ∷ p) q v m h)
  | inr differs ↦ rw (differs, set_at_path) (refl, λ q h. refl)
]
