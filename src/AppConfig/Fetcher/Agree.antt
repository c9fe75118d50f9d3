-- ===== src/AppConfig/Fetcher/Agree.antt =====
-- The map in memory against what the two tables hold.
use go_you.Common.{
  ℕ, Bool, true, false, List, ◌+◌, Option, none, some, Text, contains, contains_iff, In, length,
  Option-cases, if-true, if-false, ◌≡◌, ◌≢◌, ◌⊎◌, ◌↔◌, inl, inr, refl, sym, ap, ◌∙◌, arith,
}
use go_you.Common.Int.{ℤ, ◌<ℤ◌}
use go_you.Common.Maps.{lookup}
use go_you.Json.{Value, obj, no_fields}
use go_you.AppConfig.Fetcher.{
  Row, failed, no_row, row, valid, Tables, Fetcher, merged, fetch_value, parse_value, refresh_keys,
  fetch_updates, fetch_all_configs,
}
use go_you.AppConfig.Fetcher.Sync.{
  page, after, lookup-refresh_keys, refresh_keys-override, fetch_updates_newer,
  fetch_all_configs-Loaded,
}

-- What the tables hold: a key's column, `none` where it is NULL or has no row.
pub record Contents : Type 0 where
  pub base : Text → Option Text
  pub override : Text → Option Text

-- The two queries for a key succeed and give what the tables hold.
abbrev pub Answered : Contents → Tables → Text → Type 0
Answered c t k =
    (t.base k ≢ failed)
    × (t.override k ≢ failed)
    × (valid (t.base k) ≡ c.base k)
    × (valid (t.override k) ≡ c.override k)

-- The tables tell a key a value: the override's, where a table of overrides is used and has one, and
-- else the base table's.
abbrev pub Tells : Bool → Contents → Text → Text → Type 0
Tells used c k v =
    ((used ≡ true) × (c.override k ≡ some v))
    ⊎ (((used ≡ false) ⊎ (c.override k ≡ none)) × (c.base k ≡ some v))

merged-Told :
    (used : Bool) (b o : Row) (v : Text)
    → b ≢ failed
    → (merged used b o ≡ some v) ↔ (
        ((used ≡ true) × (valid o ≡ some v))
        ⊎ (((used ≡ false) ⊎ (valid o ≡ none)) × (valid b ≡ some v)))
unfolding merged
merged-Told used failed o v h = absurd (h refl)
merged-Told false no_row o v h = ground arith
merged-Told true no_row o v h = ground arith
merged-Told false (row c) o v h = ground arith
merged-Told true (row c) failed v h = ground arith
merged-Told true (row c) no_row v h = ground arith
merged-Told true (row c) (row none) v h = ground arith
merged-Told true (row c) (row (some w)) v h = ground arith

fetch_value-Tells :
    (used : Bool) (c : Contents) (t : Tables) (k v : Text)
    → Answered c t k
    → (fetch_value used t k ≡ some v) ↔ Tells used c k v
unfolding fetch_value
fetch_value-Tells used c t k v (base_ok, override_ok, base_is, override_is) =
    rw (sym base_is, sym override_is) (merged-Told used (t.base k) (t.override k) v base_ok)

Tells-same :
    (used : Bool) (c c' : Contents) (k v : Text)
    → (c'.base k ≡ c.base k) × (c'.override k ≡ c.override k)
    → Tells used c k v ↔ Tells used c' k v
Tells-same used c c' k v (same_base, same_override) = ground (arith, same_base, same_override)

-- A key that the delta gives and whose queries give what the tables hold, or one that the delta does
-- not give and that does not change.
abbrev pub Covered : Contents → Contents → Tables → List Text → Text → Type 0
Covered c c' t seen k =
    (In k seen × Answered c' t k)
    ⊎ ((¬ In k seen) × (c'.base k ≡ c.base k) × (c'.override k ≡ c.override k))

module _ (decode : Text → Option Value) where
  -- The value of a text: its JSON, or an empty object where it has none.
  abbrev pub Parses : Text → Value → Type 0
  Parses v x = (decode v ≡ some x) ⊎ ((decode v ≡ none) × (x ≡ obj no_fields))

  parse_value-Parses : (v : Text) (x : Value) → (parse_value decode v ≡ x) ↔ Parses v x
  unfolding parse_value
  parse_value-Parses v x = elim (Option-cases (decode v)) [
    | inl none_ ↦ rw none_ (λ e. inr (refl, sym e), λ h. elim h [ inl e ↦ cc | inr e ↦ sym e.1 ])
    | inr (y, some_) ↦ rw some_ (λ e. inl (ap some e), λ h. elim h [ inl e ↦ cc | inr e ↦ cc ])
  ]

  -- The map has a value under a key exactly if the tables tell the key a text of that value.
  abbrev pub InSync : Contents → Fetcher → Type 0
  InSync c f =
      (k : Text) (x : Value)
      → (lookup k f.config_map ≡ some x) ↔ ((v : Text) × Tells f.override_used c k v × Parses v x)

  -- What a refreshed key reads as, where it is told something if it was before.
  refreshed :
      (used : Bool) (c c' : Contents) (t : Tables) (k : Text) (x : Value) (old : Option Value)
      → Answered c' t k
      → ((v : Text) → Tells used c k v → (w : Text) × Tells used c' k w)
      → ((old ≡ some x) ↔ ((v : Text) × Tells used c k v × Parses v x))
      → (after decode (fetch_value used t k) old ≡ some x)
        ↔ ((v : Text) × Tells used c' k v × Parses v x)
  refreshed used c c' t k x old answered still synced = elim (Option-cases (fetch_value used t k)) [
    | inl silent ↦
        let never : (v : Text) → ¬ Tells used c' k v =
          λ v told. cc (silent, (fetch_value-Tells used c' t k v answered).1 told) in
        rw silent (
          λ e.
              let (v, told, _) = synced.0 e in
              let (w, told') = still v told in absurd (never w told'),
          λ (v, told, _). absurd (never v told),
        )
    | inr (w, fetched) ↦ rw fetched (
      λ e. (
        w,
        (fetch_value-Tells used c' t k w answered).0 fetched,
        (parse_value-Parses w x).0 (cc e),
      ),
      λ (v, told, parses).
          let same : fetch_value used t k ≡ some v =
            (fetch_value-Tells used c' t k v answered).1 told in
          let e : w ≡ v = cc (same, fetched) in
          ap some (ap (parse_value decode) e ∙ (parse_value-Parses v x).1 parses),
    )
  ]

  refreshed-InSync :
      (c c' : Contents) (t : Tables) (f : Fetcher) (seen : List Text)
      → InSync c f
      → ((k : Text) → Covered c c' t seen k)
      → ((k v : Text) → Tells f.override_used c k v → (w : Text) × Tells f.override_used c' k w)
      → (k : Text) (x : Value)
      → (lookup k (refresh_keys decode t seen f).config_map ≡ some x)
        ↔ ((v : Text) × Tells f.override_used c' k v × Parses v x)
  refreshed-InSync c c' t f seen synced covered still k x =
      let read = lookup-refresh_keys decode t seen f k in
      elim (covered k) [
        | inl (listed, answered) ↦
            let now = read ∙ if-true (contains k seen) _ _ ((contains_iff k seen).1 listed) in
            rw now (
              refreshed f.override_used c c' t k x (lookup k f.config_map) answered (still k)
                (synced k x))
        | inr (unseen, same_base, same_override) ↦
            let same : (c'.base k ≡ c.base k) × (c'.override k ≡ c.override k) =
              (same_base, same_override) in
            let unlisted : contains k seen ≡ false = ground (arith, contains_iff k seen, unseen) in
            rw (read ∙ if-false (contains k seen) _ _ unlisted) (
              λ e.
                  let (v, told, parses) = (synced k x).0 e in
                  (v, (Tells-same f.override_used c c' k v same).0 told, parses),
              λ (v, told, parses).
                  (synced k x).1 (v, (Tells-same f.override_used c c' k v same).1 told, parses),
            )
      ]

  -- Where the map agrees with the tables, the tables change only at keys of the delta, the queries for
  -- these succeed and give what the tables hold then, no key loses its value and the latest audit id is
  -- greater than the one kept, an update makes the map agree with the changed tables and keeps that id.
  pub fetch_updates-InSync :
      (c c' : Contents) (t : Tables) (f : Fetcher) (latest : ℤ) (seen : List Text)
      → InSync c f
      → f.audit_id <ℤ latest
      → ((k : Text) → Covered c c' t seen k)
      → ((k v : Text) → Tells f.override_used c k v → (w : Text) × Tells f.override_used c' k w)
      → InSync c' (fetch_updates decode t latest (some seen) f)
        × ((fetch_updates decode t latest (some seen) f).audit_id ≡ latest)
  fetch_updates-InSync c c' t f latest seen synced newer covered still =
      rw (fetch_updates_newer decode t latest seen f newer, refresh_keys-override decode t seen f)
        (refreshed-InSync c c' t f seen synced covered still, refl)

  -- Where the pages give the keys of the base table in order, none of which is empty, and the queries
  -- for each of them give what the tables hold, the loop over the pages ends within one round more than
  -- there are keys, and each key that the tables tell a text is in memory with that text's value.
  pub fetch_all_configs-loads :
      (c : Contents) (t : Tables) (keys : List Text) (pages : ℕ → Option (List Text)) (f : Fetcher)
      → ((n : ℕ) → pages n ≡ some (page n keys))
      → ((k : Text) → In k keys → Answered c t k)
      → (end : Fetcher) × (fetch_all_configs decode t pages (length keys + 1) 0 f ≡ some end)
        × ((k v : Text)
            → In k keys
            → Tells f.override_used c k v
            → (x : Value) × (lookup k end.config_map ≡ some x) × Parses v x)
  fetch_all_configs-loads c t keys pages f paged answered =
      let (end, ends, same, held) =
        fetch_all_configs-Loaded decode t keys pages paged (length keys + 1) 0 f (omega arith)
          (omega arith) in
      (
        end,
        ends,
        λ k v listed told. (
          parse_value decode v,
          held k (inl listed) v (
              ap (λ (u : Bool). fetch_value u t k) same
              ∙ (fetch_value-Tells f.override_used c t k v (answered k listed)).1 told),
          (parse_value-Parses v (parse_value decode v)).0 refl,
        ),
      )
