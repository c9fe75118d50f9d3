-- ===== src/AppConfig/Fetcher.antt =====
-- internal/appconfig/fetcher.go: the configuration that is kept in memory and refreshed from the
-- `configs` tables. What a query gives is a parameter of the step that makes it, and so is
-- `json.Unmarshal`; the schedule of the steps is the caller's.
pub mod Agree
pub mod Sync
use go_you.Common.{
  ℕ, zero, suc, Bool, true, false, ◌&&◌, ◌||◌, List, [], ◌∷◌, ◌+◌, Option, none, some, Text, codes,
  ◌==◌, ◌++◌, contains, length, ltb, get_or, if◌then◌else◌,
}
use go_you.Common.Int.{ℤ, pos, negsuc, leb_ℤ}
use go_you.Common.Maps.{Dict, lookup, insert}
use go_you.Json.{Value, obj, no_fields}

-- What `QueryRow(…).Scan` gives: an error, no row, or the column, which may be NULL.
pub data Row : Type 0 where
  failed no_row : Row
  row : Option Text → Row

-- The two tables as a step reads them; `override` is asked only where an override table is used.
pub record Tables : Type 0 where
  pub base : Text → Row
  pub override : Text → Row

pub record Fetcher : Type 0 where
  pub override_used : Bool
  pub config_map : Dict Value
  pub audit_id : ℤ

-- `NewFetcher` for a namespace.
pub new_fetcher : Text → Fetcher
new_fetcher namespace = record {
  override_used = not_own namespace;
  config_map = [];
  audit_id = pos 0;
}
  where
    not_own : Text → Bool
    not_own n = elim (n == [] || n == codes "you" || n == codes "token") [
      | true ↦ false
      | false ↦ true
    ]

-- The column, `none` where it is NULL or there is no row.
abbrev pub valid : Row → Option Text
valid failed = none
valid no_row = none
valid (row c) = c

abbrev pub or_else : Option Text → Option Text → Option Text
or_else none b = b
or_else (some a) b = some a

merged : Bool → Row → Row → Option Text
merged used failed o = none
merged false no_row o = none
merged true no_row o = valid o
merged false (row c) o = c
merged true (row c) o = or_else (valid o) c

-- The value that `refreshKey` stores; `none` where it stores nothing.
unfoldable pub fetch_value : Bool → Tables → Text → Option Text
unfolding merged
fetch_value override_used t key = merged override_used (t.base key) (t.override key)

abbrev pub key_page_limit : ℕ
key_page_limit = 30

-- `decode` is `json.Unmarshal` into an `any`, with `none` for its error.
module _ (decode : Text → Option Value) where
  unfoldable pub parse_value : Text → Value
  parse_value value = get_or (obj no_fields) (decode value)

  store : Text → Option Text → Fetcher → Fetcher
  unfolding parse_value
  store key none f = f
  store key (some value) f = record f { config_map = insert key (parse_value value) f.config_map }

  unfoldable pub refresh_key : Tables → Text → Fetcher → Fetcher
  unfolding store
  refresh_key t key f = store key (fetch_value f.override_used t key) f

  pub refresh_keys : Tables → List Text → Fetcher → Fetcher
  refresh_keys t [] f = f
  refresh_keys t (k ∷ ks) f = refresh_keys t ks (refresh_key t k f)

  -- `Get`: a key that is not there is fetched first.
  unfoldable pub get : Tables → Text → Value → Fetcher → Value × Fetcher
  get t key def f = elim (lookup key f.config_map) [
    | some v ↦ (v, f)
    | none ↦ let f' = refresh_key t key f in (get_or def (lookup key f'.config_map), f')
  ]

  -- `fetchAllConfigs` over the pages that its queries give, each the keys of its rows less the empty
  -- ones; `none` is a query that failed. The loop ends there and at a page that is not full; `none` of
  -- the result is a loop that has not ended within its fuel.
  pub fetch_all_configs : Tables → (ℕ → Option (List Text)) → ℕ → ℕ → Fetcher → Option Fetcher
  unfolding refresh_keys
  fetch_all_configs t pages zero offset f = none
  fetch_all_configs t pages (suc fuel) offset f = elim (pages offset) [
    | none ↦ some f
    | some keys ↦
        let f' = refresh_keys t keys f in
        let rest = fetch_all_configs t pages fuel (offset + length keys) f' in
        if ltb (length keys) key_page_limit then some f' else rest
  ]

  -- `fetchUpdates` with the latest audit id and the rows of the delta query, `none` where it failed.
  unfoldable pub fetch_updates : Tables → ℤ → Option (List Text) → Fetcher → Fetcher
  unfolding refresh_keys
  fetch_updates t latest delta f = if leb_ℤ latest f.audit_id then f else elim delta [
    | none ↦ f
    | some seen ↦ record (refresh_keys t seen f) { audit_id = latest }
  ]
