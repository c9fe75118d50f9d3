-- ===== src/Tests/Config.antt =====
-- Witnesses for the tenant configuration and the fetcher of the configs.
use go_you.Common.{
  ℕ, List, Bool-cases, true, false, [], ◌∷◌, Option, none, some, Text, codes, ◌==◌, eq_iff, In, ◌≡◌,
  ◌↔◌, inl, inr, refl, sym, arith, if◌then◌else◌,
}
use go_you.Common.Int.{pos}
use go_you.Common.Maps.{lookup}
use go_you.Json.{Value, no_fields, str}
use go_you.AppConfig.{YouConfiguration, WebsiteEntry}
use go_you.AppConfig.Websites.{crawl_set, EnabledFor, token_pool_sites, In-crawl_set}
use go_you.AppConfig.Fetcher.{
  Fetcher, Tables, row, no_row, failed, fetch_all_configs, fetch_updates,
}
use go_you.AppConfig.Fetcher.Agree.{
  Contents, Answered, Tells, Parses, InSync, Covered, fetch_all_configs-loads, fetch_updates-InSync,
}
use go_you.AppConfig.Fetcher.Sync.{page, fetch_updates-loses}

abbrev site_on : WebsiteEntry
site_on = record {
  enabled = true;
  phone_enabled = none;
  email_enabled = some false;
  client_response = none;
  cache = none;
}

abbrev tenant : YouConfiguration
tenant = record {
  raw = no_fields;
  websites = (codes "FLIPKART", site_on) ∷ (codes "SWIGGY", site_on) ∷ [];
  breach = false;
  phone_meta = false;
  email_meta = false;
  prediction = true;
  request_timeout = 5 ∷ 9 ∷ [];
  common_intelligence = no_fields;
  intelligence = no_fields;
  email_info = no_fields;
  phone_info = no_fields;
}

In-crawl_set_example :
    In
      (codes "FLIPKART")
      (crawl_set (codes "phone") (codes "SWIGGY" ∷ codes "FLIPKART" ∷ []) tenant (codes "MMT" ∷ []))
    ↔ (In (codes "FLIPKART") (codes "SWIGGY" ∷ codes "FLIPKART" ∷ [])
        × EnabledFor tenant (codes "FLIPKART") (codes "phone")
        × (¬ In (codes "FLIPKART") (codes "MMT" ∷ []))
        × (¬ In (codes "FLIPKART") token_pool_sites))
In-crawl_set_example =
    In-crawl_set (codes "phone") (codes "SWIGGY" ∷ codes "FLIPKART" ∷ []) tenant (codes "MMT" ∷ [])
      (codes "FLIPKART")

-- A decoder that takes every text but the empty one for a string.
abbrev decode : Text → Option Value
decode [] = none
decode (c ∷ s) = some (str (c ∷ s))

abbrev tables : Text → Tables
tables value = record {
  base = λ k. if k == codes "a" then row (some value) else no_row;
  override = λ k. no_row;
}

abbrev fetcher : Fetcher
fetcher = record { override_used = false; config_map = []; audit_id = pos 0 }

abbrev pages : ℕ → Option (List Text)
pages n = some (page n (codes "a" ∷ codes "b" ∷ []))

abbrev holds : Text → Contents
holds value = record {
  base = λ k. if k == codes "a" then some value else none;
  override = λ k. none;
}

answered : (value k : Text) → Answered (holds value) (tables value) k
answered value k = elim (Bool-cases (k == codes "a")) [
  | inl same ↦ rw same (λ e. cc, λ e. cc, refl, refl)
  | inr other ↦ rw other (λ e. cc, λ e. cc, refl, refl)
]

fetch_all_configs-loads_example :
    (end : Fetcher) × (fetch_all_configs decode (tables (codes "1")) pages 3 0 fetcher ≡ some end)
    × ((k v : Text)
        → In k (codes "a" ∷ codes "b" ∷ [])
        → Tells false (holds (codes "1")) k v
        → (x : Value) × (lookup k end.config_map ≡ some x) × Parses decode v x)
fetch_all_configs-loads_example =
    fetch_all_configs-loads decode (holds (codes "1")) (tables (codes "1"))
      (codes "a" ∷ codes "b" ∷ []) pages fetcher (λ n. refl) (λ k listed. answered (codes "1") k)

abbrev loaded : Fetcher
loaded = record {
  override_used = false;
  config_map = (codes "a", str (codes "1")) ∷ [];
  audit_id = pos 4;
}

told_only_a :
    (value k v : Text) → Tells false (holds value) k v → (k == codes "a" ≡ true) × (value ≡ v)
told_only_a value k v told = ground arith

one-Parses : (x : Value) → Parses decode (codes "1") x → some (str (codes "1")) ≡ some x
one-Parses x (inl e) = e
one-Parses x (inr (e, _)) = cc

loaded_agrees : InSync decode (holds (codes "1")) loaded
unfolding lookup ◌==◌
loaded_agrees k x = elim (Bool-cases (k == codes "a")) [
  | inl same ↦
      let flip : (codes "a" == k) ≡ true =
        ground (arith, eq_iff k (codes "a"), eq_iff (codes "a") k) in
      rw flip (
        λ e. (codes "1", inr (inl refl, rw same refl), inl e),
        λ (v, told, parses). one-Parses x (rw (sym (told_only_a (codes "1") k v told).1) at parses),
      )
  | inr other ↦
      let flip : (codes "a" == k) ≡ false =
        ground (arith, eq_iff k (codes "a"), eq_iff (codes "a") k) in
      rw flip (λ e. cc, λ (v, told, parses). cc (other, (told_only_a (codes "1") k v told).0))
]

covered :
    (k : Text)
    → Covered (holds (codes "1")) (holds (codes "2")) (tables (codes "2")) (codes "a" ∷ []) k
covered k = elim (Bool-cases (k == codes "a")) [
  | inl same ↦ inl (inl (sym ((eq_iff k (codes "a")).0 same)), answered (codes "2") k)
  | inr other ↦ inr (
    λ listed. elim listed [
      | inl e ↦ cc (other, (eq_iff k (codes "a")).1 (sym e))
      | inr later ↦ absurd later
    ],
    rw other refl,
    refl,
  )
]

still_told :
    (k v : Text)
    → Tells false (holds (codes "1")) k v
    → (w : Text) × Tells false (holds (codes "2")) k w
still_told k v told =
    let is_a = (told_only_a (codes "1") k v told).0 in (codes "2", inr (inl refl, rw is_a refl))

fetch_updates-InSync_example :
    InSync decode
      (holds (codes "2"))
      (fetch_updates decode (tables (codes "2")) (pos 7) (some (codes "a" ∷ [])) loaded)
    × ((fetch_updates decode (tables (codes "2")) (pos 7) (some (codes "a" ∷ [])) loaded).audit_id
        ≡ pos 7)
fetch_updates-InSync_example =
    fetch_updates-InSync decode (holds (codes "1")) (holds (codes "2")) (tables (codes "2")) loaded
      (pos 7) (codes "a" ∷ []) loaded_agrees (omega arith) covered still_told

abbrev broken : Tables
broken = record { base = λ k. failed; override = λ k. no_row }

fetch_updates-loses_example :
    (lookup
        (codes "a")
        (fetch_updates decode broken (pos 7) (some (codes "a" ∷ [])) loaded).config_map
      ≡ lookup (codes "a") loaded.config_map)
    × (fetch_updates decode
          (tables (codes "2"))
          (pos 7)
          none
          (fetch_updates decode broken (pos 7) (some (codes "a" ∷ [])) loaded)
        ≡ fetch_updates decode broken (pos 7) (some (codes "a" ∷ [])) loaded)
fetch_updates-loses_example =
    fetch_updates-loses decode broken (tables (codes "2")) loaded (pos 7) (codes "a" ∷ []) none
      (codes "a") (omega arith) refl
