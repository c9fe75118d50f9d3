-- ===== src/AppConfig/Fetcher/Sync.antt =====
-- The map in memory against the tables.
use go_you.Common.{
  ℕ, zero, suc, true, false, List, [], ◌∷◌, ◌+◌, ◌<◌, Option, none, some, Text, ◌==◌, eq_iff,
  contains, contains_iff, In, length, ltb, take, drop, drop-drop, drop_all, length-take,
  length-drop, take-append-drop, In-append, if◌then◌else◌, if-true, if-false, Bool-cases, ◌≡◌, ◌⊎◌,
  inl, inr, refl, sym, ap, ◌∙◌, arith, ◌≤◌,
}
use go_you.Common.Int.{ℤ, leb_ℤ, ◌<ℤ◌}
use go_you.Common.Maps.{lookup, lookup-insert}
use go_you.Json.{Value}
use go_you.AppConfig.Fetcher.{
  Tables, Fetcher, failed, fetch_value, merged, parse_value, store, refresh_key, refresh_keys,
  fetch_updates, fetch_all_configs, key_page_limit,
}

-- The page of keys at an offset.
abbrev pub page : ℕ → List Text → List Text
page offset keys = take key_page_limit (drop offset keys)

module _ (decode : Text → Option Value) where
  -- What a key reads as after a refresh that fetched `o`.
  abbrev pub after : Option Text → Option Value → Option Value
  after none old = old
  after (some v) old = some (parse_value decode v)

  lookup-store :
      (j k : Text) (o : Option Text) (f : Fetcher)
      → lookup j (store decode k o f).config_map
        ≡ (if k == j then after o (lookup j f.config_map) else lookup j f.config_map)
  unfolding store
  lookup-store j k none f = ground arith
  lookup-store j k (some v) f = lookup-insert j k (parse_value decode v) f.config_map

  store-override :
      (k : Text) (o : Option Text) (f : Fetcher)
      → (store decode k o f).override_used ≡ f.override_used
  unfolding store
  store-override k none f = refl
  store-override k (some v) f = refl

  after_twice : (o : Option Text) (old : Option Value) → after o (after o old) ≡ after o old
  after_twice none old = refl
  after_twice (some v) old = refl

  pub refresh_keys-override :
      (t : Tables) (ks : List Text) (f : Fetcher)
      → (refresh_keys decode t ks f).override_used ≡ f.override_used
  unfolding refresh_keys refresh_key
  refresh_keys-override t [] f = refl
  refresh_keys-override t (k ∷ ks) f =
      refresh_keys-override t ks (refresh_key decode t k f)
      ∙ store-override k (fetch_value f.override_used t k) f

  pub lookup-refresh_keys :
      (t : Tables) (ks : List Text) (f : Fetcher) (j : Text)
      → lookup j (refresh_keys decode t ks f).config_map ≡ (
          if contains j ks
          then after (fetch_value f.override_used t j) (lookup j f.config_map)
          else lookup j f.config_map)
  unfolding refresh_keys refresh_key contains
  lookup-refresh_keys t [] f j = refl
  lookup-refresh_keys t (k ∷ ks) f j = ground (
    arith,
    eq_iff k j,
    lookup-refresh_keys t ks (refresh_key decode t k f) j,
    store-override k (fetch_value f.override_used t k) f,
    lookup-store j k (fetch_value f.override_used t k) f,
    after_twice (fetch_value f.override_used t j) (lookup j f.config_map),
  )

  -- The value that the tables give a key, if any, is the one in memory, parsed.
  abbrev pub Loaded : Tables → Text → Fetcher → Type 0
  Loaded t k f =
      (v : Text)
      → fetch_value f.override_used t k ≡ some v
      → lookup k f.config_map ≡ some (parse_value decode v)

  after_value :
      (o : Option Text) (old : Option Value) (v : Text)
      → o ≡ some v
      → after o old ≡ some (parse_value decode v)
  after_value none old v e = cc
  after_value (some w) old v e = cc

  refresh_keys-Loaded :
      (t : Tables) (ks : List Text) (f : Fetcher) (k : Text)
      → In k ks ⊎ Loaded t k f
      → Loaded t k (refresh_keys decode t ks f)
  refresh_keys-Loaded t ks f k given v e =
      let fetched : fetch_value f.override_used t k ≡ some v =
        ap (λ u. fetch_value u t k) (sym (refresh_keys-override t ks f)) ∙ e in
      lookup-refresh_keys t ks f k ∙ elim (Bool-cases (contains k ks)) [
        | inl listed ↦ if-true _ _ _ listed ∙ after_value _ (lookup k f.config_map) v fetched
        | inr unlisted ↦ if-false _ _ _ unlisted ∙ elim given [
          | inl listed ↦ cc ((contains_iff k ks).1 listed)
          | inr held ↦ held v fetched
        ]
      ]

  -- The rows behind an offset are those of its page and those behind the page.
  In-page :
      (k : Text) (offset : ℕ) (keys : List Text)
      → In k (drop offset keys)
      → In k (page offset keys) ⊎ In k (drop (offset + key_page_limit) keys)
  In-page k offset keys listed =
      let parts =
        (In-append k (page offset keys) (drop key_page_limit (drop offset keys))).0
          (rw (take-append-drop key_page_limit (drop offset keys)) listed) in
      elim parts [
        | inl here ↦ inl here
        | inr later ↦ inr (rw (drop-drop key_page_limit offset keys) at later)
      ]

  full_page :
      (offset : ℕ) (keys : List Text)
      → ltb (length (page offset keys)) key_page_limit ≡ false
      → length (page offset keys) ≡ key_page_limit
  full_page offset keys full = ground (arith, length-take key_page_limit (drop offset keys))

  -- Behind a page that is not full there are no rows.
  last_page :
      (offset : ℕ) (keys : List Text)
      → ltb (length (page offset keys)) key_page_limit ≡ true
      → length keys ≤ offset + key_page_limit
  last_page offset keys short =
      ground (arith, length-take key_page_limit (drop offset keys), length-drop offset keys)

  read_page :
      (t : Tables) (keys : List Text) (offset : ℕ) (f : Fetcher) (k : Text)
      → In k (drop offset keys) ⊎ Loaded t k f
      → In k (drop (offset + key_page_limit) keys)
        ⊎ Loaded t k (refresh_keys decode t (page offset keys) f)
  read_page t keys offset f k (inl listed) = elim (In-page k offset keys listed) [
    | inl here ↦ inr (refresh_keys-Loaded t (page offset keys) f k (inl here))
    | inr later ↦ inl later
  ]
  read_page t keys offset f k (inr held) =
      inr (refresh_keys-Loaded t (page offset keys) f k (inr held))

  -- The loop ends, with every value behind the offset loaded and those before it kept.
  pub fetch_all_configs-Loaded :
      (t : Tables) (keys : List Text) (pages : ℕ → Option (List Text))
      → ((n : ℕ) → pages n ≡ some (page n keys))
      → (fuel offset : ℕ) (f : Fetcher) → length keys < fuel + offset
      → 0 < fuel
      → (end : Fetcher) × (fetch_all_configs decode t pages fuel offset f ≡ some end)
        × (end.override_used ≡ f.override_used)
        × ((k : Text) → In k (drop offset keys) ⊎ Loaded t k f → Loaded t k end)
  unfolding fetch_all_configs
  fetch_all_configs-Loaded t keys pages paged zero offset f enough some_ = absurd (omega arith)
  fetch_all_configs-Loaded t keys pages paged (suc fuel) offset f enough some_ =
      let f' = refresh_keys decode t (page offset keys) f in
      let kept = refresh_keys-override t (page offset keys) f in
      rw (paged offset, fetch_all_configs)
        (elim (Bool-cases (ltb (length (page offset keys)) key_page_limit)) [
          | inl short ↦
              rw (short, fetch_all_configs)
                (
                  f',
                  refl,
                  kept,
                  λ k given. elim (read_page t keys offset f k given) [
                    | inl later ↦
                        absurd (rw (drop_all _ keys (last_page offset keys short)) at later)
                    | inr held ↦ held
                  ],
                )
          | inr full ↦
              let long = full_page offset keys full in
              let (end, ends, same, held) =
                fetch_all_configs-Loaded t keys pages paged fuel
                  (offset + length (page offset keys)) f' (omega (arith, long))
                  (ground (
                    arith,
                    long,
                    length-take key_page_limit (drop offset keys),
                    length-drop offset keys,
                  )) in
              rw (full, fetch_all_configs)
                (
                  end,
                  ends,
                  same ∙ kept,
                  λ k given. held k (rw (long) (read_page t keys offset f k given)),
                )
        ])

  pub fetch_updates_newer :
      (t : Tables) (latest : ℤ) (seen : List Text) (f : Fetcher)
      → f.audit_id <ℤ latest
      → fetch_updates decode t latest (some seen) f
        ≡ record (refresh_keys decode t seen f) { audit_id = latest }
  unfolding fetch_updates
  fetch_updates_newer t latest seen f newer = if-false (leb_ℤ latest f.audit_id) _ _ (ground arith)

  fetch_updates_stale :
      (t : Tables) (latest : ℤ) (delta : Option (List Text)) (f : Fetcher)
      → latest ≡ f.audit_id
      → fetch_updates decode t latest delta f ≡ f
  unfolding fetch_updates
  fetch_updates_stale t latest delta f same =
      if-true (leb_ℤ latest f.audit_id) _ _ (rw same (ground arith))

  kept :
      (t : Tables) (seen : List Text) (f : Fetcher) (k : Text)
      → t.base k ≡ failed
      → lookup k (refresh_keys decode t seen f).config_map ≡ lookup k f.config_map
  unfolding fetch_value merged
  kept t seen f k broken = ground (arith, lookup-refresh_keys t seen f k, broken)

  -- A key that the delta query gives and whose value query fails keeps its old value, and the audit
  -- id is advanced all the same: the next update that finds no later audit row does nothing, whatever
  -- the tables hold by then.
  pub fetch_updates-loses :
      (t t' : Tables) (f : Fetcher) (latest : ℤ) (seen : List Text) (delta : Option (List Text))
      (k : Text)
      → f.audit_id <ℤ latest
      → t.base k ≡ failed
      → (lookup k (fetch_updates decode t latest (some seen) f).config_map ≡ lookup k f.config_map)
        × (fetch_updates decode t' latest delta (fetch_updates decode t latest (some seen) f)
            ≡ fetch_updates decode t latest (some seen) f)
  fetch_updates-loses t t' f latest seen delta k newer broken =
      let e = fetch_updates_newer t latest seen f newer in
      (
        ap (λ (g : Fetcher). lookup k g.config_map) e ∙ kept t seen f k broken,
        fetch_updates_stale t' latest delta _ (ap (λ (g : Fetcher). g.audit_id) (sym e)),
      )
