-- ===== src/CommonData/Replay.antt =====
-- A check that succeeded is answered from the cache.
use go_you.Common.{
  true, false, List, [], ◌∷◌, Option, none, some, ◌>>=◌, Text, ◌==◌, eq_iff, In, contains_iff,
  if◌then◌else◌, if-true, if-false, ◌≡◌, ◌≢◌, refl, ap, ◌∙◌, arith,
}
use go_you.Common.Int.{ℤ}
use go_you.Json.{Value, Fields, no_fields, field, is_empty}
use go_you.Json
use go_you.AppConfig.{YouConfiguration, is_caching_enabled}
use go_you.Dynamo.{Dynamo, hit}
use go_you.PersonaCache.{Repo, get, get_doc}
use go_you.Handler.Clean.{is_null}
use go_you.CommonData.{
  EnrichConfig, EnrichRequest, Post, enrich_config, enabled_checks, answer, run_checks, merge_doc,
  bare_error, cached_value, found_doc, key_of, fetch_cached, fetch_enabled, fetch_configured, fetch,
}
use go_you.CommonData.Stored.{over, get-run_checks, run_checks-Distinct, get-merge_doc}

not_empty : (k : Text) (m : Fields) (v : Value) → Json.get k m ≡ some v → is_empty m ≡ false
unfolding Json.get
not_empty k no_fields v h = absurd (ground arith)
not_empty k (field j w m) v h = refl

cached_value_filled :
    (check : Text) (cached : Fields) (v : Value)
    → Json.get check cached ≡ some v
    → is_null v ≡ false
    → cached_value check cached ≡ some v
unfolding cached_value
cached_value_filled check cached v found filled =
    ap (λ (o : Option Value). o >>= λ w. if is_null w then none else some w) found
    ∙ if-false _ _ _ filled

-- A value that is there and not nil is the answer, whatever the client would say.
answer_cached :
    (post : Post) (cfg : EnrichConfig) (req : EnrichRequest) (cached : Fields) (check : Text)
    (v : Value)
    → Json.get check cached ≡ some v
    → is_null v ≡ false
    → answer post cfg req cached check ≡ v
unfolding answer
answer_cached post cfg req cached check v found filled =
    rw (cached_value_filled check cached v found filled, answer) refl

result_cached :
    (post : Post) (cfg : EnrichConfig) (req : EnrichRequest) (cached : Fields) (checks : List Text)
    (check : Text) (v : Value)
    → In check checks
    → Json.get check cached ≡ some v
    → is_null v ≡ false
    → Json.get check (run_checks post cfg req cached checks) ≡ some v
result_cached post cfg req cached checks check v listed found filled =
    get-run_checks post cfg req cached checks check
    ∙ if-true _ _ _ ((contains_iff check checks).1 listed)
    ∙ ap some (answer_cached post cfg req cached check v found filled)

-- A result that is no bare error is in the document that is written.
stored_value :
    (post : Post) (cfg : EnrichConfig) (req : EnrichRequest) (cached : Fields) (checks : List Text)
    (check : Text) (v : Value)
    → Json.get check (run_checks post cfg req cached checks) ≡ some v
    → bare_error v ≡ false
    → Json.get check (merge_doc cached (run_checks post cfg req cached checks)) ≡ some v
stored_value post cfg req cached checks check v result full =
    get-merge_doc check cached _ (run_checks-Distinct post cfg req cached checks)
    ∙ ap (over (Json.get check cached)) result
    ∙ if-false _ _ _ full

module _ {S : Type 0} (db : Dynamo S) (md5 : Text → Text) (decode : Text → Option Fields) where
  enabled_on :
      (r : Repo) (post : Post) (cfg : EnrichConfig) (req : EnrichRequest) (checks : List Text)
      (check : Text) (now : ℤ) (s : S)
      → In check checks
      → fetch_enabled db md5 decode (some r) post cfg req checks true now s ≡ (
        some (fetch_cached db md5 decode r post cfg req checks now s).0,
        (fetch_cached db md5 decode r post cfg req checks now s).1,
      )
  unfolding fetch_enabled
  enabled_on r post cfg req [] check now s listed = absurd listed
  enabled_on r post cfg req (c ∷ checks) check now s listed = refl

  pub fetch_on :
      (r : Repo) (row : Option Value) (post : Post) (cfg : EnrichConfig) (req : EnrichRequest)
      (yc : YouConfiguration) (check : Text) (now : ℤ) (s : S)
      → enrich_config row ≡ some cfg
      → is_caching_enabled (some yc) ≡ true
      → In check (enabled_checks yc)
      → fetch db md5 decode
          (some (record { row = row; cache = some r }))
          post
          (some req)
          (some yc)
          now
          s
        ≡ (
          some (fetch_cached db md5 decode r post cfg req (enabled_checks yc) now s).0,
          (fetch_cached db md5 decode r post cfg req (enabled_checks yc) now s).1,
        )
  unfolding fetch fetch_configured
  fetch_on r row post cfg req yc check now s configured caching listed =
      rw (configured, caching) (enabled_on r post cfg req (enabled_checks yc) check now s listed)

  pub get_doc_hit :
      (r : Repo) (s : S) (k : Text) (now : ℤ) (doc : Fields)
      → k ≢ []
      → get db (some r) decode s k now ≡ hit doc
      → found_doc (get_doc db (some r) decode s k now) ≡ doc
  unfolding get_doc
  get_doc_hit r s k now doc named read =
      ap found_doc (if-false (k == []) _ _ (ground (arith, eq_iff k [])) ∙ read)

  pub served_results :
      (r : Repo) (post : Post) (cfg : EnrichConfig) (req : EnrichRequest) (checks : List Text)
      (check : Text) (v : Value) (merged : Fields) (now : ℤ) (t : S)
      → In check checks
      → found_doc (get_doc db (some r) decode t (key_of md5 req) now) ≡ merged
      → Json.get check merged ≡ some v
      → is_null v ≡ false
      → Json.get check (fetch_cached db md5 decode r post cfg req checks now t).0 ≡ some v
  unfolding fetch_cached
  served_results r post cfg req checks check v merged now t listed read found filled =
      result_cached post cfg req _ checks check v listed (ap (Json.get check) read ∙ found) filled
