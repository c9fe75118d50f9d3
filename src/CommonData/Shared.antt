-- ===== src/CommonData/Shared.antt =====
-- The enrich checks of any number of requests over one cache.
use go_you.Common.{
  ℕ, ◌+◌, ◌<◌, Bool, true, false, List, [], ◌∷◌, ◌++◌, Option, none, some, Text, In, Option-cases,
  ◌≡◌, ◌≢◌, ◌⊎◌, inl, inr, refl, sym, ap, ◌∙◌, arith,
}
use go_you.Common.Int.{ℤ, pos}
use go_you.Json
use go_you.Json.{Value, Fields, no_fields, obj}
use go_you.AppConfig.{YouConfiguration, is_caching_enabled}
use go_you.Dynamo.{Dynamo, IsStore, hit}
use go_you.PersonaCache.{Repo, ttl_seconds, get, put, get_doc}
use go_you.PersonaCache.WriteBack.{
  Write, Found, State, Label, Steps, land, landing, Encodes, InRange, Claim, AnyDoc, Keeps, IsEmpty,
  IsEmpty-Claimed, Step-Claimed, Steps-Claimed, Spares, Steps-get, landed-get,
}
use go_you.Handler.Clean.{is_null}
use go_you.CommonData.{
  EnrichConfig, EnrichRequest, Service, Post, enrich_config, enabled_checks, run_checks, merge_doc,
  found_doc, key_of, left_write, fetch_cached, fetch_enabled, fetch_configured, fetch, call_check,
}
use go_you.CommonData.Replay.{fetch_on, get_doc_hit, served_results}

abbrev pub Anything : Label → Type 0
Anything l = Unit

module _ {S : Type 0} (db : Dynamo S) (md5 : Text → Text) (r : Repo) (encode : Fields → Option Text)
    (decode : Text → Option Fields) (client : ℕ → Post) where
  abbrev pub service : Option Value → Option Service
  service row = some (record { row = row; cache = some r })

  -- The writes that a request leaves that asks the client of its time, whatever store it met, if what
  -- its read found there is among what was read.
  abbrev pub Queued : List (Found Fields) → Write Fields → Type 0
  Queued reads w =
      (row : Option Value) × (req : EnrichRequest) × (yc : YouConfiguration) × (n : ℕ) × (s : S)
      × InRange (pos n) n
      × ((doc : Fields)
          → get db (some r) decode s (key_of md5 req) (pos n) ≡ hit doc
          → (x : Found Fields) × In x reads × (x.key ≡ key_of md5 req) × (x.doc ≡ doc))
      × ((fetch db md5 decode (service row) (client n) (some req) (some yc) (pos n) s).1 ≡ some w)

  -- The encoding of a document is not shared with anything.
  abbrev pub Seen : Fields → Fields → Type 0
  Seen x y = x ≡ y

  -- The value is what the client answered, with the status 200, to a request with the key.
  abbrev pub Answered : Text → Value → Type 0
  Answered k v =
      (n : ℕ) × (cfg : EnrichConfig) × (req : EnrichRequest) × (id : Text) × (m : Fields) × (key_of
          md5 req
        ≡ k)
      × (call_check (client n) cfg id req ≡ some m)
      × (v ≡ obj m)

  abbrev pub Told : Claim Fields
  Told k doc n = (check : Text) (v : Value) → Json.get check doc ≡ some v → Answered k v

  left-Write :
      (k : Text) (doc : Fields) (now : ℤ) (w : Write Fields)
      → left_write k doc now ≡ some w
      → w ≡ record { key = k; doc = doc; now = now }
  unfolding left_write
  left-Write k doc now w h = ground (arith, h)

  -- A write that a request leaves is that of its merged document.
  abbrev IsWrite : Post → EnrichRequest → ℤ → S → Write Fields → Type 0
  IsWrite post req now s w =
      (cfg : EnrichConfig) × (checks : List Text) × (let cached =
          found_doc (get_doc db (some r) decode s (key_of md5 req) now) in
        w ≡ record {
          key = key_of md5 req;
          doc = merge_doc cached (run_checks post cfg req cached checks);
          now = now;
        })

  enabled-IsWrite :
      (post : Post) (cfg : EnrichConfig) (req : EnrichRequest) (checks : List Text) (caching : Bool)
      (now : ℤ) (s : S) (w : Write Fields)
      → (fetch_enabled db md5 decode (some r) post cfg req checks caching now s).1 ≡ some w
      → IsWrite post req now s w
  unfolding fetch_enabled fetch_cached
  enabled-IsWrite post cfg req [] true now s w h = cc
  enabled-IsWrite post cfg req [] false now s w h = cc
  enabled-IsWrite post cfg req (check ∷ checks) false now s w h = cc
  enabled-IsWrite post cfg req (check ∷ checks) true now s w h =
      (cfg, check ∷ checks, left-Write _ _ now w h)

  fetch-IsWrite :
      (row : Option Value) (post : Post) (req : EnrichRequest) (yc : YouConfiguration) (now : ℤ)
      (s : S) (w : Write Fields)
      → (fetch db md5 decode (service row) post (some req) (some yc) now s).1 ≡ some w
      → IsWrite post req now s w
  unfolding fetch fetch_configured
  fetch-IsWrite row post req yc now s w h = elim (Option-cases (enrich_config row)) [
    | inl off ↦ let no : ◌≡◌ {A = Option (Write Fields)} none (some w) = rw off at h in cc
    | inr (cfg, configured) ↦
        enabled-IsWrite post cfg req (enabled_checks yc) (is_caching_enabled (some yc)) now s w
          (rw configured at h)
  ]

  queued-InRange :
      (reads : List (Found Fields)) (w : Write Fields)
      → Queued reads w
      → (n : ℕ) × InRange w.now n × AnyDoc w.key w.doc n
  queued-InRange reads w (row, req, yc, n, s, range, among, left) =
      let (cfg, checks, is) = fetch-IsWrite row (client n) req yc (pos n) s w left in
      rw is (n, range, tt)

  -- What a fetch gives are the results of its checks over what it read or over nothing.
  abbrev AreResults : Post → EnrichRequest → ℤ → S → Fields → Type 0
  AreResults post req now s answers =
      (cfg : EnrichConfig) × (checks : List Text) × (cached : Fields) × ((cached
          ≡ found_doc (get_doc db (some r) decode s (key_of md5 req) now))
        ⊎ (cached ≡ no_fields))
      × (run_checks post cfg req cached checks ≡ answers)

  -- A value that is not nil and whose document has landed is the result of every later request with the
  -- same key that has the check enabled, until the next write of that key lands, for 15 days and
  -- whatever else the requests read, ask and write and the client would answer then. Caching is on and
  -- the checks are configured; the cache was empty at first and does what `fetch-Answered` asks of it.
  pub fetch-replays :
      (store : IsStore db) (encodes : Encodes encode decode)
      → (start u : State S Fields) (s t : S) (reads : List (Found Fields))
        (before after : List (Write Fields)) (w : Write Fields) (row : Option Value)
        (cfg : EnrichConfig) (req : EnrichRequest) (yc : YouConfiguration) (post : Post)
        (check : Text) (v : Value) (written now : ℕ)
      → IsEmpty db r encode decode Queued Seen store encodes start
      → Steps db r encode decode Queued Seen Anything start
          (record { store = s; reads = reads; pending = before ++ (w ∷ after) })
      → put db (some r) encode s w.key (some w.doc) w.now ≡ some t
      → Steps db r encode decode Queued Seen
          (Spares w.key)
          (record {
            store = landing db r encode s w.key w.doc w.now;
            reads = reads;
            pending = before ++ after;
          })
          u
      → enrich_config row ≡ some cfg
      → is_caching_enabled (some yc) ≡ true
      → In check (enabled_checks yc)
      → w.key ≡ key_of md5 req
      → w.key ≢ []
      → Json.get check w.doc ≡ some v
      → is_null v ≡ false
      → InRange w.now written
      → now < written + ttl_seconds
      → (answers : Fields) × ((fetch db md5 decode
            (service row)
            post
            (some req)
            (some yc)
            (pos now)
            u.store).0
          ≡ some answers)
        × (Json.get check answers ≡ some v)
  fetch-replays store encodes start u s t reads before after w row cfg req yc post check v written
        now empty steps stored quiet configured caching listed same_key named found filled range
        live =
      let keeps : Keeps db r encode decode Queued Seen store encodes AnyDoc =
        (λ reads' w' sound queued. queued-InRange reads' w' queued, λ k d x n claim same. tt) in
      let claimed =
        Step-Claimed db r encode decode Queued Seen store encodes AnyDoc keeps
          (land s reads before after w w.doc refl)
          (Steps-Claimed db r encode decode Queued Seen store encodes AnyDoc keeps Anything start
            (IsEmpty-Claimed db r encode decode Queued Seen store encodes AnyDoc start empty) _
            steps) in
      let read : get db (some r) decode u.store (key_of md5 req) (pos now) ≡ hit w.doc =
        ap (λ (k : Text). get db (some r) decode u.store k (pos now)) (sym same_key)
        ∙ Steps-get db r encode decode Queued Seen store encodes w.key now keeps _ claimed u quiet
        ∙ landed-get db r encode decode store encodes s t w.key w.doc w.now written now range stored
            live in
      let named' : key_of md5 req ≢ [] = λ e. named (same_key ∙ e) in
      (
        (fetch_cached db md5 decode r post cfg req (enabled_checks yc) (pos now) u.store).0,
        ap (λ (p : Option Fields × Option (Write Fields)). p.0)
            (fetch_on db md5 decode r row post cfg req yc check (pos now) u.store configured caching
              listed),
        served_results db md5 decode r post cfg req (enabled_checks yc) check v w.doc (pos now)
            u.store listed
            (get_doc_hit db md5 decode r u.store (key_of md5 req) (pos now) w.doc named' read) found
            filled,
      )
