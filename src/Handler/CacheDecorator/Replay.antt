-- ===== src/Handler/CacheDecorator/Replay.antt =====
-- What a second request gets from the cache.
use go_you.Common.{
  none, Bool-cases, inl, inr, sym, Bool, true, false, not, Option, some, Text, ◌==◌, [], ◌≡◌, ◌∙◌,
  refl, ap, if◌then◌else◌, if-false,
}
use go_you.Common.Int.{ℤ}
use go_you.Dynamo.{Dynamo, Read, missed, broken, hit}
use go_you.PersonaCache.{Repo, key, get}
use go_you.PersonaCache.WriteBack.{Write}
use go_you.Handler.CacheDecorator.{
  is_hit, Response, Kind, phone, email, kind_text, set_section, wrap_section, section_from_cache,
  LaneState, Lane, Decorator, replay, gate, write_back, run, serve,
}

key-filled :
    (md5 : Text → Text) (repo : Option Repo) (kind : Kind) (login_id tenant : Text)
    → (key md5 repo (kind_text kind) login_id tenant == []) ≡ false
unfolding key ◌==◌
key-filled md5 repo phone login_id tenant = refl
key-filled md5 repo email login_id tenant = refl

pub section-wrap :
    {S : Type 0} (kind : Kind) (sec : S)
    → section_from_cache kind (wrap_section kind sec) ≡ some sec
unfolding section_from_cache wrap_section
section-wrap phone sec = refl
section-wrap email sec = refl

replayed :
    {D S : Type 0} (kind : Kind) (resp : Response S) (sec : S) (t : D)
    → let pair : Response S → Response S × D = λ x. (x, t) in
      pair (replay kind resp (hit (wrap_section kind sec)))
      ≡ pair (set_section kind resp (some sec))
unfolding replay
replayed kind resp sec t =
    let pair : Option _ → Response _ × _ = λ o. (set_section kind resp o, t) in
    ap pair (section-wrap kind sec)

module _ {D S : Type 0} (db : Dynamo D) (md5 : Text → Text) (r : Repo)
    (decode : Text → Option (Response S)) (lane : Lane S) where
  abbrev pub key_of : LaneState S → Text
  key_of st = key md5 (some r) (kind_text lane.kind) st.login_id st.tenant_id

  -- `Gate` of an open lane with caching on.
  gate-cached :
      (d : D) (now : ℤ) (st : LaneState S) (answer : Read (Response S))
      → lane.gate st ≡ true
      → st.caching ≡ true
      → get db (some r) decode d (key_of st) now ≡ answer
      → gate db md5 (some r) decode lane d now st ≡ (
        not (is_hit answer),
        record { found = is_hit answer; cache_key = key_of st; now = now },
        replay lane.kind st.resp answer,
      )
  unfolding gate
  gate-cached d now st answer gated cached e =
      if-false _ _ _ (ap not gated)
      ∙ if-false _ _ _ (ap not cached)
      ∙ ap
          (λ x. (
            not (is_hit x),
            record { found = is_hit x; cache_key = key_of st; now = now },
            replay lane.kind st.resp x,
          ))
          e

  abbrev pub write_of : LaneState S → ℤ → S → Write (Response S)
  write_of st now sec = record { key = key_of st; doc = wrap_section lane.kind sec; now = now }

  -- `Run` behind a miss leaves the write of the fresh section.
  run-fresh :
      (now : ℤ) (st : LaneState S) (o : Option S)
      → lane.run st ≡ o
      → run db md5
          (some r)
          decode
          lane
          (record { found = false; cache_key = key_of st; now = now })
          st
        ≡ (
          set_section lane.kind st.resp o,
          write_back db md5
              (some r)
              decode
              lane
              (record { found = false; cache_key = key_of st; now = now })
              o,
        )
  unfolding run
  run-fresh now st o fresh =
      let filled = key-filled md5 (some r) lane.kind st.login_id st.tenant_id in
      rw (filled, fresh) refl

  after_gate :
      LaneState S → Bool × Decorator × Response S → Response S × Option (Write (Response S))
  after_gate st g = if g.0 then run db md5 (some r) decode lane g.1 st else (g.2, none)

  abbrev written : LaneState S → ℤ → Option S → Option (Write (Response S))
  written st now none = none
  written st now (some sec) = some (write_of st now sec)

  write_back-written :
      (now : ℤ) (st : LaneState S) (o : Option S)
      → write_back db md5
          (some r)
          decode
          lane
          (record { found = false; cache_key = key_of st; now = now })
          o
        ≡ written st now o
  unfolding write_back
  write_back-written now st none = refl
  write_back-written now st (some sec) = refl

  -- What a request through an open lane with caching on gives, for what its read answers.
  pub serve-missed :
      (d : D) (now : ℤ) (st : LaneState S) (answer : Read (Response S))
      → lane.gate st ≡ true
      → st.caching ≡ true
      → get db (some r) decode d (key_of st) now ≡ answer
      → is_hit answer ≡ false
      → serve db md5 (some r) decode lane d now st
        ≡ (set_section lane.kind st.resp (lane.run st), written st now (lane.run st))
  unfolding serve after_gate
  serve-missed d now st answer gated cached e miss =
      let gate_is = gate-cached d now st answer gated cached e in
      let run_is = run-fresh now st (lane.run st) refl in
      ap (after_gate st) gate_is
      ∙ elim-read answer miss
      ∙ run_is
      ∙ ap (λ (w : Option (Write (Response S))). (set_section lane.kind st.resp (lane.run st), w))
          (write_back-written now st (lane.run st))
    where
      elim-read :
          (x : Read (Response S))
          → is_hit x ≡ false
          → after_gate st (
            not (is_hit x),
            record { found = is_hit x; cache_key = key_of st; now = now },
            replay lane.kind st.resp x,
          )
            ≡ run db md5
                (some r)
                decode
                lane
                (record { found = false; cache_key = key_of st; now = now })
                st
      elim-read missed h = refl
      elim-read broken h = refl
      elim-read (hit cached') h = cc

  pub serve-hit :
      (d : D) (now : ℤ) (st : LaneState S) (doc : Response S)
      → lane.gate st ≡ true
      → st.caching ≡ true
      → get db (some r) decode d (key_of st) now ≡ hit doc
      → serve db md5 (some r) decode lane d now st
        ≡ (set_section lane.kind st.resp (section_from_cache lane.kind doc), none)
  unfolding serve after_gate replay
  serve-hit d now st doc gated cached e =
      ap (after_gate st) (gate-cached d now st (hit doc) gated cached e)

  serve_shut :
      (d : D) (now : ℤ) (st : LaneState S)
      → lane.gate st ≡ false
      → (serve db md5 (some r) decode lane d now st).1 ≡ none
  unfolding serve gate
  serve_shut d now st shut = rw shut refl

  serve_uncached :
      (d : D) (now : ℤ) (st : LaneState S)
      → lane.gate st ≡ true
      → st.caching ≡ false
      → (serve db md5 (some r) decode lane d now st).1 ≡ none
  unfolding serve gate run ◌==◌
  serve_uncached d now st gated off = rw (gated, off) refl

  written-some :
      (st : LaneState S) (now : ℤ) (o : Option S) (w : Write (Response S))
      → written st now o ≡ some w
      → (sec : S) × (o ≡ some sec) × (w ≡ write_of st now sec)
  written-some st now none w h = cc
  written-some st now (some sec) w h = (sec, refl, cc)

  -- A write that a request leaves is that of the section which its lane crawled.
  pub serve-write :
      (d : D) (now : ℤ) (st : LaneState S) (w : Write (Response S))
      → (serve db md5 (some r) decode lane d now st).1 ≡ some w
      → (sec : S) × (lane.run st ≡ some sec) × (w ≡ write_of st now sec)
  serve-write d now st w h = elim (Bool-cases (lane.gate st)) [
    | inr shut ↦ cc (h, serve_shut d now st shut)
    | inl gated ↦ elim (Bool-cases st.caching) [
      | inr off ↦ cc (h, serve_uncached d now st gated off)
      | inl cached ↦ by_read (get db (some r) decode d (key_of st) now) gated cached refl
    ]
  ]
    where
      by_read :
          (answer : Read (Response S))
          → lane.gate st ≡ true
          → st.caching ≡ true
          → get db (some r) decode d (key_of st) now ≡ answer
          → (sec : S) × (lane.run st ≡ some sec) × (w ≡ write_of st now sec)
      by_read (hit doc) gated cached e = cc (
        h,
        ap (λ (p : Response S × Option (Write (Response S))). p.1)
            (serve-hit d now st doc gated cached e),
      )
      by_read missed gated cached e = written-some st now (lane.run st) w (
          sym (
            ap (λ (p : Response S × Option (Write (Response S))). p.1)
              (serve-missed d now st missed gated cached e refl))
          ∙ h)
      by_read broken gated cached e = written-some st now (lane.run st) w (
          sym (
            ap (λ (p : Response S × Option (Write (Response S))). p.1)
              (serve-missed d now st broken gated cached e refl))
          ∙ h)
