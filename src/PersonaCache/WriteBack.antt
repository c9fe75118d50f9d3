-- ===== src/PersonaCache/WriteBack.antt =====
-- The writes of the persona cache, which the code leaves to goroutines: any number of requests read,
-- queue a document and go on, and a queued write lands at any later time or fails. A request may hold
-- what it has read for any time; a document that is shared may be `Seen` differently when it lands.
use go_you.Common.{
  ℕ, ◌+◌, ◌^◌, ◌<◌, List, [], ◌∷◌, ◌++◌, Option, none, some, Text, ◌==◌, eq_iff, get_or, ltb, In,
  In-append, Bool-cases, Option-cases, if◌then◌else◌, if-true, if-false, ◌≡◌, ◌≢◌, ◌⊎◌, inl, inr,
  refl, sym, ap, ◌∙◌, arith,
}
use go_you.Common.Int.{ℤ, pos}
use go_you.Dynamo.{Dynamo, IsStore, missed, hit}
use go_you.PersonaCache.{Repo, ttl_seconds, get, put}
use go_you.PersonaCache.Replay.{get-put}

-- A write that waits, and what a read has found.
pub record Write (D : Type 0) : Type 0 where
  pub key : Text
  pub doc : D
  pub now : ℤ

pub record Found (D : Type 0) : Type 0 where
  pub key : Text
  pub doc : D
  pub now : ℕ

pub record State (S D : Type 0) : Type 0 where
  pub store : S
  pub reads : List (Found D)
  pub pending : List (Write D)

pub data Label : Type 0 where
  reads_or_queues : Label
  lands : Text → Label

-- The write of what is seen of a document; a failure leaves the store as it was.
abbrev pub landing : {S D : Type 0} → Dynamo S → Repo → (D → Option Text) → S → Text → D → ℤ → S
landing db r encode s k doc now = get_or s (put db (some r) encode s k (some doc) now)

pub data Step {S D : Type 0} (db : Dynamo S) (r : Repo) (encode : D → Option Text)
    (decode : Text → Option D) (Queued : List (Found D) → Write D → Type 0) (Seen : D → D → Type 0)
    : Label → State S D → State S D → Type 0 where
  read :
      (st : State S D) (k : Text) (doc : D) (now : ℕ)
      → get db (some r) decode st.store k (pos now) ≡ hit doc
      → Step db r encode decode Queued Seen reads_or_queues st
          (record st { reads = record { key = k; doc = doc; now = now } ∷ st.reads })
  queue :
      (st : State S D) (w : Write D)
      → Queued st.reads w
      → Step db r encode decode Queued Seen reads_or_queues st
          (record st { pending = w ∷ st.pending })
  land :
      (s : S) (reads : List (Found D)) (before after : List (Write D)) (w : Write D) (doc : D)
      → Seen w.doc doc
      → Step db r encode decode Queued Seen
          (lands w.key)
          (record { store = s; reads = reads; pending = before ++ (w ∷ after) })
          (record {
            store = landing db r encode s w.key doc w.now;
            reads = reads;
            pending = before ++ after;
          })

-- A label of a step that does not land a write under the key.
abbrev pub Spares : Text → Label → Type 0
Spares k l = l ≢ lands k

-- Any number of steps, each with an allowed label.
pub data Steps {S D : Type 0} (db : Dynamo S) (r : Repo) (encode : D → Option Text)
    (decode : Text → Option D) (Queued : List (Found D) → Write D → Type 0) (Seen : D → D → Type 0)
    (Allowed : Label → Type 0) (st : State S D) : State S D → Type 0 where
  stay : Steps db r encode decode Queued Seen Allowed st st
  go :
      (l : Label) (t u : State S D)
      → Steps db r encode decode Queued Seen Allowed st t
      → Allowed l
      → Step db r encode decode Queued Seen l t u
      → Steps db r encode decode Queued Seen Allowed st u

-- No encoding is empty, and each decodes to its document.
abbrev pub Encodes : {D : Type 0} → (D → Option Text) → (Text → Option D) → Type 0
Encodes {D} encode decode =
    (d : D) (doc : Text) → encode d ≡ some doc → (doc ≢ []) × (decode doc ≡ some d)

-- A time that is in the range of an `int64` 15 days later.
abbrev pub InRange : ℤ → ℕ → Type 0
InRange z n = (z ≡ pos n) × (n + ttl_seconds < 2 ^ 63)

module _ {S D : Type 0} (db : Dynamo S) (r : Repo) (encode : D → Option Text)
    (decode : Text → Option D) (store : IsStore db) (encodes : Encodes encode decode) where
  put_encoded :
      (s t : S) (k : Text) (d : D) (now : ℤ)
      → put db (some r) encode s k (some d) now ≡ some t
      → (doc : Text) × (encode d ≡ some doc)
  unfolding put
  put_encoded s t k d now stored = elim (Option-cases (encode d)) [
    | inl broken ↦ let e : ◌≡◌ {A = Option S} none (some t) = rw broken at stored in cc
    | inr found ↦ found
  ]

  -- What a read gives behind a landing: what it gave before, or, of the key that is written, the document
  -- until it expires.
  pub landing-get :
      (s : S) (k j : Text) (d : D) (z : ℤ) (written now : ℕ)
      → InRange z written
      → (get db (some r) decode (landing db r encode s k d z) j (pos now)
          ≡ get db (some r) decode s j (pos now))
        ⊎ ((k ≡ j)
            × (get db (some r) decode (landing db r encode s k d z) j (pos now)
                ≡ (if ltb now (written + ttl_seconds) then hit d else missed)))
  landing-get s k j d z written now (time, range) =
      elim (Option-cases (put db (some r) encode s k (some d) z)) [
        | inl failed ↦
            inl (ap (λ (o : Option S). get db (some r) decode (get_or s o) j (pos now)) failed)
        | inr (t, stored) ↦
            let (doc, encoded) = put_encoded s t k d z stored in
            let (filled, round) = encodes d doc encoded in
            let behind =
              ap (λ (o : Option S). get db (some r) decode (get_or s o) j (pos now)) stored in
            let (self, others) =
              get-put db r encode decode s k doc d written now t store encoded filled round range
                (rw (sym time) stored) in
            elim (Bool-cases (k == j)) [
              | inl same ↦
                  let e : k ≡ j = (eq_iff k j).0 same in
                  inr (
                    e,
                    behind ∙ ap (λ (x : Text). get db (some r) decode t x (pos now)) (sym e) ∙ self,
                  )
              | inr other ↦ inl (behind ∙ others j other)
            ]
      ]

  -- A landing that succeeds is read back until the document expires.
  pub landed-get :
      (s t : S) (k : Text) (d : D) (z : ℤ) (written now : ℕ)
      → InRange z written
      → put db (some r) encode s k (some d) z ≡ some t
      → now < written + ttl_seconds
      → get db (some r) decode (landing db r encode s k d z) k (pos now) ≡ hit d
  landed-get s t k d z written now (time, range) stored live =
      let (doc, encoded) = put_encoded s t k d z stored in
      let (filled, round) = encodes d doc encoded in
      ap (λ (o : Option S). get db (some r) decode (get_or s o) k (pos now)) stored
      ∙ (get-put db r encode decode s k doc d written now t store encoded filled round range
          (rw (sym time) stored)).0
      ∙ if-true (ltb now (written + ttl_seconds)) (hit d) missed (ground arith)

-- What holds of every document of a key that was written at a time.
abbrev pub Claim : Type 0 → Type 1
Claim D = Text → D → ℕ → Type 0

abbrev pub AnyDoc : {D : Type 0} → Claim D
AnyDoc k doc n = Unit

-- A document that was written less than 15 days before.
abbrev pub Fresh : {D : Type 0} → Claim D → Text → D → ℕ → Type 0
Fresh P k doc now = (written : ℕ) × (now < written + ttl_seconds) × P k doc written

module _ {S D : Type 0} (db : Dynamo S) (r : Repo) (encode : D → Option Text)
    (decode : Text → Option D) (Queued : List (Found D) → Write D → Type 0) (Seen : D → D → Type 0)
    (store : IsStore db) (encodes : Encodes encode decode) where
  -- The documents in the store, those that were read and those that wait are as claimed.
  pub record Claimed (P : Claim D) (st : State S D) : Type 0 where
    pub stored :
        (k : Text) (doc : D) (now : ℕ)
        → get db (some r) decode st.store k (pos now) ≡ hit doc
        → Fresh P k doc now
    pub found : (x : Found D) → In x st.reads → Fresh P x.key x.doc x.now
    pub waiting : (w : Write D) → In w st.pending → (n : ℕ) × InRange w.now n × P w.key w.doc n

  -- What is queued is as claimed where what was read is, and stays so as it is seen.
  abbrev pub Keeps : Claim D → Type 0
  Keeps P =
      ((reads : List (Found D)) (w : Write D)
        → ((x : Found D) → In x reads → Fresh P x.key x.doc x.now)
        → Queued reads w
        → (n : ℕ) × InRange w.now n × P w.key w.doc n)
      × ((k : Text) (d seen : D) (n : ℕ) → P k d n → Seen d seen → P k seen n)

  landed-stored :
      (P : Claim D) (s : S) (k : Text) (d : D) (z : ℤ) (n : ℕ)
      → InRange z n
      → P k d n
      → ((j : Text) (doc : D) (now : ℕ)
          → get db (some r) decode s j (pos now) ≡ hit doc
          → Fresh P j doc now)
      → (j : Text) (doc : D) (now : ℕ)
      → get db (some r) decode (landing db r encode s k d z) j (pos now) ≡ hit doc
      → Fresh P j doc now
  landed-stored P s k d z n range claim old j doc now h =
      elim (landing-get db r encode decode store encodes s k j d z n now range) [
        | inl same ↦ old j doc now (sym same ∙ h)
        | inr (e, is) ↦ elim (Bool-cases (ltb now (n + ttl_seconds))) [
          | inl live ↦
              let same : hit d ≡ hit doc = sym (is ∙ if-true _ _ _ live) ∙ h in
              (n, ground (arith, live), (let d_is : d ≡ doc = cc in rw (sym d_is, sym e) claim))
          | inr over ↦ let no : missed ≡ hit doc = sym (is ∙ if-false _ _ _ over) ∙ h in cc
        ]
      ]

  pub Step-Claimed :
      (P : Claim D)
      → Keeps P
      → {l : Label} {st t : State S D} → Step db r encode decode Queued Seen l st t
      → Claimed P st
      → Claimed P t
  Step-Claimed P keeps (read st k doc now h) inv = record {
    stored = inv.stored;
    found = λ x listed. elim listed [
      | inl e ↦ rw (sym e) (inv.stored k doc now h)
      | inr old ↦ inv.found x old
    ];
    waiting = inv.waiting;
  }
  Step-Claimed P keeps (queue st w queued) inv = record {
    stored = inv.stored;
    found = inv.found;
    waiting = λ x listed. elim listed [
      | inl e ↦ rw (sym e) (keeps.0 st.reads w inv.found queued)
      | inr old ↦ inv.waiting x old
    ];
  }
  Step-Claimed P keeps (land s reads before after w doc seen) inv =
      let (n, range, claim) = inv.waiting w ((In-append w before (w ∷ after)).1 (inr (inl refl))) in
      record {
        stored =
            landed-stored P s w.key doc w.now n range (keeps.1 w.key w.doc doc n claim seen)
              inv.stored;
        found = inv.found;
        waiting = λ x listed. inv.waiting x (
            (In-append x before (w ∷ after)).1 (elim ((In-append x before after).0 listed) [
              | inl early ↦ inl early
              | inr late ↦ inr (inr late)
            ]));
      }

  -- Nothing is stored, was read or waits.
  abbrev pub IsEmpty : State S D → Type 0
  IsEmpty st =
      ((k : Text) (now : ℕ) → get db (some r) decode st.store k (pos now) ≡ missed)
      × (st.reads ≡ [])
      × (st.pending ≡ [])

  pub IsEmpty-Claimed : (P : Claim D) (st : State S D) → IsEmpty st → Claimed P st
  IsEmpty-Claimed P st (nothing, no_reads, no_writes) = record {
    stored = λ k doc now h. let no : missed ≡ hit doc = sym (nothing k now) ∙ h in cc;
    found = λ x listed. absurd (rw no_reads at listed);
    waiting = λ w listed. absurd (rw no_writes at listed);
  }

  -- A claim that what is queued keeps holds in every state that is reached.
  pub Steps-Claimed :
      (P : Claim D)
      → Keeps P
      → (Allowed : Label → Type 0) (st : State S D) → Claimed P st
      → (t : State S D) → Steps db r encode decode Queued Seen Allowed st t
      → Claimed P t
  Steps-Claimed P keeps Allowed st inv _ stay = inv
  Steps-Claimed P keeps Allowed st inv _ (go l t u steps allowed step) =
      Step-Claimed P keeps step (Steps-Claimed P keeps Allowed st inv t steps)

  Step-get :
      (k : Text) (now : ℕ)
      → {l : Label} {st t : State S D} → Step db r encode decode Queued Seen l st t
      → Claimed AnyDoc st
      → Spares k l
      → get db (some r) decode t.store k (pos now) ≡ get db (some r) decode st.store k (pos now)
  Step-get k now (read st j doc n h) inv spared = refl
  Step-get k now (queue st w queued) inv spared = refl
  Step-get k now (land s reads before after w doc seen) inv spared =
      let (n, range, _) = inv.waiting w ((In-append w before (w ∷ after)).1 (inr (inl refl))) in
      elim (landing-get db r encode decode store encodes s w.key k doc w.now n now range) [
        | inl same ↦ same
        | inr (e, _) ↦ absurd (spared (ap lands e))
      ]

  -- Until a write of the key lands, a read of it gives what it gave.
  pub Steps-get :
      (k : Text) (now : ℕ)
      → Keeps AnyDoc
      → (t : State S D) → Claimed AnyDoc t
      → (u : State S D) → Steps db r encode decode Queued Seen (Spares k) t u
      → get db (some r) decode u.store k (pos now) ≡ get db (some r) decode t.store k (pos now)
  Steps-get k now keeps t inv _ stay = refl
  Steps-get k now keeps t inv _ (go l v u steps spared step) =
      Step-get k now step (Steps-Claimed AnyDoc keeps (Spares k) t inv v steps) spared
      ∙ Steps-get k now keeps t inv v steps
