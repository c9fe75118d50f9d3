-- ===== src/Breach/Sound.antt =====
-- What a listed breach rests on.
use go_you.Common.{
  ℕ, List, [], ◌∷◌, Option, none, some, Text, codes, ◌==◌, eq_iff, In, Bool-cases, Option-cases,
  ◌≡◌, ◌≢◌, ◌⊎◌, ◌↔◌, inl, inr, refl, sym, ap, ◌∙◌, arith,
}
use mathlib.Core.Path.{subst}
use go_you.Common.Maps.{Dict, lookup, insert}
use go_you.Json.{Value, Fields, no_fields, field, get, as_map}
use go_you.StaticData.{as_payload_list}
use go_you.StaticData.Linked.{text_leb}
use go_you.Breach.{
  Breach, leaked_attr_labels, breach_dates, insert_breach, sort_breaches, breach_of, add_breach,
  put_match, payload_str, first_match, leaks, leaks_by_type, collect, build_breaches, status_of,
  phone_breach_from_static, phone,
}
use go_you.Breach.Sources.{source_mapping}

-- The sources of a document with their values.
abbrev pub entries : Fields → List (Text × Value)
entries no_fields = []
entries (field src v m) = (src, v) ∷ entries m

In-insert :
    {V : Type 0} (x : Text × V) (k : Text) (v : V) (m : Dict V)
    → In x (insert k v m)
    → ((k, v) ≡ x) ⊎ In x m
unfolding insert
In-insert x k v [] h = h
In-insert x k v ((j, w) ∷ m) h = elim (Bool-cases (j == k)) [
  | inl same ↦ elim (rw (same, insert) at h) [ inl e ↦ inl e | inr later ↦ inr (inr later) ]
  | inr other ↦ elim (rw (other, insert) at h) [
    | inl e ↦ inr (inl e)
    | inr later ↦ elim (In-insert x k v m later) [ inl e ↦ inl e | inr old ↦ inr (inr old) ]
  ]
]

In-insert_breach : (b c : Breach) (cs : List Breach) → In b (insert_breach c cs) → (c ≡ b) ⊎ In b cs
unfolding insert_breach
In-insert_breach b c [] h = h
In-insert_breach b c (d ∷ cs) h = elim (Bool-cases (text_leb c.name d.name)) [
  | inl le ↦ rw (le, insert_breach) at h
  | inr gt ↦ elim (rw (gt, insert_breach) at h) [
    | inl e ↦ inr (inl e)
    | inr later ↦ elim (In-insert_breach b c cs later) [ inl e ↦ inl e | inr old ↦ inr (inr old) ]
  ]
]

In-sort_breaches : (b : Breach) (bs : List Breach) → In b (sort_breaches bs) → In b bs
unfolding sort_breaches
In-sort_breaches b [] h = h
In-sort_breaches b (c ∷ bs) h = elim (In-insert_breach b c (sort_breaches bs) h) [
  | inl e ↦ inl e
  | inr later ↦ inr (In-sort_breaches b bs later)
]

module _ (format : ℕ → Text) where
  -- A payload of the value whose key has the id.
  abbrev pub Holds : Text → Text → Value → Fields → Type 0
  Holds login_id key v payload =
      (pw : Fields) × In pw (as_payload_list v)
      × (as_map (get (codes "payload") pw) ≡ some payload)
      × (payload_str format (get key payload) ≡ login_id)

  first_match_sound :
      (login_id key : Text) (pws : List Fields) (payload : Fields)
      → first_match format login_id key pws ≡ some payload
      → (pw : Fields) × In pw pws
        × (as_map (get (codes "payload") pw) ≡ some payload)
        × (payload_str format (get key payload) ≡ login_id)
  unfolding first_match
  first_match_sound login_id key [] payload h = absurd (ground arith)
  first_match_sound login_id key (pw ∷ pws) payload h =
      elim (Option-cases (as_map (get (codes "payload") pw))) [
        | inl missing ↦
            let (qw, listed, found_there, same) =
              first_match_sound login_id key pws payload (rw (missing, first_match) at h) in
            (qw, inr listed, found_there, same)
        | inr (p, found) ↦ elim (Bool-cases (payload_str format (get key p) == login_id)) [
          | inl same ↦
              let is : some p ≡ some payload = rw (found, same, first_match) at h in
              let e : p ≡ payload = cc in
              (
                pw,
                inl refl,
                found ∙ ap some e,
                ap (λ (q : Fields). payload_str format (get key q)) (sym e)
                    ∙ (eq_iff _ login_id).0 same,
              )
          | inr other ↦
              let (qw, listed, found_there, same) =
                first_match_sound login_id key pws payload (rw (found, other, first_match) at h) in
              (qw, inr listed, found_there, same)
        ]
      ]

  -- Every match that is kept has the property.
  abbrev AllKept : (Text × Fields → Type 0) → Dict Fields → Type 0
  AllKept Q out = (x : Text × Fields) → In x out → Q x

  put_match_kept :
      (Q : Text × Fields → Type 0) (mapped : Text) (found : Option Fields) (out : Dict Fields)
      → AllKept Q out
      → ((payload : Fields) → found ≡ some payload → Q (mapped, payload))
      → AllKept Q (put_match mapped found out)
  unfolding put_match
  put_match_kept Q mapped none out old new x h = old x h
  put_match_kept Q mapped (some payload) out old new x h = elim (In-insert x mapped payload out h) [
    | inl e ↦ subst Q e (new payload refl)
    | inr there ↦ old x there
  ]

  leaks_kept :
      (Q : Text × Fields → Type 0) (login_id key : Text) (static : Fields) (out : Dict Fields)
      → AllKept Q out
      → ((src name : Text) (v : Value) (payload : Fields)
          → In (src, v) (entries static)
          → lookup src source_mapping ≡ some name
          → Holds login_id key v payload
          → Q (name, payload))
      → AllKept Q (leaks format login_id key out static)
  unfolding leaks
  leaks_kept Q login_id key no_fields out old new = old
  leaks_kept Q login_id key (field src v static) out old new =
      leaks_kept Q login_id key static _
        (elim (Option-cases (lookup src source_mapping)) [
          | inl unknown ↦ rw unknown old
          | inr (mapped, known) ↦ rw known (
              put_match_kept Q mapped (first_match format login_id key (as_payload_list v)) out old
                (λ payload found.
                  new src mapped v payload (inl refl) known
                    (first_match_sound login_id key (as_payload_list v) payload found)))
        ])
        (λ other name w payload listed. new other name w payload (inr listed))

In-add_breach :
    (name : Text) (labels : List Text) (date : Option Text) (rest : List Breach) (b : Breach)
    → In b (add_breach name labels date rest)
    → ((labels ≢ []) × (b ≡ breach_of name labels date)) ⊎ In b rest
unfolding add_breach
In-add_breach name [] date rest b h = inr h
In-add_breach name (l ∷ ls) date rest b h = elim h [
  | inl e ↦ inl (λ no. absurd (ground arith), sym e)
  | inr later ↦ inr later
]

module _ (lower : Text → Text) where
  -- A breach is made of one match that has labels.
  abbrev pub MadeOf : Breach → Text → Fields → (Text → Option Text) → Type 0
  MadeOf b name payload dates =
      (leaked_attr_labels payload ≢ [])
      × (b ≡ breach_of name (leaked_attr_labels payload) (dates (lower name)))

  collect_made :
      (matched : Dict Fields) (dates : Text → Option Text) (b : Breach)
      → In b (collect lower matched dates)
      → (x : Text × Fields) × In x matched × MadeOf b x.0 x.1 dates
  unfolding collect
  collect_made [] dates b h = absurd h
  collect_made ((name, payload) ∷ matched) dates b h =
      elim (In-add_breach name (leaked_attr_labels payload) (dates (lower name))
        (collect lower matched dates) b h) [
          | inl made ↦ ((name, payload), inl refl, made)
          | inr later ↦
              let (x, there, made) = collect_made matched dates b later in (x, inr there, made)
        ]

status_of-found : (bs : List Breach) → (status_of bs ≡ codes "found") ↔ (bs ≢ [])
unfolding status_of
status_of-found [] = (λ e. absurd (ground arith), λ h. absurd (h refl))
status_of-found (b ∷ bs) = (λ e h. absurd (ground arith), λ h. refl)

-- What a listed breach rests on: a source of the document under the breach's name, with a payload whose
-- primary number is the one asked for and which has leaked attributes, the breach's data.
abbrev pub RestsOn : (Text → Text) → (ℕ → Text) → Option Value → Text → Fields → Breach → Type 0
RestsOn lower format row login_id static b =
    (src : Text) × (name : Text) × (v : Value) × (payload : Fields) × In (src, v) (entries static)
    × (lookup src source_mapping ≡ some name)
    × Holds format login_id (codes "primary_ph") v payload
    × MadeOf lower b name payload (breach_dates row)

-- Every breach that is listed rests on the document, and the status is found exactly where one is.
pub phone-RestsOn :
    (lower : Text → Text) (format : ℕ → Text) (row : Option Value) (intl login_id : Text)
    (static : Fields)
    → ((b : Breach)
        → In b (phone lower format row intl login_id static).breaches
        → RestsOn lower format row login_id static b)
      × (((phone lower format row intl login_id static).breaches_status ≡ codes "found")
          ↔ ((phone lower format row intl login_id static).breaches ≢ []))
unfolding phone phone_breach_from_static build_breaches leaks_by_type
phone-RestsOn lower format row intl login_id static = (
  λ b h.
      let (x, kept, made) = collect_made lower _ (breach_dates row) b (In-sort_breaches b _ h) in
      let (src, v, listed, known, holds) =
        leaks_kept format
          (λ (y : Text × Fields).
            (src : Text) × (v : Value) × In (src, v) (entries static)
            × (lookup src source_mapping ≡ some y.0)
            × Holds format login_id (codes "primary_ph") v y.1)
          login_id (codes "primary_ph") static [] (λ y h. absurd h)
          (λ src name v payload listed known holds. (src, v, listed, known, holds)) x kept in
      (src, x.0, v, x.1, listed, known, holds, made),
  status_of-found _,
)
