-- ===== src/Upi/Aggregate/Lists.antt =====
-- Facts about the loops of `aggProfile`.
use go_you.Common.{
  Bool, true, List, [], ◌∷◌, some, Text, ◌==◌, contains, contains_iff, Bool-cases, first, In,
  In-keep, not, or_if_empty, inl, inr, ◌⊎◌, ◌↔◌, ◌≡◌, refl, sym, ◌∙◌, arith, if◌then◌else◌,
}
use go_you.Common.Int.{ℤ, ◌≤ℤ◌, ltb_ℤ}
use go_you.Upi.Model.{Profile, SuffixEntry}
use go_you.Upi.Aggregate.{eqb_ℤ, filter_named, candidates, suffix_keys, max_priority, max_suffix}

pub first_sound :
    {A : Type 0} (p : A → Bool) (xs : List A) (x : A) → first p xs ≡ some x → In x xs × (p x ≡ true)
first_sound p [] x h = cc
first_sound p (y ∷ xs) x h = ground (arith, first_sound p xs x)

pub first_complete :
    {A : Type 0} (p : A → Bool) (xs : List A) (x : A)
    → In x xs
    → p x ≡ true
    → (y : A) × (first p xs ≡ some y) × In y xs × (p y ≡ true)
first_complete p [] x h e = absurd h
first_complete p (y ∷ xs) x h e = elim (Bool-cases (p y)) [
  | inl t ↦ (y, ground arith, inl refl, t)
  | inr f ↦
      let (z, found, member, test) = first_complete p xs x (ground arith) e in
      (z, ground arith, inr member, test)
]

-- The keys are the suffixes of the profiles.
pub In-suffix_keys :
    (t : Text) (ps : List Profile)
    → In t (suffix_keys ps)
    → (p : Profile) × In p ps × (p.suffix ≡ t)
unfolding suffix_keys
In-suffix_keys t [] h = absurd h
In-suffix_keys t (p ∷ ps) h = elim (Bool-cases (contains p.suffix (suffix_keys ps))) [
  | inl old ↦ let (q, member, e) = In-suffix_keys t ps (ground arith) in (q, inr member, e)
  | inr new ↦ elim (rw new at h) [
    | inl e ↦ (p, inl refl, e)
    | inr older ↦ let (q, member, e) = In-suffix_keys t ps older in (q, inr member, e)
  ]
]

pub suffix_keys-In : (p : Profile) (ps : List Profile) → In p ps → In p.suffix (suffix_keys ps)
unfolding suffix_keys
suffix_keys-In p [] h = absurd h
suffix_keys-In p (q ∷ ps) h =
    ground (arith, contains_iff q.suffix (suffix_keys ps), suffix_keys-In p ps)

pub In_or : {A : Type 0} (x : A) (xs ys : List A) → In x (or_if_empty xs ys) → In x xs ⊎ In x ys
In_or x [] ys h = inr h
In_or x (z ∷ xs) ys h = inl h

pub In-candidates : (p : Profile) (ps : List Profile) → In p (candidates ps) → In p ps
unfolding candidates filter_named
In-candidates p ps h = ground (arith, In-keep p (λ q. not (q.name == [])) ps, In_or p _ ps h)

pub max_priority_ge : (m : ℤ) (l : List SuffixEntry) → m ≤ℤ max_priority m l
unfolding max_priority
max_priority_ge m [] = omega arith
max_priority_ge m (se ∷ l) =
    ground (arith, max_priority_ge (if ltb_ℤ m se.priority then se.priority else m) l)

pub max_priority_bound :
    (m : ℤ) (l : List SuffixEntry) (se : SuffixEntry) → In se l → se.priority ≤ℤ max_priority m l
unfolding max_priority
max_priority_bound m [] se h = absurd h
max_priority_bound m (x ∷ l) se h =
    let m' = if ltb_ℤ m x.priority then x.priority else m in
    ground (arith, max_priority_bound m' l se, max_priority_ge m' l)

abbrev raise : ℤ → SuffixEntry → ℤ
raise m se = if ltb_ℤ m se.priority then se.priority else m

raise_cases : (m : ℤ) (se : SuffixEntry) → (raise m se ≡ m) ⊎ (raise m se ≡ se.priority)
raise_cases m se = ground arith

pub max_priority_reached :
    (m : ℤ) (l : List SuffixEntry)
    → (max_priority m l ≡ m) ⊎ ((se : SuffixEntry) × In se l × (se.priority ≡ max_priority m l))
unfolding max_priority
max_priority_reached m [] = inl refl
max_priority_reached m (x ∷ l) = elim (max_priority_reached (raise m x) l) [
  | inl e ↦ elim (raise_cases m x) [
    | inl same ↦ inl (e ∙ same)
    | inr more ↦ inr (x, inl refl, sym (e ∙ more))
  ]
  | inr (se, member, e) ↦ inr (se, inr member, e)
]

reached_entry :
    (head : SuffixEntry) (list : List SuffixEntry)
    → In head list
    → (se : SuffixEntry) × In se list × (se.priority ≡ max_priority head.priority list)
reached_entry head list here = elim (max_priority_reached head.priority list) [
  | inl e ↦ (head, here, sym e)
  | inr found ↦ found
]

eqb_ℤ_iff : (a b : ℤ) → (eqb_ℤ a b ≡ true) ↔ (a ≡ b)
eqb_ℤ_iff a b = ground arith

-- The chosen suffix is the name of an entry whose priority no other entry exceeds.
pub max_suffix_best :
    (head : SuffixEntry) (list : List SuffixEntry)
    → In head list
    → (se : SuffixEntry) × In se list
      × (se.name ≡ max_suffix head list)
      × ((other : SuffixEntry) → In other list → other.priority ≤ℤ se.priority)
unfolding max_suffix
max_suffix_best head list here =
    let m = max_priority head.priority list in
    let (top, top_in, top_m) = reached_entry head list here in
    let (se, found, se_in, test) =
      first_complete (λ e. eqb_ℤ e.priority m) list top top_in ((eqb_ℤ_iff _ _).1 top_m) in
    let best : se.priority ≡ m = (eqb_ℤ_iff _ _).0 test in
    (
      se,
      se_in,
      rw found,
      λ other other_in. rw best (max_priority_bound head.priority list other other_in),
    )
