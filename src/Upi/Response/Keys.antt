-- ===== src/Upi/Response/Keys.antt =====
-- Which keys reach the client.
use go_you.Common.{
  true, false, List, [], ◌∷◌, Option, none, some, Text, codes, ◌==◌, eq_iff, contains, contains_iff,
  Bool-cases, In, Distinct, All, is_some, get_or, inl, inr, ◌⊎◌, ◌↔◌, ◌≡◌, ◌≢◌, refl, sym, ap, ◌∙◌,
  arith, if◌then◌else◌, map, ◌||◌, ◌&&◌,
}
use go_you.Json.{Value, Fields, no_fields, field, get, put, text_or_empty}
use go_you.Json.Laws.{get-put, HasOnly}
use go_you.Upi.Response.{
  VerifiedNamesConfig, white_list, put_if, cons_unless_empty, copy_keys, clean_profiles,
  coerce_maps, profiles_value, put_profiles, put_verified_names, filter_verified_names,
  clean_profile_for_response,
}

abbrev or_else : Option Value → Option Value → Option Value
or_else none b = b
or_else (some a) b = some a

or_else-none : (o : Option Value) → or_else o none ≡ o
or_else-none none = refl
or_else-none (some v) = refl

get-put_if :
    (j k : Text) (o : Option Value) (m : Fields)
    → get j (put_if k o m) ≡ (if k == j then or_else o (get j m) else get j m)
get-put_if j k none m = ground arith
get-put_if j k (some v) m = get-put j k v m

-- A copied key reads as in the source; any other reads as before.
get-copy_keys :
    (j : Text) (ks : List Text) (from to : Fields)
    → get j (copy_keys ks from to)
      ≡ (if contains j ks then or_else (get j from) (get j to) else get j to)
unfolding copy_keys contains
get-copy_keys j [] from to = refl
get-copy_keys j (k ∷ ks) from to = ground (
  arith,
  get-copy_keys j ks from (put_if k (get k from) to),
  get-put_if j k (get k from) to,
  eq_iff k j,
)

abbrev copied : Fields → Fields
copied p = copy_keys white_list p no_fields

get-copied :
    (j : Text) (p : Fields) → get j (copied p) ≡ (if contains j white_list then get j p else none)
unfolding get
get-copied j p = ground (arith, get-copy_keys j white_list p no_fields, or_else-none (get j p))

copied-HasOnly : (p : Fields) → HasOnly white_list (copied p)
copied-HasOnly p k h = elim (Bool-cases (contains k white_list)) [
  | inl t ↦ (contains_iff k white_list).0 t
  | inr f ↦ absurd (ground (arith, get-copied k p))
]

abbrev pub suffix_of : Fields → Text
suffix_of p = text_or_empty (get (codes "suffix") p)

suffix_listed : contains (codes "suffix") white_list ≡ true
unfolding contains ◌==◌
suffix_listed = refl

suffix-copied : (p : Fields) → suffix_of (copied p) ≡ suffix_of p
suffix-copied p =
    let k = codes "suffix" in
    let e : get k (copied p) ≡ get k p = ground (arith, get-copied k p, suffix_listed) in
    ap text_or_empty e

dec_eq : (s t : Text) → (s ≡ t) ⊎ (s ≢ t)
dec_eq s t = ground (arith, eq_iff s t)

skipped : (seen : List Text) (t : Text) → (t == [] || contains t seen) ≡ true → (t ≡ []) ⊎ In t seen
skipped seen t h = ground (arith, eq_iff t [], contains_iff t seen)

kept :
    (seen : List Text) (t : Text) → (t == [] || contains t seen) ≡ false → (t ≢ []) × (¬ In t seen)
kept seen t h = (λ e. ground (arith, eq_iff t []), λ m. ground (arith, contains_iff t seen))

cons_filled :
    (m : Fields) (rest : List Fields) → m ≢ no_fields → cons_unless_empty m rest ≡ m ∷ rest
cons_filled no_fields rest h = absurd (h refl)
cons_filled (field k v m) rest h = refl

copied_filled : (p : Fields) → suffix_of p ≢ [] → copied p ≢ no_fields
unfolding get
copied_filled p h = λ e. h (sym (suffix-copied p) ∙ ap suffix_of e)

-- The nested profiles that the client sees: whitelisted keys alone, each suffix once, and exactly the
-- suffixes that are not empty and not yet seen.
pub clean_profiles-Distinct :
    (seen : List Text) (ps : List Fields)
    → All (HasOnly white_list) (clean_profiles seen ps)
      × Distinct (map suffix_of (clean_profiles seen ps))
      × ((t : Text)
          → In t (map suffix_of (clean_profiles seen ps))
            ↔ (In t (map suffix_of ps) × (t ≢ []) × (¬ In t seen)))
unfolding clean_profiles
clean_profiles-Distinct seen [] = (tt, tt, λ t. (λ h. absurd h, λ h. absurd h.0))
clean_profiles-Distinct seen (p ∷ ps) =
    elim (Bool-cases (suffix_of p == [] || contains (suffix_of p) seen)) [
      | inl skip ↦
          let (only, distinct, same) = clean_profiles-Distinct seen ps in
          rw skip (
            only,
            distinct,
            λ t. (
              λ h. let (a, b, c) = (same t).0 h in (inr a, b, c),
              λ (a, ne, ns). (same t).1 (
                elim a [
                  | inl e ↦ absurd (elim (skipped seen (suffix_of p) skip) [
                    | inl z ↦ ne (sym e ∙ z)
                    | inr m ↦ ns (rw (← e) m)
                  ])
                  | inr k ↦ k
                ],
                ne,
                ns,
              ),
            ),
          )
      | inr fresh ↦
          let (only, distinct, same) = clean_profiles-Distinct (suffix_of p ∷ seen) ps in
          let (filled, unseen) = kept seen (suffix_of p) fresh in
          rw (fresh, cons_filled (copied p) _ (copied_filled p filled))
            (
              (copied-HasOnly p, only),
              rw (suffix-copied p) (λ m. ((same (suffix_of p)).0 m).2 (inl refl), distinct),
              λ t. rw (suffix-copied p) (
                λ h. elim h [
                  | inl e ↦ (inl e, λ z. filled (e ∙ z), λ m. unseen (rw e m))
                  | inr m ↦ let (a, b, c) = (same t).0 m in (inr a, b, λ o. c (inr o))
                ],
                λ (a, ne, ns). elim (dec_eq (suffix_of p) t) [
                  | inl e ↦ inl e
                  | inr d ↦ inr (
                      (same t).1 (
                        elim a [ inl e ↦ absurd (d e) | inr k ↦ k ],
                        ne,
                        λ m. elim m [ inl e ↦ d e | inr o ↦ ns o ],
                      ))
                ],
              ),
            )
    ]

module _ (p : Fields) (cfg : Option VerifiedNamesConfig) (ids : List Text) where
  abbrev nested : List Fields
  nested = clean_profiles [] (get_or [] (coerce_maps (get (codes "profiles") p)))

  abbrev names : Option Value
  names = get (codes "verified_names") p

  abbrev cleaned : Fields
  cleaned = put_verified_names p cfg ids (put_profiles p (copied p))

  get-cleaned :
      (k : Text)
      → get k cleaned ≡ (
          if codes "verified_names" == k && is_some names
          then some (filter_verified_names (coerce_maps names) cfg ids)
          else if codes "profiles" == k
          then some (profiles_value nested)
          else if contains k white_list
          then get k p
          else none)
  unfolding put_verified_names put_profiles
  get-cleaned k =
      let m = put (codes "profiles") (profiles_value nested) (copied p) in
      ground (
        arith,
        get-put k (codes "verified_names") (filter_verified_names (coerce_maps names) cfg ids) m,
        get-put k (codes "profiles") (profiles_value nested) (copied p),
        get-copied k p,
      )

  cleaned-HasOnly : HasOnly (codes "profiles" ∷ codes "verified_names" ∷ white_list) cleaned
  cleaned-HasOnly k h = ground (
    arith,
    get-cleaned k,
    eq_iff (codes "verified_names") k,
    eq_iff (codes "profiles") k,
    contains_iff k white_list,
  )

  cleaned-white_list : All (λ k. get k cleaned ≡ get k p) white_list
  unfolding contains ◌==◌
  cleaned-white_list = (
    get-cleaned (codes "user_exist"),
    (get-cleaned (codes "suffix"), (get-cleaned (codes "vpa"), (get-cleaned (codes "name"), tt))),
  )

  cleaned-profiles : get (codes "profiles") cleaned ≡ some (profiles_value nested)
  unfolding contains ◌==◌
  cleaned-profiles = get-cleaned (codes "profiles")

-- What the client receives for a UPI entry without an error: no key but the whitelisted four,
-- `profiles` and `verified_names`; the four read as in the entry; and the nested profiles have
-- whitelisted keys alone and no suffix twice.
pub clean_profile_for_response-HasOnly :
    (p : Fields) (cfg : Option VerifiedNamesConfig) (ids : List Text)
    → is_some (get (codes "error") p) ≡ false
    → HasOnly
        (codes "profiles" ∷ codes "verified_names" ∷ white_list)
        (clean_profile_for_response p cfg ids)
      × All (λ k. get k (clean_profile_for_response p cfg ids) ≡ get k p) white_list
      × ((ps : List Fields) × (get (codes "profiles") (clean_profile_for_response p cfg ids)
            ≡ some (profiles_value ps))
          × All (HasOnly white_list) ps
          × Distinct (map suffix_of ps))
unfolding clean_profile_for_response
clean_profile_for_response-HasOnly p cfg ids fine =
    let (only, distinct, _) =
      clean_profiles-Distinct [] (get_or [] (coerce_maps (get (codes "profiles") p))) in
    rw fine (
      cleaned-HasOnly p cfg ids,
      cleaned-white_list p cfg ids,
      (nested p cfg ids, cleaned-profiles p cfg ids, only, distinct),
    )
