-- ===== src/StaticData/Age.antt =====
-- Which date makes the digital age.
use go_you.Common.{
  false, not, List, [], ◌∷◌, none, some, Text, keep, In, In-keep, In-append, ◌≡◌, ◌⊎◌, inl, inr,
  refl, sym, ap, ◌∙◌, arith, if◌then◌else◌,
}
use go_you.StaticData.{
  Date, before, DigitalAge, failed, aged, years_between, earlier, age_of, clamp, clean_dates,
  digital_age,
}

before_total : (a b : Date) → before a b ≡ false → before b a ≡ false → a ≡ b
before_total a b h k = ground arith

before_trans : (a b c : Date) → before a b ≡ false → before b c ≡ false → before a c ≡ false
before_trans a b c h k = ground arith

-- The day stands in the list and no day of the list is before it.
abbrev pub IsEarliest : Date → List Date → Type 0
IsEarliest e ts = In e ts × ((t : Date) → In t ts → before t e ≡ false)

before_self : (a : Date) → before a a ≡ false
before_self a = ground arith

abbrev picked : Date → Date → Date
picked s t = if before s t then s else t

picked_le : (s t : Date) → (before t (picked s t) ≡ false) × (before s (picked s t) ≡ false)
picked_le s t = ground arith

earlier_le :
    (t : Date) (ts : List Date)
    → (before t (earlier t ts) ≡ false) × ((u : Date) → In u ts → before u (earlier t ts) ≡ false)
unfolding earlier
earlier_le t [] = (before_self t, λ u h. absurd h)
earlier_le t (s ∷ ts) =
    let (first, rest) = earlier_le (picked s t) ts in
    let (t_le, s_le) = picked_le s t in
    let e = earlier (picked s t) ts in
    (
      before_trans t (picked s t) e t_le first,
      λ u h. elim h [
        | inl same ↦ rw (sym same) (before_trans s (picked s t) e s_le first)
        | inr later ↦ rest u later
      ],
    )

earlier-In : (t : Date) (ts : List Date) → In (earlier t ts) (t ∷ ts)
unfolding earlier
earlier-In t [] = inl refl
earlier-In t (s ∷ ts) = ground (arith, earlier-In s ts, earlier-In t ts)

earlier-IsEarliest : (t : Date) (ts : List Date) → IsEarliest (earlier t ts) (t ∷ ts)
earlier-IsEarliest t ts =
    let (first, rest) = earlier_le t ts in
    (earlier-In t ts, λ u h. elim h [ inl same ↦ rw (sym same) first | inr later ↦ rest u later ])

-- What the digital age is made of.
abbrev pub age_at : Date → Date → DigitalAge
age_at e now = aged e.year e.month (years_between e now)

age_of-IsEarliest :
    (now : Date) (ts : List Date)
    → ((ts ≡ []) × (age_of now ts ≡ failed))
      ⊎ ((e : Date) × IsEarliest e ts × (age_of now ts ≡ age_at e now))
unfolding age_of
age_of-IsEarliest now [] = inl (refl, refl)
age_of-IsEarliest now (t ∷ ts) = inr (earlier t ts, earlier-IsEarliest t ts, refl)

-- A revocation is the earliest of what its filter leaves.
revoked_earliest : (r e : Date) (clean : List Date) → IsEarliest e (clamp (some r) clean) → e ≡ r
unfolding clamp
revoked_earliest r e clean (listed, least) =
    let kept = keep (λ t. not (before t r)) clean in
    let not_after : before r e ≡ false = least r ((In-append r kept (r ∷ [])).1 (inr (inl refl))) in
    elim ((In-append e kept (r ∷ [])).0 listed) [
      | inl early ↦
          before_total e r (ground (arith, ((In-keep e (λ t. not (before t r)) clean).0 early).1))
            not_after
      | inr last ↦ elim last [ inl same ↦ sym same | inr later ↦ absurd later ]
    ]

not_empty : (r : Date) (clean : List Date) → ¬ (clamp (some r) clean ≡ [])
unfolding clamp
not_empty r clean e =
    rw e at ((In-append r (keep (λ t. not (before t r)) clean) (r ∷ [])).1 (inr (inl refl)))

module _ (trim_space : Text → Text) (dates : List Text) (now : Date) where
  -- Without a revocation: an error exactly where no date can be read, and else the year, the month and
  -- the whole years since a day that was read and before which none was read.
  pub digital_age-IsEarliest :
      ((clean_dates trim_space dates ≡ []) × (digital_age trim_space dates none now ≡ failed))
      ⊎ ((e : Date) × IsEarliest e (clean_dates trim_space dates)
          × (digital_age trim_space dates none now ≡ age_at e now))
  unfolding digital_age clamp
  digital_age-IsEarliest = age_of-IsEarliest now (clean_dates trim_space dates)

  -- With a revocation the other dates do not matter: the age is the revocation's.
  pub digital_age-revoked : (r : Date) → digital_age trim_space dates (some r) now ≡ age_at r now
  unfolding digital_age
  digital_age-revoked r =
      elim (age_of-IsEarliest now (clamp (some r) (clean_dates trim_space dates))) [
        | inl (empty, _) ↦ absurd (not_empty r (clean_dates trim_space dates) empty)
        | inr (e, earliest, is) ↦
            is ∙ ap (λ (d : Date). age_at d now) (revoked_earliest r e _ earliest)
      ]
