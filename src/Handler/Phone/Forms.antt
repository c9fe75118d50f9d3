-- ===== src/Handler/Phone/Forms.antt =====
-- The forms of a phone number.
use go_you.Common.{
  Bool, true, false, ◌&&◌, [], ◌∷◌, ◌++◌, append_assoc, Option, none, some, Text, codes, eqb, All,
  Bool-cases, ◌≡◌, ◌⊎◌, inl, inr, refl, sym, ap, ◌∙◌, arith, if◌then◌else◌,
}
use go_you.Handler.Phone.{
  is_national, national, first_of, is_space, spaces, behind_dash, after_91, match_91, zeros,
  country, lone_zero, match_phone,
}

-- White space alone.
abbrev pub IsBlank : Text → Type 0
IsBlank s = All (λ c. is_space c ≡ true) s

-- What may stand between 91 and the number: nothing, or a dash in white space.
abbrev pub IsGap : Text → Type 0
IsGap gap =
    (gap ≡ [])
    ⊎ ((left : Text) × (right : Text) × IsBlank left
        × IsBlank right
        × (gap ≡ left ++ (b'-' ∷ right)))

abbrev pub IsSign : Text → Type 0
IsSign sign = (sign ≡ codes "+") ⊎ ((sign ≡ []) ⊎ ((sign ≡ codes "0") ⊎ (sign ≡ codes "00")))

-- What may stand in front of the number: nothing, a lone zero, or the country's code.
abbrev pub IsPrefix : Text → Type 0
IsPrefix p =
    (p ≡ [])
    ⊎ ((p ≡ codes "0")
        ⊎ ((sign : Text) × (gap : Text) × IsSign sign
            × IsGap gap
            × (p ≡ sign ++ (codes "91" ++ gap))))

-- The text is a prefix and a national number.
abbrev pub IsForm : Text → Text → Type 0
IsForm s n = (p : Text) × IsPrefix p × (is_national n ≡ true) × (s ≡ p ++ n)

first_of_cases :
    (a b : Option Text) (n : Text) → first_of a b ≡ some n → (a ≡ some n) ⊎ (b ≡ some n)
first_of_cases none b n h = inr h
first_of_cases (some m) b n h = inl h

guarded :
    (c : Bool) (o : Option Text) (n : Text)
    → (if c then o else none) ≡ some n
    → (c ≡ true) × (o ≡ some n)
guarded true o n h = (refl, h)
guarded false o n h = absurd (ground arith)

national_sound : (s n : Text) → national s ≡ some n → (is_national n ≡ true) × (s ≡ n)
unfolding national
national_sound s n h =
    let (valid, e) = guarded (is_national s) (some s) n h in
    let same : s ≡ n = ground (arith, e) in (rw (sym same) valid, same)

spaces_sound : (s : Text) → (left : Text) × IsBlank left × (s ≡ left ++ spaces s)
unfolding spaces
spaces_sound [] = ([], tt, refl)
spaces_sound (c ∷ s) = elim (Bool-cases (is_space c)) [
  | inl blank ↦
      let (left, all_blank, e) = spaces_sound s in
      (c ∷ left, (blank, all_blank), rw (blank, spaces) (ap (◌∷◌ c) e))
  | inr other ↦ ([], tt, rw (other, spaces) refl)
]

-- A text that starts with a gap and ends in the number.
abbrev GapForm : Text → Text → Type 0
GapForm s n = (gap : Text) × IsGap gap × (is_national n ≡ true) × (s ≡ gap ++ n)

behind_dash_sound :
    (s n : Text)
    → behind_dash s ≡ some n
    → (right : Text) × IsBlank right × (is_national n ≡ true) × (s ≡ b'-' ∷ (right ++ n))
unfolding behind_dash
behind_dash_sound [] n h = absurd (ground arith)
behind_dash_sound (c ∷ s) n h =
    let (dash, rest) = guarded (eqb c b'-') (national (spaces s)) n h in
    let (right, blank, e) = spaces_sound s in
    let (valid, same) = national_sound (spaces s) n rest in
    let is_dash : c ≡ b'-' = ground arith in (right, blank, valid, cc (is_dash, e, same))

after_91_sound : (s n : Text) → after_91 s ≡ some n → GapForm s n
unfolding after_91
after_91_sound s n h = elim (first_of_cases (behind_dash (spaces s)) (national s) n h) [
  | inl dashed ↦
      let (left, left_blank, e) = spaces_sound s in
      let (right, right_blank, valid, e') = behind_dash_sound (spaces s) n dashed in
      (
        left ++ (b'-' ∷ right),
        inr (left, right, left_blank, right_blank, refl),
        valid,
        e ∙ ap (◌++◌ left) e' ∙ sym (append_assoc left (b'-' ∷ right) n),
      )
  | inr plain ↦ let (valid, same) = national_sound s n plain in ([], inl refl, valid, same)
]

match_91_sound :
    (s n : Text)
    → match_91 s ≡ some n
    → (gap : Text) × IsGap gap × (is_national n ≡ true) × (s ≡ codes "91" ++ (gap ++ n))
unfolding match_91
match_91_sound [] n h = absurd (ground arith)
match_91_sound (c ∷ []) n h = absurd (ground arith)
match_91_sound (c ∷ d ∷ s) n h =
    let (code, rest) = guarded (eqb c b'9' && eqb d b'1') (after_91 s) n h in
    let (gap, is_gap, valid, e) = after_91_sound s n rest in
    let nine : c ≡ b'9' = ground arith in
    let one : d ≡ b'1' = ground arith in (gap, is_gap, valid, cc (nine, one, e))

-- A text that starts with a given sign, in front of the country's code.
signed : (sign t s n : Text) → IsSign sign → s ≡ sign ++ t → match_91 t ≡ some n → IsForm s n
signed sign t s n is_sign e h =
    let (gap, is_gap, valid, e') = match_91_sound t n h in
    (
      sign ++ (codes "91" ++ gap),
      inr (inr (sign, gap, is_sign, is_gap, refl)),
      valid,
      e
          ∙ ap (◌++◌ sign) (e' ∙ sym (append_assoc (codes "91") gap n))
          ∙ sym (append_assoc sign (codes "91" ++ gap) n),
    )

zeros_sound : (s n : Text) → zeros s ≡ some n → IsForm s n
unfolding zeros
zeros_sound [] n h = absurd (ground arith)
zeros_sound (c ∷ []) n h = absurd (ground arith)
zeros_sound (c ∷ d ∷ s) n h = elim (first_of_cases _ _ n h) [
  | inl two ↦
      let (both, rest) = guarded (eqb c b'0' && eqb d b'0') (match_91 s) n two in
      let first : c ≡ b'0' = ground arith in
      let second : d ≡ b'0' = ground arith in
      signed (codes "00") s (c ∷ d ∷ s) n (inr (inr (inr refl))) (cc (first, second)) rest
  | inr fewer ↦ elim (first_of_cases _ _ n fewer) [
    | inl one ↦
        let (zero_first, rest) = guarded (eqb c b'0') (match_91 (d ∷ s)) n one in
        let first : c ≡ b'0' = ground arith in
        signed (codes "0") (d ∷ s) (c ∷ d ∷ s) n (inr (inr (inl refl))) (cc first) rest
    | inr none_ ↦ signed [] (c ∷ d ∷ s) (c ∷ d ∷ s) n (inr (inl refl)) refl none_
  ]
]

country_sound : (s n : Text) → country s ≡ some n → IsForm s n
unfolding country
country_sound [] n h = absurd (ground arith)
country_sound (c ∷ s) n h = elim (first_of_cases _ _ n h) [
  | inl plus ↦
      let (is_plus, rest) = guarded (eqb c b'+') (match_91 s) n plus in
      let first : c ≡ b'+' = ground arith in
      signed (codes "+") s (c ∷ s) n (inl refl) (cc first) rest
  | inr rest ↦ zeros_sound (c ∷ s) n rest
]

lone_zero_sound : (s n : Text) → lone_zero s ≡ some n → IsForm s n
unfolding lone_zero
lone_zero_sound [] n h = absurd (ground arith)
lone_zero_sound (c ∷ s) n h = elim (first_of_cases _ _ n h) [
  | inl led ↦
      let (zero_first, rest) = guarded (eqb c b'0') (national s) n led in
      let (valid, same) = national_sound s n rest in
      let first : c ≡ b'0' = ground arith in (codes "0", inr (inl refl), valid, cc (first, same))
  | inr plain ↦ let (valid, same) = national_sound (c ∷ s) n plain in ([], inl refl, valid, same)
]

pub match_phone_sound : (s n : Text) → match_phone s ≡ some n → IsForm s n
unfolding match_phone
match_phone_sound s n h = elim (first_of_cases _ _ n h) [
  | inl coded ↦ country_sound s n coded
  | inr uncoded ↦ elim (first_of_cases _ _ n uncoded) [
    | inl led ↦ lone_zero_sound s n led
    | inr plain ↦ let (valid, same) = national_sound s n plain in ([], inl refl, valid, same)
  ]
]
