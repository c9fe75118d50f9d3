-- ===== src/Handler/Phone/Parsed.antt =====
-- Every form of a phone number is read, and to one result.
use go_you.Common.{
  ℕ, true, false, [], ◌∷◌, ◌++◌, append_assoc, Option, none, some, Text, codes, ◌==◌, eqb, length,
  length-append, Bool-cases, Option-cases, is_some, ◌≡◌, ◌↔◌, inl, inr, refl, sym, ap, ◌∙◌, arith,
  if-false, eq_iff,
}
use go_you.Handler.Phone.{
  is_national, national, first_of, is_space, spaces, behind_dash, after_91, match_91, zeros,
  country, lone_zero, match_phone, parse_trimmed, parse_phone, national_from_identifier, strip_plus,
  strip_91,
}
use go_you.Common.Strings.{strip_prefix}
use go_you.Handler.Phone.Forms.{IsBlank, IsGap, IsSign, IsForm, match_phone_sound}

national_length : (n : Text) → is_national n ≡ true → length n ≡ 10
unfolding is_national
national_length [] h = absurd (ground arith)
national_length (c ∷ n) h = ground arith

-- A text starts with a digit from 6 to 9.
national_head :
    (n : Text)
    → is_national n ≡ true
    → (c : ℕ) × (t : Text) × (n ≡ c ∷ t) × (is_space c ≡ false) × (eqb c b'-' ≡ false)
unfolding is_national is_space
national_head [] h = absurd (ground arith)
national_head (c ∷ n) h = (c, n, refl, ground arith, ground arith)

national_read : (n : Text) → is_national n ≡ true → national n ≡ some n
unfolding national
national_read n h = rw (h, national) refl

spaces_stop : (c : ℕ) (s : Text) → is_space c ≡ false → spaces (c ∷ s) ≡ c ∷ s
unfolding spaces
spaces_stop c s h = rw (h, spaces) refl

spaces_blank : (left s : Text) → IsBlank left → spaces (left ++ s) ≡ spaces s
unfolding spaces
spaces_blank [] s h = refl
spaces_blank (c ∷ left) s (blank, rest) = rw (blank, spaces) (spaces_blank left s rest)

spaces_national : (n : Text) → is_national n ≡ true → spaces n ≡ n
spaces_national n h = let (c, t, e, solid, _) = national_head n h in rw e (spaces_stop c t solid)

first_of_left : (a b : Option Text) → is_some a ≡ true → is_some (first_of a b) ≡ true
first_of_left none b h = absurd (ground arith)
first_of_left (some a) b h = refl

first_of_right : (a b : Option Text) → is_some b ≡ true → is_some (first_of a b) ≡ true
first_of_right none b h = h
first_of_right (some a) b h = refl

national_found : (n : Text) → is_national n ≡ true → is_some (national n) ≡ true
national_found n h = rw (national_read n h) refl

-- The gap with a dash, read up to the number.
dashed_spaces :
    (left right n : Text)
    → IsBlank left
    → spaces ((left ++ (b'-' ∷ right)) ++ n) ≡ b'-' ∷ (right ++ n)
unfolding is_space
dashed_spaces left right n blank =
    ap spaces (append_assoc left (b'-' ∷ right) n)
    ∙ spaces_blank left (b'-' ∷ (right ++ n)) blank
    ∙ spaces_stop b'-' (right ++ n) refl

dashed_found :
    (right n : Text)
    → IsBlank right
    → is_national n ≡ true
    → is_some (behind_dash (b'-' ∷ (right ++ n))) ≡ true
unfolding behind_dash
dashed_found right n blank h =
    ap (λ (t : Text). is_some (national t)) (spaces_blank right n blank ∙ spaces_national n h)
    ∙ national_found n h

after_91_found :
    (gap n : Text) → IsGap gap → is_national n ≡ true → is_some (after_91 (gap ++ n)) ≡ true
unfolding after_91
after_91_found gap n (inl plain) h =
    rw plain (first_of_right (behind_dash (spaces n)) (national n) (national_found n h))
after_91_found gap n (inr (left, right, left_blank, right_blank, e)) h = rw e (
    first_of_left (behind_dash (spaces ((left ++ (b'-' ∷ right)) ++ n))) _ (
      ap (λ (t : Text). is_some (behind_dash t)) (dashed_spaces left right n left_blank)
      ∙ dashed_found right n right_blank h))

match_91_found :
    (gap n : Text)
    → IsGap gap
    → is_national n ≡ true
    → is_some (match_91 (codes "91" ++ (gap ++ n))) ≡ true
unfolding match_91
match_91_found gap n is_gap h = after_91_found gap n is_gap h

country_found :
    (sign t : Text)
    → IsSign sign
    → is_some (match_91 (codes "91" ++ t)) ≡ true
    → is_some (country (sign ++ (codes "91" ++ t))) ≡ true
unfolding country zeros
country_found sign t (inl plus) h = rw plus (first_of_left (match_91 (codes "91" ++ t)) _ h)
country_found sign t (inr (inl empty)) h = rw empty h
country_found sign t (inr (inr (inl zero_))) h =
    rw zero_ (first_of_left (match_91 (codes "91" ++ t)) _ h)
country_found sign t (inr (inr (inr two))) h =
    rw two (first_of_left (match_91 (codes "91" ++ t)) _ h)

lone_zero_found : (n : Text) → is_national n ≡ true → is_some (lone_zero (b'0' ∷ n)) ≡ true
unfolding lone_zero
lone_zero_found n h = first_of_left (national n) _ (national_found n h)

match_phone_found : (s n : Text) → IsForm s n → is_some (match_phone s) ≡ true
unfolding match_phone
match_phone_found s n (p, inl empty, h, e) = first_of_right (country s) _ (
    first_of_right (lone_zero s) (national s) (
      ap (λ (t : Text). is_some (national t)) (e ∙ ap (λ (q : Text). q ++ n) empty)
      ∙ national_found n h))
match_phone_found s n (p, inr (inl led), h, e) = first_of_right (country s) _ (
    first_of_left (lone_zero s) (national s) (
      ap (λ (t : Text). is_some (lone_zero t)) (e ∙ ap (λ (q : Text). q ++ n) led)
      ∙ lone_zero_found n h))
match_phone_found s n (p, inr (inr (sign, gap, is_sign, is_gap, prefix_is)), h, e) =
    first_of_left (country s) _ (
      ap (λ (t : Text). is_some (country t))
        (e
          ∙ ap (λ (q : Text). q ++ n) prefix_is
          ∙ append_assoc sign (codes "91" ++ gap) n
          ∙ ap (◌++◌ sign) (append_assoc (codes "91") gap n))
      ∙ country_found sign (gap ++ n) is_sign (match_91_found gap n is_gap h))

-- Two ends of one text that have one length are the same.
same_end : (p q m n : Text) → p ++ m ≡ q ++ n → length m ≡ length n → m ≡ n
same_end [] [] m n e h = e
same_end [] (d ∷ q) m n e h = absurd (omega (arith, h, ap length e, length-append (d ∷ q) n))
same_end (c ∷ p) [] m n e h = absurd (omega (arith, h, ap length e, length-append (c ∷ p) m))
same_end (c ∷ p) (d ∷ q) m n e h = same_end p q m n (cc e) h

IsForm-unique : (s m n : Text) → IsForm s m → IsForm s n → m ≡ n
IsForm-unique s m n (p, _, hm, e) (q, _, hn, e') =
    same_end p q m n (sym e ∙ e') (national_length m hm ∙ sym (national_length n hn))

-- A text is read as a phone number exactly if it is an optional prefix (a lone zero, or 91 with an
-- optional plus or up to two zeros in front and an optional dash in white space behind) and a national
-- number of ten digits that starts with 6 to 9, and what is read is that number.
pub match_phone-IsForm : (s n : Text) → (match_phone s ≡ some n) ↔ IsForm s n
match_phone-IsForm s n = (
  match_phone_sound s n,
  λ form. elim (Option-cases (match_phone s)) [
    | inl missing ↦ absurd (ground (arith, match_phone_found s n form, missing))
    | inr (m, found) ↦ found ∙ ap some (IsForm-unique s m n (match_phone_sound s m found) form)
  ],
)

form_filled : (s n : Text) → IsForm s n → s == [] ≡ false
form_filled s n (p, _, h, e) = elim (Bool-cases (s == [])) [
  | inl empty ↦ absurd (
      omega (
        arith,
        length-append p n,
        national_length n h,
        ap length e,
        ap length ((eq_iff s []).0 empty),
      ))
  | inr filled ↦ filled
]

parsed : (s n : Text) → IsForm s n → parse_trimmed s ≡ codes "+91" ++ n
unfolding parse_trimmed
parsed s n form =
    if-false (s == []) _ _ (form_filled s n form)
    ∙ ap (λ (o : Option Text). elim o [ none ↦ [] | some m ↦ codes "+91" ++ m ])
        ((match_phone-IsForm s n).1 form)

canonical : (n : Text) → is_national n ≡ true → IsForm (codes "+91" ++ n) n
canonical n h = (codes "+91", inr (inr (codes "+", [], inl refl, inl refl, refl)), h, refl)

national_back : (n : Text) → is_national n ≡ true → national_from_identifier (codes "+91" ++ n) ≡ n
unfolding national_from_identifier strip_plus strip_91 strip_prefix
national_back n h = ground (arith, national_length n h)

-- Where the trimmed text is a form of the national number n, what is parsed is +91 and n, the national
-- number read back from it is n, and parsing it again, which `strings.TrimSpace` leaves as it is, gives
-- the same.
pub parse_phone-normal :
    (trim_space : Text → Text) (raw n : Text)
    → IsForm (trim_space raw) n
    → trim_space (codes "+91" ++ n) ≡ codes "+91" ++ n
    → (parse_phone trim_space raw ≡ codes "+91" ++ n)
      × (national_from_identifier (parse_phone trim_space raw) ≡ n)
      × (parse_phone trim_space (parse_phone trim_space raw) ≡ parse_phone trim_space raw)
unfolding parse_phone
parse_phone-normal trim_space raw n form trimmed =
    let once = parsed (trim_space raw) n form in
    let valid : is_national n ≡ true = form.2 in
    (
      once,
      ap national_from_identifier once ∙ national_back n valid,
      ap (λ (t : Text). parse_trimmed (trim_space t)) once
          ∙ ap parse_trimmed trimmed
          ∙ parsed (codes "+91" ++ n) n (canonical n valid)
          ∙ sym once,
    )
