-- ===== src/Upi/Format/Pattern.antt =====
-- The texts that the pattern of regex.go describes.
use go_you.Common.{
  ℕ, zero, suc, true, [], ◌∷◌, ◌++◌, Text, eqb, All, In, length, Bool-cases, ◌≡◌, ◌≢◌, ◌⊎◌, ◌↔◌,
  inl, inr, refl, ap, arith,
}
use go_you.Upi.Format.{
  is_digit, match_affix, match_affix_start, match_handle, match_digits, is_upi_format_correct,
}

-- An `@` with anything behind it; or a dash, one or more bytes other than `@`, and such an `@`.
abbrev pub IsHandle : Text → Type 0
IsHandle s =
    ((rest : Text) × (s ≡ b'@' ∷ rest))
    ⊎ ((affix : Text) × (rest : Text) × (affix ≢ [])
        × (¬ In b'@' affix)
        × (s ≡ b'-' ∷ (affix ++ (b'@' ∷ rest))))

abbrev pub IsDigits : ℕ → Text → Type 0
IsDigits n digits = (length digits ≡ n) × All (λ c. is_digit c ≡ true) digits

affix_sound :
    (s : Text)
    → match_affix s ≡ true
    → (affix : Text) × (rest : Text) × (¬ In b'@' affix) × (s ≡ affix ++ (b'@' ∷ rest))
unfolding match_affix
affix_sound [] h = cc
affix_sound (c ∷ s) h = elim (Bool-cases (eqb c b'@')) [
  | inl t ↦ ([], s, λ m. m, ground arith)
  | inr f ↦
      let (affix, rest, free, e) = affix_sound s (ground arith) in
      (
        c ∷ affix,
        rest,
        λ m. elim m [ inl e' ↦ ground arith | inr later ↦ free later ],
        ap (◌∷◌ c) e,
      )
]

affix_complete : (affix rest : Text) → ¬ In b'@' affix → match_affix (affix ++ (b'@' ∷ rest)) ≡ true
unfolding match_affix
affix_complete [] rest h = refl
affix_complete (c ∷ affix) rest h = ground (arith, affix_complete affix rest (λ m. h (inr m)))

IsHandle-sound : (s : Text) → match_handle s ≡ true → IsHandle s
unfolding match_handle match_affix_start
IsHandle-sound [] h = cc
IsHandle-sound (c ∷ []) h = inl ([], ground arith)
IsHandle-sound (c ∷ d ∷ s) h = elim (Bool-cases (eqb c b'@')) [
  | inl t ↦ inl (d ∷ s, ground arith)
  | inr f ↦
      let dash : c ≡ b'-' = ground arith in
      let other : d ≢ b'@' = ground arith in
      let (affix, rest, free, e) = affix_sound s (ground arith) in
      inr
        (d ∷ affix, rest, λ e'. cc, λ m. elim m [ inl e' ↦ other e' | inr later ↦ free later ], cc)
]

handle_complete : (s : Text) → IsHandle s → match_handle s ≡ true
unfolding match_handle match_affix_start
handle_complete s (inl (rest, e)) = rw e
handle_complete s (inr ([], rest, some_affix, free, e)) = absurd (some_affix refl)
handle_complete s (inr (c ∷ affix, rest, some_affix, free, e)) =
    let other : c ≢ b'@' = λ e'. free (inl e') in
    rw e (ground (arith, affix_complete affix rest (λ m. free (inr m))))

IsDigits-sound :
    (n : ℕ) (s : Text)
    → match_digits n s ≡ true
    → (digits : Text) × (handle : Text) × IsDigits n digits
      × IsHandle handle
      × (s ≡ digits ++ handle)
unfolding match_digits
IsDigits-sound zero s h = ([], s, (refl, tt), IsHandle-sound s h, refl)
IsDigits-sound (suc n) [] h = cc
IsDigits-sound (suc n) (c ∷ s) h =
    let (digits, handle, (len, all), ok, e) = IsDigits-sound n s (ground arith) in
    (c ∷ digits, handle, (ap suc len, (ground arith, all)), ok, ap (◌∷◌ c) e)

digits_complete :
    (n : ℕ) (digits handle : Text)
    → IsDigits n digits
    → IsHandle handle
    → match_digits n (digits ++ handle) ≡ true
unfolding match_digits
digits_complete zero [] handle h ok = handle_complete handle ok
digits_complete zero (c ∷ digits) handle h ok = absurd (omega arith)
digits_complete (suc n) [] handle h ok = absurd (omega arith)
digits_complete (suc n) (c ∷ digits) handle (len, (first, all)) ok =
    ground (arith, digits_complete n digits handle (omega arith, all) ok)

-- The matcher accepts exactly the texts of ten digits and a handle: what the pattern says.
pub is_upi_format_correct_iff :
    (s : Text)
    → (is_upi_format_correct s ≡ true) ↔ (
        (digits : Text) × (handle : Text) × IsDigits 10 digits
        × IsHandle handle
        × (s ≡ digits ++ handle))
unfolding is_upi_format_correct
is_upi_format_correct_iff s = (
  IsDigits-sound 10 s,
  λ (digits, handle, d, ok, e). rw e (digits_complete 10 digits handle d ok),
)
