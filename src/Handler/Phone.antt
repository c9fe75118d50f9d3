-- ===== src/Handler/Phone.antt =====
-- internal/handler/persona.go: the reading of a request's phone number. `strings.TrimSpace` is a
-- parameter.
pub mod Forms
pub mod Parsed
use go_you.Common.{
  ℕ, zero, suc, Bool, true, false, not, ◌&&◌, ◌||◌, List, [], ◌∷◌, ◌++◌, Option, none, some, Text,
  codes, ◌==◌, eqb, leb, length, drop, if◌then◌else◌,
}
use go_you.Common.Strings.{strip_prefix}

unfoldable pub is_digit : ℕ → Bool
is_digit c = leb b'0' c && leb c b'9'

unfoldable pub digits_only : Text → Bool
unfolding is_digit
digits_only [] = true
digits_only (c ∷ s) = is_digit c && digits_only s

-- `[6789]\d{9}` up to the end of the text.
unfoldable pub is_national : Text → Bool
unfolding digits_only
is_national [] = false
is_national (c ∷ s) = leb b'6' c && leb c b'9' && eqb (length s) 9 && digits_only s

national : Text → Option Text
unfolding is_national
national s = if is_national s then some s else none

abbrev first_of : Option Text → Option Text → Option Text
first_of none b = b
first_of (some a) b = some a

-- `\s`
unfoldable pub is_space : ℕ → Bool
is_space c = eqb c 32 || eqb c 9 || eqb c 10 || eqb c 12 || eqb c 13

spaces : Text → Text
unfolding is_space
spaces [] = []
spaces (c ∷ s) = elim (is_space c) [ true ↦ spaces s | false ↦ c ∷ s ]

behind_dash : Text → Option Text
unfolding national spaces
behind_dash [] = none
behind_dash (c ∷ s) = if eqb c b'-' then national (spaces s) else none

-- `(?:\s*-\s*)?` and the number.
after_91 : Text → Option Text
unfolding behind_dash national spaces
after_91 s = first_of (behind_dash (spaces s)) (national s)

match_91 : Text → Option Text
unfolding after_91
match_91 [] = none
match_91 (c ∷ []) = none
match_91 (c ∷ d ∷ s) = if eqb c b'9' && eqb d b'1' then after_91 s else none

-- `0{0,2}`, the longest run first.
zeros : Text → Option Text
unfolding match_91
zeros [] = none
zeros (c ∷ []) = none
zeros (c ∷ d ∷ s) =
    first_of (if eqb c b'0' && eqb d b'0' then match_91 s else none)
      (first_of (if eqb c b'0' then match_91 (d ∷ s) else none) (match_91 (c ∷ d ∷ s)))

-- `(?:\+|0{0,2})91(?:\s*-\s*)?` and the number.
country : Text → Option Text
unfolding match_91 zeros
country [] = none
country (c ∷ s) = first_of (if eqb c b'+' then match_91 s else none) (zeros (c ∷ s))

-- `0?` and the number.
lone_zero : Text → Option Text
unfolding national
lone_zero [] = none
lone_zero (c ∷ s) = first_of (if eqb c b'0' then national s else none) (national (c ∷ s))

-- `FindStringSubmatch` of `phoneRegex`: its group, the alternatives in their order.
unfoldable pub match_phone : Text → Option Text
unfolding country lone_zero national
match_phone s = first_of (country s) (first_of (lone_zero s) (national s))

unfoldable pub parse_trimmed : Text → Text
parse_trimmed s =
    if s == [] then [] else elim (match_phone s) [ none ↦ [] | some n ↦ codes "+91" ++ n ]

unfoldable pub parse_phone : (Text → Text) → Text → Text
parse_phone trim_space raw = parse_trimmed (trim_space raw)

strip_plus : Text → Text
strip_plus [] = []
strip_plus (c ∷ s) = if eqb c b'+' then s else c ∷ s

strip_91 : Text → Text
strip_91 s = elim (strip_prefix (codes "91") s) [
  | none ↦ s
  | some rest ↦ if eqb (length s) 12 then rest else s
]

unfoldable pub national_from_identifier : Text → Text
unfolding strip_plus strip_91
national_from_identifier identifier = strip_91 (strip_plus identifier)
