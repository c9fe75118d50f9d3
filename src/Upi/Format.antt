-- ===== src/Upi/Format.antt =====
-- `isUPIFormatCorrect` of internal/crawler/upi/response.go with the pattern of regex.go,
-- `^\d{10}(-[^@]+)?@.*`, as a matcher over the bytes; Format/Pattern.antt reads the pattern as a
-- statement.
pub mod Pattern
use go_you.Common.{ℕ, zero, suc, Bool, true, false, not, ◌&&◌, List, [], ◌∷◌, Text, eqb, leb}

-- `\d`
abbrev pub is_digit : ℕ → Bool
is_digit c = leb b'0' c && leb c b'9'

-- A part of `[^@]+` has been read: more of it, or the `@`.
unfoldable pub match_affix : Text → Bool
match_affix [] = false
match_affix (c ∷ s) = elim (eqb c b'@') [ true ↦ true | false ↦ match_affix s ]

-- Behind `-`: at least one byte other than `@`.
unfoldable pub match_affix_start : Text → Bool
match_affix_start [] = false
match_affix_start (c ∷ s) = not (eqb c b'@') && match_affix s

-- `(-[^@]+)?@.*`
unfoldable pub match_handle : Text → Bool
match_handle [] = false
match_handle (c ∷ s) = elim (eqb c b'@') [ true ↦ true | false ↦ eqb c b'-' && match_affix_start s ]

-- `\d{n}`, and then the handle.
unfoldable pub match_digits : ℕ → Text → Bool
match_digits zero s = match_handle s
match_digits (suc n) [] = false
match_digits (suc n) (c ∷ s) = is_digit c && match_digits n s

unfoldable pub is_upi_format_correct : Text → Bool
unfolding match_digits match_handle match_affix_start match_affix
is_upi_format_correct = match_digits 10
