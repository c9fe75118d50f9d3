-- ===== src/AppConfig/Timeouts.antt =====
-- The choice of a request's timeout and of the score's key.
use go_you.Common.{
  ℕ, zero, suc, List, [], ◌∷◌, ◌-◌, ◌<◌, min, Option, none, some, Text, codes, length, get_elem?,
  ◌≡◌, ◌≢◌, refl, ap, ◌∙◌, arith, eq_iff,
}
use go_you.Common.Int.{ℤ, pos, negsuc, pos_part}
use go_you.Json.{Fields, as_str, get}
use go_you.AppConfig.{
  YouConfiguration, timeout, index_timeouts, clamp_count, choose_timeout, request_timeout_for,
  onboarding_fraud_output_key, fraud_detection, rename_to, output_key,
}

get_elem?_lt :
    {A : Type 0} (xs : List A) (i : ℕ) → i < length xs → (x : A) × (get_elem? xs i ≡ some x)
get_elem?_lt [] i h = absurd (omega arith)
get_elem?_lt (x ∷ xs) zero h = (x, refl)
get_elem?_lt (x ∷ xs) (suc i) h = get_elem?_lt xs i (omega arith)

-- The position that a request count selects in a list of n timeouts.
abbrev pub position : ℕ → ℤ → ℕ
position n count = min (pos_part count) n - 1

clamp_count-position :
    (n : ℕ) (count : ℤ) → pos_part (clamp_count (suc n) count) - 1 ≡ position (suc n) count
unfolding clamp_count
clamp_count-position n (pos k) = ground arith
clamp_count-position n (negsuc k) = ground arith

index_timeouts_at :
    (ts : List ℕ) (i t : ℕ) → get_elem? ts i ≡ some t → index_timeouts ts i ≡ timeout t
unfolding index_timeouts
index_timeouts_at ts i t at = rw (at, index_timeouts)

choose_timeout-in_range :
    (ts : List ℕ) (count : ℤ)
    → ts ≢ []
    → (t : ℕ) × (choose_timeout ts count ≡ timeout t)
      × (get_elem? ts (position (length ts) count) ≡ some t)
unfolding choose_timeout
choose_timeout-in_range [] count given = absurd (given refl)
choose_timeout-in_range (t ∷ ts) count given =
    let at = get_elem?_lt (t ∷ ts) (position (length (t ∷ ts)) count) (omega arith) in
    (
      at.0,
      ap (index_timeouts (t ∷ ts)) (clamp_count-position (length ts) count)
          ∙ index_timeouts_at (t ∷ ts) _ at.0 at.1,
      at.1,
    )

-- With timeouts configured, any request count, zero and negative ones included, selects the timeout
-- at its 1-based position, the first for less than one and the last for more than there are: the
-- access is never out of range.
pub request_timeout_for-in_range :
    (yc : YouConfiguration) (count : ℤ)
    → yc.request_timeout ≢ []
    → (t : ℕ) × (request_timeout_for yc count ≡ timeout t)
      × (get_elem? yc.request_timeout (position (length yc.request_timeout) count) ≡ some t)
unfolding request_timeout_for
request_timeout_for-in_range yc count given = choose_timeout-in_range yc.request_timeout count given

output_key_plain :
    (name : Option Text) → (output_key name ≢ []) × (output_key name ≢ codes "identity_fraud")
unfolding output_key
output_key_plain none = (λ e. cc, λ e. cc)
output_key_plain (some name) = ground (arith, eq_iff name [], eq_iff name (codes "identity_fraud"))

rename_to_plain :
    (ofd : Option Fields) → ((rename_to ofd).0 ≢ []) × ((rename_to ofd).0 ≢ codes "identity_fraud")
unfolding rename_to
rename_to_plain none = output_key_plain none
rename_to_plain (some ofd) = output_key_plain (as_str (get (codes "output_key_name") ofd))

-- Whatever a tenant configures, the key under which the fraud score is given is not empty and is
-- not `identity_fraud`.
pub onboarding_fraud_output_key-plain :
    (yc : YouConfiguration)
    → ((onboarding_fraud_output_key yc).0 ≢ [])
      × ((onboarding_fraud_output_key yc).0 ≢ codes "identity_fraud")
unfolding onboarding_fraud_output_key
onboarding_fraud_output_key-plain yc = rename_to_plain (fraud_detection yc)
