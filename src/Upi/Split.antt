-- ===== src/Upi/Split.antt =====
-- `splitList` of internal/crawler/upi/suffix.go: a list cut into contiguous chunks. The number of
-- chunks is a natural number: the one caller passes a positive count, and a negative one would give
-- the empty result that 0 gives.
pub mod Chunks
use go_you.Common.{
  ℕ, zero, suc, ◌+◌, ◌-◌, ◌*◌, ◌/◌, ◌%◌, min, List, [], ◌∷◌, Text, length, take, drop, eqb,
  if◌then◌else◌,
}

-- `a[start:end]`
unfoldable pub slice : List Text → ℕ → ℕ → List Text
slice a start end = take (end - start) (drop start a)

-- Where chunk `i` begins: `i*k + min(i, m)`.
unfoldable pub bound : ℕ → ℕ → ℕ → ℕ
bound k m i = i * k + min i m

-- The loop from chunk `i` with `r` rounds left.
unfoldable pub split_from : List Text → ℕ → ℕ → ℕ → ℕ → List (List Text)
split_from a k m i zero = []
split_from a k m i (suc r) = slice a (bound k m i) (bound k m (i + 1)) ∷ split_from a k m (i + 1) r

unfoldable pub split_list : List Text → ℕ → List (List Text)
split_list a n = if eqb n 0 then [] else split_from a (length a / n) (length a % n) 0 n
