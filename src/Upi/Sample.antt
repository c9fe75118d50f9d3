-- ===== src/Upi/Sample.antt =====
-- internal/crawler/upi/sample.go: the weighted draw of sources without replacement. The generator's
-- words are computed here; the 64-bit FNV hash and the operations on floats are parameters.
pub mod Draw
use Prim.Native.Nat.{bit_xor}
use go_you.Common.{
  ℕ, zero, suc, ◌+◌, ◌*◌, ◌/◌, ◌%◌, ◌^◌, Bool, true, false, ◌||◌, List, [], ◌∷◌, map, Text, eqb,
  leb, length, contains, if◌then◌else◌,
}
use go_you.Common.Int.{ℤ, pos, negsuc, leb_ℤ}
use go_you.Upi.Model.{Float, SourceConfig}

pub record FloatOps : Type 0 where
  pub le_zero : Float → Bool
  pub gt : Float → Float → Bool
  pub pow : Float → Float → Float
  pub reciprocal : Float → Float
  -- `float64(x) / float64(1<<53)`
  pub unit : ℕ → Float
  -- 1e-9 and 1e-12
  pub tiny_weight : Float
  pub tiny_draw : Float

-- `newSeededRand`, from the hash of the seed: a state of 0 would stay 0.
unfoldable pub seed_state : ℕ → ℕ
seed_state hash = if eqb hash 0 then 0x9e3779b97f4a7c15 else hash

-- `next` of the xorshift generator over 64-bit words.
unfoldable pub next : ℕ → ℕ
next s =
    let a = bit_xor s (s * 2 ^ 13 % 2 ^ 64) in
    let b = bit_xor a (a / 2 ^ 7) in bit_xor b (b * 2 ^ 17 % 2 ^ 64)

pub record Keyed : Type 0 where
  pub src : SourceConfig
  pub key : Float

module _ (ops : FloatOps) where
  -- The key of one item, from its weight and the word drawn for it.
  unfoldable pub draw_key : Float → ℕ → Float
  draw_key weight word =
      let w = if ops.le_zero weight then ops.tiny_weight else weight in
      let u = ops.unit (word / 2 ^ 11) in
      ops.pow (if ops.le_zero u then ops.tiny_draw else u) (ops.reciprocal w)

  -- The loop that draws a key for each source; `weights[i]` is the source's own weight.
  unfoldable pub draw_keys : ℕ → List SourceConfig → List Keyed
  draw_keys s [] = []
  draw_keys s (src ∷ rest) =
      record { src = src; key = draw_key src.weight (next s) } ∷ draw_keys (next s) rest

  -- The inner loop of the selection: the offset of the first highest key, from the best so far.
  unfoldable pub max_idx : ℕ → Float → ℕ → List Keyed → ℕ
  max_idx best best_key j [] = best
  max_idx best best_key j (k ∷ rest) =
      let higher = ops.gt k.key best_key in
      max_idx (if higher then j else best) (if higher then k.key else best_key) (j + 1) rest

  -- `keys[i], keys[maxIdx] = keys[maxIdx], keys[i]` on the part from `i` on, whose head is `x`.
  unfoldable pub swap_head : ℕ → Keyed → List Keyed → Keyed × List Keyed
  swap_head zero x rest = (x, rest)
  swap_head (suc i) x [] = (x, [])
  swap_head (suc zero) x (y ∷ rest) = (y, x ∷ rest)
  swap_head (suc (suc i)) x (y ∷ rest) = let r = swap_head (suc i) x rest in (r.0, y ∷ r.1)

  -- The first `k` rounds of the selection, and the items that they move to the front.
  unfoldable pub select_top : ℕ → List Keyed → List SourceConfig
  select_top zero keys = []
  select_top (suc k) [] = []
  select_top (suc k) (x ∷ rest) =
      let r = swap_head (max_idx 0 x.key 1 rest) x rest in r.0.src ∷ select_top k r.1

unfoldable pub dedup_from : List Text → List SourceConfig → List SourceConfig
dedup_from seen [] = []
dedup_from seen (s ∷ rest) =
    let dup = contains s.name seen in
    let more = dedup_from (if dup then seen else s.name ∷ seen) rest in
    if dup then more else s ∷ more

unfoldable pub dedup_by_name : List SourceConfig → List SourceConfig
dedup_by_name = dedup_from []

abbrev to_count : ℤ → ℕ
to_count (pos n) = n
to_count (negsuc n) = 0

-- The draw of `k` items, with the generator in state `s`.
unfoldable pub weighted_sample_no_replace : FloatOps → List SourceConfig → ℤ → ℕ → List SourceConfig
weighted_sample_no_replace ops sources k s =
    let n = length sources in
    if leb_ℤ k (pos 0) || eqb n 0
    then []
    else if leb_ℤ (pos n) k
    then dedup_by_name sources
    else dedup_by_name (select_top ops (to_count k) (draw_keys ops s sources))

-- The state of the generator after the draw of one word for each source.
after_keys : ℕ → List SourceConfig → ℕ
unfolding next
after_keys s [] = s
after_keys s (src ∷ rest) = after_keys (next s) rest

-- The state in which the draw leaves the generator: it is used only where not all are returned.
unfoldable pub state_after_sample : List SourceConfig → ℤ → ℕ → ℕ
unfolding after_keys
state_after_sample sources k s =
    let n = length sources in
    if leb_ℤ k (pos 0) || eqb n 0 then s else if leb_ℤ (pos n) k then s else after_keys s sources
