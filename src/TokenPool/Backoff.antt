-- ===== src/TokenPool/Backoff.antt =====
-- How long the pool's loop waits.
use go_you.Common.{
  ℕ, zero, suc, ◌*◌, ◌^◌, ◌<◌, ◌≤◌, min, false, List, [], ◌∷◌, ltb, leb, eqb, ◌&&◌, ◌≡◌, ◌∙◌, refl,
  ap, sym, arith, replicate, ◌++◌, Bool-cases, inl, inr,
}
use native.Mathlib.Nat.{mul-suc, mul_assoc, pow-suc, pow-succ'}
use go_you.Common.Int.{ℤ, pos}
use go_you.TokenPool.{PoolConfig, max_backoff, double, next_wait}

-- The wait behind cycles with these counts of attempted and succeeded generations.
pub wait_from : PoolConfig → ℤ → List (ℕ × ℕ) → ℤ
wait_from cfg wait [] = wait
wait_from cfg wait ((attempted, succeeded) ∷ cycles) =
    wait_from cfg (next_wait cfg wait attempted succeeded) cycles

double-small : (n : ℕ) → n ≤ max_backoff → double (pos n) ≡ pos (n * 2)
unfolding double
double-small n h = ground arith

next_wait-failed :
    (cfg : PoolConfig) (w attempted : ℕ)
    → w ≤ max_backoff
    → 0 < attempted
    → next_wait cfg (pos w) attempted 0 ≡ pos (min (w * 2) max_backoff)
unfolding next_wait
next_wait-failed cfg w attempted high some = rw (double-small w high) (ground arith)

next_wait-Bounded :
    (cfg : PoolConfig) (w attempted succeeded : ℕ)
    → cfg.sleep ≤ w
    → w ≤ max_backoff
    → (v : ℕ) × (next_wait cfg (pos w) attempted succeeded ≡ pos v)
      × (cfg.sleep ≤ v)
      × (v ≤ max_backoff)
unfolding next_wait
next_wait-Bounded cfg w attempted succeeded low high =
    let pick = ltb 0 attempted && eqb succeeded 0 in
    elim (Bool-cases pick) [
      | inl lost ↦ (
        min (w * 2) max_backoff,
        rw (double-small w high, lost) (ground arith),
        omega arith,
        omega arith,
      )
      | inr fine ↦ (cfg.sleep, rw fine refl, omega arith, omega arith)
    ]

bounded_from :
    (cfg : PoolConfig) (cycles : List (ℕ × ℕ)) (w : ℕ)
    → cfg.sleep ≤ w
    → w ≤ max_backoff
    → (v : ℕ) × (wait_from cfg (pos w) cycles ≡ pos v) × (cfg.sleep ≤ v) × (v ≤ max_backoff)
unfolding wait_from
bounded_from cfg [] w low high = (w, refl, low, high)
bounded_from cfg ((attempted, succeeded) ∷ cycles) w low high =
    let (v, e, low', high') = next_wait-Bounded cfg w attempted succeeded low high in
    let (u, e', low'', high'') = bounded_from cfg cycles v low' high' in
    (u, ap (λ z. wait_from cfg z cycles) e ∙ e', low'', high'')

pow_pos : (k : ℕ) → 0 < 2 ^ k
pow_pos zero = omega arith
pow_pos (suc k) = rw (pow-suc 2 k) (omega (arith, pow_pos k))

min_grow :
    (w x : ℕ) → 0 < x → min (min (w * 2) max_backoff * x) max_backoff ≡ min (w * 2 * x) max_backoff
min_grow w zero h = absurd (omega arith)
min_grow w (suc y) h = elim (Bool-cases (leb (w * 2) max_backoff)) [
  | inl small ↦
      let e : min (w * 2) max_backoff ≡ w * 2 = ground arith in
      ap (λ z. min (z * suc y) max_backoff) e
  | inr large ↦
      let e : min (w * 2) max_backoff ≡ max_backoff = ground arith in
      let big : max_backoff ≤ w * 2 = ground arith in
      ap (λ z. min (z * suc y) max_backoff) e ∙ rw (mul-suc (w * 2) y) (omega arith)
]

exponential_from :
    (cfg : PoolConfig) (k attempted w : ℕ)
    → w ≤ max_backoff
    → 0 < attempted
    → wait_from cfg (pos w) (replicate k (attempted, 0)) ≡ pos (min (w * 2 ^ k) max_backoff)
unfolding wait_from
exponential_from cfg zero attempted w high some = ap pos (omega arith)
exponential_from cfg (suc k) attempted w high some =
    ap (λ z. wait_from cfg z (replicate k (attempted, 0)))
      (next_wait-failed cfg w attempted high some)
    ∙ exponential_from cfg k attempted (min (w * 2) max_backoff) (omega arith) some
    ∙ ap pos (
        min_grow w (2 ^ k) (pow_pos k)
        ∙ ap (λ x. min x max_backoff)
            (mul_assoc w 2 (2 ^ k) ∙ ap (λ x. w * x) (sym (pow-succ' 2 k))))

reset_at_end :
    (cfg : PoolConfig) (cycles : List (ℕ × ℕ)) (w : ℤ) (cycle : ℕ × ℕ)
    → (ltb 0 cycle.0 && eqb cycle.1 0) ≡ false
    → wait_from cfg w (cycles ++ cycle ∷ []) ≡ pos cfg.sleep
unfolding wait_from next_wait
reset_at_end cfg [] w cycle good = rw good refl
reset_at_end cfg ((a, s) ∷ cycles) w cycle good = reset_at_end cfg cycles _ cycle good

-- Where the configured sleep is at most five minutes, the pool's loop never waits less than the
-- sleep or more than five minutes, whatever its cycles attempted and achieved, and without an
-- overflow of the doubled wait.
pub wait_from-bounded :
    (cfg : PoolConfig) (cycles : List (ℕ × ℕ))
    → cfg.sleep ≤ max_backoff
    → (v : ℕ) × (wait_from cfg (pos cfg.sleep) cycles ≡ pos v) × (cfg.sleep ≤ v) × (v ≤ max_backoff)
wait_from-bounded cfg cycles h = bounded_from cfg cycles cfg.sleep (omega arith) h

-- Where the sleep is at most five minutes, `k` cycles in a row that attempt some tokens and get none
-- make the loop wait 2^k times the sleep, or five minutes where that is less; and then one cycle
-- that gets a token, or attempts none, resets the wait to the sleep.
pub wait_from-exponential :
    (cfg : PoolConfig) (k attempted : ℕ) (cycle : ℕ × ℕ)
    → cfg.sleep ≤ max_backoff
    → 0 < attempted
    → (ltb 0 cycle.0 && eqb cycle.1 0) ≡ false
    → (wait_from cfg (pos cfg.sleep) (replicate k (attempted, 0))
        ≡ pos (min (cfg.sleep * 2 ^ k) max_backoff))
      × (wait_from cfg (pos cfg.sleep) (replicate k (attempted, 0) ++ cycle ∷ []) ≡ pos cfg.sleep)
wait_from-exponential cfg k attempted cycle h some good = (
  ap (wait_from cfg (pos cfg.sleep)) refl ∙ exponential_from cfg k attempted cfg.sleep h some,
  reset_at_end cfg (replicate k (attempted, 0)) (pos cfg.sleep) cycle good,
)
