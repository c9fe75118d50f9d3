-- ===== src/TokenPool/Reach.antt =====
-- The critical sections of one pool in any order: the requests' `Get` between those of the loop. A
-- cycle is its `filter`, then the count of what is missing, then one `add` or failure for each
-- generation; the count of the generations still running stands beside the pool.
use go_you.Common.{
  ℕ, zero, suc, ◌+◌, ◌<◌, ◌≤◌, min, List, [], ◌∷◌, ◌≡◌, ◌∙◌, refl, ap, arith, Option, none, some,
  Option-cases, Text, ltb, length, length-keep-le, length-take, Bool-cases, inl, inr,
}
use mathlib.Core.Path.{subst}
use go_you.TokenPool.Cycle.{shrink-tokens, take-all}
use go_you.Common.Maps.{Dict}
use go_you.TokenPool.{
  Config, PoolConfig, with_defaults, Token, Pool, new_pool, use_at, get_from, get, is_live, filter,
  add, size, shrink, need, Generated, settle, failed, minted,
}

pub record Running : Type 0 where
  pub pool : Pool
  pub pending : ℕ

pub data Step : Running → Running → Type 0 where
  -- A request takes a token, or finds none, at any time.
  gets :
      (rand : ℕ → ℕ) (p q : Pool) (n : ℕ) (answer : Option (Dict Text))
      → get rand p ≡ some (answer, q)
      → Step (record { pool = p; pending = n }) (record { pool = q; pending = n })
  filters :
      (now : ℕ) (p : Pool)
      → Step (record { pool = p; pending = 0 }) (record { pool = filter now p; pending = 0 })
  shrinks :
      (p : Pool)
      → p.cfg.size ≤ size p
      → Step (record { pool = p; pending = 0 }) (record { pool = shrink p; pending = 0 })
  starts :
      (p : Pool)
      → size p < p.cfg.size
      → Step (record { pool = p; pending = 0 }) (record { pool = p; pending = need p })
  ends :
      (g : Generated) (p : Pool) (n : ℕ)
      → Step (record { pool = p; pending = suc n }) (record { pool = settle g p; pending = n })

pub data Reachable (cfg : Config) : Running → Type 0 where
  new : Reachable cfg (record { pool = new_pool cfg; pending = 0 })
  after : (s t : Running) → Reachable cfg s → Step s t → Reachable cfg t

-- The tokens and those still to come fit into the configured size.
Fits : PoolConfig → Running → Type 0
Fits cfg s =
    (s.pool.cfg ≡ cfg)
    × (length s.pool.tokens + s.pending ≤ cfg.size)
    × (s.pending ≤ 10)
    × (s.pending ≤ cfg.max_thread)

length-use_at :
    (i : ℕ) (ts us : List Token) (values : Dict Text)
    → use_at i ts ≡ some (values, us)
    → length us ≡ length ts
unfolding use_at
length-use_at i [] us values h = absurd (ground arith)
length-use_at zero (t ∷ ts) us values h = ground arith
length-use_at (suc i) (t ∷ ts) us values h = elim (Option-cases (use_at i ts)) [
  | inl out ↦ absurd (ground arith)
  | inr ((values', vs), e) ↦ ground (arith, length-use_at i ts vs values' e)
]

abbrev Keeps : PoolConfig → ℕ → Option (Option (Dict Text) × Pool) → Type 0
Keeps cfg n none = Unit
Keeps cfg n (some r) = (r.1.cfg ≡ cfg) × (length r.1.tokens ≡ n)

get_from-Keeps :
    (rand : ℕ → ℕ) (cfg : PoolConfig) (ts : List Token)
    → Keeps cfg (length ts) (get_from rand cfg ts)
unfolding get_from
get_from-Keeps rand cfg [] = (refl, refl)
get_from-Keeps rand cfg (t ∷ ts) = elim (Option-cases (use_at (rand (length (t ∷ ts))) (t ∷ ts))) [
  | inl out ↦ rw out tt
  | inr ((values, us), e) ↦ rw e (refl, length-use_at (rand (length (t ∷ ts))) (t ∷ ts) us values e)
]

get-Keeps :
    (rand : ℕ → ℕ) (p q : Pool) (answer : Option (Dict Text))
    → get rand p ≡ some (answer, q)
    → (q.cfg ≡ p.cfg) × (length q.tokens ≡ length p.tokens)
unfolding get
get-Keeps rand p q answer h =
    subst (Keeps p.cfg (length p.tokens)) h (get_from-Keeps rand p.cfg p.tokens)

settle-grows :
    (g : Generated) (p : Pool)
    → ((settle g p).cfg ≡ p.cfg) × (length (settle g p).tokens ≤ suc (length p.tokens))
unfolding settle add
settle-grows failed p = (refl, omega arith)
settle-grows (minted now []) p = (refl, omega arith)
settle-grows (minted now (v ∷ vs)) p = (refl, omega arith)

shrink-cfg : (p : Pool) → (shrink p).cfg ≡ p.cfg
unfolding shrink
shrink-cfg p = elim (Bool-cases (ltb p.cfg.size (length p.tokens))) [
  | inl over ↦ rw over refl
  | inr fits ↦ rw fits refl
]

Step-Fits : (cfg : PoolConfig) (s t : Running) → Fits cfg s → Step s t → Fits cfg t
unfolding Fits filter size need
Step-Fits cfg s t (same, fits, ten, threads) (gets rand p q n answer h) =
    let (cfg_kept, len) = get-Keeps rand p q answer h in
    (cfg_kept ∙ same, omega arith, ten, threads)
Step-Fits cfg s t (same, fits, ten, threads) (filters now p) =
    (same, omega (arith, length-keep-le (is_live p.cfg now) p.tokens), ten, threads)
Step-Fits cfg s t (same, fits, ten, threads) (shrinks p full) = (
  shrink-cfg p ∙ same,
  omega (arith, ap length (shrink-tokens p), length-take p.cfg.size p.tokens),
  ten,
  threads,
)
Step-Fits cfg s t (same, fits, ten, threads) (starts p short) =
    let size_is = ap (λ c. c.size) same in
    let threads_are = ap (λ c. c.max_thread) same in (same, omega arith, omega arith, omega arith)
Step-Fits cfg s t (same, fits, ten, threads) (ends g p n) =
    let (cfg_kept, len) = settle-grows g p in
    (cfg_kept ∙ same, omega arith, omega arith, omega arith)

always_Fits : (cfg : Config) (s : Running) → Reachable cfg s → Fits (with_defaults cfg) s
unfolding Fits new_pool
always_Fits cfg s new = (refl, omega arith, omega arith, omega arith)
always_Fits cfg u (after s t h step) = Step-Fits (with_defaults cfg) s t (always_Fits cfg s h) step

-- However requests take tokens between the steps of the loop, a pool that starts empty never holds
-- more tokens than its configured size, those that are being generated included; never more than 10
-- or than `max_thread` are being generated; and so `shrink` never removes a token.
pub Reachable-Fits :
    (cfg : Config) (s : Running)
    → Reachable cfg s
    → (length s.pool.tokens + s.pending ≤ (with_defaults cfg).size)
      × (s.pending ≤ min 10 (with_defaults cfg).max_thread)
      × ((shrink s.pool).tokens ≡ s.pool.tokens)
unfolding Fits
Reachable-Fits cfg s h =
    let (same, fits, ten, threads) = always_Fits cfg s h in
    let size_is = ap (λ c. c.size) same in
    (fits, omega arith, shrink-tokens s.pool ∙ take-all s.pool.cfg.size s.pool.tokens (omega arith))
