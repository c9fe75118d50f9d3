-- ===== src/TokenPool.antt =====
-- internal/crawler/tokenpool/tokenpool.go: the pool of warm session tokens of one site. Each function is
-- one critical section of the pool's mutex, or one cycle of its loop. Times and durations are
-- nanoseconds; a time counts from Go's zero time. Metrics and logs are left out.
pub mod Cycle
pub mod Reach
pub mod Backoff
pub mod Reuse
pub mod Manager
use go_you.Common.{
  ℕ, zero, suc, ◌+◌, ◌-◌, ◌*◌, ◌^◌, ◌<◌, ◌≤◌, min, Bool, true, false, not, ◌&&◌, List, [], ◌∷◌,
  Option, none, some, ◌>>=◌, Text, ltb, leb, eqb, length, take, keep, if◌then◌else◌,
}
use go_you.Common.Int.{ℤ, pos, negsuc, ltb_ℤ, leb_ℤ, pos_part}
use go_you.Common.Maps.{Dict}

pub record Config : Type 0 where
  pub size : ℤ
  pub ttl : ℤ
  pub use_limit : ℤ
  pub max_thread : ℤ
  pub sleep : ℤ

-- A configuration behind `withDefaults`, where no field is negative.
pub record PoolConfig : Type 0 where
  pub size : ℕ
  pub ttl : ℕ
  pub use_limit : ℕ
  pub max_thread : ℕ
  pub sleep : ℕ

abbrev pub second : ℕ
second = 1000000000

-- The value, or the default where it is not positive.
abbrev or_default : ℕ → ℤ → ℕ
or_default d v = if leb_ℤ v (pos 0) then d else pos_part v

unfoldable pub with_defaults : Config → PoolConfig
with_defaults c = record {
  size = if ltb_ℤ c.size (pos 0) then 0 else pos_part c.size;
  ttl = or_default (300 * second) c.ttl;
  use_limit = or_default 5 c.use_limit;
  max_thread = or_default 5 c.max_thread;
  sleep = or_default (5 * second) c.sleep;
}

pub record Token : Type 0 where
  pub values : Dict Text
  pub usages : ℕ
  pub created : ℕ

pub record Pool : Type 0 where
  pub cfg : PoolConfig
  pub tokens : List Token

unfoldable pub new_pool : Config → Pool
unfolding with_defaults
new_pool cfg = record { cfg = with_defaults cfg; tokens = [] }

-- `p.tokens[i]` with its usage counted; an index out of range panics.
unfoldable pub use_at : ℕ → List Token → Option (Dict Text × List Token)
use_at i [] = none
use_at zero (t ∷ ts) = some (t.values, record t { usages = suc t.usages } ∷ ts)
use_at (suc i) (t ∷ ts) = use_at i ts >>= λ r. some (r.0, t ∷ r.1)

-- `Get`, with the answer of `randIntn` as a function of its bound.
unfoldable pub get_from : (ℕ → ℕ) → PoolConfig → List Token → Option (Option (Dict Text) × Pool)
unfolding use_at
get_from rand cfg [] = some (none, record { cfg = cfg; tokens = [] })
get_from rand cfg (t ∷ ts) = use_at (rand (length (t ∷ ts))) (t ∷ ts) >>= λ r.
    some (some r.0, record { cfg = cfg; tokens = r.1 })

unfoldable pub get : (ℕ → ℕ) → Pool → Option (Option (Dict Text) × Pool)
get rand p = get_from rand p.cfg p.tokens

-- The tokens that `filter` keeps at a time.
unfoldable pub is_live : PoolConfig → ℕ → Token → Bool
is_live cfg now t =
    let expired = not (eqb t.created 0) && ltb (t.created + cfg.ttl) now in
    let used = leb cfg.use_limit t.usages in not expired && not used

unfoldable pub filter : ℕ → Pool → Pool
filter now p = record p { tokens = keep (is_live p.cfg now) p.tokens }

unfoldable pub add : ℕ → Dict Text → Pool → Pool
add now values p = record p {
  tokens = record { values = values; usages = 0; created = now } ∷ p.tokens;
}

unfoldable pub size : Pool → ℕ
size p = length p.tokens

unfoldable pub shrink : Pool → Pool
shrink p =
    if ltb p.cfg.size (length p.tokens) then record p { tokens = take p.cfg.size p.tokens } else p

-- How many tokens a cycle generates: what is missing, but at most 10 and at most `max_thread`.
unfoldable pub need : Pool → ℕ
unfolding size
need p = min (min (p.cfg.size - size p) 10) p.cfg.max_thread

-- What one generation comes to: an error, or values and the time at which they are added.
pub data Generated : Type 0 where
  failed : Generated
  minted : ℕ → Dict Text → Generated

unfoldable pub is_minted : Generated → Bool
is_minted failed = false
is_minted (minted now []) = false
is_minted (minted now (v ∷ vs)) = true

-- One goroutine of a cycle; empty values are not added.
unfoldable pub settle : Generated → Pool → Pool
settle failed p = p
settle (minted now []) p = p
settle (minted now (v ∷ vs)) p = add now (v ∷ vs) p

-- The goroutines of a cycle, in the order in which they end.
unfoldable pub settle_all : List Generated → Pool → Pool
settle_all [] p = p
settle_all (g ∷ gs) p = settle_all gs (settle g p)

-- The first `n` generations to end, from the `i`-th on.
unfoldable pub first_ends : (ℕ → Generated) → ℕ → ℕ → List Generated
first_ends gen i zero = []
first_ends gen i (suc n) = gen i ∷ first_ends gen (suc i) n

-- One cycle: the pool, and how many generations it attempted and how many succeeded. `gen` tells
-- how the `i`-th generation to end does so.
unfoldable pub refill_once : ℕ → (ℕ → Generated) → Pool → Pool × ℕ × ℕ
unfolding first_ends
refill_once now gen p =
    let live = filter now p in
    let n = need live in
    let done = first_ends gen 0 n in
    if leb (p.cfg.size) (size live)
    then (shrink live, 0, 0)
    else (settle_all done live, n, length (keep is_minted done))

-- 5 minutes
abbrev pub max_backoff : ℕ
max_backoff = 300 * second

-- `wait *= 2` on 64 bits.
unfoldable pub double : ℤ → ℤ
double (pos n) = let m = n * 2 in if ltb m (2 ^ 63) then pos m else negsuc (2 ^ 64 - m - 1)
double (negsuc n) =
    let m = (n + 1) * 2 in if leb m (2 ^ 63) then negsuc (m - 1) else pos (2 ^ 64 - m)

-- The wait behind one cycle.
unfoldable pub next_wait : PoolConfig → ℤ → ℕ → ℕ → ℤ
unfolding double
next_wait cfg wait attempted succeeded =
    let doubled = double wait in
    if ltb 0 attempted && eqb succeeded 0
    then (if ltb_ℤ (pos max_backoff) doubled then pos max_backoff else doubled)
    else pos cfg.sleep
