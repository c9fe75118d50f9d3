-- ===== src/Tests/Pools.antt =====
-- Witnesses for the token pool.
use go_you.Common.{
  ℕ, zero, suc, ◌+◌, ◌-◌, ◌*◌, ◌^◌, ◌<◌, ◌≤◌, min, [], ◌∷◌, ◌++◌, some, Text, codes, length, keep,
  replicate, ◌≡◌, refl, arith,
}
use go_you.Common.Int.{pos}
use go_you.Common.Maps.{Dict}
use go_you.TokenPool.{
  Config, PoolConfig, with_defaults, Token, Pool, new_pool, is_live, filter, size, shrink, need,
  Generated, failed, minted, is_minted, first_ends, refill_once, max_backoff, second,
}
use go_you.TokenPool.Backoff.{wait_from, wait_from-exponential}
use go_you.TokenPool.Cycle.{tokens_of, refill_once-short}
use go_you.TokenPool.Reach.{Running, starts, Reachable, new, after, Reachable-Fits}
use go_you.TokenPool.Reuse.{get_times, get_times-unlimited}

abbrev zoho : Config
zoho = record {
  size = pos 15;
  ttl = pos (600 * second);
  use_limit = pos 1;
  max_thread = pos 0;
  sleep = pos 0;
}

abbrev zoho_cfg : PoolConfig
zoho_cfg = record {
  size = 15;
  ttl = 600 * second;
  use_limit = 1;
  max_thread = 5;
  sleep = 5 * second;
}

abbrev csrf : Dict Text
csrf = (codes "csrf", codes "t1") ∷ []

abbrev token : ℕ → Token
token created = record { values = csrf; usages = 0; created = created }

abbrev pool : Pool
pool = record { cfg = zoho_cfg; tokens = token 1 ∷ token 2 ∷ [] }

abbrev gen : ℕ → Generated
gen zero = minted 9 csrf
gen (suc i) = failed

wait_from-exponential_example :
    (wait_from zoho_cfg (pos zoho_cfg.sleep) (replicate 3 (5, 0))
      ≡ pos (min (zoho_cfg.sleep * 2 ^ 3) max_backoff))
    × (wait_from zoho_cfg (pos zoho_cfg.sleep) (replicate 3 (5, 0) ++ (5, 2) ∷ [])
        ≡ pos zoho_cfg.sleep)
wait_from-exponential_example =
    wait_from-exponential zoho_cfg 3 5 (5, 2) (omega arith) (omega arith) refl

short_of_tokens : size (filter 3 pool) < 15
unfolding size filter is_live
short_of_tokens = omega arith

refill_once-short_example :
    let n = min (min (15 - size (filter 3 pool)) 10) 5 in
    let r = refill_once 3 gen pool in
    let done = first_ends gen 0 n in
    (r.1 ≡ n)
    × (r.2 ≡ length (keep is_minted done))
    × (r.0.tokens ≡ tokens_of done ++ keep (is_live zoho_cfg 3) pool.tokens)
    × (length r.0.tokens ≤ 15)
refill_once-short_example = refill_once-short 3 gen pool short_of_tokens

abbrev full_pool : Pool
full_pool = record { cfg = record zoho_cfg { size = 1 }; tokens = token 1 ∷ token 2 ∷ [] }

full_of_tokens : 1 ≤ size (filter 3 full_pool)
unfolding size filter is_live
full_of_tokens = omega arith

abbrev begun : Running
begun = record { pool = new_pool zoho; pending = need (new_pool zoho) }

new_is_short : size (new_pool zoho) < (new_pool zoho).cfg.size
unfolding size new_pool with_defaults
new_is_short = omega arith

begun-Reachable : Reachable zoho begun
begun-Reachable = after _ begun new (starts (new_pool zoho) new_is_short)

Reachable-Fits_example :
    (length begun.pool.tokens + begun.pending ≤ (with_defaults zoho).size)
    × (begun.pending ≤ min 10 (with_defaults zoho).max_thread)
    × ((shrink begun.pool).tokens ≡ begun.pool.tokens)
Reachable-Fits_example = Reachable-Fits zoho begun begun-Reachable

abbrev last : ℕ → ℕ
last n = n - 1

get_times-unlimited_example :
    get_times last 3 (record { cfg = zoho_cfg; tokens = token 1 ∷ [] })
    ≡ some (
      replicate 3 (some csrf),
      record { cfg = zoho_cfg; tokens = record { values = csrf; usages = 3; created = 1 } ∷ [] },
    )
get_times-unlimited_example = get_times-unlimited last zoho_cfg (token 1) 3 refl
