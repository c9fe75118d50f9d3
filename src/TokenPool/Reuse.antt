-- ===== src/TokenPool/Reuse.antt =====
-- What the requests get from a pool.
use go_you.Common.{
  ℕ, zero, suc, ◌+◌, ◌<◌, List, [], ◌∷◌, ◌++◌, Option, some, ◌>>=◌, ◌≡◌, ◌∙◌, refl, ap, arith,
  length, take, drop, replicate, get_elem?, Text,
}
use go_you.Common.Maps.{Dict}
use go_you.TokenPool.{PoolConfig, Token, Pool, use_at, get_from, get}

use_at-chosen :
    (i : ℕ) (ts : List Token)
    → i < length ts
    → (t : Token) × (get_elem? ts i ≡ some t)
      × (use_at i ts
          ≡ some (t.values, take i ts ++ record t { usages = suc t.usages } ∷ drop (suc i) ts))
unfolding use_at
use_at-chosen i [] h = absurd (omega arith)
use_at-chosen zero (t ∷ ts) h = (t, refl, refl)
use_at-chosen (suc i) (t ∷ ts) h =
    let (u, found, used) = use_at-chosen i ts (omega arith) in
    (u, found, ap (λ o. o >>= λ r. some (r.0, t ∷ r.1)) used)

get_from-chosen :
    (rand : ℕ → ℕ) (cfg : PoolConfig) (ts : List Token)
    → rand (length ts) < length ts
    → let i = rand (length ts) in
      (t : Token) × (get_elem? ts i ≡ some t)
      × (get_from rand cfg ts
          ≡ some (
            some t.values,
            record {
              cfg = cfg;
              tokens = take i ts ++ record t { usages = suc t.usages } ∷ drop (suc i) ts;
            },
          ))
unfolding get_from
get_from-chosen rand cfg [] h = absurd (omega arith)
get_from-chosen rand cfg (t ∷ ts) h =
    let (u, found, used) = use_at-chosen (rand (length (t ∷ ts))) (t ∷ ts) h in
    (u, found, ap (λ o. o >>= λ r. some (some r.0, record { cfg = cfg; tokens = r.1 })) used)

-- `Get` of a pool with tokens, where the random index is one of theirs, answers with the values of
-- the token at that index and counts one more use of it; every other token, and the order, stays.
pub get-chosen :
    (rand : ℕ → ℕ) (p : Pool)
    → rand (length p.tokens) < length p.tokens
    → let i = rand (length p.tokens) in
      (t : Token) × (get_elem? p.tokens i ≡ some t)
      × (get rand p
          ≡ some (
            some t.values,
            record p {
              tokens =
                  take i p.tokens ++ record t { usages = suc t.usages } ∷ drop (suc i) p.tokens;
            },
          ))
unfolding get
get-chosen rand p h = get_from-chosen rand p.cfg p.tokens h

-- The answers of so many calls of `Get`, with no other step between them.
unfoldable pub get_times : (ℕ → ℕ) → ℕ → Pool → Option (List (Option (Dict Text)) × Pool)
get_times rand zero p = some ([], p)
get_times rand (suc n) p =
    get rand p >>= λ r. get_times rand n r.1 >>= λ rest. some (r.0 ∷ rest.0, rest.1)

-- Between two cycles `Get` hands out one token without end: however often a pool of one token is
-- asked, and whatever its use limit and its TTL are, each answer has this token's values.
pub get_times-unlimited :
    (rand : ℕ → ℕ) (cfg : PoolConfig) (t : Token) (n : ℕ)
    → rand 1 ≡ 0
    → get_times rand n (record { cfg = cfg; tokens = t ∷ [] })
      ≡ some (
        replicate n (some t.values),
        record { cfg = cfg; tokens = record t { usages = t.usages + n } ∷ [] },
      )
unfolding get_times get get_from use_at
get_times-unlimited rand cfg t zero h =
    let same : t.usages ≡ t.usages + 0 = omega arith in
    ap (λ u. some ([], record { cfg = cfg; tokens = record t { usages = u } ∷ [] })) same
get_times-unlimited rand cfg t (suc n) h =
    let used : Token = record t { usages = suc t.usages } in
    let same : suc t.usages + n ≡ t.usages + suc n = omega arith in
    rw h (
      ap (λ o. o >>= λ rest. some (some t.values ∷ rest.0, rest.1))
        (get_times-unlimited rand cfg used n h)
      ∙ ap
          (λ u. some (
            some t.values ∷ replicate n (some t.values),
            record { cfg = cfg; tokens = record t { usages = u } ∷ [] },
          ))
          same)
