-- ===== src/TokenPool/Cycle.antt =====
-- What one cycle of a pool does.
use go_you.Common.{
  ℕ, zero, suc, ◌-◌, ◌<◌, ◌≤◌, min, true, false, List, [], ◌∷◌, ◌++◌, ◌≡◌, ◌∙◌, refl, ap, sym,
  arith, append_assoc, ltb, leb, length, take, keep, length-append, length-keep-le, Bool-cases, inl,
  inr,
}
use go_you.TokenPool.{
  Token, Pool, is_live, filter, add, size, shrink, need, Generated, failed, minted, is_minted,
  settle, settle_all, first_ends, refill_once,
}

-- The tokens that a cycle adds, the last to end first.
pub tokens_of : List Generated → List Token
tokens_of [] = []
tokens_of (failed ∷ gs) = tokens_of gs
tokens_of (minted now [] ∷ gs) = tokens_of gs
tokens_of (minted now (v ∷ vs) ∷ gs) =
    tokens_of gs ++ record { values = v ∷ vs; usages = 0; created = now } ∷ []

settle_all-tokens :
    (gs : List Generated) (p : Pool) → (settle_all gs p).tokens ≡ tokens_of gs ++ p.tokens
unfolding settle_all settle tokens_of add
settle_all-tokens [] p = refl
settle_all-tokens (failed ∷ gs) p = settle_all-tokens gs p
settle_all-tokens (minted now [] ∷ gs) p = settle_all-tokens gs p
settle_all-tokens (minted now (v ∷ vs) ∷ gs) p =
    settle_all-tokens gs (add now (v ∷ vs) p)
    ∙ sym (
        append_assoc (tokens_of gs) (record { values = v ∷ vs; usages = 0; created = now } ∷ [])
          p.tokens)

length-tokens_of : (gs : List Generated) → length (tokens_of gs) ≡ length (keep is_minted gs)
unfolding tokens_of is_minted
length-tokens_of [] = refl
length-tokens_of (failed ∷ gs) = length-tokens_of gs
length-tokens_of (minted now [] ∷ gs) = length-tokens_of gs
length-tokens_of (minted now (v ∷ vs) ∷ gs) =
    length-append (tokens_of gs) _ ∙ omega (arith, length-tokens_of gs)

length-first_ends : (gen : ℕ → Generated) (i n : ℕ) → length (first_ends gen i n) ≡ n
unfolding first_ends
length-first_ends gen i zero = refl
length-first_ends gen i (suc n) = ap suc (length-first_ends gen (suc i) n)

pub take-all : {A : Type 0} (n : ℕ) (xs : List A) → length xs ≤ n → take n xs ≡ xs
take-all zero [] h = refl
take-all (suc n) [] h = refl
take-all zero (x ∷ xs) h = absurd (omega arith)
take-all (suc n) (x ∷ xs) h = rw (take-all n xs (omega arith))

pub shrink-tokens : (p : Pool) → (shrink p).tokens ≡ take p.cfg.size p.tokens
unfolding shrink
shrink-tokens p = elim (Bool-cases (ltb p.cfg.size (length p.tokens))) [
  | inl over ↦ rw over refl
  | inr fits ↦ rw fits (sym (take-all p.cfg.size p.tokens (ground arith)))
]

-- One cycle of a pool that is short of live tokens attempts what is missing, but at most 10 and at
-- most `max_thread` tokens; it counts those that come with values as its successes; and it leaves
-- exactly the live tokens, in order, behind the new ones, which have no use yet, and no more than
-- the configured size in all.
pub refill_once-short :
    (now : ℕ) (gen : ℕ → Generated) (p : Pool)
    → size (filter now p) < p.cfg.size
    → let n = min (min (p.cfg.size - size (filter now p)) 10) p.cfg.max_thread in
      let r = refill_once now gen p in
      let done = first_ends gen 0 n in
      (r.1 ≡ n)
      × (r.2 ≡ length (keep is_minted done))
      × (r.0.tokens ≡ tokens_of done ++ keep (is_live p.cfg now) p.tokens)
      × (length r.0.tokens ≤ p.cfg.size)
unfolding refill_once need size filter
refill_once-short now gen p short =
    let live = keep (is_live p.cfg now) p.tokens in
    let n = min (min (p.cfg.size - length live) 10) p.cfg.max_thread in
    let done = first_ends gen 0 n in
    let less : leb p.cfg.size (length live) ≡ false = ground arith in
    let tokens_are = settle_all-tokens done (filter now p) in
    let minted_le = length-keep-le is_minted done in
    rw less (
      refl,
      refl,
      tokens_are,
      omega (
        arith,
        ap length tokens_are,
        length-append (tokens_of done) live,
        length-tokens_of done,
        minted_le,
        length-first_ends gen 0 n,
      ),
    )

-- One cycle of a pool that has at least its size of live tokens attempts nothing, and it leaves the
-- first of the live tokens, as many as its size.
pub refill_once-full :
    (now : ℕ) (gen : ℕ → Generated) (p : Pool)
    → p.cfg.size ≤ size (filter now p)
    → let r = refill_once now gen p in
      (r.1 ≡ 0) × (r.2 ≡ 0) × (r.0.tokens ≡ take p.cfg.size (keep (is_live p.cfg now) p.tokens))
unfolding refill_once need size filter shrink
refill_once-full now gen p full =
    let live = keep (is_live p.cfg now) p.tokens in
    let enough : leb p.cfg.size (length live) ≡ true = ground arith in
    rw enough (refl, refl, shrink-tokens (filter now p))
