-- ===== src/TokenPool/Manager/Frame.antt =====
-- What a registration and a lookup leave alone.
use go_you.Common.{
  true, false, some, Text, ◌==◌, ==_refl, is_some, Bool-cases, if-true, if-false, ◌≡◌, ◌≢◌, ◌⊎◌,
  inl, inr, refl, ap, ◌∙◌,
}
use go_you.Common.Maps.{lookup, lookup-insert}
use go_you.Crawler.{Kind, phone, email}
use go_you.TokenPool.{Pool, new_pool}
use go_you.TokenPool.Manager.{Manager, pools, put_pool, config_for, register}

-- Another site, or the other kind.
abbrev pub Elsewhere : Text → Kind → Text → Kind → Type 0
Elsewhere website kind site other = ((website == site) ≡ false) ⊎ (kind ≢ other)

put_pool-other :
    (kind : Kind) (website : Text) (p : Pool) (m : Manager) (site : Text) (other : Kind)
    → Elsewhere website kind site other
    → lookup site (pools (put_pool kind website p m) other) ≡ lookup site (pools m other)
unfolding put_pool
put_pool-other phone website p m site phone (inl h) =
    lookup-insert site website p m.phone_pools ∙ if-false _ _ _ h
put_pool-other phone website p m site email h = refl
put_pool-other email website p m site phone h = refl
put_pool-other email website p m site email (inl h) =
    lookup-insert site website p m.email_pools ∙ if-false _ _ _ h
put_pool-other phone website p m site phone (inr h) = absurd (h refl)
put_pool-other email website p m site email (inr h) = absurd (h refl)

put_pool_self :
    (kind : Kind) (website : Text) (p : Pool) (m : Manager)
    → lookup website (pools (put_pool kind website p m) kind) ≡ some p
unfolding put_pool
put_pool_self phone website p m =
    lookup-insert website website p m.phone_pools ∙ if-true _ _ _ (==_refl website)
put_pool_self email website p m =
    lookup-insert website website p m.email_pools ∙ if-true _ _ _ (==_refl website)

kept :
    (website : Text) (kind : Kind) (m : Manager)
    → is_some (lookup website (pools m kind)) ≡ true
    → register website kind m ≡ m
unfolding register
kept website kind m there = if-true _ _ _ there

created :
    (website : Text) (kind : Kind) (m : Manager)
    → is_some (lookup website (pools m kind)) ≡ false
    → register website kind m ≡ put_pool kind website (new_pool (config_for website)) m
unfolding register
created website kind m new = if-false _ _ _ new

-- A registration gives the site a pool for the kind, keeps one that is there with its tokens, and leaves
-- every other pool alone; registering again changes nothing.
pub register-lookup :
    (website : Text) (kind : Kind) (m : Manager)
    → (is_some (lookup website (pools (register website kind m) kind)) ≡ true)
      × (register website kind (register website kind m) ≡ register website kind m)
      × ((site : Text) (other : Kind)
          → Elsewhere website kind site other
          → lookup site (pools (register website kind m) other) ≡ lookup site (pools m other))
register-lookup website kind m = elim (Bool-cases (is_some (lookup website (pools m kind)))) [
  | inl there ↦ let same = kept website kind m there in rw same (there, same, λ site other h. refl)
  | inr new ↦
      let made = created website kind m new in
      let found : is_some (lookup website (pools (register website kind m) kind)) ≡ true =
        ap (λ (n : Manager). is_some (lookup website (pools n kind))) made
        ∙ ap is_some (put_pool_self kind website _ m) in
      (
        found,
        kept website kind (register website kind m) found,
        λ site other h.
            ap (λ (n : Manager). lookup site (pools n other)) made
            ∙ put_pool-other kind website _ m site other h,
      )
]
