-- ===== src/Handler/Section/Accounts.antt =====
-- A section against the answers of the crawlers that a round asks.
use go_you.Common.{
  suc, Bool, true, false, not, ◌&&◌, List, [], ◌∷◌, Option, none, some, Text, map, length, keep,
  get_or, is_some, In, In-map, Option-cases, ◌≡◌, ◌⊎◌, ◌↔◌, inl, inr, refl, sym, ap, ◌∙◌, arith,
}
use mathlib.Core.Path.{subst}
use go_you.Common.Maps.{Dict, lookup}
use go_you.Json.{Fields, no_fields}
use go_you.AccountDetails.{AccountDetails}
use go_you.Crawler.{
  Crawler, Probe, check, check_detail, Answer, answered, erred, Url, proxy_for_site, probe_with,
  probe_one, failed_result, empty_result, selected, by_kind, look_up, Result, Finish, Runner, Kind,
  run_sites,
}
use go_you.Handler.Section.{is_hit, count_hits, build_section, account, accounts}
use go_you.Handler.Section.Count.{In-Finish, length-Finish, length-accounts}

-- What an account tells of a crawler's answer.
abbrev pub TellsOf : Probe → Text → Option Url → AccountDetails → Type 0
TellsOf (check f) identifier proxy a =
    ((found : Bool) × (f identifier proxy ≡ answered found)
      × (a.user_exist ≡ some found)
      × (a.error ≡ false)
      × (a.details ≡ no_fields))
    ⊎ ((message : Text) × (f identifier proxy ≡ erred message)
        × (a.user_exist ≡ none)
        × (a.error ≡ true)
        × (a.details ≡ no_fields))
TellsOf (check_detail f) identifier proxy a =
    ((found : Option Bool) × (fields : Fields) × (f identifier proxy ≡ answered (found, fields))
      × (a.user_exist ≡ found)
      × (a.error ≡ false)
      × (a.details ≡ fields))
    ⊎ ((message : Text) × (f identifier proxy ≡ erred message)
        × (a.user_exist ≡ none)
        × (a.error ≡ true)
        × (a.details ≡ no_fields))

-- The account of a crawler's answer through its egress.
abbrev pub IsAccount : Runner → Text → Crawler → AccountDetails → Type 0
IsAccount r identifier c a =
    (a.website ≡ c.website)
    × TellsOf c.probe identifier (proxy_for_site (some r.egress) c.website) a

Answer-cases :
    {A : Type 0} (x : Answer A) → ((a : A) × (x ≡ answered a)) ⊎ ((m : Text) × (x ≡ erred m))
Answer-cases (answered a) = inl (a, refl)
Answer-cases (erred m) = inr (m, refl)

probe_with-TellsOf :
    (expired : Bool) (p : Probe) (identifier : Text) (proxy : Option Url) (c : Crawler)
    → ((account (probe_with expired p identifier proxy c)).website ≡ c.website)
      × TellsOf p identifier proxy (account (probe_with expired p identifier proxy c))
unfolding probe_with account failed_result empty_result
probe_with-TellsOf expired (check f) identifier proxy c = elim (Answer-cases (f identifier proxy)) [
  | inl (b, e) ↦ rw e (refl, inl (b, refl, refl, refl, refl))
  | inr (m, e) ↦ rw e (refl, inr (m, refl, refl, refl, refl))
]
probe_with-TellsOf expired (check_detail f) identifier proxy c =
    elim (Answer-cases (f identifier proxy)) [
      | inl (b, e) ↦ rw e (refl, inl (b.0, b.1, refl, refl, refl, refl))
      | inr (m, e) ↦ rw e (refl, inr (m, refl, refl, refl, refl))
    ]

probe_one-IsAccount :
    (r : Runner) (expired : Text → Bool) (identifier : Text) (c : Crawler)
    → IsAccount r identifier c (account (probe_one r expired identifier c))
unfolding probe_one
probe_one-IsAccount r expired identifier c =
    probe_with-TellsOf (expired c.website) c.probe identifier
      (proxy_for_site (some r.egress) c.website) c

In-accounts :
    (a : AccountDetails) (results : List Result)
    → In a (accounts results) ↔ ((res : Result) × In res results × (account res ≡ a))
unfolding accounts
In-accounts a [] = (λ h. absurd h, λ (res, h, e). h)
In-accounts a (x ∷ results) = (
  λ h. elim h [
    | inl e ↦ (x, inl refl, e)
    | inr later ↦ let (res, listed, e) = (In-accounts a results).0 later in (res, inr listed, e)
  ],
  λ (res, listed, e). elim listed [
    | inl same ↦ inl (ap account same ∙ e)
    | inr later ↦ inr ((In-accounts a results).1 (res, later, e))
  ],
)

In-selected :
    (c : Crawler) (m : Dict Crawler) (sites : List Text)
    → In c (selected m sites) ↔ ((site : Text) × In site sites × (lookup site m ≡ some c))
unfolding selected
In-selected c m [] = (λ h. absurd h, λ (site, h, e). h)
In-selected c m (name ∷ sites) = elim (Option-cases (lookup name m)) [
  | inl unknown ↦
      rw (unknown, selected)
        (
          λ h. let (site, listed, e) = (In-selected c m sites).0 h in (site, inr listed, e),
          λ (site, listed, e). elim listed [
            | inl same ↦ cc (unknown, ap (λ (x : Text). lookup x m) same ∙ e)
            | inr later ↦ (In-selected c m sites).1 (site, later, e)
          ],
        )
  | inr (d, known) ↦
      rw (known, selected)
        (
          λ h. elim h [
            | inl same ↦ (name, inl refl, known ∙ ap some same)
            | inr later ↦
                let (site, listed, e) = (In-selected c m sites).0 later in (site, inr listed, e)
          ],
          λ (site, listed, e). elim listed [
            | inl same ↦
                let is : some d ≡ some c = sym known ∙ ap (λ (x : Text). lookup x m) same ∙ e in
                inl cc
            | inr later ↦ inr ((In-selected c m sites).1 (site, later, e))
          ],
        )
]

keep_skipped :
    (p : Text → Bool) (x : Text) (xs : List Text)
    → p x ≡ false
    → length (keep p (x ∷ xs)) ≡ length (keep p xs)
keep_skipped p x xs h =
    ap
      (λ (b : Bool).
        length (elim b as (λ _. List Text) [ true ↦ x ∷ keep p xs | false ↦ keep p xs ]))
      h

keep_kept :
    (p : Text → Bool) (x : Text) (xs : List Text)
    → p x ≡ true
    → length (keep p (x ∷ xs)) ≡ suc (length (keep p xs))
keep_kept p x xs h =
    ap
      (λ (b : Bool).
        length (elim b as (λ _. List Text) [ true ↦ x ∷ keep p xs | false ↦ keep p xs ]))
      h

length-selected :
    (m : Dict Crawler) (sites : List Text)
    → length (selected m sites) ≡ length (keep (λ site. is_some (lookup site m)) sites)
unfolding selected
length-selected m [] = refl
length-selected m (name ∷ sites) = elim (Option-cases (lookup name m)) [
  | inl unknown ↦
      rw (unknown, selected)
        (length-selected m sites
          ∙ sym (keep_skipped (λ site. is_some (lookup site m)) name sites (ap is_some unknown)))
  | inr (d, known) ↦
      rw (known, selected)
        (ap suc (length-selected m sites)
          ∙ sym (keep_kept (λ site. is_some (lookup site m)) name sites (ap is_some known)))
]

-- The accounts that say a profile was found.
abbrev pub says_found : AccountDetails → Bool
says_found a = not a.error && get_or false a.user_exist

account-found : (res : Result) → says_found (account res) ≡ is_hit res
unfolding account is_hit
account-found res = elim (Option-cases res.err) [
  | inl fine ↦ rw fine refl
  | inr (e, failed) ↦ rw failed refl
]

count_hits-found :
    (results : List Result) → count_hits results ≡ length (keep says_found (accounts results))
unfolding count_hits accounts
count_hits-found [] = refl
count_hits-found (res ∷ results) = ground (arith, account-found res, count_hits-found results)

length-map {ℓ κ} :
    {A : Type ℓ} {B : Type κ} (f : A → B) (xs : List A) → length (map f xs) ≡ length xs
length-map f [] = refl
length-map f (x ∷ xs) = ap suc (length-map f xs)

-- Whatever order the probes of a round end in: every account of the section tells the answer of a
-- crawler that is registered for one of the sites, and every such crawler has an account that tells its
-- answer, an error as an error alone; there are as many accounts as sites with a crawler, and the
-- profile count is the number of accounts that say a profile was found.
pub build_section-IsAccount :
    (r : Runner) (expired : Text → Bool) (kind : Kind) (identifier : Text) (sites : List Text)
    (results : List Result) (label key : Text)
    → Finish (run_sites r expired kind identifier sites) results
    → let primary = (build_section label key results).primary_data in
      ((a : AccountDetails)
        → In a primary.account_details
        → (site : Text) × (c : Crawler) × In site sites
          × (look_up r kind site ≡ some c)
          × IsAccount r identifier c a)
      × ((site : Text) (c : Crawler)
          → In site sites
          → look_up r kind site ≡ some c
          → (a : AccountDetails) × In a primary.account_details × IsAccount r identifier c a)
      × (length primary.account_details
          ≡ length (keep (λ site. is_some (look_up r kind site)) sites))
      × (primary.social_profile_count ≡ length (keep says_found primary.account_details))
unfolding build_section run_sites probe_one look_up
build_section-IsAccount r expired kind identifier sites results label key ended =
    let asked = selected (by_kind r kind) sites in
    (
      λ a listed.
          let (res, there, is) = (In-accounts a results).0 listed in
          let (c, chosen, made) =
            (In-map (probe_one r expired identifier) asked res).0
              ((In-Finish _ results ended res).0 there) in
          let (site, in_sites, known) = (In-selected c (by_kind r kind) sites).0 chosen in
          (
            site,
            c,
            in_sites,
            known,
            subst (IsAccount r identifier c) (ap account made ∙ is)
                (probe_one-IsAccount r expired identifier c),
          ),
      λ site c in_sites known.
          let res = probe_one r expired identifier c in
          let chosen = (In-selected c (by_kind r kind) sites).1 (site, in_sites, known) in
          let there =
            (In-Finish _ results ended res).1
              ((In-map (probe_one r expired identifier) asked res).1 (c, chosen, refl)) in
          (
            account res,
            (In-accounts (account res) results).1 (res, there, refl),
            probe_one-IsAccount r expired identifier c,
          ),
      length-accounts results
          ∙ length-Finish _ results ended
          ∙ length-map (probe_one r expired identifier) asked
          ∙ length-selected (by_kind r kind) sites,
      count_hits-found results,
    )
