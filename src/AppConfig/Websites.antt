-- ===== src/AppConfig/Websites.antt =====
-- internal/appconfig/websites.go: the sites that a tenant's request crawls.
use go_you.Common.{
  Bool, true, false, not, ◌&&◌, List, [], ◌∷◌, Option, none, some, Text, codes, ◌==◌, contains,
  contains_iff, ne_of_==, refl, keep, In, In-keep, ◌≡◌, ◌≢◌, ◌↔◌, ◌⊎◌, inl, inr, arith, eq_iff,
  Option-cases,
}
use go_you.Common.Maps.{lookup}
use go_you.Json.{Value, str, as_list}
use go_you.AppConfig.{YouConfiguration, WebsiteEntry, is_website_enabled, kind_enabled, not_off}

abbrev pub disabled_websites_default : List Text
disabled_websites_default =
    codes "MMT"
    ∷ codes "AIRBNB"
    ∷ codes "YATRA"
    ∷ codes "EBAY"
    ∷ codes "AMAZON"
    ∷ codes "DISCORD"
    ∷ codes "SNAPCHAT"
    ∷ codes "ATLASSIAN"
    ∷ codes "ZEE5"
    ∷ codes "ZOMATO"
    ∷ codes "EVERNOTE"
    ∷ codes "ZERODHA"
    ∷ []

abbrev pub token_pool_sites : List Text
token_pool_sites =
    codes "EVERNOTE"
    ∷ codes "DIGILOCKER"
    ∷ codes "ZERODHA"
    ∷ codes "BPCL_GAS"
    ∷ codes "PAYU_UPI"
    ∷ codes "SWIGGY"
    ∷ codes "LINKEDIN"
    ∷ codes "SAMSUNG"
    ∷ codes "EASYGOSMS"
    ∷ []

-- The three guards of the loop.
runs : Text → YouConfiguration → List Text → Text → Bool
runs kind tenant disabled site =
    is_website_enabled tenant site kind
    && not (contains site disabled)
    && not (contains site token_pool_sites)

unfoldable pub crawl_set : Text → List Text → YouConfiguration → List Text → List Text
unfolding runs
crawl_set kind available tenant global_disabled = keep (runs kind tenant global_disabled) available

strings : List Value → List Text
strings [] = []
strings (str s ∷ vs) = s ∷ strings vs
strings (_ ∷ vs) = strings vs

-- From what `f.Get("global_disabled_websites", nil)` gives.
unfoldable pub global_disabled : Option Value → List Text
unfolding strings
global_disabled v = elim (as_list v) [ none ↦ disabled_websites_default | some vs ↦ strings vs ]

-- The entry does not switch the kind off, and the kind is one of the two.
abbrev pub Allows : Text → WebsiteEntry → Type 0
Allows kind e =
    ((kind ≡ codes "phone") × (e.phone_enabled ≢ some false))
    ⊎ ((kind ≡ codes "email") × (e.email_enabled ≢ some false))

not_off_iff : (o : Option Bool) → (not_off o ≡ true) ↔ (o ≢ some false)
not_off_iff none = (λ _ e. cc, λ _. cc)
not_off_iff (some true) = (λ _ e. cc, λ _. cc)
not_off_iff (some false) = (λ h. cc, λ h. absurd (h cc))

phone_ne_email : codes "phone" ≢ codes "email"
unfolding ◌==◌
phone_ne_email = ne_of_== (codes "phone") (codes "email") refl

-- The switch by its two kinds, as equations on the kind.
kind_enabled-Allows :
    (kind : Text) (e : WebsiteEntry) → (kind_enabled kind e ≡ true) ↔ Allows kind e
unfolding kind_enabled
kind_enabled-Allows kind e = ground (
  arith,
  eq_iff kind (codes "phone"),
  eq_iff kind (codes "email"),
  not_off_iff e.phone_enabled,
  not_off_iff e.email_enabled,
  phone_ne_email,
)

-- The site has an entry that is enabled and does not switch the kind off.
abbrev pub EnabledFor : YouConfiguration → Text → Text → Type 0
EnabledFor yc site kind =
    (e : WebsiteEntry) × (lookup site yc.websites ≡ some e) × (e.enabled ≡ true) × Allows kind e

is_website_enabled-EnabledFor :
    (yc : YouConfiguration) (site kind : Text)
    → (is_website_enabled yc site kind ≡ true) ↔ EnabledFor yc site kind
unfolding is_website_enabled
is_website_enabled-EnabledFor yc site kind = elim (Option-cases (lookup site yc.websites)) [
  | inl missing ↦ (λ h. absurd (ground arith), λ (e, found, _, _). absurd (ground arith))
  | inr (e, found) ↦ (
    λ h.
        let kind_on : kind_enabled kind e ≡ true = ground arith in
        (e, found, ground arith, (kind_enabled-Allows kind e).0 kind_on),
    λ (e', found', on, allows).
        let kind_on : kind_enabled kind e' ≡ true = (kind_enabled-Allows kind e').1 allows in
        ground arith,
  )
]

-- A site is crawled exactly if it is among the available ones, the tenant's entry for it is enabled
-- and does not switch the kind off (a flag that is absent counts as on), and it stands neither in
-- the global disabled list nor among the token pool's sites.
pub In-crawl_set :
    (kind : Text) (available : List Text) (tenant : YouConfiguration) (disabled : List Text)
    (site : Text)
    → In site (crawl_set kind available tenant disabled) ↔ (
        In site available
        × EnabledFor tenant site kind
        × (¬ In site disabled)
        × (¬ In site token_pool_sites))
unfolding crawl_set runs
In-crawl_set kind available tenant disabled site = ground (
  arith,
  In-keep site (runs kind tenant disabled) available,
  is_website_enabled-EnabledFor tenant site kind,
  contains_iff site disabled,
  contains_iff site token_pool_sites,
)
