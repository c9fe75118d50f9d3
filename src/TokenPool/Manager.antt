-- ===== src/TokenPool/Manager.antt =====
-- internal/crawler/tokenpool/manager.go and `tokenVia` of internal/crawler/crawler.go: the pools of all
-- sites, and where a crawler gets its token. Start and Stop drive goroutines and are left out.
pub mod Frame
use go_you.Common.{
  ℕ, Bool, true, false, List, [], ◌∷◌, ◌*◌, Option, none, some, Text, codes, ◌==◌, is_some, get_or,
  if◌then◌else◌, ◌>>=◌,
}
use go_you.Common.Int.{pos}
use go_you.Common.Maps.{Dict, lookup, insert}
use go_you.Crawler.{Kind, phone, email}
use go_you.TokenPool.{Config, Pool, new_pool, get, second}

abbrev entry : ℕ → ℕ → Config
entry size use_limit = record {
  size = pos size;
  ttl = pos (600 * second);
  use_limit = pos use_limit;
  max_thread = pos 0;
  sleep = pos 0;
}

abbrev pub default_configs : Dict Config
default_configs =
    (codes "APPLE", entry 15 3)
    ∷ (codes "MICROSOFT", entry 10 20)
    ∷ (codes "TWITTER", entry 5 10)
    ∷ (codes "QUORA", entry 5 30)
    ∷ (codes "TUMBLR", entry 5 30)
    ∷ (codes "VIMEO", entry 5 30)
    ∷ (codes "ZOHO", entry 15 1)
    ∷ (codes "OYOROOMS", entry 5 30)
    ∷ (codes "TRIVAGO", entry 10 50)
    ∷ (codes "EVENTBRITE", entry 15 100)
    ∷ (codes "SNAPDEAL", entry 20 20)
    ∷ (codes "SHOPCLUES", entry 3 80)
    ∷ (codes "CODECADEMY", entry 5 20)
    ∷ []

-- The pools by site, for either kind: the map by site and kind.
pub record Manager : Type 0 where
  pub phone_pools : Dict Pool
  pub email_pools : Dict Pool

abbrev pub pools : Manager → Kind → Dict Pool
pools m phone = m.phone_pools
pools m email = m.email_pools

unfoldable pub put_pool : Kind → Text → Pool → Manager → Manager
put_pool phone website p m = record m { phone_pools = insert website p m.phone_pools }
put_pool email website p m = record m { email_pools = insert website p m.email_pools }

pub new_manager : Manager
new_manager = record { phone_pools = []; email_pools = [] }

config_for : Text → Config
config_for website = get_or (entry_of_zero) (lookup website default_configs)
  where
    entry_of_zero : Config
    entry_of_zero = record {
      size = pos 0;
      ttl = pos 0;
      use_limit = pos 0;
      max_thread = pos 0;
      sleep = pos 0;
    }

-- For a crawler of the site and the kind.
unfoldable pub register : Text → Kind → Manager → Manager
unfolding config_for put_pool
register website kind m =
    if is_some (lookup website (pools m kind))
    then m
    else put_pool kind website (new_pool (config_for website)) m

-- A nil manager always misses; `none` outside is the panic of an index out of range.
get_from_pool :
    (ℕ → ℕ) → Text → Kind → Manager → Option Pool → Option (Option (Dict Text) × Manager)
unfolding put_pool
get_from_pool rand website kind m none = some (none, m)
get_from_pool rand website kind m (some p) =
    get rand p >>= λ r. some (r.0, put_pool kind website r.1 m)

unfoldable pub get_token :
    (ℕ → ℕ) → Text → Kind → Option Manager → Option (Option (Dict Text) × Option Manager)
unfolding get_from_pool
get_token rand website kind none = some (none, none)
get_token rand website kind (some m) =
    get_from_pool rand website kind m (lookup website (pools m kind)) >>= λ r. some (r.0, some r.1)

-- `generated` is what the crawler's own first step gives, an error in `none`.
unfoldable pub token_via :
    (ℕ → ℕ)
    → Option Manager
    → Text
    → Kind
    → Option (Dict Text)
    → Option (Option (Dict Text) × Option Manager)
token_via rand src website kind generated = get_token rand website kind src >>= λ r.
    some (elim r.0 [ some tok ↦ (some tok, r.1) | none ↦ (generated, r.1) ])
