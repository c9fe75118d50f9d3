-- ===== src/Crawler.antt =====
-- internal/crawler/crawler.go, proxy_routing.go and runner.go: the registered crawlers, the egress of a
-- site, and one round of probes. What a crawler answers, and whether the deadline has passed when it
-- fails, are parameters; the round ends when every probe has, in any order.
use go_you.Common.{
  Bool, List, [], ◌∷◌, ◌++◌, Option, none, some, Text, codes, map, if◌then◌else◌, ◌>>=◌,
}
use go_you.Common.Maps.{Dict, lookup, insert}
use go_you.Json.{Fields, no_fields}

pub data Kind : Type 0 where
  phone email : Kind

-- A proxy's address.
abbrev pub Url : Type 0
Url = Text

pub record Egress : Type 0 where
  pub default_proxy : Option Url
  pub named : Dict (Option Url)

abbrev pub site_egress : Dict Text
site_egress = (codes "APPLE", codes "nimble") ∷ (codes "MICROSOFT", codes "smartproxy") ∷ []

abbrev pub or_default : Option Url → Option Url → Option Url
or_default none d = d
or_default (some p) d = some p

-- A nil `Egress` is `none`; a missing entry of `Named` reads as nil.
unfoldable pub proxy_for_site : Option Egress → Text → Option Url
proxy_for_site none website = none
proxy_for_site (some e) website =
    or_default (lookup website site_egress >>= λ name. lookup name e.named >>= λ p. p)
      e.default_proxy

-- What a call of a crawler gives.
pub data Answer (A : Type 0) : Type 0 where
  answered : A → Answer A
  erred : Text → Answer A

-- `Check` of a plain crawler, and `CheckDetail` of a detail crawler.
pub data Probe : Type 0 where
  check : (Text → Option Url → Answer Bool) → Probe
  check_detail : (Text → Option Url → Answer (Option Bool × Fields)) → Probe

pub record Crawler : Type 0 where
  pub website : Text
  pub kind : Kind
  pub probe : Probe

pub data Failure : Type 0 where
  timed_out : Failure
  failure : Text → Failure

pub record Result : Type 0 where
  pub website : Text
  pub kind : Kind
  pub user_exist : Option Bool
  pub details : Fields
  pub err : Option Failure

pub record Runner : Type 0 where
  pub egress : Egress
  pub phone_crawlers : Dict Crawler
  pub email_crawlers : Dict Crawler

-- `byKind`
abbrev pub by_kind : Runner → Kind → Dict Crawler
by_kind r phone = r.phone_crawlers
by_kind r email = r.email_crawlers

register_in : Kind → Crawler → Runner → Runner
register_in phone c r = record r { phone_crawlers = insert c.website c r.phone_crawlers }
register_in email c r = record r { email_crawlers = insert c.website c r.email_crawlers }

register_crawlers : List Crawler → Runner → Runner
unfolding register_in
register_crawlers [] r = r
register_crawlers (c ∷ cs) r = register_crawlers cs (register_in c.kind c r)

unfoldable pub new_runner : Option Url → List Crawler → Runner
unfolding register_crawlers
new_runner proxy crawlers = register_crawlers crawlers (record {
  egress = record { default_proxy = proxy; named = [] };
  phone_crawlers = [];
  email_crawlers = [];
})

pub with_egress : Dict (Option Url) → Runner → Runner
with_egress named r = record r {
  egress = record { default_proxy = r.egress.default_proxy; named = named };
}

unfoldable pub look_up : Runner → Kind → Text → Option Crawler
look_up r kind website = lookup website (by_kind r kind)

names : Dict Crawler → List Text
names [] = []
names ((name, c) ∷ cs) = name ∷ names cs

-- In the order in which Go walks over the map.
pub available : Runner → Kind → List Text
unfolding names
available r kind = names (by_kind r kind)

unfoldable pub empty_result : Crawler → Result
empty_result c = record {
  website = c.website;
  kind = c.kind;
  user_exist = none;
  details = no_fields;
  err = none;
}

unfoldable pub failed_result : Bool → Text → Crawler → Result
unfolding empty_result
failed_result expired message c = record (empty_result c) {
  err = some (if expired then timed_out else failure message);
}

-- The goroutine of one crawler; `expired` is `ctx.Err() != nil` behind its call.
unfoldable pub probe_with : Bool → Probe → Text → Option Url → Crawler → Result
unfolding failed_result empty_result
probe_with expired (check f) identifier proxy c = elim (f identifier proxy) [
  | answered b ↦ record (empty_result c) { user_exist = some b }
  | erred message ↦ failed_result expired message c
]
probe_with expired (check_detail f) identifier proxy c = elim (f identifier proxy) [
  | answered found ↦ record (empty_result c) { user_exist = found.0; details = found.1 }
  | erred message ↦ failed_result expired message c
]

unfoldable pub probe_one : Runner → (Text → Bool) → Text → Crawler → Result
unfolding probe_with
probe_one r expired identifier c =
    probe_with (expired c.website) c.probe identifier (proxy_for_site (some r.egress) c.website) c

-- The crawlers that a list of names selects.
unfoldable pub selected : Dict Crawler → List Text → List Crawler
selected m [] = []
selected m (name ∷ sites) =
    let rest = selected m sites in elim (lookup name m) [ none ↦ rest | some c ↦ c ∷ rest ]

-- The order in which the probes of a round append their results.
pub data Finish : List Result → List Result → Type 0 where
  over : Finish [] []
  next :
      (before after results : List Result) (r : Result)
      → Finish (before ++ after) results
      → Finish (before ++ (r ∷ after)) (r ∷ results)

-- The probes of `RunSites`; a round's results are any list that `Finish` reaches from them.
unfoldable pub run_sites : Runner → (Text → Bool) → Kind → Text → List Text → List Result
run_sites r expired kind identifier sites =
    map (probe_one r expired identifier) (selected (by_kind r kind) sites)
