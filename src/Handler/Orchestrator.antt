-- ===== src/Handler/Orchestrator.antt =====
-- internal/handler/orchestrator.go: which crawlers a tenant's request runs, and what the ml service's
-- answer adds to the response. The lanes and the encoding of the request are the caller's.
pub mod Seen
use go_you.Common.{
  ℕ, Bool, true, false, List, [], ◌∷◌, Option, none, some, Text, codes, map, if◌then◌else◌,
}
use go_you.Common.Maps.{Dict}
use go_you.Json.{Value, Fields, no_fields, field, bool, num, obj}
use go_you.AppConfig.{YouConfiguration}
use go_you.AppConfig.Websites.{crawl_set}
use go_you.Crawler.{
  Crawler, Runner, Kind, phone, email, Result, available, by_kind, probe_one, run_sites,
}
use go_you.Handler.Section.{IntelligenceData, merge_intelligence_data, map_to_intelligence_data}
use go_you.Handler.TransformUpi.{error_entry}
use go_you.Intelligence.{Output, Ran, skipped, merged}
use go_you.Intelligence.Merge.{Prediction, failed, predicted}

-- The parsed configuration and the two crawl sets. `parsed` is the configuration where the fetcher, the
-- tenant and its text are there and parse.
unfoldable pub resolve_config :
    Runner → Option YouConfiguration → List Text → Option (YouConfiguration × List Text × List Text)
resolve_config r none disabled = none
resolve_config r (some yc) disabled = some (
  yc,
  crawl_set (codes "phone") (available r phone) yc disabled,
  crawl_set (codes "email") (available r email) yc disabled,
)

crawlers : Dict Crawler → List Crawler
crawlers [] = []
crawlers ((name, c) ∷ cs) = c ∷ crawlers cs

-- The probes of `Run`, which takes every registered crawler.
unfoldable pub run_all : Runner → (Text → Bool) → Kind → Text → List Result
unfolding crawlers
run_all r expired kind identifier = map (probe_one r expired identifier) (crawlers (by_kind r kind))

-- A nil list of sites is `none`.
pub run_crawlers : Runner → (Text → Bool) → Kind → Text → Option (List Text) → List Result
run_crawlers r expired kind identifier none = run_all r expired kind identifier
run_crawlers r expired kind identifier (some sites) = run_sites r expired kind identifier sites

-- The parts of the response that the ml service's answer changes: the intelligence data of each section
-- that is there, those of the response, and the prediction.
pub record Intel : Type 0 where
  pub phone_data : Option (Option IntelligenceData)
  pub email_data : Option (Option IntelligenceData)
  pub intelligence_data : Option IntelligenceData
  pub prediction : Option Fields

merge_section : Option (Option IntelligenceData) → Fields → Option (Option IntelligenceData)
merge_section sec no_fields = sec
merge_section none (field k v m) = none
merge_section (some base) (field k v m) = some (some (merge_intelligence_data base (field k v m)))

merge_common : Option IntelligenceData → Fields → Option IntelligenceData
merge_common old no_fields = old
merge_common old (field k v m) = some (map_to_intelligence_data (field k v m))

score_carrier : Prediction → Fields
score_carrier failed = error_entry
score_carrier (predicted n) = field (codes "predicted_score") (num n) no_fields

-- What is stashed of a run: one that stops early has no score.
unfoldable pub carrier : YouConfiguration → Ran → Option Fields
unfolding score_carrier
carrier yc skipped = if yc.prediction then some error_entry else none
carrier yc (merged out) = if yc.prediction then some (score_carrier out.prediction) else none

add_scopes : Ran → Intel → Intel
unfolding merge_section merge_common
add_scopes skipped resp = resp
add_scopes (merged out) resp = record resp {
  phone_data = merge_section resp.phone_data out.phone_intel;
  email_data = merge_section resp.email_data out.email_intel;
  intelligence_data = merge_common resp.intelligence_data out.common_intel;
}

-- The prediction of the response is nil before.
pub apply_intelligence : YouConfiguration → Ran → Intel → Intel
unfolding add_scopes
apply_intelligence yc ran resp = record (add_scopes ran resp) { prediction = carrier yc ran }
