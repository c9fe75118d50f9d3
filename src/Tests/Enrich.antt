-- ===== src/Tests/Enrich.antt =====
-- Witnesses for the enrich checks of a request.
use go_you.Common.{
  ℕ, ltb, true, false, [], ◌∷◌, Option, none, some, Text, codes, ◌==◌, In, ◌≡◌, ◌≢◌, inl, refl, sym,
  arith, if◌then◌else◌,
}
use go_you.Common.Int.{pos}
use go_you.Common.Maps.{Dict, lookup}
use go_you.Json.{
  Value, Fields, no_fields, field, bool, str, num, obj, null, nil_maps, texts, arr, maps, get, put,
}
use go_you.AppConfig.{
  YouConfiguration, bool_at, is_caching_enabled, enriched_data_api_enabled, demat_check_enabled,
  mutual_fund_check_enabled, credit_card_check_enabled, fintech_count_enabled,
  phone_to_address_enabled,
}
use go_you.Dynamo.{Item, read_item}
use go_you.PersonaCache
use go_you.PersonaCache.{enrich_key, get_doc}
use go_you.PersonaCache.WriteBack.{
  Write, State, Steps, stay, go, queue, reads_or_queues, landing, Encodes, IsEmpty,
}
use go_you.CommonData.{
  EnrichConfig, EnrichRequest, Service, Post, enrich_config, enabled_checks, answer, run_checks,
  call_check, cached_value, merge_doc, bare_error, key_of, left_write, fetch,
}
use go_you.CommonData.Shared.{Anything, Queued, Seen, fetch-replays}
use go_you.Tests.Caches.{memory, memory-IsStore, repo, constant_md5, in_range}

abbrev tenant : YouConfiguration
tenant = record {
  raw = field (codes "caching") (bool true) no_fields;
  websites = [];
  breach = false;
  phone_meta = false;
  email_meta = false;
  prediction = false;
  request_timeout = [];
  common_intelligence = no_fields;
  intelligence =
      field (codes "enabled") (bool true) (field (codes "enriched_data_api") (bool true) no_fields);
  email_info = no_fields;
  phone_info = no_fields;
}

abbrev row : Value
row = obj (
    field (codes "enabled") (bool true) (
      field (codes "service_ids") (obj (field (codes "vintage") (str (codes "v1")) no_fields))
        no_fields))

abbrev cfg : EnrichConfig
cfg = record {
  url = codes "https://services.enrichdata.in";
  authorization = [];
  service_ids = field (codes "vintage") (str (codes "v1")) no_fields;
}

abbrev req : EnrichRequest
req = record { phone = codes "9607639515"; email = []; name = [] }

-- A service that knows the number at first, and is down later.
abbrev client : ℕ → Post
client n url auth body = if ltb n 1500 then some (200, some no_fields) else none

abbrev vintage : Value
vintage = obj no_fields

abbrev doc : Fields
doc = field (codes "vintage") vintage no_fields

-- It encodes a document of one empty answer.
abbrev encode : Fields → Option Text
encode no_fields = none
encode (field k (obj no_fields) no_fields) = some (b'd' ∷ k)
encode (field k v m) = none

abbrev decode : Text → Option Fields
decode [] = none
decode (c ∷ k) = some (field k (obj no_fields) no_fields)

encodes : Encodes encode decode
encodes no_fields t h = cc
encodes (field k (obj no_fields) no_fields) t h =
    let is : (b'd' ∷ k) ≡ t = cc in rw (sym is) (λ e. cc, refl)
encodes (field k (obj no_fields) (field j w m)) t h = cc
encodes (field k (obj (field i x n)) m) t h = cc
encodes (field k null m) t h = cc
encodes (field k nil_maps m) t h = cc
encodes (field k (bool b) m) t h = cc
encodes (field k (num n) m) t h = cc
encodes (field k (str x) m) t h = cc
encodes (field k (texts ts) m) t h = cc
encodes (field k (arr vs) m) t h = cc
encodes (field k (maps os) m) t h = cc

abbrev the_key : Text
the_key = key_of constant_md5 req

key_filled : the_key ≢ []
unfolding enrich_key
key_filled h = ground arith

abbrev waiting : Write Fields
waiting = record { key = the_key; doc = doc; now = pos 1000 }

abbrev at_first : State (Dict Item) Fields
at_first = record { store = []; reads = []; pending = [] }

abbrev behind_fetch : State (Dict Item) Fields
behind_fetch = record { store = []; reads = []; pending = waiting ∷ [] }

abbrev landed : Dict Item
landed = landing memory repo encode [] the_key doc (pos 1000)

abbrev behind_landing : State (Dict Item) Fields
behind_landing = record { store = landed; reads = []; pending = [] }

nothing_stored :
    IsEmpty memory repo encode decode
      (Queued memory constant_md5 repo encode decode client)
      (Seen memory constant_md5 repo encode decode client)
      memory-IsStore
      encodes
      at_first
unfolding PersonaCache.get read_item lookup
nothing_stored = (λ k now. refl, refl, refl)

is_Queued : Queued memory constant_md5 repo encode decode client [] waiting
unfolding fetch left_write enrich_config is_caching_enabled run_checks answer call_check
    cached_value merge_doc bare_error get_doc PersonaCache.get read_item enrich_key enabled_checks
    enriched_data_api_enabled demat_check_enabled mutual_fund_check_enabled
    credit_card_check_enabled fintech_count_enabled phone_to_address_enabled bool_at get put lookup
    ◌==◌
is_Queued = (some row, req, tenant, 1000, [], (refl, in_range), λ d h. cc, refl)

Queued-Steps :
    Steps memory repo encode decode
      (Queued memory constant_md5 repo encode decode client)
      (Seen memory constant_md5 repo encode decode client)
      Anything
      at_first
      behind_fetch
Queued-Steps = go reads_or_queues at_first behind_fetch stay tt (queue at_first waiting is_Queued)

abbrev service_here : Option Service
service_here = some (record { row = some row; cache = some repo })

abbrev checks_of_tenant : In (codes "vintage") (enabled_checks tenant)
unfolding enabled_checks enriched_data_api_enabled demat_check_enabled mutual_fund_check_enabled
    credit_card_check_enabled fintech_count_enabled phone_to_address_enabled bool_at get ◌==◌
checks_of_tenant = inl refl

fetch-replays_example :
    (answers : Fields) × ((fetch memory constant_md5 decode service_here
        (client 2000)
        (some req)
        (some tenant)
        (pos 2000)
        landed).0
      ≡ some answers)
    × (get (codes "vintage") answers ≡ some vintage)
unfolding enrich_config is_caching_enabled bool_at get PersonaCache.put ◌==◌
fetch-replays_example =
    fetch-replays memory constant_md5 repo encode decode client memory-IsStore encodes at_first
      behind_landing [] landed [] [] [] waiting (some row) cfg req tenant (client 2000)
      (codes "vintage") vintage 1000 2000 nothing_stored Queued-Steps refl stay refl refl
      checks_of_tenant refl key_filled refl refl (refl, in_range) (omega arith)
