-- ===== src/CommonData.antt =====
-- internal/commondata/commondata.go: the enrich checks of a request. The HTTP client is a parameter: for
-- a url, an authorization and a payload it gives a status and the body as a JSON object, `none` where it
-- fails, and `none` inside for a body that is not an object. The checks of a request run side by side and
-- each writes its own key.
pub mod Replay
pub mod Shared
pub mod Stored
use go_you.Common.{
  ℕ, Bool, true, false, not, ◌&&◌, ◌||◌, List, [], ◌∷◌, ◌++◌, Option, none, some, ◌>>=◌, Text,
  codes, ◌==◌, eqb, length, is_some, get_or, or_if_empty, if◌then◌else◌,
}
use go_you.Common.Int.{ℤ}
use go_you.Json.{
  Value, Fields, no_fields, field, str, obj, get, put, keys, is_empty, as_bool, as_map,
  text_or_empty,
}
use go_you.AppConfig.{
  YouConfiguration, enriched_data_api_enabled, demat_check_enabled, mutual_fund_check_enabled,
  credit_card_check_enabled, fintech_count_enabled, phone_to_address_enabled, is_caching_enabled,
}
use go_you.Dynamo.{Dynamo, Read, missed, broken, hit}
use go_you.PersonaCache.{Repo, enrich_key, get_doc}
use go_you.PersonaCache.WriteBack.{Write}
use go_you.Handler.TransformUpi.{error_entry}
use go_you.Handler.Clean.{is_null}

pub record EnrichRequest : Type 0 where
  pub phone : Text
  pub email : Text
  pub name : Text

-- The timeout of the row is read but used by nothing.
pub record EnrichConfig : Type 0 where
  pub url : Text
  pub authorization : Text
  pub service_ids : Fields

-- What `cfg.Get` gives for the row, and the cache.
pub record Service : Type 0 where
  pub row : Option Value
  pub cache : Option Repo

abbrev default_base_url : Text
default_base_url = codes "https://services.enrichdata.in"

abbrev Check : Type 0
Check = Text × (YouConfiguration → Bool)

abbrev check_order : List Check
check_order =
    (codes "vintage", enriched_data_api_enabled)
    ∷ (codes "demat_check", demat_check_enabled)
    ∷ (codes "mutual_fund_check", mutual_fund_check_enabled)
    ∷ (codes "credit_card_check", credit_card_check_enabled)
    ∷ (codes "fintech_count", fintech_count_enabled)
    ∷ (codes "phone_to_address", phone_to_address_enabled)
    ∷ []

-- `config`
unfoldable pub enrich_config : Option Value → Option EnrichConfig
enrich_config row = as_map row >>= λ raw.
    if get_or false (as_bool (get (codes "enabled") raw))
    then some (record {
      url = or_if_empty (text_or_empty (get (codes "url") raw)) default_base_url;
      authorization = text_or_empty (get (codes "authorization") raw);
      service_ids = get_or no_fields (as_map (get (codes "service_ids") raw));
    })
    else none

gated : YouConfiguration → List Check → List Text
gated yc [] = []
gated yc ((name, gate) ∷ checks) =
    let rest = gated yc checks in if gate yc then name ∷ rest else rest

unfoldable pub enabled_checks : YouConfiguration → List Text
unfolding gated
enabled_checks yc = gated yc check_order

-- `{"error":true}` and nothing else is not stored.
unfoldable pub bare_error : Value → Bool
bare_error v = elim (as_map (some v)) [
  | none ↦ false
  | some m ↦ is_some (get (codes "error") m) && eqb (length (keys m)) 1
]

-- The document that is written: what was read, and over it what is fresh.
unfoldable pub merge_doc : Fields → Fields → Fields
merge_doc cached no_fields = cached
merge_doc cached (field k v m) =
    let rest = merge_doc cached m in if bare_error v then rest else put k v rest

put_text : Text → Text → Fields → Fields
put_text k s m = if s == [] then m else put k (str s) m

payload : EnrichRequest → Fields
unfolding put_text
payload req =
    put_text (codes "name") req.name
      (put_text (codes "email") req.email (put_text (codes "phone") req.phone no_fields))

unfoldable pub cached_value : Text → Fields → Option Value
cached_value check cached = get check cached >>= λ v. if is_null v then none else some v

abbrev pub found_doc : Read Fields → Fields
found_doc missed = no_fields
found_doc broken = no_fields
found_doc (hit doc) = doc

-- The client's answer to a POST.
abbrev pub Post : Type 0
Post = Text → Text → Fields → Option (ℕ × Option Fields)

unfoldable pub call_check : Post → EnrichConfig → Text → EnrichRequest → Option Fields
unfolding payload
call_check post cfg id req =
    post (cfg.url ++ codes "/api/olap/" ++ id ++ codes "/") cfg.authorization (payload req) >>= λ r.
    if eqb r.0 200 then r.1 else none

abbrev pub entry_of : Option Fields → Value
entry_of none = obj error_entry
entry_of (some m) = obj m

fresh : Post → EnrichConfig → EnrichRequest → Text → Value
fresh post cfg req check =
    let id = text_or_empty (get check cfg.service_ids) in
    if id == [] then obj error_entry else entry_of (call_check post cfg id req)

-- The result of one check.
unfoldable pub answer : Post → EnrichConfig → EnrichRequest → Fields → Text → Value
unfolding fresh
answer post cfg req cached check = elim (cached_value check cached) [
  | some v ↦ v
  | none ↦ fresh post cfg req check
]

unfoldable pub run_checks : Post → EnrichConfig → EnrichRequest → Fields → List Text → Fields
run_checks post cfg req cached [] = no_fields
run_checks post cfg req cached (check ∷ checks) =
    put check (answer post cfg req cached check) (run_checks post cfg req cached checks)

abbrev pub key_of : (Text → Text) → EnrichRequest → Text
key_of md5 req = enrich_key md5 req.phone req.email req.name

-- The write that is left to a goroutine; `PutDoc` writes nothing under an empty key.
unfoldable pub left_write : Text → Fields → ℤ → Option (Write Fields)
left_write k doc now =
    if is_empty doc || k == [] then none else some (record { key = k; doc = doc; now = now })

module _ {S : Type 0} (db : Dynamo S) (md5 : Text → Text) (decode : Text → Option Fields) where
  -- Behind the early returns, with a cache that is on and with none: the results and the write.
  unfoldable pub fetch_cached :
      Repo
      → Post
      → EnrichConfig
      → EnrichRequest
      → List Text
      → ℤ
      → S
      → Fields × Option (Write Fields)
  unfolding left_write
  fetch_cached r post cfg req checks now s =
      let cached = found_doc (get_doc db (some r) decode s (key_of md5 req) now) in
      let results = run_checks post cfg req cached checks in
      (results, left_write (key_of md5 req) (merge_doc cached results) now)

  fetch_enabled :
      Option Repo
      → Post
      → EnrichConfig
      → EnrichRequest
      → List Text
      → Bool
      → ℤ
      → S
      → Option Fields × Option (Write Fields)
  unfolding fetch_cached
  fetch_enabled cache post cfg req [] caching now s = (none, none)
  fetch_enabled (some r) post cfg req (check ∷ checks) true now s =
      let (results, w) = fetch_cached r post cfg req (check ∷ checks) now s in (some results, w)
  fetch_enabled none post cfg req (check ∷ checks) true now s =
      (some (run_checks post cfg req no_fields (check ∷ checks)), none)
  fetch_enabled cache post cfg req (check ∷ checks) false now s =
      (some (run_checks post cfg req no_fields (check ∷ checks)), none)

  fetch_configured :
      Option Repo
      → Post
      → Option EnrichConfig
      → EnrichRequest
      → YouConfiguration
      → ℤ
      → S
      → Option Fields × Option (Write Fields)
  unfolding fetch_enabled
  fetch_configured cache post none req yc now s = (none, none)
  fetch_configured cache post (some cfg) req yc now s =
      fetch_enabled cache post cfg req (enabled_checks yc) (is_caching_enabled (some yc)) now s

  -- `Fetch` on the store that it meets; a nil service, configuration or request is `none`.
  unfoldable pub fetch :
      Option Service
      → Post
      → Option EnrichRequest
      → Option YouConfiguration
      → ℤ
      → S
      → Option Fields × Option (Write Fields)
  unfolding fetch_configured
  fetch (some svc) post (some req) (some yc) now s =
      fetch_configured svc.cache post (enrich_config svc.row) req yc now s
  fetch _ post _ _ now s = (none, none)
