-- ===== src/Lib.antt =====
-- A model of go-you, a service that looks up which accounts stand behind a phone number or an e-mail
-- address, and of the laws that its core keeps. A request goes through lanes (internal/handler); a
-- section lane reads the persona cache before it crawls and writes it after (internal/personacache).
-- Among the crawlers of a phone number the UPI crawler (internal/crawler/upi) asks many sources for the
-- bank handles of the number and puts their answers together; the crawlers that need a session token
-- take it from a pool that a loop fills in the background (internal/crawler/tokenpool).
--
-- Files:
-- - Common.antt and its children: texts as byte strings, maps with text keys, signed integers and the
--   lists and tests over native numbers that the parts share.
-- - Json.antt: the `any` values and `map[string]any` that are reshaped for the client.
-- - Upi/Model.antt: internal/crawler/upi/model.go. A `*bool` is an `Option Bool`.
-- - Upi/Suffix.antt, Upi/Split.antt: internal/crawler/upi/suffix.go, and `vpaFor` of source.go.
-- - Upi/Aggregate.antt: `aggProfile` of internal/crawler/upi/aggregate.go; the order in which Go walks
--   over the map of candidates is a parameter. Upi/VerifiedNames.antt: the verified names there.
-- - Upi/Format.antt, Upi/Response.antt: internal/crawler/upi/regex.go and response.go.
-- - Upi/Source.antt: `runSource` of internal/crawler/upi/source.go and the names in util.go. The record
--   `World` holds what a request meets outside: the answers of the probes, the order in which channels
--   deliver, the walks over maps, and whether the deadline has passed behind the LITE phase.
-- - Upi/Sample.antt: internal/crawler/upi/sample.go; the operations on floats and the hash of the seed
--   are parameters, the xorshift words are computed.
-- - Upi/Plan.antt, Upi/Engine.antt: internal/crawler/upi/engine.go, the helpers and the phases. A panic
--   of a slice with a negative bound is `none`.
-- - Upi/Run.antt: `CheckDetail` of internal/crawler/upi/run.go and the map that it returns.
-- - TokenPool.antt: internal/crawler/tokenpool/tokenpool.go, one function per critical section of the
--   pool's mutex; Reach.antt there has the relation that interleaves them.
-- - Dynamo.antt, PersonaCache.antt: internal/personacache/personacache.go. The DynamoDB client is the
--   record `Dynamo`, with `IsStore` for a table that reads back what was put, as a consistent read
--   does; MD5 and the encoding of a document are parameters.
--   PersonaCache/WriteBack.antt: the writes that requests leave to goroutines, as a step relation.
-- - MetaCache.antt: internal/metacache/metacache.go, over the same items.
-- - Handler/CacheDecorator.antt: internal/handler/cache_decorator.go around one section lane, driven as
--   `runLanes` of internal/handler/lane.go drives it.
-- - Handler/Clean.antt: `cleanEmpty` of internal/handler/persona.go and `removeKeyRecursive` of
--   internal/handler/transform.go.
-- - Handler/TransformUpi.antt, Handler/Transform.antt: internal/handler/transform_upi.go, transform.go and
--   dto.go. The typed response enters as the map that `json.Unmarshal` makes of its JSON.
-- - AccountDetails.antt: internal/model/account_details.go, over JSON objects in place of JSON text.
-- - AppConfig.antt, AppConfig/Websites.antt: internal/appconfig/youconfig.go and websites.go.
--   AppConfig/Fetcher.antt: fetcher.go there, one function per step, over what its queries answer.
-- - Intelligence/Merge.antt, Intelligence.antt: internal/intelligence/merge.go and intelligence.go; the call
--   of the ml service and `strings.TrimSpace` are parameters.
-- - StaticData.antt, StaticData/Linked.antt: internal/staticdata/derive.go, the digital age and the linked
--   ids. A time there is a day; the print of a float is a parameter.
-- - Crawler.antt: internal/crawler/crawler.go, proxy_routing.go and runner.go. The results of a round are
--   any list that the relation `Finish` reaches from its probes.
-- - TokenPool/Manager.antt: internal/crawler/tokenpool/manager.go, and `tokenVia` of crawler.go.
-- - Handler/Section.antt, Handler/Phone.antt: internal/handler/persona.go, the section of a round, its
--   intelligence data and gates, and the phone number of a request.
-- - Handler/Orchestrator.antt: internal/handler/orchestrator.go, the crawl sets of a tenant and what the
--   ml service's answer adds.
-- - CommonData.antt: internal/commondata/commondata.go; the HTTP client is a parameter.
-- - Breach.antt: internal/breach/phone_static.go, and `Phone` of breach.go there.
-- - Tests.antt and its children: concrete data to which the theorems are applied.
--
-- Every loop runs down a list or a count but `fetch_all_configs`, whose fuel counts its pages: one more
-- than there are keys is enough. Times and durations are natural
-- numbers, or signed integers where the code can meet a negative one; where 64 bits can overflow, the
-- wrap-around is written out (`double` in TokenPool.antt, `wrap64` in Dynamo.antt, the words of
-- Upi/Sample.antt). The count of a token's uses is a natural number.
--
-- Not modelled: the HTTP exchanges of the single crawlers and sources, JSON decoding, SQL, the goroutines
-- of the handler's lanes and of the pools' start and stop, the metadata lookups, the breaches of e-mail
-- addresses, the repository of static documents, AWS bindings, authentication, metrics, logs, and the
-- programs under cmd.
pub mod AccountDetails
pub mod AppConfig
pub mod Breach
pub mod Common
pub mod CommonData
pub mod Crawler
pub mod Dynamo
pub mod Handler
pub mod Intelligence
pub mod Json
pub mod MetaCache
pub mod PersonaCache
pub mod StaticData
pub mod Tests
pub mod TokenPool
pub mod Upi
