-- ===== src/Tests/Caches.antt =====
-- Witnesses for the persona cache and the lane in front of it.
use go_you.Common.{
  take, ◌+◌, ◌^◌, ◌<◌, true, false, [], ◌∷◌, Option, none, some, Text, codes, ◌==◌, ==_refl, get_or,
  if◌then◌else◌, ltb, ◌≡◌, ◌≢◌, ◌∙◌, refl, sym, ap, arith,
}
use go_you.Common.Int.{pos}
use go_you.Common.Maps.{Dict, lookup, insert, lookup-insert}
use go_you.Dynamo.{s_attr, attr_str, Item, Dynamo, IsStore, missed, hit}
use go_you.PersonaCache.{Repo, ttl_seconds, key, enrich_key, get, put, item_of}
use go_you.PersonaCache.Keys.{enrich_key-collides}
use go_you.PersonaCache.Replay.{get-put}
use go_you.Handler.CacheDecorator.{Response, Kind, phone, email, LaneState, Lane, gate, run}
use go_you.PersonaCache.WriteBack.{Write, State, landing}

abbrev pub id_of : Item → Text
id_of item = get_or [] (attr_str (lookup (codes "id") item))

-- A database that keeps the items under their ids.
abbrev pub memory : Dynamo (Dict Item)
memory = record {
  get_item = λ s table k. some (lookup k s);
  put_item = λ s table item. some (insert (id_of item) item s);
}

read_back :
    (s t : Dict Item) (k j : Text) (item : Item)
    → lookup (codes "id") item ≡ some (s_attr k)
    → some (insert (id_of item) item s) ≡ some t
    → lookup j t ≡ (if k == j then some item else lookup j s)
read_back s t k j item id_is stored =
    let e : insert (id_of item) item s ≡ t = cc in
    let same : id_of item ≡ k = ap (λ o. get_or [] (attr_str o)) id_is in
    ap (lookup j) (sym e)
    ∙ lookup-insert j (id_of item) item s
    ∙ ap (λ i. if i == j then some item else lookup j s) same

pub memory-IsStore : IsStore memory
memory-IsStore = record {
  reads_back = λ s t table k item id_is stored.
      ap some (read_back s t k k item id_is stored ∙ rw (==_refl k) refl);
  keeps_others = λ s t table k other item id_is stored differs.
      ap some (read_back s t k other item id_is stored ∙ rw differs refl);
}

abbrev pub repo : Repo
repo = record { table = codes "persona"; hashing_compliant = true }

abbrev pub constant_md5 : Text → Text
constant_md5 t = codes "0"

abbrev encode : Text → Option Text
encode d = some (b'j' ∷ d)

abbrev decode : Text → Option Text
decode [] = none
decode (c ∷ d) = some d

doc_filled : (b'j' ∷ codes "doc") ≢ []
doc_filled h = cc

pub in_range : 1000 + ttl_seconds < 2 ^ 63
in_range = omega arith

stored_doc :
    put memory (some repo) encode [] (codes "k") (some (codes "doc")) (pos 1000)
    ≡ some (
        insert
          (id_of (item_of (codes "k") (b'j' ∷ codes "doc") (pos 1000)))
          (item_of (codes "k") (b'j' ∷ codes "doc") (pos 1000))
          [])
unfolding put
stored_doc = refl

abbrev doc_stored : Dict Item
doc_stored =
    insert (id_of (item_of (codes "k") (b'j' ∷ codes "doc") (pos 1000)))
      (item_of (codes "k") (b'j' ∷ codes "doc") (pos 1000)) []

get-put_example :
    (get memory (some repo) decode doc_stored (codes "k") (pos 2000)
      ≡ (if ltb 2000 (1000 + ttl_seconds) then hit (codes "doc") else missed))
    × ((other : Text)
        → (codes "k" == other) ≡ false
        → get memory (some repo) decode doc_stored other (pos 2000)
          ≡ get memory (some repo) decode [] other (pos 2000))
get-put_example =
    get-put memory repo encode decode [] (codes "k") (b'j' ∷ codes "doc") (codes "doc") 1000 2000
      doc_stored memory-IsStore refl doc_filled refl in_range stored_doc

enrich_key-collides_example :
    enrich_key constant_md5 (codes "98") (codes "a") []
    ≡ enrich_key constant_md5 (codes "98") [] (codes "a")
enrich_key-collides_example = enrich_key-collides constant_md5 (codes "98") (codes "a")

abbrev encode_parts : Option Text → Option Text → Option Text
encode_parts (some sec) none = some (b'j' ∷ sec)
encode_parts (some sec) (some other) = none
encode_parts none other = none

-- It encodes a response with a phone section alone.
abbrev encode_response : Response Text → Option Text
encode_response resp = encode_parts resp.phone_data resp.email_data

abbrev decode_response : Text → Option (Response Text)
decode_response [] = none
decode_response (c ∷ d) = some (record { phone_data = some d; email_data = none })

abbrev lanes : Kind → Lane Text
lanes phone = record { kind = phone; gate = λ st. true; run = λ st. some (codes "section") }
lanes email = record { kind = email; gate = λ st. true; run = λ st. none }

-- A merge leaves the first letter of a section.
abbrev Amends : Text → Text → Type 0
Amends a b = take 1 a ≡ take 1 b

abbrev state : LaneState Text
state = record {
  login_id = codes "+919876543210";
  tenant_id = codes "acme";
  caching = true;
  resp = record { phone_data = none; email_data = none };
}

abbrev lane_key : Text
lane_key = key constant_md5 (some repo) (codes "phone") (codes "+919876543210") (codes "acme")

abbrev crawled : Response Text
crawled = record { phone_data = some (codes "section"); email_data = none }

abbrev merged : Response Text
merged = record { phone_data = some (codes "scored"); email_data = none }

abbrev waiting : Write (Response Text)
waiting = record { key = lane_key; doc = crawled; now = pos 1000 }

abbrev at_first : State (Dict Item) (Response Text)
at_first = record { store = []; reads = []; pending = [] }

abbrev behind_crawl : State (Dict Item) (Response Text)
behind_crawl = record { store = []; reads = []; pending = waiting ∷ [] }

abbrev landed : Dict Item
landed = landing memory repo encode_response [] lane_key merged (pos 1000)

abbrev behind_landing : State (Dict Item) (Response Text)
behind_landing = record { store = landed; reads = []; pending = [] }
