-- ===== src/Handler/CacheDecorator/Shared.antt =====
-- The section lanes of any number of requests over one persona cache: what a hit replays.
use go_you.Common.{ℕ, List, [], ◌∷◌, Option, some, Text, ◌≡◌}
use go_you.Common.Int.{ℤ}
use go_you.Dynamo.{Dynamo}
use go_you.PersonaCache.{Repo}
use go_you.PersonaCache.WriteBack.{Write, Found, Label, InRange, Claim}
use go_you.Handler.CacheDecorator.{Response, Kind, section_from_cache, LaneState, Lane, serve}
use go_you.Handler.CacheDecorator.Replay.{key_of}

abbrev first_code : Text → ℕ
first_code [] = 0
first_code (c ∷ s) = c

-- Any step is allowed.
abbrev pub Anything : Label → Type 0
Anything l = Unit

module _ {D S : Type 0} (db : Dynamo D) (md5 : Text → Text) (r : Repo)
    (encode : Response S → Option Text) (decode : Text → Option (Response S))
    (lanes : Kind → Lane S) (Amends : S → S → Type 0) where
  -- The writes that a request leaves, whatever store it met, at a time in the range of an `int64`.
  abbrev pub Queued : List (Found (Response S)) → Write (Response S) → Type 0
  Queued reads w =
      (kind : Kind) × (st : LaneState S) × (d : D) × (now : ℤ) × (n : ℕ) × InRange now n
      × ((serve db md5 (some r) decode (lanes kind) d now st).1 ≡ some w)

  -- What is stored of a shared section may be what it has been amended to.
  abbrev pub Seen : Response S → Response S → Type 0
  Seen x y =
      (k : Kind) (a : S)
      → section_from_cache k x ≡ some a
      → (b : S) × (section_from_cache k y ≡ some b) × Amends a b

  -- The document has a section that a request's lane crawled, amended or not, under the request's key.
  abbrev pub CrawledBy : Text → Response S → Kind → Type 0
  CrawledBy k doc kind =
      (st : LaneState S) × (sec : S) × (seen : S) × (key_of db md5 r decode (lanes kind) st ≡ k)
      × ((lanes kind).run st ≡ some sec)
      × Amends sec seen
      × (section_from_cache (lanes kind).kind doc ≡ some seen)

  abbrev pub Crawled : Claim (Response S)
  Crawled k doc n = (kind : Kind) × CrawledBy k doc kind
