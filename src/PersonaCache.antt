-- ===== src/PersonaCache.antt =====
-- internal/personacache/personacache.go: the cache of crawled personas and of enrich documents. MD5 and
-- the gzip and base64 encoding of JSON are parameters; a nil `*Repo` is `none`; logs are left out.
pub mod Keys
pub mod Replay
pub mod WriteBack
use go_you.Common.{
  ℕ, Bool, true, false, List, [], ◌∷◌, ◌++◌, Option, none, some, ◌>>=◌, Text, codes, ◌==◌,
  if◌then◌else◌, not,
}
use go_you.Common.Int.{ℤ, pos, ◌+ℤ◌}
use go_you.Common.Maps.{Dict, lookup, insert}
use go_you.Dynamo.{Attr, Item, s_attr, n_attr, Dynamo, wrap64, Read, missed, read_item}

pub record Repo : Type 0 where
  pub table : Text
  pub hashing_compliant : Bool

-- `New`: no client or no table disables the cache.
unfoldable pub new_repo : Bool → Text → Option Repo
new_repo has_client table =
    if has_client
    then (if table == [] then none else some (record { table = table; hashing_compliant = true }))
    else none

abbrev pub ttl_seconds : ℕ
ttl_seconds = 1296000

abbrev tenant_part : Text → Text
tenant_part tenant = if tenant == [] then [] else codes ":_" ++ tenant

abbrev cons_part : Text → List Text → List Text
cons_part part parts = if part == [] then parts else part ∷ parts

-- `strings.Join(parts, ":")`
unfoldable pub join : List Text → Text
join [] = []
join (part ∷ []) = part
join (part ∷ next ∷ parts) = part ++ codes ":" ++ join (next ∷ parts)

module _ (md5 : Text → Text) where
  abbrev cache_id : Option Repo → Text → Text
  cache_id none login_id = login_id
  cache_id (some r) login_id = if r.hashing_compliant then md5 login_id else login_id

  unfoldable pub key : Option Repo → Text → Text → Text → Text
  key r kind login_id tenant = kind ++ codes ":" ++ cache_id r login_id ++ tenant_part tenant

  unfoldable pub enrich_key : Text → Text → Text → Text
  unfolding join
  enrich_key phone email name = md5 (join (cons_part phone (cons_part email (cons_part name []))))

-- The item of one document.
unfoldable pub item_of : Text → Text → ℤ → Item
unfolding wrap64
item_of k doc now = insert (codes "timestamp") (n_attr (some now)) (
    insert (codes "ttl") (n_attr (some (wrap64 (now +ℤ pos ttl_seconds)))) (
      insert (codes "created") (n_attr (some now))
        (insert (codes "doc") (s_attr doc) (insert (codes "id") (s_attr k) []))))

module _ {S D : Type 0} (db : Dynamo S) where
  -- `Get`
  unfoldable pub get : Option Repo → (Text → Option D) → S → Text → ℤ → Read D
  unfolding read_item
  get none decode s k now = missed
  get (some r) decode s k now = read_item decode now (db.get_item s r.table k)

  -- `Put`; a nil response is `none`. An error is `none`, and leaves the database as it was.
  unfoldable pub put : Option Repo → (D → Option Text) → S → Text → Option D → ℤ → Option S
  unfolding item_of
  put none encode s k resp now = some s
  put (some r) encode s k none now = some s
  put (some r) encode s k (some d) now =
      encode d >>= λ doc. db.put_item s r.table (item_of k doc now)

  -- `GetDoc`
  unfoldable pub get_doc : Option Repo → (Text → Option D) → S → Text → ℤ → Read D
  unfolding get
  get_doc r decode s k now = if k == [] then missed else get r decode s k now

  -- `PutDoc`, with the test for an empty document.
  unfoldable pub put_doc :
      Option Repo → (D → Bool) → (D → Option Text) → S → Text → D → ℤ → Option S
  unfolding put
  put_doc r is_empty encode s k d now =
      if k == [] then some s else if is_empty d then some s else put r encode s k (some d) now
