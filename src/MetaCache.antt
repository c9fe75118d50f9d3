-- ===== src/MetaCache.antt =====
-- internal/metacache/metacache.go: the cache of phone and e-mail metadata. The marshalled JSON is kept as
-- it is; MD5 and the marshalling are parameters; a nil `*Repo` is `none`; logs are left out.
pub mod Fresh
use go_you.Common.{
  ℕ, Bool, true, false, List, [], ◌∷◌, Option, none, some, ◌>>=◌, Text, codes, ◌==◌, if◌then◌else◌,
}
use go_you.Common.Int.{ℤ, pos, ◌+ℤ◌}
use go_you.Common.Maps.{insert}
use go_you.Dynamo.{Item, s_attr, n_attr, Dynamo, wrap64, Read, missed, read_item}

pub record Repo : Type 0 where
  pub table : Text

-- `New`: no client or no table disables the cache.
unfoldable pub new_repo : Bool → Text → Option Repo
new_repo has_client table =
    if has_client then (if table == [] then none else some (record { table = table })) else none

abbrev pub ttl_seconds : ℕ
ttl_seconds = 172800

unfoldable pub item_of : Text → Text → ℤ → Item
unfolding wrap64
item_of k raw now =
    insert (codes "ttl") (n_attr (some (wrap64 (now +ℤ pos ttl_seconds))))
      (insert (codes "doc") (s_attr raw) (insert (codes "id") (s_attr k) []))

module _ {S : Type 0} (db : Dynamo S) (md5 : Text → Text) where
  -- `Get`: the stored JSON, to be decoded by the caller.
  unfoldable pub get : Option Repo → S → Text → ℤ → Read Text
  unfolding read_item
  get none s id now = missed
  get (some r) s id now =
      if id == [] then missed else read_item some now (db.get_item s r.table (md5 id))

  -- `Put`; a nil document is `none`, and an error is `none`.
  unfoldable pub put :
      {D : Type 0} → Option Repo → (D → Option Text) → S → Text → Option D → ℤ → Option S
  unfolding item_of
  put none marshal s id doc now = some s
  put (some r) marshal s id none now = some s
  put (some r) marshal s id (some d) now =
      if id == []
      then some s
      else (marshal d >>= λ raw. db.put_item s r.table (item_of (md5 id) raw now))
