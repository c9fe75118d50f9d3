-- ===== src/Dynamo.antt =====
-- The DynamoDB items that internal/personacache and internal/metacache read and write. The client is a
-- parameter. A number attribute is carried as what `strconv.ParseInt` reads out of it.
use go_you.Common.{
  ◌-◌, ◌^◌, Bool, false, ◌&&◌, [], Option, none, some, Text, codes, ◌==◌, ltb, if◌then◌else◌, ◌≡◌,
}
use go_you.Common.Int.{ℤ, pos, negsuc, ltb_ℤ, leb_ℤ}
use go_you.Common.Maps.{Dict, lookup}

pub data Attr : Type 0 where
  s_attr : Text → Attr
  n_attr : Option ℤ → Attr

abbrev pub Item : Type 0
Item = Dict Attr

-- `GetItem` and `PutItem` on a database in the state `S`; an error is `none`.
pub record Dynamo (S : Type 0) : Type 0 where
  pub get_item : S → Text → Text → Option (Option Item)
  pub put_item : S → Text → Item → Option S

-- What is assumed of the database: behind a write the item is read back under its key, and no other is
-- changed. DynamoDB gives this of a consistent read; the code asks for eventually consistent ones, which
-- agree with it once the copies of the item have caught up.
pub record IsStore {S : Type 0} (db : Dynamo S) : Type 0 where
  pub reads_back :
      (s t : S) (table key : Text) (item : Item)
      → lookup (codes "id") item ≡ some (s_attr key)
      → db.put_item s table item ≡ some t
      → db.get_item t table key ≡ some (some item)
  pub keeps_others :
      (s t : S) (table key other : Text) (item : Item)
      → lookup (codes "id") item ≡ some (s_attr key)
      → db.put_item s table item ≡ some t
      → (key == other) ≡ false
      → db.get_item t table other ≡ db.get_item s table other

abbrev pub attr_str : Option Attr → Option Text
attr_str (some (s_attr t)) = some t
attr_str _ = none

abbrev pub attr_int : Option Attr → Option ℤ
attr_int (some (n_attr n)) = n
attr_int _ = none

-- The value of a signed 64-bit sum that is not below the range.
unfoldable pub wrap64 : ℤ → ℤ
wrap64 (negsuc n) = negsuc n
wrap64 (pos n) = if ltb n (2 ^ 63) then pos n else negsuc (2 ^ 64 - n - 1)

-- `ttl > 0 && now >= ttl`, where the item has a time to live.
unfoldable pub is_expired : ℤ → Item → Bool
is_expired now item = elim (attr_int (lookup (codes "ttl") item)) [
  | none ↦ false
  | some ttl ↦ ltb_ℤ (pos 0) ttl && leb_ℤ ttl now
]

-- What a read answers: a miss, an error or a hit.
pub data Read (D : Type 0) : Type 0 where
  missed broken : Read D
  hit : D → Read D

abbrev pub decoded : {D : Type 0} → Option D → Read D
decoded none = broken
decoded (some d) = hit d

unfoldable pub read_doc : {D : Type 0} → (Text → Option D) → Option Text → Read D
read_doc decode none = missed
read_doc decode (some doc) = if doc == [] then missed else decoded (decode doc)

unfoldable pub read_item : {D : Type 0} → (Text → Option D) → ℤ → Option (Option Item) → Read D
unfolding read_doc
read_item decode now none = broken
read_item decode now (some none) = missed
read_item decode now (some (some item)) =
    if is_expired now item then missed else read_doc decode (attr_str (lookup (codes "doc") item))
