-- ===== src/PersonaCache/Replay.antt =====
-- What is read back of a document.
use go_you.Common.{
  ℕ, ◌+◌, ◌^◌, ◌<◌, Bool, true, false, ◌&&◌, [], Option, none, some, ◌>>=◌, Text, codes, ◌==◌,
  eq_iff, ◌≡◌, ◌≢◌, ◌∙◌, refl, ap, sym, arith, if◌then◌else◌, leb, ltb,
}
use go_you.Common.Int.{ℤ, pos, ltb_ℤ, leb_ℤ}
use go_you.Common.Maps.{lookup, insert}
use go_you.Dynamo.{
  Item, s_attr, n_attr, Dynamo, IsStore, wrap64, is_expired, missed, hit, read_item, read_doc,
  attr_int,
}
use go_you.PersonaCache.{Repo, ttl_seconds, item_of, get, put}

item-id : (k doc : Text) (now : ℤ) → lookup (codes "id") (item_of k doc now) ≡ some (s_attr k)
unfolding item_of lookup insert ◌==◌
item-id k doc now = refl

item-doc : (k doc : Text) (now : ℤ) → lookup (codes "doc") (item_of k doc now) ≡ some (s_attr doc)
unfolding item_of lookup insert ◌==◌
item-doc k doc now = refl

item-ttl :
    (k doc : Text) (now : ℕ)
    → now + ttl_seconds < 2 ^ 63
    → lookup (codes "ttl") (item_of k doc (pos now))
      ≡ some (n_attr (some (pos (now + ttl_seconds))))
unfolding item_of lookup insert ◌==◌ wrap64
item-ttl k doc now h =
    let small : ltb (now + ttl_seconds) (2 ^ 63) ≡ true = ground arith in
    ap (λ n. some (n_attr (some n))) (ground arith)

expired-item :
    (k doc : Text) (written now : ℕ)
    → written + ttl_seconds < 2 ^ 63
    → is_expired (pos now) (item_of k doc (pos written)) ≡ leb (written + ttl_seconds) now
unfolding is_expired
expired-item k doc written now h =
    ap
      (λ o. elim (attr_int o) [
        | none ↦ false
        | some ttl ↦ ltb_ℤ (pos 0) ttl && leb_ℤ ttl (pos now)
      ])
      (item-ttl k doc written h)
    ∙ ground arith

-- The answer of a read that finds an item with a document.
pub read-item :
    {D : Type 0} (decode : Text → Option D) (item : Item) (doc : Text) (d : D) (now : ℤ)
    (expired : Bool)
    → is_expired now item ≡ expired
    → lookup (codes "doc") item ≡ some (s_attr doc)
    → doc ≢ []
    → decode doc ≡ some d
    → read_item decode now (some (some item)) ≡ (if expired then missed else hit d)
unfolding read_item read_doc
read-item decode item doc d now true e found filled round = rw e refl
read-item decode item doc d now false e found filled round =
    let full : (doc == []) ≡ false = ground (arith, eq_iff doc []) in
    rw (e, found, full, round) refl

-- A document that is written under a key is read back under it until 15 days later, by the second,
-- and missed from then on; nothing is changed under any other key. The database keeps what is put
-- into it, the document's encoding is not empty and decodes to the document, and the expiry is in
-- the range of an `int64`.
pub get-put :
    {S D : Type 0} (db : Dynamo S) (r : Repo) (encode : D → Option Text) (decode : Text → Option D)
    (s : S) (k doc : Text) (d : D) (written now : ℕ) (t : S)
    → IsStore db
    → encode d ≡ some doc
    → doc ≢ []
    → decode doc ≡ some d
    → written + ttl_seconds < 2 ^ 63
    → put db (some r) encode s k (some d) (pos written) ≡ some t
    → (get db (some r) decode t k (pos now)
        ≡ (if ltb now (written + ttl_seconds) then hit d else missed))
      × ((other : Text)
          → (k == other) ≡ false
          → get db (some r) decode t other (pos now) ≡ get db (some r) decode s other (pos now))
unfolding get put
get-put db r encode decode s k doc d written now t store encoded filled round range stored =
    let stored' : db.put_item s r.table (item_of k doc (pos written)) ≡ some t =
      ap (λ o. o >>= λ x. db.put_item s r.table (item_of k x (pos written))) (sym encoded)
      ∙ stored in
    let id_is = item-id k doc (pos written) in
    (
      ap (read_item decode (pos now)) (store.reads_back s t r.table k _ id_is stored')
          ∙ read-item decode (item_of k doc (pos written)) doc d (pos now) _
              (expired-item k doc written now range) (item-doc k doc (pos written)) filled round
          ∙ ground arith,
      λ other differs.
          ap (read_item decode (pos now))
            (store.keeps_others s t r.table k other _ id_is stored' differs),
    )
