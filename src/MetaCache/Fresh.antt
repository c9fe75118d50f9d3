-- ===== src/MetaCache/Fresh.antt =====
-- What is read back of the metadata of an id.
use go_you.Common.{
  ℕ, ◌+◌, ◌^◌, ◌<◌, true, false, ◌&&◌, [], Option, none, some, ◌>>=◌, Text, codes, ◌==◌, eq_iff,
  ◌≡◌, ◌≢◌, ◌∙◌, refl, ap, sym, arith, if◌then◌else◌, if-false, leb, ltb,
}
use go_you.Common.Int.{ℤ, pos, ltb_ℤ, leb_ℤ}
use go_you.Common.Maps.{lookup, insert}
use go_you.Dynamo.{
  s_attr, n_attr, attr_int, Dynamo, IsStore, wrap64, is_expired, missed, hit, read_item,
}
use go_you.PersonaCache.Replay.{read-item}
use go_you.MetaCache.{Repo, ttl_seconds, item_of, get, put}

item-ttl :
    (k raw : Text) (now : ℕ)
    → now + ttl_seconds < 2 ^ 63
    → lookup (codes "ttl") (item_of k raw (pos now))
      ≡ some (n_attr (some (pos (now + ttl_seconds))))
unfolding item_of lookup insert ◌==◌ wrap64
item-ttl k raw now h =
    let small : ltb (now + ttl_seconds) (2 ^ 63) ≡ true = ground arith in
    ap (λ n. some (n_attr (some n))) (ground arith)

item-id : (k raw : Text) (now : ℤ) → lookup (codes "id") (item_of k raw now) ≡ some (s_attr k)
unfolding item_of lookup insert ◌==◌
item-id k raw now = refl

item-doc : (k raw : Text) (now : ℤ) → lookup (codes "doc") (item_of k raw now) ≡ some (s_attr raw)
unfolding item_of lookup insert ◌==◌
item-doc k raw now = refl

expired-item :
    (k raw : Text) (written now : ℕ)
    → written + ttl_seconds < 2 ^ 63
    → is_expired (pos now) (item_of k raw (pos written)) ≡ leb (written + ttl_seconds) now
unfolding is_expired
expired-item k raw written now h =
    ap
      (λ o. elim (attr_int o) [
        | none ↦ false
        | some ttl ↦ ltb_ℤ (pos 0) ttl && leb_ℤ ttl (pos now)
      ])
      (item-ttl k raw written h)
    ∙ ground arith

-- The metadata written for an id is read back, as it was marshalled, until two days later, by the
-- second, and missed from then on; and what is read for an id with another hash stays as it was. The
-- database keeps what is put into it, the id and the marshalled text are not empty, and the expiry
-- is in the range of an `int64`.
pub get-put_meta :
    {S D : Type 0} (db : Dynamo S) (md5 : Text → Text) (r : Repo) (marshal : D → Option Text)
    (s t : S) (id raw : Text) (d : D) (written now : ℕ)
    → IsStore db
    → marshal d ≡ some raw
    → raw ≢ []
    → id ≢ []
    → written + ttl_seconds < 2 ^ 63
    → put db md5 (some r) marshal s id (some d) (pos written) ≡ some t
    → (get db md5 (some r) t id (pos now)
        ≡ (if ltb now (written + ttl_seconds) then hit raw else missed))
      × ((other : Text)
          → (md5 id == md5 other) ≡ false
          → get db md5 (some r) t other (pos now) ≡ get db md5 (some r) s other (pos now))
unfolding get put
get-put_meta db md5 r marshal s t id raw d written now store marshalled filled named range stored =
    let full : (id == []) ≡ false = ground (arith, eq_iff id []) in
    let stored' : db.put_item s r.table (item_of (md5 id) raw (pos written)) ≡ some t =
      ap (λ o. o >>= λ x. db.put_item s r.table (item_of (md5 id) x (pos written))) (sym marshalled)
      ∙ sym (if-false _ _ _ full)
      ∙ stored in
    let id_is = item-id (md5 id) raw (pos written) in
    (
      if-false _ _ _ full
          ∙ ap (read_item some (pos now)) (store.reads_back s t r.table (md5 id) _ id_is stored')
          ∙ read-item some (item_of (md5 id) raw (pos written)) raw raw (pos now) _
              (expired-item (md5 id) raw written now range) (item-doc (md5 id) raw (pos written))
              filled refl
          ∙ ground arith,
      λ other differs.
          ap (λ o. if other == [] then missed else read_item some (pos now) o)
            (store.keeps_others s t r.table (md5 id) (md5 other) _ id_is stored' differs),
    )
