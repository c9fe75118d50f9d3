-- ===== src/PersonaCache/Keys.antt =====
-- Which requests share a key.
use go_you.Common.{
  true, [], ◌∷◌, ◌++◌, some, Text, codes, ◌==◌, ◌≡◌, ◌∙◌, refl, ap, sym, length-append, ◌+◌, arith,
  length, ◌↔◌,
}
use go_you.PersonaCache.{Repo, tenant_part, key, enrich_key}

append-split :
    (xs ys us vs : Text) → length xs ≡ length ys → xs ++ us ≡ ys ++ vs → (xs ≡ ys) × (us ≡ vs)
append-split [] [] us vs len h = (refl, h)
append-split [] (y ∷ ys) us vs len h = absurd (omega arith)
append-split (x ∷ xs) [] us vs len h = absurd (omega arith)
append-split (x ∷ xs) (y ∷ ys) us vs len h =
    let tails : xs ++ us ≡ ys ++ vs = ground arith in
    let (same, rest) = append-split xs ys us vs (omega arith) tails in (ground arith, rest)

tenant_part-injective : (t u : Text) → tenant_part t ≡ tenant_part u → t ≡ u
unfolding ◌==◌
tenant_part-injective [] [] h = refl
tenant_part-injective [] (c ∷ u) h = absurd (ground arith)
tenant_part-injective (c ∷ t) [] h = absurd (ground arith)
tenant_part-injective (c ∷ t) (d ∷ u) h =
    (append-split (codes ":_") (codes ":_") (c ∷ t) (d ∷ u) refl h).1

-- With the hashed form of the key, two requests for one kind share a key exactly where their login
-- ids have the same hash and their tenants are the same, where hashes have one length: no tenant's
-- name makes a key run into another's.
pub key-injective :
    (md5 : Text → Text) (r : Repo) (kind a b t u : Text)
    → ((x y : Text) → length (md5 x) ≡ length (md5 y))
    → r.hashing_compliant ≡ true
    → (key md5 (some r) kind a t ≡ key md5 (some r) kind b u) ↔ ((md5 a ≡ md5 b) × (t ≡ u))
unfolding key
key-injective md5 r kind a b t u one_length hashed = rw hashed (
  λ h.
      let head : Text → Text = λ x. kind ++ codes ":" ++ md5 x in
      let len : length (head a) ≡ length (head b) =
        length-append (kind ++ codes ":") (md5 a)
        ∙ ap (λ n. length (kind ++ codes ":") + n) (one_length a b)
        ∙ sym (length-append (kind ++ codes ":") (md5 b)) in
      let (heads, tenants) = append-split (head a) (head b) (tenant_part t) (tenant_part u) len h in
      (
        (append-split (kind ++ codes ":") (kind ++ codes ":") (md5 a) (md5 b) refl heads).1,
        tenant_part-injective t u tenants,
      ),
  λ (ids, tenants).
      ap (λ i. kind ++ codes ":" ++ i ++ tenant_part t) ids
      ∙ ap (λ w. kind ++ codes ":" ++ md5 b ++ tenant_part w) tenants,
)

-- An enrich key does not tell an email from a name: a request without a name and one without an email
-- share the key where the name of the one is the email of the other, whatever the hash.
pub enrich_key-collides :
    (md5 : Text → Text) (phone x : Text) → enrich_key md5 phone x [] ≡ enrich_key md5 phone [] x
unfolding enrich_key ◌==◌
enrich_key-collides md5 phone x = refl
