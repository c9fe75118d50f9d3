-- ===== src/Handler/Transform/Meta.antt =====
-- What the strip of the scores leaves.
use go_you.Common.{true, none, some, Text, codes, ◌==◌, ◌≡◌, inl, inr, refl, sym, ap, ◌∙◌}
use mathlib.Core.Path.{subst}
use go_you.Json.{Fields, get, as_map, update_map}
use go_you.Json.Laws.{get-update_map_other, get-delete_self, update_map-made}
use go_you.Handler.Clean.{remove_fields}
use go_you.Handler.Clean.Removed.{lacks_fields, lacks-delete, remove_fields-lacks}
use go_you.Handler.Transform.{strip, strip_score, cleanup_meta}
use go_you.Handler.Transform.Cleanup.{IsSectionKey}

-- The scores of the holder's intelligence data have no "meta" at any depth, and no
-- "reverse_model_list" at their top.
abbrev pub Stripped : Fields → Type 0
Stripped holder =
    (id score : Fields)
    → as_map (get (codes "intelligence_data") holder) ≡ some id
    → as_map (get (codes "score") id) ≡ some score
    → (lacks_fields (codes "meta") score ≡ true) × (get (codes "reverse_model_list") score ≡ none)

strip_score-lacks :
    (s score : Fields)
    → strip_score s ≡ score
    → (lacks_fields (codes "meta") score ≡ true) × (get (codes "reverse_model_list") score ≡ none)
strip_score-lacks s score e = rw (← e) (
  lacks-delete (codes "reverse_model_list") (codes "meta") (remove_fields (codes "meta") s)
      (remove_fields-lacks (codes "meta") s),
  get-delete_self (codes "reverse_model_list") (remove_fields (codes "meta") s),
)

strip-Stripped : (holder : Fields) → Stripped (strip holder)
unfolding strip
strip-Stripped holder id score id_there score_there =
    let (o, _, made) = update_map-made (codes "intelligence_data") _ holder id id_there in
    let (s, _, e) =
      update_map-made (codes "score") strip_score o score
        (ap (λ (x : Fields). as_map (get (codes "score") x)) made ∙ score_there) in
    strip_score-lacks s score e

Stripped-same :
    (m n : Fields)
    → get (codes "intelligence_data") n ≡ get (codes "intelligence_data") m
    → Stripped m
    → Stripped n
Stripped-same m n e h id score id_there = h id score (ap as_map (sym e) ∙ id_there)

section_of_strip :
    (k : Text) (m sec : Fields) → as_map (get k (update_map k strip m)) ≡ some sec → Stripped sec
section_of_strip k m sec there =
    let (o, _, e) = update_map-made k strip m sec there in
    subst (λ (x : Fields). Stripped x) e (strip-Stripped o)

-- Behind the cleanup, the scores in the response's intelligence data and in those of both sections
-- have no "meta" at any depth and no "reverse_model_list" at their top.
pub cleanup_meta-Stripped :
    (out : Fields)
    → Stripped (cleanup_meta out)
      × ((k : Text) (sec : Fields)
          → IsSectionKey k
          → as_map (get k (cleanup_meta out)) ≡ some sec
          → Stripped sec)
unfolding cleanup_meta ◌==◌
cleanup_meta-Stripped out = (
  Stripped-same (strip out) _
      (get-update_map_other (codes "intelligence_data") (codes "email_data") strip _ refl
        ∙ get-update_map_other (codes "intelligence_data") (codes "phone_data") strip _ refl)
      (strip-Stripped out),
  λ k sec key there. elim key [
    | inl phone ↦ section_of_strip (codes "phone_data") (strip out) sec (
        sym
          (ap as_map (get-update_map_other (codes "phone_data") (codes "email_data") strip _ refl))
        ∙ ap (λ (j : Text). as_map (get j (cleanup_meta out))) (sym phone)
        ∙ there)
    | inr email ↦
        section_of_strip (codes "email_data") _ sec
          (ap (λ (j : Text). as_map (get j (cleanup_meta out))) (sym email) ∙ there)
  ],
)
