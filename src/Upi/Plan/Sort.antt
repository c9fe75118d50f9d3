-- ===== src/Upi/Plan/Sort.antt =====
-- The sort of the suffixes by priority.
use go_you.Common.{List, [], ◌∷◌, keep, ◌≡◌, ◌∙◌, refl, arith, All, Bool-cases, inl, inr}
use go_you.Common.Int.{ℤ, ◌≤ℤ◌, ltb_ℤ}
use go_you.Upi.Model.{SuffixEntry}
use go_you.Upi.Aggregate.{eqb_ℤ}
use go_you.Upi.Plan.{insert_by_priority, sort_suffixes_by_priority_desc}

-- No entry stands behind one of a lower priority.
abbrev pub Descending : List SuffixEntry → Type 0
Descending [] = Unit
Descending (e ∷ es) = All (λ x. x.priority ≤ℤ e.priority) es × Descending es

abbrev at_priority : ℤ → List SuffixEntry → List SuffixEntry
at_priority p = keep (λ e. eqb_ℤ e.priority p)

All-insert :
    (q : ℤ) (e : SuffixEntry) (es : List SuffixEntry)
    → e.priority ≤ℤ q
    → All (λ x. x.priority ≤ℤ q) es
    → All (λ x. x.priority ≤ℤ q) (insert_by_priority e es)
unfolding insert_by_priority
All-insert q e [] h hs = (h, tt)
All-insert q e (x ∷ xs) h (hx, hs) = ground (arith, All-insert q e xs h hs)

All-weaken :
    (p q : ℤ) (es : List SuffixEntry)
    → p ≤ℤ q
    → All (λ x. x.priority ≤ℤ p) es
    → All (λ x. x.priority ≤ℤ q) es
All-weaken p q [] h hs = tt
All-weaken p q (x ∷ xs) h (hx, hs) = (omega arith, All-weaken p q xs h hs)

insert-Descending :
    (e : SuffixEntry) (es : List SuffixEntry) → Descending es → Descending (insert_by_priority e es)
unfolding insert_by_priority
insert-Descending e [] h = (tt, tt)
insert-Descending e (x ∷ xs) (top, h) = elim (Bool-cases (ltb_ℤ e.priority x.priority)) [
  | inl below ↦
      rw (below, Descending)
        (All-insert x.priority e xs (ground arith) top, insert-Descending e xs h)
  | inr above ↦
      let le : x.priority ≤ℤ e.priority = ground arith in
      rw (above, Descending) ((le, All-weaken x.priority e.priority xs le top), (top, h))
]

at_priority-insert :
    (p : ℤ) (e : SuffixEntry) (es : List SuffixEntry)
    → at_priority p (insert_by_priority e es) ≡ at_priority p (e ∷ es)
unfolding insert_by_priority
at_priority-insert p e [] = refl
at_priority-insert p e (x ∷ xs) = ground (arith, at_priority-insert p e xs)

-- The sort of the suffix entries leaves no entry behind one of a lower priority, and it keeps, at
-- each priority, exactly the entries of that priority in their configured order: nothing is lost or
-- added, and ties stay as configured.
pub sort_suffixes_by_priority_desc-Descending :
    (es : List SuffixEntry)
    → Descending (sort_suffixes_by_priority_desc es)
      × ((p : ℤ)
          → keep (λ e. eqb_ℤ e.priority p) (sort_suffixes_by_priority_desc es)
            ≡ keep (λ e. eqb_ℤ e.priority p) es)
unfolding sort_suffixes_by_priority_desc
sort_suffixes_by_priority_desc-Descending [] = (tt, λ p. refl)
sort_suffixes_by_priority_desc-Descending (e ∷ es) =
    let (sorted, same) = sort_suffixes_by_priority_desc-Descending es in
    (
      insert-Descending e (sort_suffixes_by_priority_desc es) sorted,
      λ p. at_priority-insert p e (sort_suffixes_by_priority_desc es) ∙ grind (arith, same p),
    )
