-- ===== src/Upi/Plan/Sets.antt =====
-- How the sources of a phase are ordered and counted.
use go_you.Common.{
  ◌+◌, ◌-◌, Bool, not, List, [], ◌∷◌, ◌++◌, keep, ◌≡◌, refl, arith, In, length, length-append,
  concat, ◌↔◌, inl, inr, In-append, sym,
}
use mathlib.Core.Path.{subst}
use go_you.Upi.Model.{SourceConfig}
use go_you.Upi.Plan.{is_common_in, order_common_first, count_common}

abbrev pub commons : List SourceConfig → Bool → List SourceConfig
commons sources enriched = keep (is_common_in enriched) sources

abbrev pub others : List SourceConfig → Bool → List SourceConfig
others sources enriched = keep (λ s. not (is_common_in enriched s)) sources

count_common-length :
    (sources : List SourceConfig) (enriched : Bool)
    → count_common sources enriched ≡ length (commons sources enriched)
unfolding count_common
count_common-length [] e = refl
count_common-length (s ∷ rest) e = ground (arith, count_common-length rest e)

count_common-append :
    (xs ys : List SourceConfig) (e : Bool)
    → count_common (xs ++ ys) e ≡ count_common xs e + count_common ys e
unfolding count_common
count_common-append [] ys e = omega arith
count_common-append (s ∷ xs) ys e = ground (arith, count_common-append xs ys e)

count_common-commons :
    (sources : List SourceConfig) (e : Bool)
    → count_common (commons sources e) e ≡ length (commons sources e)
unfolding count_common
count_common-commons [] e = refl
count_common-commons (s ∷ rest) e = ground (arith, count_common-commons rest e)

count_common-others :
    (sources : List SourceConfig) (e : Bool) → count_common (others sources e) e ≡ 0
unfolding count_common
count_common-others [] e = refl
count_common-others (s ∷ rest) e = ground (arith, count_common-others rest e)

-- Behind the ordering, the count is that of the common part and the rest that of the other.
pub count_common-order_common_first :
    (sources : List SourceConfig) (e : Bool)
    → (count_common (order_common_first sources e) e ≡ length (commons sources e))
      × (length (order_common_first sources e) - count_common (order_common_first sources e) e
          ≡ length (others sources e))
unfolding order_common_first
count_common-order_common_first sources e =
    let total = length-append (commons sources e) (others sources e) in
    let split = count_common-append (commons sources e) (others sources e) e in
    let left = count_common-commons sources e in
    let right = count_common-others sources e in (omega arith, omega arith)

pub In-concat :
    {A : Type 0} (x : A) (xss : List (List A))
    → In x (concat xss) ↔ ((xs : List A) × In xs xss × In x xs)
In-concat x [] = (λ h. absurd h, λ (xs, h, _). absurd h)
In-concat x (ys ∷ yss) = (
  λ h. elim ((In-append x ys (concat yss)).0 h) [
    | inl here ↦ (ys, inl refl, here)
    | inr later ↦ let (xs, xs_in, x_in) = (In-concat x yss).0 later in (xs, inr xs_in, x_in)
  ],
  λ (xs, h, x_in). (In-append x ys (concat yss)).1 (elim h [
    | inl same ↦ inl (subst (λ l. In x l) (sym same) x_in)
    | inr later ↦ inr ((In-concat x yss).1 (xs, later, x_in))
  ]),
)
