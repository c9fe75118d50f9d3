-- ===== src/Upi/Split/Chunks.antt =====
-- The lengths and the contents of the chunks of a list.
use native.Mathlib.Nat.{div-add-mod, mod-lt}
use go_you.Common.{
  ℕ, zero, suc, ◌+◌, ◌-◌, ◌*◌, ◌/◌, ◌%◌, ◌≤◌, ◌<◌, List, ◌++◌, Text, length, take, drop, concat,
  take-append-drop, drop-drop, drop_all, length-take, length-drop, eqb, false, All, ◌≡◌, refl, sym,
  ap, ◌∙◌, arith,
}
use go_you.Upi.Split.{slice, bound, split_from, split_list}

bound_step :
    (k m i : ℕ) → (bound k m i + k ≤ bound k m (i + 1)) × (bound k m (i + 1) ≤ bound k m i + k + 1)
unfolding bound
bound_step k m i = grind arith

bound_first : (k m : ℕ) → bound k m 0 ≡ 0
unfolding bound
bound_first k m = omega arith

slice-append-drop : (a : List Text) (s e : ℕ) → s ≤ e → slice a s e ++ drop e a ≡ drop s a
unfolding slice
slice-append-drop a s e h =
    let eq : s + (e - s) ≡ e = omega arith in
    ap (λ n. take (e - s) (drop s a) ++ n)
      (ap (λ k. drop k a) (sym eq) ∙ sym (drop-drop (e - s) s a))
    ∙ take-append-drop (e - s) (drop s a)

module _ (a : List Text) (k m n : ℕ) (total : n * k + m ≡ length a) (small : m < n) where
  bound_last : bound k m n ≡ length a
  unfolding bound
  bound_last = omega arith

  -- From chunk `i` on, the chunks hold what follows the bound of chunk `i`.
  concat-split_from : (r i : ℕ) → i + r ≡ n → concat (split_from a k m i r) ≡ drop (bound k m i) a
  unfolding split_from
  concat-split_from zero i h =
      let e : i ≡ n = omega arith in
      sym (drop_all (bound k m i) a (omega (arith, ap (bound k m) e, bound_last)))
  concat-split_from (suc r) i h =
      ap (λ l. slice a (bound k m i) (bound k m (i + 1)) ++ l)
        (concat-split_from r (i + 1) (omega arith))
      ∙ slice-append-drop a (bound k m i) (bound k m (i + 1)) (omega (arith, bound_step k m i))

  bound_mono : (r i : ℕ) → i + r ≡ n → bound k m i ≤ length a
  bound_mono zero i h = let e : i ≡ n = omega arith in omega (arith, ap (bound k m) e, bound_last)
  bound_mono (suc r) i h = omega (arith, bound_mono r (i + 1), bound_step k m i)

  split_from-sizes :
      (r i : ℕ) → i + r ≡ n → All (λ c. (k ≤ length c) × (length c ≤ k + 1)) (split_from a k m i r)
  unfolding split_from slice
  split_from-sizes zero i h = tt
  split_from-sizes (suc r) i h =
      let s = bound k m i in
      let e = bound k m (i + 1) in
      (
        omega (
          arith,
          length-take (e - s) (drop s a),
          length-drop s a,
          bound_step k m i,
          bound_mono r (i + 1) (omega arith),
        ),
        split_from-sizes r (i + 1) (omega arith),
      )

length-split_from : (a : List Text) (k m r i : ℕ) → length (split_from a k m i r) ≡ r
unfolding split_from
length-split_from a k m zero i = refl
length-split_from a k m (suc r) i = ap suc (length-split_from a k m r (i + 1))

-- Splitting a list into a positive number of chunks gives that many chunks; put together in order
-- they are the list; and each has the rounded-down average size or one element more.
pub split_list-concat :
    (a : List Text) (n : ℕ)
    → 0 < n
    → (length (split_list a n) ≡ n)
      × (concat (split_list a n) ≡ a)
      × All (λ c. (length a / n ≤ length c) × (length c ≤ length a / n + 1)) (split_list a n)
unfolding split_list
split_list-concat a n h =
    let k = length a / n in
    let m = length a % n in
    let total : n * k + m ≡ length a = div-add-mod (length a) n in
    let small : m < n = mod-lt (length a) h in
    let more : eqb n 0 ≡ false = ground arith in
    rw more (
      length-split_from a k m n 0,
      concat-split_from a k m n total small n 0 (omega arith)
          ∙ ap (λ j. drop j a) (bound_first k m),
      split_from-sizes a k m n total small n 0 (omega arith),
    )
