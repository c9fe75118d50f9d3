-- ===== src/Upi/Sample/Draw.antt =====
-- Which sources a draw gives.
use go_you.Common.{
  ℕ, zero, suc, ◌≤◌, ◌||◌, min, List, [], ◌∷◌, map, Text, eqb, length, contains, contains_iff,
  Bool-cases, In, Distinct, inl, inr, ◌↔◌, ◌≡◌, refl, sym, ap, arith,
}
use go_you.Common.Int.{pos, leb_ℤ}
use go_you.Upi.Model.{SourceConfig}
use go_you.Upi.Sample.{
  FloatOps, next, Keyed, draw_keys, max_idx, swap_head, select_top, dedup_from, dedup_by_name,
  weighted_sample_no_replace,
}

abbrev pub names : List SourceConfig → List Text
names = map (λ s. s.name)

abbrev key_names : List Keyed → List Text
key_names = map (λ k. k.src.name)

-- Without a repeated name nothing is dropped.
dedup_from-Distinct :
    (seen : List Text) (l : List SourceConfig)
    → Distinct (names l)
    → ((t : Text) → In t (names l) → ¬ In t seen)
    → dedup_from seen l ≡ l
unfolding dedup_from
dedup_from-Distinct seen [] d h = refl
dedup_from-Distinct seen (s ∷ rest) (new, d) h = elim (Bool-cases (contains s.name seen)) [
  | inl dup ↦ absurd (h s.name (inl refl) ((contains_iff s.name seen).0 dup))
  | inr fresh ↦ rw fresh (
      ap (◌∷◌ s) (
        dedup_from-Distinct (s.name ∷ seen) rest d
          λ t t_in m. elim m [ inl e ↦ new (rw e t_in) | inr old ↦ h t (inr t_in) old ]))
]

module _ (ops : FloatOps) where
  swap_head-In :
      (i : ℕ) (x : Keyed) (rest : List Keyed) (t : Text)
      → In t (key_names ((swap_head ops i x rest).0 ∷ (swap_head ops i x rest).1))
        ↔ In t (key_names (x ∷ rest))
  unfolding swap_head
  swap_head-In zero x rest t = ground arith
  swap_head-In (suc i) x [] t = ground arith
  swap_head-In (suc zero) x (y ∷ rest) t = ground arith
  swap_head-In (suc (suc i)) x (y ∷ rest) t = ground (arith, swap_head-In (suc i) x rest t)

  length-swap_head :
      (i : ℕ) (x : Keyed) (rest : List Keyed) → length (swap_head ops i x rest).1 ≡ length rest
  unfolding swap_head
  length-swap_head zero x rest = refl
  length-swap_head (suc i) x [] = refl
  length-swap_head (suc zero) x (y ∷ rest) = refl
  length-swap_head (suc (suc i)) x (y ∷ rest) = ap suc (length-swap_head (suc i) x rest)

  swap_head-Distinct :
      (i : ℕ) (x : Keyed) (rest : List Keyed)
      → Distinct (key_names (x ∷ rest))
      → Distinct (key_names ((swap_head ops i x rest).0 ∷ (swap_head ops i x rest).1))
  unfolding swap_head
  swap_head-Distinct zero x rest d = d
  swap_head-Distinct (suc i) x [] d = d
  swap_head-Distinct (suc zero) x (y ∷ rest) (nx, (ny, d)) =
      (λ m. elim m [ inl e ↦ nx (inl (sym e)) | inr later ↦ ny later ], (λ m. nx (inr m), d))
  swap_head-Distinct (suc (suc i)) x (y ∷ rest) (nx, (ny, d)) =
      let (nm, dr) = swap_head-Distinct (suc i) x rest (λ m. nx (inr m), d) in
      let r = swap_head ops (suc i) x rest in
      let same = swap_head-In (suc i) x rest in
      let ny' : ¬ In y.src.name (key_names (r.0 ∷ r.1)) =
        λ m. elim ((same y.src.name).0 m) [ inl e ↦ nx (inl (sym e)) | inr later ↦ ny later ] in
      (λ m. elim m [ inl e ↦ ny' (inl (sym e)) | inr later ↦ nm later ], (λ m. ny' (inr m), dr))

  select_top-In :
      (k : ℕ) (l : List Keyed) (t : Text) → In t (names (select_top ops k l)) → In t (key_names l)
  unfolding select_top
  select_top-In zero l t h = absurd h
  select_top-In (suc k) [] t h = absurd h
  select_top-In (suc k) (x ∷ rest) t h =
      let i = max_idx ops 0 x.key 1 rest in
      (swap_head-In i x rest t).0 (elim h [
        | inl e ↦ inl e
        | inr later ↦ inr (select_top-In k (swap_head ops i x rest).1 t later)
      ])

  select_top-Distinct :
      (k : ℕ) (l : List Keyed) → Distinct (key_names l) → Distinct (names (select_top ops k l))
  unfolding select_top
  select_top-Distinct zero l d = tt
  select_top-Distinct (suc k) [] d = tt
  select_top-Distinct (suc k) (x ∷ rest) d =
      let i = max_idx ops 0 x.key 1 rest in
      let (new, d') = swap_head-Distinct i x rest d in
      let r = swap_head ops i x rest in
      (λ m. new (select_top-In k r.1 r.0.src.name m), select_top-Distinct k r.1 d')

  length-select_top : (k : ℕ) (l : List Keyed) → k ≤ length l → length (select_top ops k l) ≡ k
  unfolding select_top
  length-select_top zero l h = refl
  length-select_top (suc k) [] h = absurd (omega arith)
  length-select_top (suc k) (x ∷ rest) h =
      let i = max_idx ops 0 x.key 1 rest in
      let r = swap_head ops i x rest in
      ap suc (length-select_top k r.1 (omega (arith, length-swap_head i x rest)))

  names-draw_keys : (s : ℕ) (l : List SourceConfig) → key_names (draw_keys ops s l) ≡ names l
  unfolding draw_keys
  names-draw_keys s [] = refl
  names-draw_keys s (x ∷ l) = ap (◌∷◌ x.name) (names-draw_keys (next s) l)

  length-draw_keys : (s : ℕ) (l : List SourceConfig) → length (draw_keys ops s l) ≡ length l
  unfolding draw_keys
  length-draw_keys s [] = refl
  length-draw_keys s (x ∷ l) = ap suc (length-draw_keys (next s) l)

  -- From sources with different names, a draw of `k` has no name twice, only names that were offered,
  -- and `k` of them, or all where there are no more.
  pub weighted_sample-Distinct :
      (sources : List SourceConfig) (k s : ℕ)
      → Distinct (names sources)
      → let drawn = weighted_sample_no_replace ops sources (pos k) s in
        Distinct (names drawn)
        × (length drawn ≡ min k (length sources))
        × ((t : Text) → In t (names drawn) → In t (names sources))
  unfolding weighted_sample_no_replace dedup_by_name
  weighted_sample-Distinct sources k s d =
      let n = length sources in
      let keyed = draw_keys ops s sources in
      let picked = select_top ops k keyed in
      elim (Bool-cases (leb_ℤ (pos k) (pos 0) || eqb n 0)) [
        | inl stop ↦ rw stop (tt, ground arith, λ t h. absurd h)
        | inr more ↦ elim (Bool-cases (leb_ℤ (pos n) (pos k))) [
          | inl all ↦
              rw (more, all, dedup_from-Distinct [] sources d (λ t i m. m))
                (d, ground arith, λ t h. h)
          | inr fewer ↦
              let d' : Distinct (key_names keyed) = rw (names-draw_keys s sources) d in
              let dp = select_top-Distinct k keyed d' in
              rw (more, fewer, dedup_from-Distinct [] picked dp (λ t i m. m))
                (
                  dp,
                  ground (arith, length-select_top k keyed, length-draw_keys s sources),
                  λ t h. rw (← names-draw_keys s sources) (select_top-In k keyed t h),
                )
        ]
      ]
