-- ===== src/Upi/Aggregate/Winner.antt =====
-- Which true profile `aggProfile` lets win.
use go_you.Common.{
  List, [], ◌∷◌, map, some, Text, ◌==◌, eq_iff, contains, contains_iff, In, In-keep, inl, inr, ◌↔◌,
  ◌≡◌, ◌≢◌, refl, sym, ap, ◌∙◌, arith, or_if_empty,
}
use go_you.Common.Int.{pos, ◌≤ℤ◌}
use go_you.Upi.Model.{Profile, SuffixEntry, SourceConfig}
use go_you.Upi.Aggregate.{candidates, suffix_keys, common_suffix_list, max_suffix, pick_winner}
use go_you.Upi.Aggregate.Lists.{
  first_sound, first_complete, In-suffix_keys, suffix_keys-In, In-candidates, In_or,
  max_suffix_best,
}

-- Go visits each key of a map, and nothing else.
abbrev pub IsKeyOrder : (List Text → List Text) → Type 0
IsKeyOrder order = (keys : List Text) (t : Text) → In t (order keys) ↔ In t keys

-- The suffix names an entry of the list whose priority no entry exceeds.
abbrev pub IsBest : List SuffixEntry → Text → Type 0
IsBest list suffix =
    (se : SuffixEntry) × In se list
    × (se.name ≡ suffix)
    × ((other : SuffixEntry) → In other list → other.priority ≤ℤ se.priority)

abbrev Covers : List Profile → List SuffixEntry → Type 0
Covers ps list = (se : SuffixEntry) → In se list → (p : Profile) × In p ps × (p.suffix ≡ se.name)

pub pick_winner-IsBest :
    (list : List SuffixEntry) (true_pr : List Profile) (tpi : List SourceConfig)
    → list ≢ []
    → Covers true_pr list
    → (w : Profile) × (pick_winner list true_pr tpi ≡ some w) × In w true_pr × IsBest list w.suffix
unfolding pick_winner
pick_winner-IsBest [] true_pr tpi h covers = absurd (h refl)
pick_winner-IsBest (head ∷ rest) true_pr tpi h covers =
    let best = max_suffix head (head ∷ rest) in
    let (se, se_in, named, top) = max_suffix_best head (head ∷ rest) (inl refl) in
    let (p, p_in, e) = covers se se_in in
    let (w, found, w_in, test) =
      first_complete (λ q. q.suffix == best) true_pr p p_in
        ((eq_iff p.suffix best).1 (e ∙ named)) in
    (w, found, w_in, (se, se_in, named ∙ sym ((eq_iff w.suffix best).0 test), top))

In-map_entry :
    (se : SuffixEntry) (ks : List Text)
    → In se (map (λ s. record { name = s; priority = pos 1 }) ks)
    → In se.name ks
In-map_entry se [] h = absurd h
In-map_entry se (k ∷ ks) h = elim h [
  | inl e ↦ inl (ap (λ (x : SuffixEntry). x.name) e)
  | inr older ↦ inr (In-map_entry se ks older)
]

map_nonempty :
    (t : Text) (ks : List Text)
    → In t ks
    → map (λ s. let e : SuffixEntry = record { name = s; priority = pos 1 } in e) ks ≢ []
map_nonempty t [] h = absurd h
map_nonempty t (k ∷ ks) h = λ e. cc

or_nonempty : {A : Type 0} (xs ys : List A) → ys ≢ [] → or_if_empty xs ys ≢ []
or_nonempty [] ys h = h
or_nonempty (x ∷ xs) ys h = λ e. cc

In_or_some : {A : Type 0} (xs ys : List A) (y : A) → In y ys → (x : A) × In x (or_if_empty xs ys)
In_or_some [] ys y h = (y, h)
In_or_some (x ∷ xs) ys y h = (x, inl refl)

module _ (order : List Text → List Text) (visits : IsKeyOrder order) where
  common_suffix_list-In :
      (list : List SuffixEntry) (keys : List Text) (se : SuffixEntry)
      → In se (common_suffix_list order list keys)
      → In se.name keys
  unfolding common_suffix_list
  common_suffix_list-In list keys se h = elim (In_or se _ _ h) [
    | inl k ↦ (contains_iff se.name keys).0 ((In-keep se (λ e. contains e.name keys) list).0 k).1
    | inr k ↦ (visits keys se.name).0 (In-map_entry se (order keys) k)
  ]

  pub common_suffix_list-ne-nil :
      (list : List SuffixEntry) (keys : List Text) (t : Text)
      → In t keys
      → common_suffix_list order list keys ≢ []
  unfolding common_suffix_list
  common_suffix_list-ne-nil list keys t h =
      or_nonempty _ _ (map_nonempty t (order keys) ((visits keys t).1 h))

  candidate-In : (p : Profile) (ps : List Profile) → In p ps → (q : Profile) × In q (candidates ps)
  unfolding candidates
  candidate-In p ps h = In_or_some _ ps p h

  -- A true profile always wins, and its suffix is the best of the common suffixes.
  pub pick_winner_total :
      (p : Profile) (ps : List Profile) (list : List SuffixEntry) (tpi : List SourceConfig)
      → let common = common_suffix_list order list (suffix_keys (candidates (p ∷ ps))) in
        (w : Profile) × (pick_winner common (p ∷ ps) tpi ≡ some w)
        × In w (p ∷ ps)
        × IsBest common w.suffix
  pick_winner_total p ps list tpi =
      let hits = p ∷ ps in
      let keys = suffix_keys (candidates hits) in
      let (q, q_in) = candidate-In p hits (inl refl) in
      pick_winner-IsBest (common_suffix_list order list keys) hits tpi
        (common_suffix_list-ne-nil list keys q.suffix (suffix_keys-In q (candidates hits) q_in))
        λ se h.
          let (c, c_in, e) =
            In-suffix_keys se.name (candidates hits) (common_suffix_list-In list keys se h) in
          (c, In-candidates c hits c_in, e)

-- If the winner has the suffix of the first true profile, it is the first true profile.
pub pick_winner_first :
    (list : List SuffixEntry) (q : Profile) (rest : List Profile) (tpi : List SourceConfig)
    (w : Profile)
    → list ≢ []
    → pick_winner list (q ∷ rest) tpi ≡ some w
    → w.suffix ≡ q.suffix
    → w ≡ q
unfolding pick_winner
pick_winner_first [] q rest tpi w h found same = absurd (h refl)
pick_winner_first (head ∷ l) q rest tpi w h found same =
    let best = max_suffix head (head ∷ l) in
    ground (
      arith,
      first_sound (λ p. p.suffix == best) (q ∷ rest) w found,
      eq_iff w.suffix best,
      eq_iff q.suffix best,
    )
