-- ===== src/Upi/Aggregate/Order.antt =====
-- Where the order of the profiles, or Go's order of a map, shows in the aggregate.
use mathlib.Core.List.{reverse}
use go_you.Common.{
  Bool, true, List, [], ◌∷◌, Text, contains, contains_iff, eq_iff, ==_refl, keep, In, In-keep, inl,
  inr, ◌≡◌, ◌≢◌, refl, sym, ap, arith, or_if_empty,
}
use go_you.Upi.Model.{Profile, SuffixEntry, Meta, empty_profiles}
use go_you.Upi.Aggregate.{
  is_true, candidates, suffix_keys, common_suffix_list, max_suffix, max_priority, pick_winner,
  set_winner, agg_hits, agg_profile,
}
use go_you.Upi.Aggregate.Winner.{IsKeyOrder, pick_winner_total, pick_winner_first}

ne_nil_of_In : {A : Type 0} (x : A) (xs : List A) → In x xs → xs ≢ []
ne_nil_of_In x [] h = absurd h
ne_nil_of_In x (y ∷ xs) h = λ e. cc

keep_here :
    {A : Type 0} (p : A → Bool) (x : A) (xs : List A) → p x ≡ true → keep p (x ∷ xs) ≡ x ∷ keep p xs
keep_here p x xs h = ground arith

or_same : {A : Type 0} (xs ys zs : List A) → xs ≢ [] → or_if_empty xs ys ≡ or_if_empty xs zs
or_same [] ys zs h = absurd (h refl)
or_same (x ∷ xs) ys zs h = refl

module _ (order : List Text → List Text) (visits : IsKeyOrder order) where
  agg_hits-first :
      (q : Profile) (rest : List Profile) (meta : Meta) (err_pr false_pr : List Profile)
      → ((p : Profile) → In p (q ∷ rest) → p.suffix ≡ q.suffix)
      → (agg_hits order (q ∷ rest) meta err_pr false_pr).name ≡ q.name
  unfolding agg_hits set_winner
  agg_hits-first q rest meta err_pr false_pr same =
      let (w, won, w_in, (se, se_in, _, _)) =
        pick_winner_total order visits q rest meta.suffix_list meta.tpi_sources in
      let common =
        common_suffix_list order meta.suffix_list (suffix_keys (candidates (q ∷ rest))) in
      let some_entry : common ≢ [] = ne_nil_of_In se common se_in in
      let first : w ≡ q =
        pick_winner_first common q rest meta.tpi_sources w some_entry won (same w w_in) in
      rw won (ap (λ (p : Profile). p.name) first)

  -- If all true profiles have one suffix, the first of them gives the name: where it has none, the
  -- aggregate has none, even if a later true profile of that suffix carries a name.
  pub agg_profile_unnamed_first :
      (q : Profile) (ps : List Profile) (meta : Meta)
      → is_true q ≡ true
      → ((p : Profile) → In p ps → is_true p ≡ true → p.suffix ≡ q.suffix)
      → (agg_profile order (q ∷ ps) meta).name ≡ q.name
  unfolding agg_profile
  agg_profile_unnamed_first q ps meta hit same = rw (keep_here is_true q ps hit) (
      agg_hits-first q (keep is_true ps) meta _ _ λ p p_in. elim p_in [
        | inl e ↦ ap (λ (x : Profile). x.suffix) (sym e)
        | inr later ↦ let (p_in', p_true) = (In-keep p is_true ps).0 later in same p p_in' p_true
      ])

module _ (order order' : List Text → List Text) (meta : Meta) (err_pr false_pr : List Profile) where
  agg_hits-order_free :
      (true_pr : List Profile)
      → keep
          (λ (se : SuffixEntry). contains se.name (suffix_keys (candidates true_pr)))
          meta.suffix_list
        ≢ []
      → agg_hits order true_pr meta err_pr false_pr ≡ agg_hits order' true_pr meta err_pr false_pr
  unfolding agg_hits common_suffix_list
  agg_hits-order_free [] h = refl
  agg_hits-order_free (p ∷ ps) h =
      ap (λ l. set_winner (empty_profiles meta) (pick_winner l (p ∷ ps) meta.tpi_sources))
        (or_same _ _ _ h)

-- If a configured suffix is among the candidates', Go's order of the map does not matter.
pub agg_profile-order_free :
    (order order' : List Text → List Text) (ps : List Profile) (meta : Meta) (se : SuffixEntry)
    → In se meta.suffix_list
    → In se.name (suffix_keys (candidates (keep is_true ps)))
    → agg_profile order ps meta ≡ agg_profile order' ps meta
unfolding agg_profile
agg_profile-order_free order order' ps meta se se_in candidate =
    let keys = suffix_keys (candidates (keep is_true ps)) in
    let test : SuffixEntry → Bool = λ e. contains e.name keys in
    agg_hits-order_free order order' meta _ _ (keep is_true ps) (
      ne_nil_of_In se (keep test meta.suffix_list)
        ((In-keep se test meta.suffix_list).1 (se_in, (contains_iff se.name keys).1 candidate)))

-- Without a configured suffix it does: two true profiles with names and different suffixes each win,
-- as Go visits the suffix of the first or of the second profile first.
pub agg_profile-order_dependent :
    (p q : Profile) (meta : Meta)
    → meta.suffix_list ≡ []
    → is_true p ≡ true
    → is_true q ≡ true
    → p.name ≢ []
    → q.name ≢ []
    → p.suffix ≢ q.suffix
    → ((agg_profile (λ keys. keys) (p ∷ q ∷ []) meta).suffix ≡ p.suffix)
      × ((agg_profile reverse (p ∷ q ∷ []) meta).suffix ≡ q.suffix)
unfolding agg_profile agg_hits set_winner pick_winner common_suffix_list suffix_keys candidates
    max_suffix max_priority contains
agg_profile-order_dependent p q meta none_set hp hq np nq differ = ground (
  arith,
  eq_iff p.name [],
  eq_iff q.name [],
  eq_iff q.suffix p.suffix,
  eq_iff p.suffix q.suffix,
  ==_refl p.suffix,
  ==_refl q.suffix,
)
