-- ===== src/Upi/Aggregate.antt =====
-- `aggProfile` of internal/crawler/upi/aggregate.go: the per-suffix profiles collapsed into one.
-- Go ranges over the map of candidate suffixes in an order of its own; that order is the parameter
-- `order`, a function on the list of the map's keys.
pub mod Lists
pub mod Verdict
pub mod Winner
pub mod Order
use go_you.Common.{
  ℕ, Bool, true, false, not, ◌&&◌, List, [], ◌∷◌, map, Option, none, some, Text, ◌==◌, contains,
  keep, first, or_if_empty, eqb, ltb, if◌then◌else◌, get_or, is_some, ◌+◌,
}
use go_you.Common.Int.{ℤ, pos, ltb_ℤ, pos_part, neg_part}
use go_you.Upi.Model.{
  Profile, has_error, SuffixEntry, SourceConfig, Meta, Profiles, empty_profiles, bool_err,
}

abbrev pub eqb_ℤ : ℤ → ℤ → Bool
eqb_ℤ a b = eqb (pos_part a + neg_part b) (pos_part b + neg_part a)

-- `p.UserExist != nil && *p.UserExist == b`
abbrev says : Bool → Option Bool → Bool
says b none = false
says true (some e) = e
says false (some e) = not e

-- The three parts into which the first loop sorts the profiles.
unfoldable pub is_true : Profile → Bool
is_true p = not (has_error p) && says true p.user_exist

unfoldable pub is_false : Profile → Bool
is_false p = not (has_error p) && says false p.user_exist

unfoldable pub is_err : Profile → Bool
unfolding is_true is_false
is_err p = not (is_true p) && not (is_false p)

unfoldable pub filter_named : List Profile → List Profile
filter_named = keep (λ p. not (p.name == []))

-- The true profiles that carry a name, or all of them where none does.
unfoldable pub candidates : List Profile → List Profile
unfolding filter_named
candidates true_pr = or_if_empty (filter_named true_pr) true_pr

-- The keys of `candidateSuffixes`, each once.
unfoldable pub suffix_keys : List Profile → List Text
suffix_keys [] = []
suffix_keys (p ∷ ps) =
    let rest = suffix_keys ps in if contains p.suffix rest then rest else p.suffix ∷ rest

module _ (order : List Text → List Text) where
  -- The configured suffixes that are candidates, or an entry of priority 1 for each candidate.
  unfoldable pub common_suffix_list : List SuffixEntry → List Text → List SuffixEntry
  common_suffix_list suffix_list keys =
      or_if_empty (keep (λ se. contains se.name keys) suffix_list)
        (map (λ s. record { name = s; priority = pos 1 }) (order keys))

-- The loop for the highest priority.
unfoldable pub max_priority : ℤ → List SuffixEntry → ℤ
max_priority m [] = m
max_priority m (se ∷ rest) = max_priority (if ltb_ℤ m se.priority then se.priority else m) rest

abbrev name_of : Option SuffixEntry → Text
name_of none = []
name_of (some se) = se.name

-- The first entry of the highest priority; the list's head stands for `commonSuffixList[0]`.
unfoldable pub max_suffix : SuffixEntry → List SuffixEntry → Text
max_suffix head list =
    let m = max_priority head.priority list in name_of (first (λ se. eqb_ℤ se.priority m) list)

unfoldable pub pick_winner : List SuffixEntry → List Profile → List SourceConfig → Option Profile
pick_winner [] true_pr tpi = first (λ p. contains p.source (map (λ s. s.name) tpi)) true_pr
pick_winner (head ∷ rest) true_pr tpi =
    let best = max_suffix head (head ∷ rest) in first (λ p. p.suffix == best) true_pr

unfoldable pub set_winner : Profiles → Option Profile → Profiles
set_winner agg none = record agg { err = bool_err true }
set_winner agg (some w) = record agg {
  user_exist = w.user_exist;
  name = w.name;
  source = w.source;
  suffix = w.suffix;
  app_name = w.app_name;
}

-- What is left where no profile is true: the errors, then the false profiles.
unfoldable pub set_no_hit : Profiles → List Profile → List Profile → Profiles
set_no_hit agg [] [] = record agg { err = bool_err true }
set_no_hit agg [] (p ∷ ps) = record agg { user_exist = some false }
set_no_hit agg (p ∷ ps) false_pr = record agg { err = bool_err true }

module _ (order : List Text → List Text) where
  unfoldable pub agg_hits : List Profile → Meta → List Profile → List Profile → Profiles
  agg_hits [] meta err_pr false_pr = set_no_hit (empty_profiles meta) err_pr false_pr
  agg_hits (p ∷ ps) meta err_pr false_pr =
      let true_pr = p ∷ ps in
      let keys = suffix_keys (candidates true_pr) in
      set_winner (empty_profiles meta)
        (pick_winner (common_suffix_list order meta.suffix_list keys) true_pr meta.tpi_sources)

  unfoldable pub agg_profile : List Profile → Meta → Profiles
  agg_profile profiles meta =
      agg_hits (keep is_true profiles) meta (keep is_err profiles) (keep is_false profiles)
