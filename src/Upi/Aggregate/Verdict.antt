-- ===== src/Upi/Aggregate/Verdict.antt =====
-- What `aggProfile` answers, on every branch.
use go_you.Common.{
  Bool, true, false, List, [], ◌∷◌, Option, none, some, Text, keep, any, is_some, In, In-keep, ◌≡◌,
  ◌≢◌, refl, arith, if◌then◌else◌,
}
use go_you.Upi.Model.{Profile, Meta, Profiles, nil_err, bool_err, empty_profiles}
use go_you.Upi.Aggregate.{
  is_true, is_false, is_err, candidates, suffix_keys, common_suffix_list, set_winner, set_no_hit,
  agg_hits, agg_profile,
}
use go_you.Upi.Aggregate.Winner.{IsKeyOrder, IsBest, pick_winner_total}

-- An independent reading of the verdict: any true profile decides it, then any failed one, then any
-- false one.
unfoldable pub verdict : List Profile → Option Bool
verdict ps =
    if any is_true ps
    then some true
    else if any is_err ps
    then none
    else if any is_false ps
    then some false
    else none

abbrev nonempty : List Profile → Bool
nonempty [] = false
nonempty (p ∷ ps) = true

any-keep : (p : Profile → Bool) (ps : List Profile) → any p ps ≡ nonempty (keep p ps)
any-keep p [] = refl
any-keep p (q ∷ ps) = ground (arith, any-keep p ps)

is_true-user_exist : (p : Profile) → is_true p ≡ true → p.user_exist ≡ some true
unfolding is_true
is_true-user_exist p h = ground arith

abbrev pub Answers : Profiles → Option Bool → Type 0
Answers agg v = (agg.user_exist ≡ v) × (agg.err ≡ (if is_some v then nil_err else bool_err true))

set_no_hit-Answers :
    (meta : Meta) (err_pr false_pr : List Profile)
    → Answers
        (set_no_hit (empty_profiles meta) err_pr false_pr)
        (if nonempty err_pr then none else if nonempty false_pr then some false else none)
unfolding set_no_hit
set_no_hit-Answers meta [] [] = (refl, refl)
set_no_hit-Answers meta [] (p ∷ ps) = (refl, refl)
set_no_hit-Answers meta (p ∷ ps) false_pr = (refl, refl)

module _ (order : List Text → List Text) (visits : IsKeyOrder order) where
  agg_hits-Answers :
      (true_pr : List Profile) (meta : Meta) (err_pr false_pr : List Profile)
      → ((p : Profile) → In p true_pr → p.user_exist ≡ some true)
      → Answers (agg_hits order true_pr meta err_pr false_pr) (
          if nonempty true_pr
          then some true
          else if nonempty err_pr
          then none
          else if nonempty false_pr
          then some false
          else none)
  unfolding agg_hits set_winner
  agg_hits-Answers [] meta err_pr false_pr h = set_no_hit-Answers meta err_pr false_pr
  agg_hits-Answers (p ∷ ps) meta err_pr false_pr h =
      let (w, won, w_in, _) =
        pick_winner_total order visits p ps meta.suffix_list meta.tpi_sources in
      rw won (h w w_in, refl)

  -- The aggregate of any profiles answers as `verdict` does, and it is an error exactly where
  -- `verdict` has no answer: a true profile is never lost, whatever the order of the candidates, and
  -- without one a failed profile outweighs the false ones.
  pub agg_profile-verdict :
      (ps : List Profile) (meta : Meta)
      → ((agg_profile order ps meta).user_exist ≡ verdict ps)
        × ((agg_profile order ps meta).err
            ≡ (if is_some (verdict ps) then nil_err else bool_err true))
  unfolding agg_profile verdict
  agg_profile-verdict ps meta =
      rw (any-keep is_true ps, any-keep is_err ps, any-keep is_false ps)
        (agg_hits-Answers (keep is_true ps) meta (keep is_err ps) (keep is_false ps)
          λ p p_in. is_true-user_exist p ((In-keep p is_true ps).0 p_in).1)

  abbrev Copies : Profiles → Profile → Type 0
  Copies agg w =
      (agg.user_exist ≡ w.user_exist)
      × (agg.name ≡ w.name)
      × (agg.source ≡ w.source)
      × (agg.suffix ≡ w.suffix)
      × (agg.app_name ≡ w.app_name)

  agg_hits-winner :
      (true_pr : List Profile) (meta : Meta) (err_pr false_pr : List Profile)
      → true_pr ≢ []
      → (w : Profile) × In w true_pr
        × Copies (agg_hits order true_pr meta err_pr false_pr) w
        × IsBest
            (common_suffix_list order meta.suffix_list (suffix_keys (candidates true_pr)))
            w.suffix
  unfolding agg_hits set_winner
  agg_hits-winner [] meta err_pr false_pr h = absurd (h refl)
  agg_hits-winner (p ∷ ps) meta err_pr false_pr h =
      let (w, won, w_in, best) =
        pick_winner_total order visits p ps meta.suffix_list meta.tpi_sources in
      (w, w_in, rw won (refl, refl, refl, refl, refl), best)

  -- Where some profile is true, the aggregate copies the verdict, name, source, suffix and app of one
  -- true profile, whose suffix is the name of an entry of the common suffixes (the configured ones
  -- among the candidates', or all the candidates' where none is configured) that no other entry
  -- exceeds in priority.
  pub agg_profile-winner :
      (ps : List Profile) (meta : Meta)
      → any is_true ps ≡ true
      → (w : Profile) × In w ps
        × (is_true w ≡ true)
        × Copies (agg_profile order ps meta) w
        × IsBest
            (common_suffix_list order meta.suffix_list (suffix_keys (candidates (keep is_true ps))))
            w.suffix
  unfolding agg_profile
  agg_profile-winner ps meta hit =
      let some_hit : keep is_true ps ≢ [] = λ e. ground (arith, any-keep is_true ps) in
      let (w, w_in, copies, best) =
        agg_hits-winner (keep is_true ps) meta (keep is_err ps) (keep is_false ps) some_hit in
      let (w_in', w_true) = (In-keep w is_true ps).0 w_in in (w, w_in', w_true, copies, best)
