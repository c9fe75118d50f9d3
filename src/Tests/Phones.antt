-- ===== src/Tests/Phones.antt =====
-- Witnesses for the UPI functions that ask no source.
use mathlib.Core.List.{reverse}
use go_you.Common.{
  true, List, [], ◌∷◌, ◌++◌, map, length, In, Distinct, any, keep, is_some, Text, codes, ◌==◌,
  if◌then◌else◌, ◌≡◌, ◌≢◌, ◌↔◌, inl, inr, refl, ap, sym, contains, arith,
}
use go_you.Common.Int.{pos}
use go_you.Upi.Model.{Profile, Meta, VerifiedName, has_error, is_error, nil_err, bool_err}
use go_you.Upi.Suffix.{UpiApp}
use go_you.Upi.Aggregate.{
  agg_profile, is_true, suffix_keys, candidates, filter_named, common_suffix_list,
}
use go_you.Upi.Aggregate.Winner.{IsBest}
use go_you.Upi.Aggregate.Verdict.{verdict, agg_profile-verdict, agg_profile-winner}
use go_you.Upi.Aggregate.Order.{agg_profile-order_dependent}
use go_you.Upi.VerifiedNames.{verified_names_from_profiles}
use go_you.Upi.VerifiedNames.Names.{Yields, verified_names-Distinct, verified_names-Yields}
use go_you.Upi.Format.{is_upi_format_correct}
use go_you.Upi.Format.Pattern.{IsDigits, IsHandle, is_upi_format_correct_iff}
use go_you.Upi.Sample.{weighted_sample_no_replace}
use go_you.Upi.Sample.Draw.{names, weighted_sample-Distinct}
use go_you.Tests.Data.{
  hit_ybl, hit_axl, miss_ibl, unnamed_ybl, failed_ibl, suffixes, mmt, emt, give, meta_of, in_order,
  visits_in_order, national, float_ops,
}

abbrev answers : List Profile
answers = miss_ibl ∷ hit_ybl ∷ failed_ibl ∷ hit_axl ∷ []

abbrev meta : Meta
meta = meta_of suffixes (mmt ∷ [])

agg_profile-verdict_example :
    ((agg_profile in_order answers meta).user_exist ≡ verdict answers)
    × ((agg_profile in_order answers meta).err
        ≡ (if is_some (verdict answers) then nil_err else bool_err true))
agg_profile-verdict_example = agg_profile-verdict in_order visits_in_order answers meta

some_hit : any is_true answers ≡ true
unfolding is_true has_error is_error
some_hit = refl

agg_profile-winner_example :
    (w : Profile) × In w answers
    × (is_true w ≡ true)
    × (((agg_profile in_order answers meta).user_exist ≡ w.user_exist)
        × ((agg_profile in_order answers meta).name ≡ w.name)
        × ((agg_profile in_order answers meta).source ≡ w.source)
        × ((agg_profile in_order answers meta).suffix ≡ w.suffix)
        × ((agg_profile in_order answers meta).app_name ≡ w.app_name))
    × IsBest
        (common_suffix_list in_order suffixes (suffix_keys (candidates (keep is_true answers))))
        w.suffix
agg_profile-winner_example = agg_profile-winner in_order visits_in_order answers meta some_hit

is_true_unnamed : is_true unnamed_ybl ≡ true
unfolding is_true has_error is_error
is_true_unnamed = refl

same_suffix : (p : Profile) → In p (hit_ybl ∷ []) → is_true p ≡ true → p.suffix ≡ unnamed_ybl.suffix
same_suffix p (inl e) t = ap (λ q. q.suffix) (sym e)
same_suffix p (inr h) t = absurd h

candidate_ybl : In (codes "ybl") (suffix_keys (candidates (keep is_true (hit_ybl ∷ []))))
unfolding suffix_keys candidates filter_named is_true has_error is_error ◌==◌ contains
candidate_ybl = inl refl

true_ybl : is_true hit_ybl ≡ true
unfolding is_true has_error is_error
true_ybl = refl

true_axl : is_true hit_axl ≡ true
unfolding is_true has_error is_error
true_axl = refl

ybl_named : hit_ybl.name ≢ []
ybl_named h = cc

axl_named : hit_axl.name ≢ []
axl_named h = cc

ybl_not_axl : hit_ybl.suffix ≢ hit_axl.suffix
ybl_not_axl h = ground arith

Distinct-names : Distinct (names (mmt ∷ emt ∷ give ∷ []))
Distinct-names = ground arith

agg_profile-order_dependent_example :
    ((agg_profile (λ keys. keys) (hit_ybl ∷ hit_axl ∷ []) (meta_of [] (mmt ∷ []))).suffix
      ≡ codes "ybl")
    × ((agg_profile reverse (hit_ybl ∷ hit_axl ∷ []) (meta_of [] (mmt ∷ []))).suffix ≡ codes "axl")
agg_profile-order_dependent_example =
    agg_profile-order_dependent hit_ybl hit_axl (meta_of [] (mmt ∷ [])) refl true_ybl true_axl
      ybl_named axl_named ybl_not_axl

verified_names-Distinct_example :
    Distinct (map (λ e. e.source) (verified_names_from_profiles national answers))
    × ((e : VerifiedName)
        → In e (verified_names_from_profiles national answers)
        → Distinct e.upi_ids × (e.upi_ids ≢ []))
    × ((e f : VerifiedName) (i : Text)
        → In e (verified_names_from_profiles national answers)
        → In f (verified_names_from_profiles national answers)
        → In i e.upi_ids
        → In i f.upi_ids
        → e.source ≡ f.source)
verified_names-Distinct_example = verified_names-Distinct national answers

verified_names-Yields_example :
    ((e : VerifiedName) × In e (verified_names_from_profiles national answers)
      × In (codes "9876543210@ybl") e.upi_ids)
    ↔ ((p : Profile) × In p answers × Yields national p (codes "9876543210@ybl"))
verified_names-Yields_example = verified_names-Yields national answers (codes "9876543210@ybl")

is_upi_format_correct_iff_example : (is_upi_format_correct (codes "9876543210@ybl") ≡ true) ↔ (
    (digits : Text) × (handle : Text) × IsDigits 10 digits
    × IsHandle handle
    × (codes "9876543210@ybl" ≡ digits ++ handle))
is_upi_format_correct_iff_example = is_upi_format_correct_iff (codes "9876543210@ybl")

abbrev two_apps : List UpiApp
two_apps =
    record {
      app_name = codes "SLICE_PAY";
      suffixes = codes "sliceaxis" ∷ [];
      encoding = codes "a6";
    }
    ∷ record { app_name = codes "SLICE"; suffixes = codes "sliceaxis" ∷ []; encoding = codes "a34" }
    ∷ []

abbrev short_number : Text
short_number = codes "98"

no_at : ¬ In b'@' short_number
no_at = ground arith

weighted_sample-Distinct_example :
    Distinct (names (weighted_sample_no_replace float_ops (mmt ∷ emt ∷ give ∷ []) (pos 2) 1))
    × (length (weighted_sample_no_replace float_ops (mmt ∷ emt ∷ give ∷ []) (pos 2) 1) ≡ 2)
    × ((t : Text)
        → In t (names (weighted_sample_no_replace float_ops (mmt ∷ emt ∷ give ∷ []) (pos 2) 1))
        → In t (names (mmt ∷ emt ∷ give ∷ [])))
weighted_sample-Distinct_example =
    weighted_sample-Distinct float_ops (mmt ∷ emt ∷ give ∷ []) 2 1 Distinct-names
