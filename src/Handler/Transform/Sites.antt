-- ===== src/Handler/Transform/Sites.antt =====
-- The accounts of a section, its count, and the key of the fraud score.
use go_you.Common.{
  Bool, true, false, List, Option, none, some, Text, codes, ◌==◌, eq_iff, ◌≡◌, refl, ap, ◌∙◌, arith,
  if◌then◌else◌,
}
use go_you.Json.{Value, Fields, no_fields, field, num, obj, get, put, delete, as_map, as_list}
use go_you.Json.Laws.{get-put, get-put_other, get-put_self, get-delete, get-delete_other}
use go_you.Handler.TransformUpi.{UpiTransform, transform_upi_response}
use go_you.Handler.TransformUpi.Status.{transform_upi_response-get}
use go_you.Handler.Transform.{
  shown, drop_sites, count_profiles, put_accounts, transform_accounts, transform_section,
  section_with_list, section_with_data, account_details_list_to_map, rename_score, fraud_key,
}
use go_you.AppConfig.{YouConfiguration, client_response}

get-drop_sites :
    (yc : Option YouConfiguration) (ut : Option UpiTransform) (m : Fields) (j : Text)
    → get j (drop_sites yc ut m) ≡ (if shown yc ut j then get j m else none)
unfolding drop_sites get
get-drop_sites yc ut no_fields j = ground arith
get-drop_sites yc ut (field name v m) j = ground (arith, eq_iff name j, get-drop_sites yc ut m j)

-- What the tenant lets the client see of a site other than UPI, and of UPI.
abbrev pub visible : Option YouConfiguration → Text → Bool
visible none site = true
visible (some c) site = client_response c site

abbrev pub upi_visible : Option UpiTransform → Bool
upi_visible none = false
upi_visible (some u) = u.client_response

shown_site :
    (yc : Option YouConfiguration) (ut : Option UpiTransform) (site : Text)
    → (codes "UPI" == site) ≡ false
    → shown yc ut site ≡ visible yc site
unfolding shown
shown_site none ut site h = ground (arith, eq_iff (codes "UPI") site, eq_iff site (codes "UPI"))
shown_site (some c) ut site h = ground (arith, eq_iff (codes "UPI") site, eq_iff site (codes "UPI"))

shown_upi :
    (yc : Option YouConfiguration) (ut : Option UpiTransform)
    → shown yc ut (codes "UPI") ≡ upi_visible ut
unfolding shown ◌==◌
shown_upi yc none = refl
shown_upi yc (some u) = refl

-- The accounts of a section behind the transform.
abbrev pub sent_accounts : Option YouConfiguration → Option UpiTransform → List Value → Fields
sent_accounts yc ut list =
    drop_sites yc ut (transform_upi_response (account_details_list_to_map list) ut)

section_unfolds :
    (yc : Option YouConfiguration) (ut : Option UpiTransform) (section pd : Fields)
    (list : List Value)
    → as_map (get (codes "primary_data") section) ≡ some pd
    → as_list (get (codes "account_details") pd) ≡ some list
    → transform_section yc ut section
      ≡ transform_accounts yc ut pd list (delete (codes "static_data") section)
unfolding transform_section section_with_data section_with_list ◌==◌
section_unfolds yc ut section pd list data_there list_there =
    ap (λ (o : Option Fields). section_with_data yc ut o (delete (codes "static_data") section))
      (ap as_map (get-delete_other (codes "primary_data") (codes "static_data") section refl)
        ∙ data_there)
    ∙ ap
        (λ (o : Option (List Value)).
          section_with_list yc ut pd o (delete (codes "static_data") section))
        list_there

-- For a section with a list of accounts: its accounts are an object, and its count is the number of
-- accounts in that object whose user_exist is true. UPI stands there only if the client may see it. Any
-- site but UPI and PHONEPE stands there as in the list, if the tenant does not hide it, and else is
-- absent.
pub transform_section-sends :
    (yc : Option YouConfiguration) (ut : Option UpiTransform) (section pd : Fields)
    (list : List Value)
    → as_map (get (codes "primary_data") section) ≡ some pd
    → as_list (get (codes "account_details") pd) ≡ some list
    → (pd' : Fields) × (m : Fields) × (as_map
          (get (codes "primary_data") (transform_section yc ut section))
        ≡ some pd')
      × (get (codes "account_details") pd' ≡ some (obj m))
      × (get (codes "social_profile_count") pd' ≡ some (num (count_profiles m)))
      × (get (codes "UPI") m ≡ (
          if upi_visible ut
          then get (codes "UPI") (transform_upi_response (account_details_list_to_map list) ut)
          else none))
      × ((site : Text)
          → (codes "UPI" == site) ≡ false
          → (codes "PHONEPE" == site) ≡ false
          → get site m
            ≡ (if visible yc site then get site (account_details_list_to_map list) else none))
unfolding transform_accounts put_accounts ◌==◌
transform_section-sends yc ut section pd list data_there list_there =
    let m = sent_accounts yc ut list in
    let before = transform_upi_response (account_details_list_to_map list) ut in
    (
      put_accounts m pd,
      m,
      ap (λ (s : Fields). as_map (get (codes "primary_data") s))
            (section_unfolds yc ut section pd list data_there list_there)
          ∙ ap as_map (get-put_self (codes "primary_data") (obj (put_accounts m pd)) _),
      get-put_other (codes "account_details") (codes "social_profile_count") _ _ refl
          ∙ get-put_self (codes "account_details") (obj m) pd,
      get-put_self (codes "social_profile_count") (num (count_profiles m)) _,
      get-drop_sites yc ut before (codes "UPI")
          ∙ ap (λ (b : Bool). if b then get (codes "UPI") before else none) (shown_upi yc ut),
      λ site upi phonepe.
          get-drop_sites yc ut before site
          ∙ ap (λ (b : Bool). if b then get site before else none) (shown_site yc ut site upi)
          ∙ ap (λ (v : Option Value). if visible yc site then v else none)
              (transform_upi_response-get (account_details_list_to_map list) ut site upi phonepe),
    )

-- A score under the fraud model's key is moved to the output key and every other score is left, where
-- the output key is another one; where it is the same key, the score is gone. In both cases nothing
-- stands under the fraud model's key.
pub rename_score-moves :
    (key : Text) (score : Fields) (v : Value)
    → get fraud_key score ≡ some v
    → (j : Text)
    → get j (rename_score key score)
      ≡ (if fraud_key == j then none else if key == j then some v else get j score)
unfolding rename_score
rename_score-moves key score v found j =
    ap (get j) (opened key score v found)
    ∙ get-delete j fraud_key (put key v score)
    ∙ ap (λ (o : Option Value). if fraud_key == j then none else o) (get-put j key v score)
  where
    opened :
        (key : Text) (score : Fields) (v : Value)
        → get fraud_key score ≡ some v
        → rename_score key score ≡ delete fraud_key (put key v score)
    opened key score v found = rw (found, rename_score)
