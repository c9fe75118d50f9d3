-- ===== src/Handler/TransformUpi/Status.antt =====
-- What the UPI transform writes, and what the client is told of the bank's verified name.
use go_you.Common.{
  false, [], ◌∷◌, Option, none, some, Text, codes, ◌==◌, is_some, ◌≡◌, refl, ap, ◌∙◌, arith,
  if◌then◌else◌, Option-cases, inl, inr,
}
use go_you.Json.{Fields, obj, str, get, put, as_map, text_or_empty}
use go_you.Json.Laws.{get-put_other, get-put_self}
use go_you.Handler.TransformUpi.{
  UpiTransform, upi_entry, phonepe_entry, put_phonepe, transform_upi_response, name_key, status_key,
  put_status, put_found, not_found, put_bank_name, derive, derive_upi_intelligence,
  verified_names_value,
}

upi_missing :
    (m : Fields) (ut : UpiTransform)
    → as_map (get (codes "UPI") m) ≡ none
    → transform_upi_response m (some ut) ≡ m
unfolding transform_upi_response
upi_missing m ut missing = rw (missing, transform_upi_response)

upi_found :
    (m raw : Fields) (ut : UpiTransform)
    → as_map (get (codes "UPI") m) ≡ some raw
    → transform_upi_response m (some ut)
      ≡ put_phonepe ut raw (put (codes "UPI") (obj (upi_entry ut raw)) m)
unfolding transform_upi_response
upi_found m raw ut found = rw (found, transform_upi_response)

put_phonepe-get :
    (ut : UpiTransform) (raw m : Fields) (j : Text)
    → (codes "PHONEPE" == j) ≡ false
    → get j (put_phonepe ut raw m) ≡ get j m
unfolding put_phonepe
put_phonepe-get ut raw m j h =
    ground (arith, get-put_other j (codes "PHONEPE") (obj (phonepe_entry raw)) m h)

-- The UPI transform writes the entries of UPI and PHONEPE alone.
pub transform_upi_response-get :
    (m : Fields) (ut : Option UpiTransform) (j : Text)
    → (codes "UPI" == j) ≡ false
    → (codes "PHONEPE" == j) ≡ false
    → get j (transform_upi_response m ut) ≡ get j m
unfolding transform_upi_response
transform_upi_response-get m none j upi phonepe = refl
transform_upi_response-get m (some ut) j upi phonepe =
    elim (Option-cases (as_map (get (codes "UPI") m))) [
      | inl missing ↦ ap (get j) (upi_missing m ut missing)
      | inr (raw, found) ↦
          ap (get j) (upi_found m raw ut found)
          ∙ put_phonepe-get ut raw _ j phonepe
          ∙ get-put_other j (codes "UPI") (obj (upi_entry ut raw)) m upi
    ]

derived :
    (m entry intel : Fields) (ut : UpiTransform)
    → as_map (get (codes "UPI") m) ≡ some entry
    → derive_upi_intelligence m intel (some ut) ≡ derive ut entry intel
unfolding derive_upi_intelligence
derived m entry intel ut found = rw (found, derive_upi_intelligence)

get-put_status :
    (status : Text) (m : Fields) → get status_key (put_status status m) ≡ some (str status)
unfolding put_status
get-put_status status m = get-put_self status_key (str status) m

get-put_found :
    (name : Text) (m : Fields)
    → get status_key (put_found name m)
      ≡ (if name == [] then get status_key m else some (str (codes "found")))
unfolding put_found
get-put_found name m = ground (arith, get-put_status (codes "found") (put name_key (str name) m))

-- The name that the writes leave.
put_found-name :
    (name : Text) (m : Fields)
    → get name_key (put_found name m) ≡ (if name == [] then get name_key m else some (str name))
unfolding put_found put_status ◌==◌
put_found-name [] m = refl
put_found-name (c ∷ name) m =
    get-put_other name_key status_key (str (codes "found")) _ refl
    ∙ get-put_self name_key (str (c ∷ name)) m

put_status-name : (status : Text) (m : Fields) → get name_key (put_status status m) ≡ get name_key m
unfolding put_status ◌==◌
put_status-name status m = get-put_other name_key status_key (str status) m refl

-- The status and the name behind the three writes.
put_bank_name-status :
    (entry intel : Fields)
    → get status_key (put_bank_name entry intel) ≡ (
        if is_some (get (codes "error") entry)
        then some (str (codes "error"))
        else if not_found entry
        then some (str (codes "not-found"))
        else if text_or_empty (get (codes "name") entry) == []
        then get status_key intel
        else some (str (codes "found")))
unfolding put_bank_name
put_bank_name-status entry intel = ground (
  arith,
  get-put_found (text_or_empty (get (codes "name") entry)) intel,
  get-put_status (codes "not-found") (put_found (text_or_empty (get (codes "name") entry)) intel),
  get-put_status (codes "error") (put_found (text_or_empty (get (codes "name") entry)) intel),
  get-put_status (codes "error")
      (put_status (codes "not-found") (put_found (text_or_empty (get (codes "name") entry)) intel)),
)

put_bank_name-name :
    (entry intel : Fields)
    → get name_key (put_bank_name entry intel) ≡ (
        let name = text_or_empty (get (codes "name") entry) in
        if name == [] then get name_key intel else some (str name))
unfolding put_bank_name
put_bank_name-name entry intel = ground (
  arith,
  put_found-name (text_or_empty (get (codes "name") entry)) intel,
  put_status-name (codes "not-found") (put_found (text_or_empty (get (codes "name") entry)) intel),
  put_status-name (codes "error") (put_found (text_or_empty (get (codes "name") entry)) intel),
  put_status-name (codes "error")
      (put_status (codes "not-found") (put_found (text_or_empty (get (codes "name") entry)) intel)),
)

derive-bank :
    (ut : UpiTransform) (entry intel : Fields) (k : Text)
    → ut.bank_verified_name_disabled ≡ false
    → (codes "verified_names" == k) ≡ false
    → get k (derive ut entry intel) ≡ get k (put_bank_name entry intel)
unfolding derive
derive-bank ut entry intel k on other = ground (
  arith,
  get-put_other k (codes "verified_names")
      (verified_names_value (get (codes "verified_names") entry)) (put_bank_name entry intel) other,
)

-- Where the section has a UPI entry and the tenant does not disable the bank's verified name, the status
-- is error for an entry with an error, else not-found for one without a name or with user_exist false,
-- else found where the name is a text that is not empty, and else what it was; the name is the entry's
-- where it is a text that is not empty, and else what it was.
pub derive_upi_intelligence-status :
    (m entry intel : Fields) (ut : UpiTransform)
    → as_map (get (codes "UPI") m) ≡ some entry
    → ut.bank_verified_name_disabled ≡ false
    → (get status_key (derive_upi_intelligence m intel (some ut)) ≡ (
        if is_some (get (codes "error") entry)
        then some (str (codes "error"))
        else if not_found entry
        then some (str (codes "not-found"))
        else if text_or_empty (get (codes "name") entry) == []
        then get status_key intel
        else some (str (codes "found"))))
      × (get name_key (derive_upi_intelligence m intel (some ut)) ≡ (
          if text_or_empty (get (codes "name") entry) == []
          then get name_key intel
          else some (str (text_or_empty (get (codes "name") entry)))))
unfolding ◌==◌
derive_upi_intelligence-status m entry intel ut found on =
    let e = derived m entry intel ut found in
    (
      ap (get status_key) e
          ∙ derive-bank ut entry intel status_key on refl
          ∙ put_bank_name-status entry intel,
      ap (get name_key) e
          ∙ derive-bank ut entry intel name_key on refl
          ∙ put_bank_name-name entry intel,
    )
