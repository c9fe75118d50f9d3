-- ===== src/AccountDetails/RoundTrip.antt =====
-- What the persona cache gives back of an entry.
use go_you.Common.{
  Bool, true, false, [], ◌∷◌, Option, none, some, Text, ◌==◌, eq_iff, ◌≡◌, refl, ap, ◌∙◌, arith,
  if◌then◌else◌, if-true, if-false,
}
use go_you.Json.{Value, Fields, no_fields, field, bool, str, get, put, delete, text_or_empty}
use go_you.Json.Laws.{get-put, get-put_other, get-put_self, get-delete}
use go_you.AccountDetails.{
  AccountDetails, website_key, exist_key, error_key, put_exist, layer, put_website, marshal,
  read_bool, is_set, unmarshal,
}

abbrev or_else : Option Value → Option Value → Option Value
or_else none b = b
or_else (some a) b = some a

get-layer : (j : Text) (m out : Fields) → get j (layer m out) ≡ or_else (get j m) (get j out)
unfolding layer get
get-layer j no_fields out = refl
get-layer j (field k v m) out = ground (arith, get-put j k v (layer m out), get-layer j m out)

get-put_website :
    (j website : Text) (out : Fields)
    → (website_key == j) ≡ false
    → get j (put_website website out) ≡ get j out
unfolding put_website
get-put_website j website out h = ground (arith, get-put_other j website_key (str website) out h)

website_read :
    (website : Text) (out : Fields)
    → get website_key out ≡ none
    → text_or_empty (get website_key (put_website website out)) ≡ website
unfolding put_website ◌==◌
website_read [] out absent = ap text_or_empty absent
website_read (c ∷ w) out absent = ap text_or_empty (get-put_self website_key (str (c ∷ w)) out)

-- The keys of the details are not those of the typed fields.
pub record IsPlain (a : AccountDetails) : Type 0 where
  pub no_website : get website_key a.details ≡ none
  pub no_exist : get exist_key a.details ≡ none
  pub no_error : get error_key a.details ≡ none

-- A successful entry: the map before the name is put.
abbrev body : AccountDetails → Fields
body a = layer a.details (put_exist a.user_exist no_fields)

marshal_success :
    (a : AccountDetails) → a.error ≡ false → marshal a ≡ put_website a.website (body a)
unfolding marshal
marshal_success a ok = ap (put_website a.website) (if-false _ _ _ ok)

put_exist-get :
    (j : Text) (o : Option Bool) → (exist_key == j) ≡ false → get j (put_exist o no_fields) ≡ none
unfolding put_exist get
put_exist-get j none h = refl
put_exist-get j (some b) h = get-put_other j exist_key (bool b) no_fields h

exist_read : (o : Option Bool) → read_bool (get exist_key (put_exist o no_fields)) ≡ o
unfolding put_exist get put read_bool ◌==◌
exist_read none = refl
exist_read (some b) = refl

or_else_absent : (a b : Option Value) → a ≡ none → or_else a b ≡ b
or_else_absent a b h = rw h refl

or_else_left : (a b : Option Value) → b ≡ none → or_else a b ≡ a
or_else_left none b h = h
or_else_left (some v) b h = refl

body_other :
    (a : AccountDetails) (j : Text) → (exist_key == j) ≡ false → get j (body a) ≡ get j a.details
body_other a j h =
    get-layer j a.details (put_exist a.user_exist no_fields)
    ∙ or_else_left (get j a.details) _ (put_exist-get j a.user_exist h)

body_exist :
    (a : AccountDetails)
    → get exist_key a.details ≡ none
    → read_bool (get exist_key (body a)) ≡ a.user_exist
body_exist a free =
    ap read_bool (
      get-layer exist_key a.details (put_exist a.user_exist no_fields)
      ∙ or_else_absent (get exist_key a.details) _ free)
    ∙ exist_read a.user_exist

-- What is left when the typed keys are taken out.
get-details :
    (k : Text) (raw : Fields)
    → get k (unmarshal raw).details ≡ (
        if error_key == k
        then none
        else if exist_key == k
        then none
        else if website_key == k
        then none
        else get k raw)
unfolding unmarshal
get-details k raw = ground (
  arith,
  get-delete k error_key (delete exist_key (delete website_key raw)),
  get-delete k exist_key (delete website_key raw),
  get-delete k website_key raw,
)

success_other :
    (a : AccountDetails) (j : Text)
    → (website_key == j) ≡ false
    → get j (put_website a.website (body a)) ≡ get j (body a)
success_other a j h = get-put_website j a.website (body a) h

plain_details :
    (a : AccountDetails) (k : Text)
    → IsPlain a
    → (if error_key == k
        then none
        else if exist_key == k
        then none
        else if website_key == k
        then none
        else get k (put_website a.website (body a)))
      ≡ get k a.details
plain_details a k plain = ground (
  arith,
  success_other a k,
  body_other a k,
  plain.no_error,
  plain.no_exist,
  plain.no_website,
  eq_iff error_key k,
  eq_iff exist_key k,
  eq_iff website_key k,
)

-- An entry of a crawl that succeeded, whose details use none of the three reserved keys, is read back
-- with its name, its verdict and no error mark, and each key of its details reads as before.
pub unmarshal-marshal :
    (a : AccountDetails)
    → a.error ≡ false
    → IsPlain a
    → ((unmarshal (marshal a)).website ≡ a.website)
      × ((unmarshal (marshal a)).user_exist ≡ a.user_exist)
      × ((unmarshal (marshal a)).error ≡ false)
      × ((k : Text) → get k (unmarshal (marshal a)).details ≡ get k a.details)
unfolding unmarshal ◌==◌
unmarshal-marshal a ok plain = rw (marshal_success a ok) (
  website_read a.website (body a) (body_other a website_key refl ∙ plain.no_website),
  ap read_bool (success_other a exist_key refl) ∙ body_exist a plain.no_exist,
  ap (λ (v : Option Value). is_set (read_bool v))
      (success_other a error_key refl ∙ body_other a error_key refl ∙ plain.no_error),
  λ k. get-details k _ ∙ plain_details a k plain,
)

marked_again :
    (raw : Fields) (website : Text)
    → text_or_empty (get website_key raw) ≡ website
    → get error_key raw ≡ some (bool true)
    → marshal (unmarshal raw) ≡ put_website website (field error_key (bool true) no_fields)
unfolding marshal unmarshal read_bool is_set
marked_again raw website named error =
    ap (put_website (text_or_empty (get website_key raw)))
      (if-true _ _ _ (ap (λ (v : Option Value). is_set (read_bool v)) error))
    ∙ ap (λ (w : Text). put_website w (field error_key (bool true) no_fields)) named

-- An entry whose details carry an error mark, as those of a UPI request without a verdict do, comes back
-- from the cache as an error: written again, it is the mark and the name, and the details are gone.
pub marshal-unmarshal_marked :
    (a : AccountDetails)
    → a.error ≡ false
    → get website_key a.details ≡ none
    → get error_key a.details ≡ some (bool true)
    → marshal (unmarshal (marshal a))
      ≡ put_website a.website (field error_key (bool true) no_fields)
unfolding ◌==◌
marshal-unmarshal_marked a ok nameless marked = rw (marshal_success a ok) (
    marked_again (put_website a.website (body a)) a.website
      (website_read a.website (body a) (body_other a website_key refl ∙ nameless))
      (success_other a error_key refl ∙ body_other a error_key refl ∙ marked))
