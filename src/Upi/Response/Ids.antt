-- ===== src/Upi/Response/Ids.antt =====
-- Which ids and names of the verified names reach the client.
use go_you.Common.{
  true, not, List, [], ◌∷◌, Option, none, some, Text, codes, ◌==◌, contains, contains_iff, In,
  In-keep, is_some, get_or, ◌⊎◌, ◌↔◌, ◌≡◌, ap, ◌∙◌, arith, if◌then◌else◌, ◌||◌, ◌&&◌,
}
use go_you.Common.Maps.{lookup}
use go_you.Json.{Value, Fields, no_fields, str, texts, get, text_or_empty}
use go_you.Json.Laws.{get-put}
use go_you.Upi.Suffix.{other_app_name, app_name_encoding}
use go_you.Upi.Format.{is_upi_format_correct}
use go_you.Upi.Response.{
  VerifiedNamesConfig, bool_or_nil_true, is_true_flag, to_string_slice, filter_ids, put_ids,
  put_name, put_upi_ids, put_source, filter_verified_name,
}

module _ (cfg : VerifiedNamesConfig) (emails : List Text) (vn : Fields) where
  -- The ids of the entry that may be shown.
  abbrev pub shown : List Text
  shown = filter_ids cfg emails (to_string_slice (get (codes "upi_ids") vn))

  abbrev pub some_texts : List Text → Option Value
  some_texts [] = none
  some_texts (t ∷ ts) = some (texts (t ∷ ts))

  get-put_ids :
      (k : Text) (ids : List Text) (m : Fields)
      → get k (put_ids ids m)
        ≡ (if codes "upi_ids" == k && is_some (some_texts ids) then some_texts ids else get k m)
  get-put_ids k [] m = ground arith
  get-put_ids k (t ∷ ts) m = ground (arith, get-put k (codes "upi_ids") (texts (t ∷ ts)) m)

  abbrev pub name' : Text
  name' = text_or_empty (get (codes "name") vn)

  abbrev pub source' : Text
  source' = text_or_empty (get (codes "source") vn)

  get-put_name :
      (k : Text) (m : Fields)
      → get k (put_name cfg vn m) ≡ (
          if codes "name" == k && bool_or_nil_true cfg.name && not (name' == [])
          then some (str name')
          else get k m)
  unfolding put_name
  get-put_name k m = ground (arith, get-put k (codes "name") (str name') m)

  get-put_upi_ids :
      (k : Text) (m : Fields)
      → get k (put_upi_ids cfg emails vn m) ≡ (
          if codes "upi_ids" == k && is_true_flag cfg.upi_ids && is_some (some_texts shown)
          then some_texts shown
          else get k m)
  unfolding put_upi_ids
  get-put_upi_ids k m = ground (arith, get-put_ids k shown m)

  -- What each key of a filtered entry reads as: the source always, encoded unless the tenant turned that
  -- off; the ids where the tenant asked for them and the filter leaves any; the name unless the tenant
  -- turned it off or it is empty; and nothing else.
  pub get-filter_verified_name :
      (k : Text)
      → get k (filter_verified_name cfg emails vn) ≡ (
          if codes "source" == k
          then some (
              str (
                if bool_or_nil_true cfg.encoding
                then get_or other_app_name (lookup source' app_name_encoding)
                else source'))
          else if codes "upi_ids" == k && is_true_flag cfg.upi_ids && is_some (some_texts shown)
          then some_texts shown
          else if codes "name" == k && bool_or_nil_true cfg.name && not (name' == [])
          then some (str name')
          else none)
  unfolding filter_verified_name put_source get
  get-filter_verified_name k =
      let named = put_name cfg vn no_fields in
      let with_ids = put_upi_ids cfg emails vn named in
      let shown_source =
        if bool_or_nil_true cfg.encoding
        then get_or other_app_name (lookup source' app_name_encoding)
        else source' in
      get-put k (codes "source") (str shown_source) with_ids
      ∙ ap (λ r. if codes "source" == k then some (str shown_source) else r)
          (get-put_upi_ids k named
            ∙ ap
                (λ r.
                  if codes "upi_ids" == k && is_true_flag cfg.upi_ids && is_some (some_texts shown)
                  then some_texts shown
                  else r)
                (get-put_name k no_fields))

-- Unless the tenant set `alphanumeric_id`, every id that is left has the format of a UPI id or is a VPA
-- that came from the e-mail address; with it, or for such ids, none is dropped.
pub In-filter_ids :
    (cfg : VerifiedNamesConfig) (emails ids : List Text) (id : Text)
    → In id (filter_ids cfg emails ids) ↔ (
        In id ids
        × ((is_true_flag cfg.alphanumeric_id ≡ true)
            ⊎ (is_upi_format_correct id ≡ true)
            ⊎ In id emails))
unfolding filter_ids
In-filter_ids cfg emails ids id = ground (
  arith,
  In-keep id (λ i. is_upi_format_correct i || contains i emails) ids,
  contains_iff id emails,
)
