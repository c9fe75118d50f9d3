-- ===== src/StaticData/Linked/Window.antt =====
-- What the linked ids can be.
use go_you.Common.{
  ℕ, Bool, false, ◌||◌, List, [], ◌∷◌, ◌++◌, ◌+◌, ◌≤◌, ◌<◌, Option, none, some, length,
  length-append, Text, codes, ◌==◌, eq_iff, ltb, contains, contains_iff, get_or, In, In-append,
  Distinct, Distinct-snoc, Bool-cases, Option-cases, ◌≡◌, inl, inr, arith, if◌then◌else◌,
}
use go_you.Json.{Value, Fields, null, get, as_map, keys}
use go_you.Handler.Clean.{is_null}
use go_you.StaticData.{as_payload_list}
use go_you.StaticData.Linked.{
  Linked, add_id, id_string, count_id, visit_value, visit_payloads, visit_sources, linked_ids,
  sort_keys,
}

-- The ids are different, none is empty, and there are no more than were counted nor than ten.
pub record Fits (ids : List Text) (iter : ℕ) : Type 0 where
  pub distinct : Distinct ids
  pub given : ¬ In [] ids
  pub counted : length ids ≤ iter
  pub window : length ids ≤ 10

appended-Fits :
    (val : Text) (ids : List Text) (n : ℕ)
    → Fits ids n
    → n < 10
    → val == [] ≡ false
    → ¬ In val ids
    → Fits (ids ++ (val ∷ [])) (n + 1)
appended-Fits val ids n fits inside filled new = record {
  distinct = Distinct-snoc ids val fits.distinct new;
  given = λ e. elim ((In-append [] ids (val ∷ [])).0 e) [
    | inl early ↦ fits.given early
    | inr last ↦ elim last [ inl same ↦ ground (arith, eq_iff val [], filled) | inr later ↦ later ]
  ];
  counted = omega (arith, length-append ids (val ∷ []), fits.counted);
  window = omega (arith, length-append ids (val ∷ []), fits.counted);
}

longer-Fits : (ids : List Text) (n : ℕ) → Fits ids n → Fits ids (n + 1)
longer-Fits ids n fits = record {
  distinct = fits.distinct;
  given = fits.given;
  counted = omega (arith, fits.counted);
  window = fits.window;
}

add_id-Fits :
    (val : Text) (ids : List Text) (n : ℕ) → Fits ids n → n < 10 → Fits (add_id val ids) (n + 1)
unfolding add_id
add_id-Fits val ids n fits inside = elim (Bool-cases (val == [] || contains val ids)) [
  | inl skip ↦ rw (skip, add_id) (longer-Fits ids n fits)
  | inr new ↦
      rw (new, add_id)
        (appended-Fits val ids n fits inside (ground arith)
          (λ e. ground (arith, contains_iff val ids, new)))
]

module _ (format : ℕ → Text) where
  abbrev StFits : Linked → Type 0
  StFits st = Fits st.ids st.iter

  count_id-Fits : (v : Value) (st : Linked) → StFits st → StFits (count_id format v st)
  unfolding count_id
  count_id-Fits v st fits = elim (Bool-cases (ltb st.iter 10)) [
    | inl inside ↦
        rw (inside, count_id) (add_id-Fits (id_string format v) st.ids st.iter fits (ground arith))
    | inr over ↦ rw (over, count_id) (longer-Fits st.ids st.iter fits)
  ]

  visit_value-Fits : (v : Option Value) (st : Linked) → StFits st → StFits (visit_value format v st)
  unfolding visit_value
  visit_value-Fits none st fits = fits
  visit_value-Fits (some v) st fits = elim (Bool-cases (is_null v)) [
    | inl nil ↦ rw (nil, visit_value) fits
    | inr value ↦ rw (value, visit_value) (count_id-Fits v st fits)
  ]

  visit_payloads-Fits :
      (key : Text) (pws : List Fields) (st : Linked)
      → StFits st
      → StFits (visit_payloads format key pws st)
  unfolding visit_payloads
  visit_payloads-Fits key [] st fits = fits
  visit_payloads-Fits key (pw ∷ pws) st fits =
      visit_payloads-Fits key pws _ (elim (Option-cases (as_map (get (codes "payload") pw))) [
        | inl missing ↦ rw missing fits
        | inr (payload, found) ↦ rw found (visit_value-Fits (get key payload) st fits)
      ])

  visit_sources-Fits :
      (key : Text) (static : Fields) (srcs : List Text) (st : Linked)
      → StFits st
      → StFits (visit_sources format key static srcs st)
  unfolding visit_sources
  visit_sources-Fits key static [] st fits = fits
  visit_sources-Fits key static (src ∷ srcs) st fits =
      visit_sources-Fits key static srcs _
        (visit_payloads-Fits key (as_payload_list (get_or null (get src static))) st fits)

  -- The linked ids of any document, for either kind: at most ten, all different, none empty.
  pub linked_ids-window :
      (static : Fields) (phone : Bool)
      → (length (linked_ids format static phone) ≤ 10)
        × Distinct (linked_ids format static phone)
        × (¬ In [] (linked_ids format static phone))
  unfolding linked_ids
  linked_ids-window static phone =
      let fits =
        visit_sources-Fits (if phone then codes "primary_email" else codes "primary_ph") static
          (sort_keys (keys static)) (record { ids = []; iter = 0 })
          (record { distinct = tt; given = λ e. e; counted = omega arith; window = omega arith }) in
      (fits.window, fits.distinct, fits.given)
