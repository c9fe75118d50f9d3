-- ===== src/Upi/VerifiedNames/Names.antt =====
-- What the verified names hold.
use mathlib.Core.Path.{subst}
use go_you.Common.{
  true, List, [], ◌∷◌, map, Text, ◌==◌, eq_iff, contains, contains_iff, Bool-cases, In, Distinct,
  In-map, inl, inr, ◌⊎◌, ◌↔◌, ◌≡◌, ◌≢◌, refl, sym, ap, ◌∙◌, arith,
}
use go_you.Common.Maps.{lookup}
use go_you.Upi.Model.{Profile, VerifiedName}
use go_you.Upi.VerifiedNames.{
  State, start, counts, construct_vpa_for_profile, app_name_from_profile, visit_id, visit,
  visit_all, ids_at, entry_of, verified_names_from_profiles,
}
use go_you.Upi.VerifiedNames.Step.{Inv, add_id-Inv}

-- The profile is true and free of errors, and `i` is its VPA, which is not empty.
abbrev pub Yields : Text → Profile → Text → Type 0
Yields phone p i = (counts p ≡ true) × (construct_vpa_for_profile phone p ≡ i) × (i ≢ [])

start-Inv : Inv start
unfolding lookup
start-Inv = record {
  once = tt;
  keyed = λ a. (λ h. absurd h, λ h. cc);
  distinct = λ a. tt;
  filled = λ a h. absurd h;
  owned = λ a b i h. absurd h;
  listed = λ a i h. h;
  held = λ i h. absurd h;
}

visit_id-Inv :
    (st : State) (app name id : Text)
    → Inv st
    → Inv (visit_id st app name id)
      × ((i : Text)
          → In i (visit_id st app name id).seen_ids ↔ (In i st.seen_ids ⊎ ((id ≡ i) × (i ≢ []))))
unfolding visit_id
visit_id-Inv st app name id inv = elim (Bool-cases (id == [])) [
  | inl nothing ↦ rw nothing (
    inv,
    λ i. (
      inl,
      λ h. elim h [ inl o ↦ o | inr (e, ne) ↦ absurd (ne (sym e ∙ (eq_iff id []).0 nothing)) ],
    ),
  )
  | inr some_id ↦ elim (Bool-cases (contains id st.seen_ids)) [
    | inl dup ↦
        rw (some_id, dup)
          (
            inv,
            λ i. (
              inl,
              λ h. elim h [
                | inl o ↦ o
                | inr (e, _) ↦ rw (← e) ((contains_iff id st.seen_ids).0 dup)
              ],
            ),
          )
    | inr new ↦
        let fresh : ¬ In id st.seen_ids = λ m. ground (arith, contains_iff id st.seen_ids) in
        let filled : id ≢ [] = λ e. ground (arith, eq_iff id []) in
        let (inv', seen) = add_id-Inv st app name id inv fresh in
        rw (some_id, new)
          (
            inv',
            λ i. rw seen (
              λ h. elim h [ inl e ↦ inr (e, λ none_id. filled (e ∙ none_id)) | inr o ↦ inl o ],
              λ h. elim h [ inl o ↦ inr o | inr (e, _) ↦ inl e ],
            ),
          )
  ]
]

visit-Inv :
    (phone : Text) (st : State) (p : Profile)
    → Inv st
    → Inv (visit phone st p)
      × ((i : Text) → In i (visit phone st p).seen_ids ↔ (In i st.seen_ids ⊎ Yields phone p i))
unfolding visit
visit-Inv phone st p inv = elim (Bool-cases (counts p)) [
  | inl t ↦
      let (keeps, seen) =
        visit_id-Inv st (app_name_from_profile p) p.name (construct_vpa_for_profile phone p) inv in
      rw t (
        keeps,
        λ i. (
          λ h. elim ((seen i).0 h) [ inl o ↦ inl o | inr (e, ne) ↦ inr (refl, e, ne) ],
          λ h. (seen i).1 (elim h [ inl o ↦ inl o | inr (_, e, ne) ↦ inr (e, ne) ]),
        ),
      )
  | inr f ↦ rw f (inv, λ i. (inl, λ h. elim h [ inl o ↦ o | inr (bad, _, _) ↦ absurd (cc) ]))
]

visit_all-Inv :
    (phone : Text) (st : State) (ps : List Profile)
    → Inv st
    → Inv (visit_all phone st ps)
      × ((i : Text)
          → In i (visit_all phone st ps).seen_ids
            ↔ (In i st.seen_ids ⊎ ((p : Profile) × In p ps × Yields phone p i)))
unfolding visit_all
visit_all-Inv phone st [] inv =
    (inv, λ i. (inl, λ h. elim h [ inl o ↦ o | inr (p, p_in, y) ↦ absurd p_in ]))
visit_all-Inv phone st (p ∷ ps) inv =
    let (inv', seen) = visit-Inv phone st p inv in
    let (inv'', seen') = visit_all-Inv phone (visit phone st p) ps inv' in
    (
      inv'',
      λ i. (
        λ h. elim ((seen' i).0 h) [
          | inl o ↦ elim ((seen i).0 o) [ inl old ↦ inl old | inr y ↦ inr (p, inl refl, y) ]
          | inr (q, q_in, y) ↦ inr (q, inr q_in, y)
        ],
        λ h. (seen' i).1 (elim h [
          | inl old ↦ inl ((seen i).1 (inl old))
          | inr (q, q_in, y) ↦ elim q_in [
            | inl e ↦ inl ((seen i).1 (inr (rw e y)))
            | inr later ↦ inr (q, later, y)
          ]
        ]),
      ),
    )

sources : (st : State) (xs : List Text) → map (λ e. e.source) (map (entry_of st) xs) ≡ xs
unfolding entry_of
sources st [] = refl
sources st (x ∷ xs) = ap (◌∷◌ x) (sources st xs)

entry-ids :
    (st : State) (a : Text) (e : VerifiedName) (i : Text)
    → entry_of st a ≡ e
    → In i e.upi_ids
    → In i (ids_at st.app_ids a)
unfolding entry_of
entry-ids st a e i same h = subst (λ (x : VerifiedName). In i x.upi_ids) (sym same) h

-- In the verified names each app has one entry; the ids of an entry are distinct and there is at least
-- one; and no id stands under two apps.
pub verified_names-Distinct :
    (phone : Text) (ps : List Profile)
    → Distinct (map (λ e. e.source) (verified_names_from_profiles phone ps))
      × ((e : VerifiedName)
          → In e (verified_names_from_profiles phone ps)
          → Distinct e.upi_ids × (e.upi_ids ≢ []))
      × ((e f : VerifiedName) (i : Text)
          → In e (verified_names_from_profiles phone ps)
          → In f (verified_names_from_profiles phone ps)
          → In i e.upi_ids
          → In i f.upi_ids
          → e.source ≡ f.source)
unfolding verified_names_from_profiles
verified_names-Distinct phone ps =
    let st = visit_all phone start ps in
    let (inv, _) = visit_all-Inv phone start ps start-Inv in
    (
      rw (sources st st.order) inv.once,
      λ e h.
          let (a, a_in, same) = (In-map (entry_of st) st.order e).0 h in
          rw (← same) (inv.distinct a, inv.filled a a_in),
      λ e f i he hf ie if'.
          let (a, _, ea) = (In-map (entry_of st) st.order e).0 he in
          let (b, _, fb) = (In-map (entry_of st) st.order f).0 hf in
          rw (← ea, ← fb) (inv.owned a b i (entry-ids st a e i ea ie) (entry-ids st b f i fb if')),
    )

-- The ids under the verified names are exactly the VPAs of the true profiles free of errors that have
-- a VPA: none is lost and none is made up.
pub verified_names-Yields :
    (phone : Text) (ps : List Profile) (i : Text)
    → ((e : VerifiedName) × In e (verified_names_from_profiles phone ps) × In i e.upi_ids)
      ↔ ((p : Profile) × In p ps × Yields phone p i)
unfolding verified_names_from_profiles
verified_names-Yields phone ps i =
    let st = visit_all phone start ps in
    let (inv, seen) = visit_all-Inv phone start ps start-Inv in
    (
      λ (e, e_in, i_in).
          let (a, _, same) = (In-map (entry_of st) st.order e).0 e_in in
          elim ((seen i).0 (inv.listed a i (entry-ids st a e i same i_in))) [
            | inl nowhere ↦ absurd nowhere
            | inr found ↦ found
          ],
      λ found.
          let (a, a_in, i_in) = inv.held i ((seen i).1 (inr found)) in
          (entry_of st a, (In-map (entry_of st) st.order (entry_of st a)).1 (a, a_in, refl), i_in),
    )
