-- ===== src/Upi/VerifiedNames/Step.antt =====
-- The invariant of the loop over the profiles, and what one round does to it.
use go_you.Common.{
  Distinct-snoc, true, false, List, [], ◌∷◌, ◌++◌, Text, eq_iff, contains, contains_iff, is_some,
  Bool-cases, Option-cases, In, In-append, Distinct, inl, inr, ◌⊎◌, ◌↔◌, ◌≡◌, ◌≢◌, refl, sym, ◌∙◌,
  arith,
}
use go_you.Common.Maps.{Dict, lookup, insert, lookup-insert}
use go_you.Upi.VerifiedNames.{State, ids_at, add_id}

pub record Inv (st : State) : Type 0 where
  pub once : Distinct st.order
  pub keyed : (a : Text) → In a st.order ↔ (is_some (lookup a st.app_ids) ≡ true)
  pub distinct : (a : Text) → Distinct (ids_at st.app_ids a)
  pub filled : (a : Text) → In a st.order → ids_at st.app_ids a ≢ []
  pub owned : (a b i : Text) → In i (ids_at st.app_ids a) → In i (ids_at st.app_ids b) → a ≡ b
  pub listed : (a i : Text) → In i (ids_at st.app_ids a) → In i st.seen_ids
  pub held : (i : Text) → In i st.seen_ids → (a : Text) × In a st.order × In i (ids_at st.app_ids a)

In-snoc : {A : Type 0} (a x : A) (xs : List A) → In a (xs ++ x ∷ []) ↔ (In a xs ⊎ (x ≡ a))
In-snoc a x xs = ground (arith, In-append a xs (x ∷ []))

snoc-ne-nil : {A : Type 0} (xs : List A) (x : A) → xs ++ x ∷ [] ≢ []
snoc-ne-nil [] x = λ e. cc
snoc-ne-nil (y ∷ xs) x = λ e. cc

module _ (st : State) (app id : Text) (inv : Inv st) (fresh : ¬ In id st.seen_ids) where
  abbrev ids' : List Text
  ids' = ids_at st.app_ids app ++ id ∷ []

  abbrev m' : Dict (List Text)
  m' = insert app ids' st.app_ids

  at_same : ids_at m' app ≡ ids'
  at_same = ground (arith, lookup-insert app app ids' st.app_ids, eq_iff app app)

  at_other : (a : Text) → app ≢ a → ids_at m' a ≡ ids_at st.app_ids a
  at_other a h = ground (arith, lookup-insert a app ids' st.app_ids, eq_iff app a)

  dec_app : (a : Text) → (app ≡ a) ⊎ (app ≢ a)
  dec_app a = ground (arith, eq_iff app a)

  id_at : (a i : Text) → In i (ids_at m' a) ↔ (In i (ids_at st.app_ids a) ⊎ ((app ≡ a) × (id ≡ i)))
  id_at a i = elim (dec_app a) [
    | inl e ↦
        let old = ids_at st.app_ids app in
        rw (← e, at_same)
          (
            λ h. elim ((In-snoc i id old).0 h) [ inl o ↦ inl o | inr new ↦ inr (refl, new) ],
            λ h. (In-snoc i id old).1 (elim h [ inl o ↦ inl o | inr (_, new) ↦ inr new ]),
          )
    | inr ne ↦ rw (at_other a ne) (inl, λ h. elim h [ inl o ↦ o | inr (e, _) ↦ absurd (ne e) ])
  ]

  add-Distinct : (a : Text) → Distinct (ids_at m' a)
  add-Distinct a = elim (dec_app a) [
    | inl e ↦
        rw (← e, at_same)
          (Distinct-snoc (ids_at st.app_ids app) id (inv.distinct app)
            (λ m. fresh (inv.listed app id m)))
    | inr ne ↦ rw (at_other a ne) (inv.distinct a)
  ]

  add-owned : (a b i : Text) → In i (ids_at m' a) → In i (ids_at m' b) → a ≡ b
  add-owned a b i ha hb = elim ((id_at a i).0 ha) [
    | inl oa ↦ elim ((id_at b i).0 hb) [
      | inl ob ↦ inv.owned a b i oa ob
      | inr (_, e) ↦ absurd (fresh (inv.listed a id (rw e oa)))
    ]
    | inr (ea, e) ↦ elim ((id_at b i).0 hb) [
      | inl ob ↦ absurd (fresh (inv.listed b id (rw e ob)))
      | inr (eb, _) ↦ sym ea ∙ eb
    ]
  ]

  add-listed : (a i : Text) → In i (ids_at m' a) → In i (id ∷ st.seen_ids)
  add-listed a i h = elim ((id_at a i).0 h) [
    | inl old ↦ inr (inv.listed a i old)
    | inr (_, e) ↦ inl e
  ]

  add-filled : (a : Text) → (In a st.order ⊎ (app ≡ a)) → ids_at m' a ≢ []
  add-filled a h = elim (dec_app a) [
    | inl e ↦ rw (← e, at_same) (snoc-ne-nil (ids_at st.app_ids app) id)
    | inr ne ↦ rw (at_other a ne) (elim h [ inl old ↦ inv.filled a old | inr e ↦ absurd (ne e) ])
  ]

  add-keyed : (a : Text) → (In a st.order ⊎ (app ≡ a)) ↔ (is_some (lookup a m') ≡ true)
  add-keyed a =
      ground (arith, dec_app a, lookup-insert a app ids' st.app_ids, eq_iff app a, inv.keyed a)

  -- The state after an id was added under an app that is, or becomes, one of the order's.
  add-Inv :
      (order' : List Text) (names' : Dict Text)
      → Distinct order'
      → ((a : Text) → In a order' ↔ (In a st.order ⊎ (app ≡ a)))
      → Inv (record { order = order'; names = names'; app_ids = m'; seen_ids = id ∷ st.seen_ids })
  add-Inv order' names' d same = record {
    once = d;
    keyed = λ a. (λ h. (add-keyed a).0 ((same a).0 h), λ h. (same a).1 ((add-keyed a).1 h));
    distinct = add-Distinct;
    filled = λ a h. add-filled a ((same a).0 h);
    owned = add-owned;
    listed = add-listed;
    held = λ i h. elim h [
      | inl e ↦ (app, (same app).1 (inr refl), (id_at app i).1 (inr (refl, e)))
      | inr old ↦
          let (a, a_in, i_in) = inv.held i old in
          (a, (same a).1 (inl a_in), (id_at a i).1 (inl i_in))
    ];
  }

-- Adding an id that was not seen keeps the invariant.
pub add_id-Inv :
    (st : State) (app name id : Text)
    → Inv st
    → ¬ In id st.seen_ids
    → Inv (add_id st app name id (lookup app st.app_ids))
      × ((add_id st app name id (lookup app st.app_ids)).seen_ids ≡ id ∷ st.seen_ids)
unfolding add_id
add_id-Inv st app name id inv fresh = elim (Option-cases (lookup app st.app_ids)) [
  | inl absent ↦
      let new : ¬ In app st.order = λ m. ground (arith, inv.keyed app) in
      rw absent (
        rw absent at (
            add-Inv st app id inv fresh (st.order ++ app ∷ []) (insert app name st.names)
              (Distinct-snoc st.order app inv.once new) (λ a. In-snoc a app st.order)),
        refl,
      )
  | inr (ids, present) ↦
      let known : In app st.order = (inv.keyed app).1 (ground arith) in
      let missing : contains id ids ≡ false = elim (Bool-cases (contains id ids)) [
        | inl t ↦ absurd (fresh (inv.listed app id (rw present ((contains_iff id ids).0 t))))
        | inr f ↦ f
      ] in
      rw (present, missing)
        (
          rw present at (
              add-Inv st app id inv fresh st.order st.names inv.once
                λ a. (inl, λ h. elim h [ inl o ↦ o | inr e ↦ rw (← e) known ])),
          refl,
        )
]
