-- ===== src/CommonData/Stored.antt =====
-- What a fetch answers and keeps.
use go_you.Common.{
  List, [], ◌∷◌, Option, none, some, Text, ◌==◌, eq_iff, contains, In, if◌then◌else◌, if-true,
  if-false, ◌≡◌, refl, ap, ◌∙◌, Bool-cases, inl, inr, Distinct,
}
use go_you.Json.{Value, Fields, no_fields, field, get, keys}
use go_you.Json.Laws.{get-put, Distinct-put}
use go_you.CommonData.{EnrichConfig, EnrichRequest, Post, answer, run_checks, merge_doc, bare_error}

-- Every enabled check has its result, and nothing else is there.
pub get-run_checks :
    (post : Post) (cfg : EnrichConfig) (req : EnrichRequest) (cached : Fields) (checks : List Text)
    (k : Text)
    → get k (run_checks post cfg req cached checks)
      ≡ (if contains k checks then some (answer post cfg req cached k) else none)
unfolding run_checks get contains
get-run_checks post cfg req cached [] k = refl
get-run_checks post cfg req cached (check ∷ checks) k =
    get-put k check (answer post cfg req cached check) (run_checks post cfg req cached checks)
    ∙ elim (Bool-cases (check == k)) [
      | inl same ↦
          let e : check ≡ k = (eq_iff check k).0 same in
          rw (same, contains) (ap (λ (c : Text). some (answer post cfg req cached c)) e)
      | inr other ↦ rw (other, contains) (get-run_checks post cfg req cached checks k)
    ]

pub run_checks-Distinct :
    (post : Post) (cfg : EnrichConfig) (req : EnrichRequest) (cached : Fields) (checks : List Text)
    → Distinct (keys (run_checks post cfg req cached checks))
unfolding run_checks
run_checks-Distinct post cfg req cached [] = tt
run_checks-Distinct post cfg req cached (check ∷ checks) =
    Distinct-put check _ _ (run_checks-Distinct post cfg req cached checks)

get_missing : (k : Text) (m : Fields) → ¬ In k (keys m) → get k m ≡ none
unfolding get
get_missing k no_fields h = refl
get_missing k (field j v m) h = elim (Bool-cases (j == k)) [
  | inl same ↦ absurd (h (inl ((eq_iff j k).0 same)))
  | inr other ↦ rw (other, get) (get_missing k m (λ e. h (inr e)))
]

-- A fresh value that is kept, and else the old one.
abbrev pub over : Option Value → Option Value → Option Value
over old none = old
over old (some v) = if bare_error v then old else some v

pub get-merge_doc :
    (k : Text) (cached m : Fields)
    → Distinct (keys m)
    → get k (merge_doc cached m) ≡ over (get k cached) (get k m)
unfolding merge_doc get
get-merge_doc k cached no_fields h = refl
get-merge_doc k cached (field j v m) (new, rest) =
    let later = get-merge_doc k cached m rest in
    elim (Bool-cases (j == k)) [
      | inl same ↦
          let missing : get k m ≡ none = get_missing k m (λ e. new (rw ((eq_iff j k).0 same) e)) in
          rw (same, get)
            (elim (Bool-cases (bare_error v)) [
              | inl bare ↦ rw bare (later ∙ ap (over (get k cached)) missing)
              | inr full ↦ rw full (get-put k j v (merge_doc cached m) ∙ if-true _ _ _ same)
            ])
      | inr other ↦
          rw (other, get)
            (elim (Bool-cases (bare_error v)) [
              | inl bare ↦ rw bare later
              | inr full ↦
                  rw full (get-put k j v (merge_doc cached m) ∙ if-false _ _ _ other ∙ later)
            ])
    ]
