-- ===== src/Common/Bytes.antt =====
-- Texts are byte strings, as Go's strings are; `codes` turns a literal into one (ASCII only).
use go_you.Common.Tests.{eqb}
use Prim.Native.Nat.{ℕ}
use Prim.Native.Char.{code}
use Prim.Native.String.{String}
use mathlib.Core.Path.{◌≡◌, refl}
use mathlib.Core.Logic.{◌↔◌, ◌≢◌}
use mathlib.Core.Bool.{Bool, true, false, ◌&&◌}
use mathlib.Core.List.{List, [], ◌∷◌}
use native.Mathlib.Omega.{arith}
use go_you.Common.Lists.{In}

abbrev pub Text : Type 0
Text = List ℕ

abbrev pub codes : String → Text
codes String.[] = []
codes (String.◌∷◌ c s) = code c ∷ codes s

infix 50 ◌==◌
unfoldable pub ◌==◌ : Text → Text → Bool
[] == [] = true
[] == (d ∷ t) = false
(c ∷ s) == [] = false
(c ∷ s) == (d ∷ t) = eqb c d && s == t

eq_of_== : (s t : Text) → s == t ≡ true → s ≡ t
unfolding ◌==◌
eq_of_== [] [] h = refl
eq_of_== [] (d ∷ t) h = cc
eq_of_== (c ∷ s) [] h = cc
eq_of_== (c ∷ s) (d ∷ t) h = ground (arith, eq_of_== s t)

pub ==_refl : (s : Text) → s == s ≡ true
unfolding ◌==◌
==_refl [] = refl
==_refl (c ∷ s) = ground (arith, ==_refl s)

pub eq_iff : (s t : Text) → (s == t ≡ true) ↔ (s ≡ t)
eq_iff s t = (eq_of_== s t, λ e. rw e (==_refl t))

pub ne_of_== : (s t : Text) → s == t ≡ false → s ≢ t
ne_of_== s t h e = cc ((eq_iff s t).1 e)

-- Membership in a `map[string]struct{}`, whose keys are the list's elements.
unfoldable pub contains : Text → List Text → Bool
contains t [] = false
contains t (x ∷ xs) = elim (x == t) [ true ↦ true | false ↦ contains t xs ]

In_of_contains : (t : Text) (xs : List Text) → contains t xs ≡ true → In t xs
unfolding contains
In_of_contains t [] h = cc
In_of_contains t (x ∷ xs) h = ground (arith, eq_iff x t, In_of_contains t xs)

contains_of_In : (t : Text) (xs : List Text) → In t xs → contains t xs ≡ true
unfolding contains
contains_of_In t [] h = absurd h
contains_of_In t (x ∷ xs) h = ground (arith, eq_iff x t, contains_of_In t xs)

pub contains_iff : (t : Text) (xs : List Text) → (contains t xs ≡ true) ↔ In t xs
contains_iff t xs = (In_of_contains t xs, contains_of_In t xs)
