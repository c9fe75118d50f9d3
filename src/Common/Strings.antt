-- ===== src/Common/Strings.antt =====
-- The searches of Go's `strings` package, over byte texts.
use go_you.Common.Tests.{eqb}
use go_you.Common.Bytes.{Text}
use Prim.Native.Nat.{ℕ, zero, suc, ◌-◌}
use mathlib.Core.Bool.{Bool, true}
use mathlib.Core.List.{List, [], ◌∷◌}
use mathlib.Core.Option.{Option, none, some}
use go_you.Common.Tests.{if◌then◌else◌, is_some}
use go_you.Common.Lists.{length}

-- What follows a prefix, where the text has it.
unfoldable pub strip_prefix : Text → Text → Option Text
strip_prefix [] s = some s
strip_prefix (p ∷ ps) [] = none
strip_prefix (p ∷ ps) (c ∷ s) = let rest = strip_prefix ps s in if eqb p c then rest else none

-- `strings.Contains(s, sub)`
unfoldable pub contains_text : Text → Text → Bool
contains_text [] sub = is_some (strip_prefix sub [])
contains_text (c ∷ s) sub =
    let later = contains_text s sub in if is_some (strip_prefix sub (c ∷ s)) then true else later

abbrev pub cons_first : ℕ → List Text → List Text
cons_first c [] = (c ∷ []) ∷ []
cons_first c (t ∷ ts) = (c ∷ t) ∷ ts

-- `strings.Split` by a separator that is not empty: `skip` counts the bytes of a separator that are
-- still to be passed over.
split_skip : Text → ℕ → Text → List Text
split_skip sep skip [] = [] ∷ []
split_skip sep (suc skip) (c ∷ s) = split_skip sep skip s
split_skip sep zero (c ∷ s) = elim (strip_prefix sep (c ∷ s)) [
  | some rest ↦ [] ∷ split_skip sep (length sep - 1) s
  | none ↦ cons_first c (split_skip sep zero s)
]

unfoldable pub split_on : Text → Text → List Text
unfolding split_skip
split_on sep s = split_skip sep zero s
