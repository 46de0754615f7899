-- ===== src/Prelude/Text/Search.antt =====
-- Searching in text: prefixes, occurrences, replacement.
use Prim.Native.Nat.{ℕ, zero, suc, ◌-◌}
use Prim.Native.String.{String}
use mathlib.Core.Bool.{Bool, true, false, ◌&&◌, ◌||◌}
use mathlib.Core.Option.{Option, none, some}
use mathlib.Core.List.{[], ◌∷◌, ◌++◌, reverse}
use fore_ai_assisted_termina.Prelude.Tests.{◌==◌, if◌then◌else◌}
use fore_ai_assisted_termina.Prelude.Lists.{length}
use fore_ai_assisted_termina.Prelude.Text.Base.{Text, codes}

unfoldable pub starts_with : Text → Text → Bool
starts_with s [] = true
starts_with [] (y ∷ p) = false
starts_with (x ∷ s) (y ∷ p) = x == y && starts_with s p

unfoldable pub ends_with : Text → Text → Bool
unfolding starts_with
ends_with s p = starts_with (reverse s) (reverse p)

unfoldable pub strip_prefix : Text → Text → Option Text
strip_prefix s [] = some s
strip_prefix [] (y ∷ p) = none
strip_prefix (x ∷ s) (y ∷ p) = let rest = strip_prefix s p in if x == y then rest else none

-- `s.contains(p)`
unfoldable pub contains : Text → Text → Bool
unfolding starts_with
contains [] p = starts_with [] p
contains (x ∷ s) p = starts_with (x ∷ s) p || contains s p

unfoldable pub contains_char : Text → ℕ → Bool
contains_char [] c = false
contains_char (x ∷ s) c = x == c || contains_char s c

abbrev next_index : Option ℕ → Option ℕ
next_index none = none
next_index (some i) = some (suc i)

-- `s.find(p)`: where `p` first occurs
unfoldable pub find : Text → Text → Option ℕ
unfolding starts_with
find [] p = if starts_with [] p then some 0 else none
find (x ∷ s) p =
    let later = next_index (find s p) in if starts_with (x ∷ s) p then some 0 else later

-- `s.rfind(p)`: where `p` last occurs
unfoldable pub rfind : Text → Text → Option ℕ
unfolding starts_with
rfind [] p = if starts_with [] p then some 0 else none
rfind (x ∷ s) p = elim (rfind s p) [
  | some i ↦ some (suc i)
  | none ↦ if starts_with (x ∷ s) p then some 0 else none
]

-- `s.replace(from, to)` for a pattern that is not empty: occurrences from the left, without
-- overlap. `skip` counts the code points of an occurrence that are still to be passed over.
unfoldable pub replace_from : ℕ → Text → Text → Text → Text
unfolding starts_with
replace_from skip from to [] = []
replace_from (suc skip) from to (x ∷ s) = replace_from skip from to s
replace_from zero from to (x ∷ s) =
    let hit = to ++ replace_from (length from - 1) from to s in
    let miss = x ∷ replace_from 0 from to s in if starts_with (x ∷ s) from then hit else miss

unfoldable pub replace : Text → Text → Text → Text
unfolding replace_from
replace s from to = replace_from 0 from to s

-- The same tests against a literal.
unfoldable pub begins : Text → String → Bool
unfolding starts_with
begins s p = starts_with s (codes p)

unfoldable pub holds : Text → String → Bool
unfolding contains
holds s p = contains s (codes p)
