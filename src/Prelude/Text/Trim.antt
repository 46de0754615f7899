-- ===== src/Prelude/Text/Trim.antt =====
-- Trimming and splitting.
use Prim.Native.Nat.{ℕ}
use mathlib.Core.Bool.{Bool, not, ◌||◌}
use mathlib.Core.List.{List, [], ◌∷◌, reverse}
use fore_ai_assisted_termina.Prelude.Tests.{◌==◌, if◌then◌else◌}
use fore_ai_assisted_termina.Prelude.Lists.{take_while, skip_while}
use fore_ai_assisted_termina.Prelude.Text.Base.{Text, is_whitespace}

abbrev pub trim_start : Text → Text
trim_start = skip_while is_whitespace

abbrev pub trim_end : Text → Text
trim_end s = reverse (trim_start (reverse s))

abbrev pub trim : Text → Text
trim s = trim_end (trim_start s)

-- `trim_matches(|c| c == '"' || c == '\'')`
abbrev is_quote : ℕ → Bool
is_quote c = c == 34 || c == 39

abbrev pub trim_quotes : Text → Text
trim_quotes s = reverse (skip_while is_quote (reverse (skip_while is_quote s)))

-- `s.rsplit(c).next()`: what follows the last `c`, or all of `s`
abbrev pub after_last : ℕ → Text → Text
after_last c s = reverse (take_while (λ x. not (x == c)) (reverse s))

abbrev push_front : ℕ → List Text → List Text
push_front x [] = (x ∷ []) ∷ []
push_front x (t ∷ ts) = (x ∷ t) ∷ ts

-- `s.split(c)`: never empty
unfoldable pub split : ℕ → Text → List Text
split c [] = [] ∷ []
split c (x ∷ s) = let rest = split c s in if x == c then [] ∷ rest else push_front x rest
