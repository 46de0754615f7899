-- ===== src/Prelude/Text/Find.antt =====
-- Where a pattern occurs first and last, for a pattern whose first character is `c`.
use Prim.Native.Nat.{ℕ}
use mathlib.Core.Path.{◌≡◌, refl}
use mathlib.Core.Bool.{true, false}
use mathlib.Core.Option.{none, some}
use mathlib.Core.List.{[], ◌∷◌, ◌++◌}
use native.Mathlib.Omega.{arith}
use fore_ai_assisted_termina.Prelude.Lists.{length}
use fore_ai_assisted_termina.Prelude.Text.Base.{Text}
use fore_ai_assisted_termina.Prelude.Text.Search.{starts_with, contains, contains_char, find, rfind}
use fore_ai_assisted_termina.Prelude.Text.Laws.{contains_char_of_prefix}

pub starts_with_self : (p s : Text) → starts_with (p ++ s) p ≡ true
unfolding starts_with
starts_with_self [] s = refl
starts_with_self (x ∷ p) s = ground (arith, starts_with_self p s)

pub contains_self : (pre p s : Text) → contains (pre ++ (p ++ s)) p ≡ true
unfolding contains
contains_self [] [] [] = refl
contains_self [] [] (x ∷ s) = refl
contains_self [] (x ∷ p) s = ground (arith, starts_with_self (x ∷ p) s)
contains_self (x ∷ pre) p s = ground (arith, contains_self pre p s)

module _ (c : ℕ) (p : Text) where
  pub find_first :
      (pre rest : Text)
      → contains_char pre c ≡ false
      → find (pre ++ ((c ∷ p) ++ rest)) (c ∷ p) ≡ some (length pre)
  unfolding find contains_char
  find_first [] rest h = ground (arith, starts_with_self (c ∷ p) rest)
  find_first (x ∷ pre) rest h = ground (arith, find_first pre rest)

  rfind-none : (s : Text) → contains s (c ∷ p) ≡ false → rfind s (c ∷ p) ≡ none
  unfolding rfind contains
  rfind-none [] h = refl
  rfind-none (x ∷ s) h = ground (arith, rfind-none s)

  -- A part without `c` begins no occurrence.
  contains_skip :
      (a s : Text)
      → contains_char a c ≡ false
      → contains s (c ∷ p) ≡ false
      → contains (a ++ s) (c ∷ p) ≡ false
  unfolding contains contains_char
  contains_skip [] s h k = k
  contains_skip (x ∷ a) s h k = ground (arith, contains_skip a s)

  pub rfind_last :
      (pre post : Text)
      → contains_char p c ≡ false
      → contains post (c ∷ p) ≡ false
      → rfind (pre ++ ((c ∷ p) ++ post)) (c ∷ p) ≡ some (length pre)
  unfolding rfind
  rfind_last [] post h k =
      ground
        (arith, starts_with_self (c ∷ p) post, rfind-none (p ++ post) (contains_skip p post h k))
  rfind_last (x ∷ pre) post h k = rw (rfind_last pre post h k, rfind) refl

-- A pattern with the character `d` does not occur in a text without it.
pub contains_without :
    (s p : Text) (d : ℕ)
    → contains_char p d ≡ true
    → contains_char s d ≡ false
    → contains s p ≡ false
unfolding contains contains_char
contains_without [] p d h k = ground (arith, contains_char_of_prefix [] p d)
contains_without (x ∷ s) p d h k =
    ground (arith, contains_char_of_prefix (x ∷ s) p d, contains_without s p d)
