-- ===== src/Prelude/Text/Laws.antt =====
-- Laws of text: occurrences, and the lengths of parts.
use fore_ai_assisted_termina.Prelude.Lists.{length, take, drop, skip_while, take_while}
use Prim.Native.Nat.{ℕ, zero, suc, ◌+◌, ◌-◌, ◌≤◌}
use mathlib.Core.Path.{◌≡◌, refl, ap}
use mathlib.Core.Bool.{Bool, true, false, ◌||◌}
use mathlib.Core.List.{List, [], ◌∷◌, ◌++◌}
use native.Mathlib.Omega.{arith}
use fore_ai_assisted_termina.Prelude.Text.Base.{Text}
use fore_ai_assisted_termina.Prelude.Text.Search.{starts_with, contains, contains_char}

pub starts_with_append : (s t p : Text) → starts_with s p ≡ true → starts_with (s ++ t) p ≡ true
unfolding starts_with
starts_with_append s t [] h = ground arith
starts_with_append [] t (y ∷ p) h = cc
starts_with_append (x ∷ s) t (y ∷ p) h = ground (arith, starts_with_append s t p)

-- An occurrence of `p` ends before a character that `p` does not have.
pub starts_with_cut :
    (a b p : Text) (c : ℕ)
    → contains_char p c ≡ false
    → starts_with (a ++ c ∷ b) p ≡ starts_with a p
unfolding starts_with contains_char
starts_with_cut [] b [] c h = refl
starts_with_cut [] b (y ∷ p) c h = ground arith
starts_with_cut (x ∷ a) b [] c h = refl
starts_with_cut (x ∷ a) b (y ∷ p) c h = ground (arith, starts_with_cut a b p c)

pub contains_cut :
    (a b p : Text) (c : ℕ)
    → contains_char p c ≡ false
    → contains (a ++ c ∷ b) p ≡ (contains a p || contains b p)
unfolding contains
contains_cut [] b p c h = ground (arith, starts_with_cut [] b p c)
contains_cut (x ∷ a) b p c h = ground (arith, starts_with_cut (x ∷ a) b p c, contains_cut a b p c)

pub contains_append_right : (a s p : Text) → contains s p ≡ true → contains (a ++ s) p ≡ true
unfolding contains
contains_append_right [] s p h = h
contains_append_right (x ∷ a) s p h = ground (arith, contains_append_right a s p h)

-- What a prefix has, the text has.
pub contains_char_of_prefix :
    (s p : Text) (c : ℕ)
    → starts_with s p ≡ true
    → contains_char p c ≡ true
    → contains_char s c ≡ true
unfolding starts_with contains_char
contains_char_of_prefix s [] c h k = cc
contains_char_of_prefix [] (y ∷ p) c h k = cc
contains_char_of_prefix (x ∷ s) (y ∷ p) c h k = ground (arith, contains_char_of_prefix s p c)

module _ {ℓ} {A : Type ℓ} where
  pub length-drop : (n : ℕ) (xs : List A) → length (drop n xs) ≡ length xs - n
  length-drop zero xs = omega arith
  length-drop (suc n) [] = omega arith
  length-drop (suc n) (x ∷ xs) = omega (arith, length-drop n xs)

  pub length-skip_while : (p : A → Bool) (xs : List A) → length (skip_while p xs) ≤ length xs
  length-skip_while p [] = omega arith
  length-skip_while p (x ∷ xs) = ground (arith, length-skip_while p xs)

  pub take-append : (xs ys : List A) → take (length xs) (xs ++ ys) ≡ xs
  take-append [] ys = refl
  take-append (x ∷ xs) ys = ap (λ t. x ∷ t) (take-append xs ys)

  pub drop-append : (xs ys : List A) → drop (length xs) (xs ++ ys) ≡ ys
  drop-append [] ys = refl
  drop-append (x ∷ xs) ys = drop-append xs ys

  pub take_while-skip_while : (p : A → Bool) (xs : List A) → take_while p xs ++ skip_while p xs ≡ xs
  take_while-skip_while p [] = refl
  take_while-skip_while p (x ∷ xs) = ground (arith, take_while-skip_while p xs)

  pub take-drop : (n : ℕ) (xs : List A) → take n xs ++ drop n xs ≡ xs
  take-drop zero xs = refl
  take-drop (suc n) [] = refl
  take-drop (suc n) (x ∷ xs) = ap (λ t. x ∷ t) (take-drop n xs)

  drop-nil : (n : ℕ) → drop {A = A} n [] ≡ []
  drop-nil zero = refl
  drop-nil (suc n) = refl

  pub drop-drop : (m n : ℕ) (xs : List A) → drop m (drop n xs) ≡ drop (n + m) xs
  drop-drop m zero xs = ap (λ k. drop k xs) (omega arith)
  drop-drop m (suc n) [] = rw (drop-nil m, drop-nil (suc n + m))
  drop-drop m (suc n) (x ∷ xs) =
      let e : suc n + m ≡ suc (n + m) = omega arith in rw e (drop-drop m n xs)
