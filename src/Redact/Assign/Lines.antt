-- ===== src/Redact/Assign/Lines.antt =====
-- `redact_assignments` of src/redact.rs works line by line.
use mathlib.Core.List.{map-append, append_assoc}
use fore_ai_assisted_termina.Prelude.{
  ℕ, ◌≡◌, refl, ap, ◌∙◌, Bool-cases, inl, inr, List, [], ◌∷◌, ◌++◌, map, arith, ◌==◌,
}
use fore_ai_assisted_termina.Prelude.Text.{Text, codes, split, join}
use fore_ai_assisted_termina.Redact.Assign.{redact_assignments_line, redact_assignments}

abbrev IsNonEmpty : List Text → Type 0
IsNonEmpty [] = ⊥
IsNonEmpty (t ∷ ts) = Unit

split-IsNonEmpty : (c : ℕ) (s : Text) → IsNonEmpty (split c s)
unfolding split
split-IsNonEmpty c [] = tt
split-IsNonEmpty c (x ∷ s) = ground (arith, split-IsNonEmpty c s)

split-append : (c : ℕ) (a b : Text) → split c (a ++ c ∷ b) ≡ split c a ++ split c b
unfolding split
split-append c [] b = ground arith
split-append c (x ∷ a) b = ground (arith, split-append c a b, split-IsNonEmpty c a)

join-cons :
    (sep x : Text) (ys : List Text) → IsNonEmpty ys → join sep (x ∷ ys) ≡ x ++ (sep ++ join sep ys)
join-cons sep x [] h = absurd h
join-cons sep x (y ∷ ys) h = refl

join-first :
    (sep : Text) (x : ℕ) (t : Text) (ts : List Text)
    → join sep ((x ∷ t) ∷ ts) ≡ x ∷ join sep (t ∷ ts)
join-first sep x t [] = refl
join-first sep x t (u ∷ ts) = refl

join-split_round :
    (c x : ℕ) (s : Text) (ls : List Text)
    → split c s ≡ ls
    → join (c ∷ []) ls ≡ s
    → join (c ∷ []) (split c (x ∷ s)) ≡ x ∷ s
unfolding split
join-split_round c x s [] e ih = absurd (ground (arith, split-IsNonEmpty c s))
join-split_round c x s (t ∷ ts) e ih = elim (Bool-cases (x == c)) [
  | inl f ↦ rw (f, e, split) (ap (λ u. c ∷ u) ih ∙ ap (λ y. y ∷ s) (ground arith))
  | inr f ↦ rw (f, e, split) (join-first (c ∷ []) x t ts ∙ ap (λ u. x ∷ u) ih)
]

-- Joining the lines of a text gives the text.
pub join-split : (c : ℕ) (s : Text) → join (c ∷ []) (split c s) ≡ s
unfolding split
join-split c [] = refl
join-split c (x ∷ s) = join-split_round c x s (split c s) refl (join-split c s)

join-append :
    (sep : Text) (xs ys : List Text)
    → IsNonEmpty xs
    → IsNonEmpty ys
    → join sep (xs ++ ys) ≡ join sep xs ++ (sep ++ join sep ys)
join-append sep [] ys h k = absurd h
join-append sep (x ∷ []) (y ∷ ys) h k = refl
join-append sep (x ∷ []) [] h k = absurd k
join-append sep (x ∷ y ∷ xs) ys h k =
    ap (λ t. x ++ (sep ++ t)) (join-append sep (y ∷ xs) ys tt k) ∙ simp append_assoc

map-IsNonEmpty : (f : Text → Text) (xs : List Text) → IsNonEmpty xs → IsNonEmpty (map f xs)
map-IsNonEmpty f [] h = h
map-IsNonEmpty f (x ∷ xs) h = tt

-- Redacting two lines together is redacting each alone: no line reads or masks a part of another.
pub redact_assignments-lines :
    (a b : Text)
    → redact_assignments (a ++ b'\n' ∷ b) ≡ redact_assignments a ++ b'\n' ∷ redact_assignments b
unfolding redact_assignments
redact_assignments-lines a b =
    ap (λ ls. join (codes "\n") (map redact_assignments_line ls)) (split-append 10 a b)
    ∙ rw map-append (
        join-append (codes "\n") _ _ (map-IsNonEmpty _ _ (split-IsNonEmpty 10 a))
          (map-IsNonEmpty _ _ (split-IsNonEmpty 10 b)))
