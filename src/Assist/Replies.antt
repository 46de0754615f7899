-- ===== src/Assist/Replies.antt =====
-- Where the two parts that `parse_two` of src/assist.rs returns come from.
use mathlib.Core.Path.{subst}
use fore_ai_assisted_termina.Prelude.{
  ◌≡◌, inl, inr, not, ◌||◌, Bool-cases, Option-cases, Option, none, some, List, [], ◌∷◌, At, here,
  there,
}
use fore_ai_assisted_termina.Prelude.Text.{Text, is_empty}
use fore_ai_assisted_termina.Assist.{
  lines, clean_reply, labelled, Found, read_line, read_lines, both, parse_two,
}

-- A line that says this under the label.
abbrev pub Said : List Text → Text → Text → Type 0
Said ls label x = (l : Text) × At l ls × (labelled label l ≡ some x)

-- What was found has a property.
abbrev Holds : (Text → Type 0) → Option Text → Type 0
Holds P none = Unit {0}
Holds P (some x) = P x

module _ (a b : Text) (P Q : Text → Type 0) where
  read_line-Holds :
      (found : Found) (l : Text)
      → ((x : Text) → labelled a l ≡ some x → P x)
      → ((y : Text) → labelled b l ≡ some y → Q y)
      → Holds P found.0 × Holds Q found.1
      → Holds P (read_line a b found l).0 × Holds Q (read_line a b found l).1
  unfolding read_line
  read_line-Holds found l p q h = elim (Option-cases (labelled a l)) [
    | inr (x, e) ↦ rw (e, read_line) (p x e, h.1)
    | inl e ↦ elim (Option-cases (labelled b l)) [
      | inr (y, d) ↦ rw (e, d, read_line) (h.0, q y d)
      | inl d ↦ rw (e, d, read_line) h
    ]
  ]

  read_lines-Holds :
      (ls : List Text) (found : Found)
      → ((l x : Text) → At l ls → labelled a l ≡ some x → P x)
      → ((l y : Text) → At l ls → labelled b l ≡ some y → Q y)
      → Holds P found.0 × Holds Q found.1
      → Holds P (read_lines a b found ls).0 × Holds Q (read_lines a b found ls).1
  unfolding read_lines
  read_lines-Holds [] found p q h = h
  read_lines-Holds (l ∷ ls) found p q h =
      read_lines-Holds ls (read_line a b found l) (λ m x k. p m x (there k))
        (λ m y k. q m y (there k)) (read_line-Holds found l (λ x. p l x here) (λ y. q l y here) h)

nothing : {p : Text × Text} → none ≡ some p → ⊥
nothing h = cc h

both-parts :
    (P Q : Text → Type 0) (found : Found) (x y : Text)
    → Holds P found.0 × Holds Q found.1
    → both found ≡ some (x, y)
    → P x × Q y
unfolding both
both-parts P Q (none, vb) x y h e = absurd (cc e)
both-parts P Q (some s, none) x y h e = absurd (cc e)
both-parts P Q (some s, some t) x y h e = elim (Bool-cases (not (is_empty t) || not (is_empty s))) [
  | inl k ↦
      let same : some (s, t) ≡ some (x, y) = rw k at e in
      let first : s ≡ x = cc same in
      let second : t ≡ y = cc same in (subst P first h.0, subst Q second h.1)
  | inr k ↦ absurd (nothing (rw k at e))
]

-- The two parts of a reply that was read stand in it: each is what some line says under its label,
-- once the reply is rid of bold markers and code fences.
pub parse_two-Said :
    (raw a b x y : Text)
    → parse_two raw a b ≡ some (x, y)
    → Said (lines (clean_reply raw)) a x × Said (lines (clean_reply raw)) b y
unfolding parse_two
parse_two-Said raw a b x y e =
    let ls = lines (clean_reply raw) in
    both-parts (Said ls a) (Said ls b) (read_lines a b (none, none) ls) x y
      (read_lines-Holds a b (Said ls a) (Said ls b) ls (none, none) (λ l u m k. (l, m, k))
        (λ l u m k. (l, m, k)) (tt, tt))
      e
