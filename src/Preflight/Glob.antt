-- ===== src/Preflight/Glob.antt =====
-- `glob_match` of src/preflight.rs, on bytes, and what it decides.
use mathlib.Core.Path.{subst}
use fore_ai_assisted_termina.Prelude.{
  ℕ, ◌≡◌, refl, sym, ap, ◌∙◌, ◌↔◌, inl, inr, Bool, true, false, ◌||◌, Bool-cases, [], ◌∷◌, ◌++◌,
  arith, ◌==◌, ==_iff, if◌then◌else◌,
}
use fore_ai_assisted_termina.Prelude.Text.{Text}

-- The arm of `*`: the rest of the pattern on what is left, or one byte further on.
abbrev pub any_suffix : (Text → Bool) → Text → Bool
any_suffix f [] = f []
any_suffix f (c ∷ s) = f (c ∷ s) || any_suffix f s

unfoldable pub glob_match : Text → Text → Bool
glob_match [] [] = true
glob_match [] (c ∷ s) = false
glob_match (a ∷ p) [] = if a == b'*' then any_suffix (glob_match p) [] else false
glob_match (a ∷ p) (c ∷ s) =
    let rest = glob_match p s in
    if a == b'*'
    then any_suffix (glob_match p) (c ∷ s)
    else if a == b'?'
    then rest
    else if a == c
    then rest
    else false

-- What a pattern means: `*` stands for any bytes, `?` for one byte, any other byte for itself.
pub data Matches : Text → Text → Type 0 where
  done : Matches [] []
  star : {p s : Text} (skipped : Text) → Matches p s → Matches (b'*' ∷ p) (skipped ++ s)
  one : {p s : Text} (c : ℕ) → Matches p s → Matches (b'?' ∷ p) (c ∷ s)
  itself : {p s : Text} (c : ℕ) → c == b'*' ≡ false → Matches p s → Matches (c ∷ p) (c ∷ s)

any_suffix-append : (f : Text → Bool) (t s : Text) → f s ≡ true → any_suffix f (t ++ s) ≡ true
any_suffix-append f [] [] h = h
any_suffix-append f [] (c ∷ s) h = rw h refl
any_suffix-append f (c ∷ t) s h = ground (arith, any_suffix-append f t s h)

any_suffix-some :
    (f : Text → Bool) (s : Text)
    → any_suffix f s ≡ true
    → (t : Text) × (u : Text) × (s ≡ t ++ u) × (f u ≡ true)
any_suffix-some f [] h = ([], [], refl, h)
any_suffix-some f (c ∷ s) h = elim (Bool-cases (f (c ∷ s))) [
  | inl e ↦ ([], c ∷ s, refl, e)
  | inr e ↦ let (t, u, k, m) = any_suffix-some f s (rw e at h) in (c ∷ t, u, ap (λ x. c ∷ x) k, m)
]

glob_match-star : (p s : Text) → glob_match (b'*' ∷ p) s ≡ any_suffix (glob_match p) s
unfolding glob_match
glob_match-star p [] = refl
glob_match-star p (c ∷ s) = refl

glob_match-one : (p s : Text) (c : ℕ) → glob_match (b'?' ∷ p) (c ∷ s) ≡ glob_match p s
unfolding glob_match
glob_match-one p s c = refl

matched : {p s : Text} → Matches p s → glob_match p s ≡ true
unfolding glob_match
matched done = refl
matched (star {p} {s} skipped m) =
    glob_match-star p (skipped ++ s) ∙ any_suffix-append (glob_match p) skipped s (matched m)
matched (one {p} {s} c m) = glob_match-one p s c ∙ matched m
matched (itself {p} {s} c h m) = ground (arith, h, matched m)

decided : (p s : Text) → glob_match p s ≡ true → Matches p s
unfolding glob_match
decided [] [] h = done
decided [] (c ∷ s) h = cc h
decided (a ∷ p) s h = elim (Bool-cases (a == b'*')) [
  | inl e ↦
      let same = (==_iff a b'*').0 e in
      let (t, u, k, m) =
        any_suffix-some (glob_match p) s
          (sym (glob_match-star p s) ∙ ap (λ x. glob_match (x ∷ p) s) (sym same) ∙ h) in
      subst (λ x. Matches (x ∷ p) s) (sym same)
        (subst (Matches (b'*' ∷ p)) (sym k) (star t (decided p u m)))
  | inr e ↦ other a p s e h (decided p)
]
  where
    other :
        (a : ℕ) (p s : Text)
        → a == b'*' ≡ false
        → glob_match (a ∷ p) s ≡ true
        → ((u : Text) → glob_match p u ≡ true → Matches p u)
        → Matches (a ∷ p) s
    other a p [] e h r = absurd (nothing (rw e at h))
      where
        nothing : false ≡ true → ⊥
        nothing h = cc h
    other a p (c ∷ s) e h r = elim (Bool-cases (a == b'?')) [
      | inl q ↦
          subst (λ x. Matches (x ∷ p) (c ∷ s)) (sym ((==_iff a b'?').0 q))
            (one c (r s (ground (arith, h, e, q))))
      | inr q ↦
          let same : a ≡ c = ground (arith, h, e, q) in
          subst (λ x. Matches (a ∷ p) (x ∷ s)) same (itself a e (r s (ground (arith, h, e, q))))
    ]

-- `glob_match` answers yes exactly for the names that the pattern describes byte for byte, and it
-- always answers.
pub glob_match-Matches : (p s : Text) → (glob_match p s ≡ true) ↔ Matches p s
glob_match-Matches p s = (decided p s, matched)
