-- ===== src/Predict/Suggest.antt =====
-- What `suggest` of src/predict.rs may answer.
use mathlib.Core.Path.{subst}
use fore_ai_assisted_termina.Prelude.{
  ◌≡◌, refl, sym, inl, inr, Bool, true, false, Bool-cases, Option-cases, none, some, List, [], ◌∷◌,
  ltb, keep_if, All, At, here, there, All-at, At-cases, ℤ,
}
use fore_ai_assisted_termina.Prelude.Text.{Text, text_eq, trim_start, utf8_len}
use fore_ai_assisted_termina.Store.{HistoryEntry}
use fore_ai_assisted_termina.Predict.{
  Predictor, Scores, Candidate, tally, extends, aggregate, add_bonus, best_from, best, competitors,
  suggest,
}

-- What f64 without NaN has: the order is strict, and not being greater carries on.
pub record IsOrder (F : Scores) : Type 0 where
  pub strict : (a b : F.Score) → F.is_greater a b ≡ true → F.is_greater b a ≡ false
  pub carries :
      (a b c : F.Score)
      → F.is_greater a b ≡ false
      → F.is_greater b c ≡ false
      → F.is_greater a c ≡ false

nothing : {t : Text} → none ≡ some t → ⊥
nothing h = cc h

some_injective : {s t : Text} → some s ≡ some t → s ≡ t
some_injective h = cc h

module _ (F : Scores) where
  -- A command of the history that goes on from what was typed.
  abbrev pub Sourced : List HistoryEntry → Text → Text → Type 0
  Sourced history prefix cmd =
      (extends F prefix cmd ≡ true) × ((e : HistoryEntry) × At e history × (e.cmd ≡ cmd))

  abbrev FromHistory : List HistoryEntry → Text → Candidate F → Type 0
  FromHistory history prefix c = Sourced history prefix c.cmd

  tally-All :
      (P : Text → Type 0) (cmd : Text) (s : F.Score) (cs : List (Candidate F))
      → P cmd
      → All (λ (c : Candidate F). P c.cmd) cs
      → All (λ (c : Candidate F). P c.cmd) (tally F cmd s cs)
  unfolding tally
  tally-All P cmd s [] h k = (h, tt)
  tally-All P cmd s (c ∷ cs) h k = elim (Bool-cases (text_eq c.cmd cmd)) [
    | inl e ↦ rw e k
    | inr e ↦ rw e (k.0, tally-All P cmd s cs h k.1)
  ]

  aggregate-All :
      (P : Text → Type 0) (prefix cwd : Text) (now : ℤ) (es : List HistoryEntry)
      (agg : List (Candidate F))
      → ((e : HistoryEntry) → At e es → extends F prefix e.cmd ≡ true → P e.cmd)
      → All (λ (c : Candidate F). P c.cmd) agg
      → All (λ (c : Candidate F). P c.cmd) (aggregate F prefix cwd now es agg)
  unfolding aggregate
  aggregate-All P prefix cwd now [] agg h k = k
  aggregate-All P prefix cwd now (e ∷ es) agg h k = elim (Bool-cases (extends F prefix e.cmd)) [
    | inl t ↦ rw t (
        aggregate-All P prefix cwd now es _ (λ d m. h d (there m))
          (tally-All P e.cmd _ agg (h e here t) k))
    | inr t ↦ rw t (aggregate-All P prefix cwd now es agg (λ d m. h d (there m)) k)
  ]

  add_bonus-All :
      (P : Text → Type 0) (cs : List (Candidate F))
      → All (λ (c : Candidate F). P c.cmd) cs
      → All (λ (c : Candidate F). P c.cmd) (add_bonus F cs)
  unfolding add_bonus
  add_bonus-All P [] h = tt
  add_bonus-All P (c ∷ cs) h = (h.0, add_bonus-All P cs h.1)

  At-keep_if :
      (p : Candidate F → Bool) (c : Candidate F) (cs : List (Candidate F))
      → At c (keep_if p cs)
      → At c cs
  At-keep_if p c [] m = elim m [ ]
  At-keep_if p c (d ∷ ds) m = elim (Bool-cases (p d)) [
    | inl e ↦ elim (At-cases (rw e at m)) [
      | inl same ↦ rw same here
      | inr later ↦ there (At-keep_if p c ds later)
    ]
    | inr e ↦ there (At-keep_if p c ds (rw e at m))
  ]

  abbrev pub Beats : Candidate F → Candidate F → Type 0
  Beats c d = F.is_greater d.score c.score ≡ false

  skip_second :
      (c d : Candidate F) {b : Candidate F} {ds : List (Candidate F)}
      → At b (c ∷ ds)
      → At b (c ∷ d ∷ ds)
  skip_second c d here = here
  skip_second c d (there m) = there (there m)

  kept :
      (c d : Candidate F) (ds : List (Candidate F))
      → F.is_greater c.score d.score ≡ true
      → best_from F c (d ∷ ds) ≡ best_from F c ds
  unfolding best_from
  kept c d ds e = rw e refl

  changed :
      (c d : Candidate F) (ds : List (Candidate F))
      → F.is_greater c.score d.score ≡ false
      → best_from F c (d ∷ ds) ≡ best_from F d ds
  unfolding best_from
  changed c d ds e = rw e refl

  best_from-At : (c : Candidate F) (cs : List (Candidate F)) → At (best_from F c cs) (c ∷ cs)
  unfolding best_from
  best_from-At c [] = here
  best_from-At c (d ∷ ds) = elim (Bool-cases (F.is_greater c.score d.score)) [
    | inl e ↦ rw e (skip_second c d (best_from-At c ds))
    | inr e ↦ rw e (there (best_from-At d ds))
  ]

module _ (F : Scores) (order : IsOrder F) where
  not_greater_self : (c : Candidate F) → Beats F c c
  not_greater_self c = elim (Bool-cases (F.is_greater c.score c.score)) [
    | inl e ↦ order.strict c.score c.score e
    | inr e ↦ e
  ]

  best_from-first :
      (x c : Candidate F) (ds : List (Candidate F)) → Beats F c x → Beats F (best_from F c ds) x
  unfolding best_from
  best_from-first x c [] h = h
  best_from-first x c (d ∷ ds) h = elim (Bool-cases (F.is_greater c.score d.score)) [
    | inl e ↦ subst (λ b. Beats F b x) (sym (kept F c d ds e)) (best_from-first x c ds h)
    | inr e ↦
        subst (λ b. Beats F b x) (sym (changed F c d ds e))
          (best_from-first x d ds (order.carries x.score c.score d.score h e))
  ]

  best_from-Beats :
      (c : Candidate F) (ds : List (Candidate F)) → All (Beats F (best_from F c ds)) ds
  unfolding best_from
  best_from-Beats c [] = tt
  best_from-Beats c (d ∷ ds) = elim (Bool-cases (F.is_greater c.score d.score)) [
    | inl e ↦
        subst (λ b. All (Beats F b) (d ∷ ds)) (sym (kept F c d ds e))
          (best_from-first d c ds (order.strict c.score d.score e), best_from-Beats c ds)
    | inr e ↦
        subst (λ b. All (Beats F b) (d ∷ ds)) (sym (changed F c d ds e))
          (best_from-first d d ds (not_greater_self d), best_from-Beats d ds)
  ]

  best-Beats :
      (cs : List (Candidate F)) (c : Candidate F)
      → best F cs ≡ some c
      → At c cs × All (Beats F c) cs
  unfolding best
  best-Beats [] c h = absurd (cc h)
  best-Beats (d ∷ ds) c h =
      let same : best_from F d ds ≡ c = cc h in
      subst (λ b. At b (d ∷ ds) × All (Beats F b) (d ∷ ds)) same
        (best_from-At F d ds, (best_from-first d d ds (not_greater_self d), best_from-Beats d ds))

  module _ (walked : List (Candidate F) → List (Candidate F))
      (walks : (cs : List (Candidate F)) (c : Candidate F) → At c (walked cs) → At c cs) where
    competitor-Sourced :
        (p : Predictor) (prefix cwd : Text) (now : ℤ) (c : Candidate F)
        → At c (competitors F walked p prefix cwd now)
        → Sourced F p.history prefix c.cmd
    unfolding competitors
    competitor-Sourced p prefix cwd now c m =
        All-at (λ (d : Candidate F). Sourced F p.history prefix d.cmd) _
          (add_bonus-All F (Sourced F p.history prefix) _ (
            aggregate-All F (Sourced F p.history prefix) prefix cwd now p.history []
              (λ e k t. (t, (e, k, refl))) tt))
          (walks _ c (At-keep_if F _ c _ m))

    -- If the order of the scores is strict and carries on, as without NaN, then a suggestion is a
    -- command of the history that goes on from what was typed, and its score is that of a
    -- candidate whose score no other one exceeds, in whatever order the map is walked.
    pub suggest-best :
        (p : Predictor) (prefix cwd : Text) (now : ℤ) (cmd : Text)
        → suggest F walked p prefix cwd now ≡ some cmd
        → Sourced F p.history (trim_start prefix) cmd
          × ((c : Candidate F) × At c (competitors F walked p (trim_start prefix) cwd now)
              × (c.cmd ≡ cmd)
              × All (Beats F c) (competitors F walked p (trim_start prefix) cwd now))
    unfolding suggest
    suggest-best p prefix cwd now cmd h = elim (Bool-cases (ltb (utf8_len (trim_start prefix)) 1)) [
      | inl e ↦ absurd (nothing (rw e at h))
      | inr e ↦ elim (Option-cases (best F (competitors F walked p (trim_start prefix) cwd now))) [
        | inl b ↦ absurd (nothing (rw (e, b) at h))
        | inr (c, b) ↦
            let same : c.cmd ≡ cmd = some_injective (rw (e, b) at h) in
            let (m, beats) = best-Beats _ c b in
            (
              subst (λ t. Sourced F p.history (trim_start prefix) t) same
                  (competitor-Sourced p (trim_start prefix) cwd now c m),
              (c, m, same, beats),
            )
      ]
    ]
