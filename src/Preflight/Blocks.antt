-- ===== src/Preflight/Blocks.antt =====
-- When `run` of src/preflight.rs makes the shell ask for a second Enter.
use fore_ai_assisted_termina.Prelude.{
  ℕ, ◌≤◌, ◌≡◌, refl, ap, ◌∙◌, inl, inr, Bool, true, false, not, ◌||◌, Bool-cases, Option, List, [],
  ◌∷◌, ◌++◌, arith, ltb, any, keep_if,
}
use fore_ai_assisted_termina.Prelude.Text.{Text, text_eq}
use fore_ai_assisted_termina.Safety.Risk.{Assessment}
use fore_ai_assisted_termina.Safety.Command.{Node}
use fore_ai_assisted_termina.Safety.Assess.{assess}
use fore_ai_assisted_termina.Store.{HistoryEntry}
use fore_ai_assisted_termina.Preflight.{
  Severity, info, warn, block, level, is_block, Finding, EnvSnapshot, Options, blocks, Site,
}
use fore_ai_assisted_termina.Preflight.Commands.{split_commands}
use fore_ai_assisted_termina.Preflight.Insights.{insights}
use fore_ai_assisted_termina.Preflight.Run.{
  ignored_checks, is_ignored, is_noop, is_trashed, is_destructive, has_block, last_resort,
  insert_finding, by_severity, dedup_behind, dedup_text, check_all, raised, shown, run_on, run,
}
use fore_ai_assisted_termina.Preflight.Sorted.{NotAbove, Descending, by_severity-Descending}

has_block-append_right : (fs gs : List Finding) → has_block gs ≡ true → has_block (fs ++ gs) ≡ true
has_block-append_right [] gs h = h
has_block-append_right (f ∷ fs) gs h = ground (arith, has_block-append_right fs gs h)

has_block-append_left : (fs gs : List Finding) → has_block fs ≡ true → has_block (fs ++ gs) ≡ true
has_block-append_left [] gs h = cc h
has_block-append_left (f ∷ fs) gs h = ground (arith, has_block-append_left fs gs, h)

has_block-insert :
    (f : Finding) (fs : List Finding) → has_block (insert_finding f fs) ≡ has_block (f ∷ fs)
unfolding insert_finding
has_block-insert f [] = refl
has_block-insert f (g ∷ gs) = elim (Bool-cases (ltb (level f.severity) (level g.severity))) [
  | inl e ↦ rw (e, insert_finding, has_block-insert f gs) (ground arith)
  | inr e ↦ rw (e, insert_finding) refl
]

has_block-by_severity : (fs : List Finding) → has_block (by_severity fs) ≡ has_block fs
unfolding by_severity
has_block-by_severity [] = refl
has_block-by_severity (f ∷ fs) =
    has_block-insert f (by_severity fs)
    ∙ ap (λ b. is_block f.severity || b) (has_block-by_severity fs)

block_above : (s t : Severity) → level t ≤ level s → is_block t ≡ true → is_block s ≡ true
block_above block t h k = refl
block_above warn block h k = absurd (omega (arith, h))
block_above info block h k = absurd (omega (arith, h))
block_above warn warn h k = cc k
block_above warn info h k = cc k
block_above info warn h k = cc k
block_above info info h k = cc k

-- A finding that is dropped is no more severe than the one that is kept in its place.
has_block-dedup :
    (f : Finding) (fs : List Finding)
    → NotAbove f fs
    → Descending fs
    → has_block (f ∷ fs) ≡ true
    → has_block (f ∷ dedup_behind f fs) ≡ true
unfolding dedup_behind
has_block-dedup f [] h d k = k
has_block-dedup f (g ∷ gs) h d k = elim (Bool-cases (text_eq g.text f.text)) [
  | inl e ↦
      rw (e, dedup_behind)
        (has_block-dedup f gs h.1 d.1 (ground (arith, k, block_above f.severity g.severity h.0)))
  | inr e ↦ rw (e, dedup_behind) (ground (arith, k, has_block-dedup g gs d.0 d.1))
]

has_block-dedup_text :
    (fs : List Finding) → Descending fs → has_block fs ≡ true → has_block (dedup_text fs) ≡ true
unfolding dedup_text
has_block-dedup_text [] d h = h
has_block-dedup_text (f ∷ fs) d h = has_block-dedup f fs d.0 d.1 h

-- What is not ignored of these blocks.
abbrev pub has_heard_block : EnvSnapshot → List Finding → Bool
has_heard_block env fs = has_block (keep_if (λ f. not (is_ignored env f)) fs)

module _ (show : ℕ → ℕ → Text) (site : Site) (env : EnvSnapshot) (opts : Options) (cmd cwd : Text)
    (history : List HistoryEntry) where
  shown-block :
      (out : List Finding)
      → has_heard_block env out ≡ true
      → has_block (shown show site env opts cmd cwd history out) ≡ true
  unfolding shown
  shown-block out h =
      has_block-dedup_text _ (by_severity-Descending _) (has_block-by_severity _ ∙ h)

  not_ignored : (f : Finding) → ignored_checks env ≡ [] → is_ignored env f ≡ false
  unfolding is_ignored
  not_ignored f e = ap (any (text_eq f.check)) e

  hears_all :
      (fs : List Finding)
      → ignored_checks env ≡ []
      → has_block fs ≡ true
      → has_heard_block env fs ≡ true
  hears_all [] e h = h
  hears_all (f ∷ fs) e h = rw (not_ignored f e) (ground (arith, h, hears_all fs e))

  -- What the guards, the previews and the history say of the line.
  abbrev pub said : Option Node → List Finding
  said tree =
      check_all show site env opts cmd cwd history (split_commands tree)
      ++ insights show cmd cwd history

  raised-block :
      (a : Assessment) (tree : Option Node)
      → is_destructive a.risk ≡ true
      → is_noop (said tree) ≡ false
      → is_trashed opts (said tree) ≡ false
      → has_block (raised show site env opts cmd cwd history a tree) ≡ true
  unfolding raised last_resort
  raised-block a tree d n t = elim (Bool-cases (has_block (said tree))) [
    | inl k ↦ has_block-append_left (said tree) _ k
    | inr k ↦ has_block-append_right (said tree) _ (rw (d, n, t, k) refl)
  ]

  -- A line that the classifier calls destructive asks for a second Enter, whatever else is known
  -- of it, unless a preview says that nothing matches or, with `safe_rm`, that it goes to the
  -- trash, or the user ignores some check.
  pub run-blocks :
      (parse : Text → Option Node) (depth : ℕ)
      → is_destructive (assess parse depth cmd).risk ≡ true
      → is_noop (said (parse cmd)) ≡ false
      → is_trashed opts (said (parse cmd)) ≡ false
      → ignored_checks env ≡ []
      → blocks (run show site env opts cmd cwd history parse depth) ≡ true
  unfolding run run_on blocks
  run-blocks parse depth d n t i =
      shown-block _ (hears_all _ i (raised-block (assess parse depth cmd) (parse cmd) d n t))
