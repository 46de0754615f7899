-- ===== src/Preflight/Sorted.antt =====
-- The order of the findings that `run` of src/preflight.rs returns.
use fore_ai_assisted_termina.Prelude.{
  ℕ, ◌≤◌, ◌≡◌, inl, inr, Bool, true, false, not, Bool-cases, Option, List, [], ◌∷◌, arith, ltb, All,
  keep_if,
}
use fore_ai_assisted_termina.Prelude.Text.{Text, text_eq}
use fore_ai_assisted_termina.Safety.Command.{Node}
use fore_ai_assisted_termina.Store.{HistoryEntry}
use fore_ai_assisted_termina.Preflight.{level, Finding, EnvSnapshot, Options, Site}
use fore_ai_assisted_termina.Preflight.Run.{
  is_ignored, insert_finding, by_severity, dedup_behind, dedup_text, shown, run_on, run,
}

abbrev pub NotAbove : Finding → List Finding → Type 0
NotAbove f gs = All (λ (g : Finding). level g.severity ≤ level f.severity) gs

-- The most severe first.
abbrev pub Descending : List Finding → Type 0
Descending [] = Unit
Descending (f ∷ fs) = NotAbove f fs × Descending fs

-- No finding has the text of the one in front of it.
abbrev pub ChangesBehind : Finding → List Finding → Type 0
ChangesBehind f [] = Unit
ChangesBehind f (g ∷ gs) = (text_eq g.text f.text ≡ false) × ChangesBehind g gs

abbrev pub Changes : List Finding → Type 0
Changes [] = Unit
Changes (f ∷ fs) = ChangesBehind f fs

keep_if-All :
    (keep : Finding → Bool) (fs : List Finding) → All (λ f. keep f ≡ true) (keep_if keep fs)
keep_if-All keep [] = tt
keep_if-All keep (f ∷ fs) = elim (Bool-cases (keep f)) [
  | inl e ↦ rw e (e, keep_if-All keep fs)
  | inr e ↦ rw e (keep_if-All keep fs)
]

insert_finding-All {ℓ} :
    (P : Finding → Type ℓ) (f : Finding) (fs : List Finding)
    → P f
    → All P fs
    → All P (insert_finding f fs)
unfolding insert_finding
insert_finding-All P f [] h k = (h, tt)
insert_finding-All P f (g ∷ gs) h k =
    elim (Bool-cases (ltb (level f.severity) (level g.severity))) [
      | inl e ↦ rw (e, insert_finding) (k.0, insert_finding-All P f gs h k.1)
      | inr e ↦ rw (e, insert_finding) (h, k)
    ]

by_severity-All {ℓ} : (P : Finding → Type ℓ) (fs : List Finding) → All P fs → All P (by_severity fs)
unfolding by_severity
by_severity-All P [] h = tt
by_severity-All P (f ∷ fs) h =
    insert_finding-All P f (by_severity fs) h.0 (by_severity-All P fs h.1)

not_above :
    (f g : Finding) (gs : List Finding)
    → level g.severity ≤ level f.severity
    → NotAbove g gs
    → NotAbove f gs
not_above f g [] h k = tt
not_above f g (x ∷ xs) h k = (omega (arith, h, k.0), not_above f g xs h k.1)

insert_finding-Descending :
    (f : Finding) (fs : List Finding) → Descending fs → Descending (insert_finding f fs)
unfolding insert_finding
insert_finding-Descending f [] h = (tt, tt)
insert_finding-Descending f (g ∷ gs) h =
    elim (Bool-cases (ltb (level f.severity) (level g.severity))) [
      | inl e ↦
          rw (e, insert_finding)
            (insert_finding-All _ f gs (below f g e) h.0, insert_finding-Descending f gs h.1)
      | inr e ↦ rw (e, insert_finding) ((above f g e, not_above f g gs (above f g e) h.0), h)
    ]
  where
    below :
        (f g : Finding)
        → ltb (level f.severity) (level g.severity) ≡ true
        → level f.severity ≤ level g.severity
    below f g e = ground (arith, e)

    above :
        (f g : Finding)
        → ltb (level f.severity) (level g.severity) ≡ false
        → level g.severity ≤ level f.severity
    above f g e = ground (arith, e)

pub by_severity-Descending : (fs : List Finding) → Descending (by_severity fs)
unfolding by_severity
by_severity-Descending [] = tt
by_severity-Descending (f ∷ fs) =
    insert_finding-Descending f (by_severity fs) (by_severity-Descending fs)

dedup_behind-All {ℓ} :
    (P : Finding → Type ℓ) (f : Finding) (fs : List Finding) → All P fs → All P (dedup_behind f fs)
unfolding dedup_behind
dedup_behind-All P f [] h = tt
dedup_behind-All P f (g ∷ gs) h = elim (Bool-cases (text_eq g.text f.text)) [
  | inl e ↦ rw (e, dedup_behind) (dedup_behind-All P f gs h.1)
  | inr e ↦ rw (e, dedup_behind) (h.0, dedup_behind-All P g gs h.1)
]

dedup_behind-Descending :
    (f : Finding) (fs : List Finding) → Descending fs → Descending (dedup_behind f fs)
unfolding dedup_behind
dedup_behind-Descending f [] h = tt
dedup_behind-Descending f (g ∷ gs) h = elim (Bool-cases (text_eq g.text f.text)) [
  | inl e ↦ rw (e, dedup_behind) (dedup_behind-Descending f gs h.1)
  | inr e ↦ rw (e, dedup_behind) (dedup_behind-All _ g gs h.0, dedup_behind-Descending g gs h.1)
]

dedup_behind-Changes : (f : Finding) (fs : List Finding) → ChangesBehind f (dedup_behind f fs)
unfolding dedup_behind
dedup_behind-Changes f [] = tt
dedup_behind-Changes f (g ∷ gs) = elim (Bool-cases (text_eq g.text f.text)) [
  | inl e ↦ rw (e, dedup_behind) (dedup_behind-Changes f gs)
  | inr e ↦ rw (e, dedup_behind) (e, dedup_behind-Changes g gs)
]

-- In the order of severity, nothing that is to be ignored, and no text twice in a row.
abbrev pub WellShown : EnvSnapshot → List Finding → Type 0
WellShown env fs = Descending fs × All (λ f. is_ignored env f ≡ false) fs × Changes fs

dedup_text-WellShown :
    (env : EnvSnapshot) (fs : List Finding)
    → Descending fs
    → All (λ f. is_ignored env f ≡ false) fs
    → WellShown env (dedup_text fs)
unfolding dedup_text
dedup_text-WellShown env [] h k = (tt, tt, tt)
dedup_text-WellShown env (f ∷ fs) h k = (
  (dedup_behind-All _ f fs h.0, dedup_behind-Descending f fs h.1),
  (k.0, dedup_behind-All _ f fs k.1),
  dedup_behind-Changes f fs,
)

kept_not_ignored :
    (env : EnvSnapshot) (fs : List Finding)
    → All (λ f. not (is_ignored env f) ≡ true) fs
    → All (λ f. is_ignored env f ≡ false) fs
kept_not_ignored env [] h = tt
kept_not_ignored env (f ∷ fs) h = (ground (arith, h.0), kept_not_ignored env fs h.1)

-- Whatever the line, the disk, the history and the settings: the findings that are shown come the
-- most severe first, none is of a check that the user ignores, and none repeats the text of the
-- one in front of it.
pub run-WellShown :
    (show : ℕ → ℕ → Text) (site : Site) (env : EnvSnapshot) (opts : Options) (cmd cwd : Text)
    (history : List HistoryEntry) (parse : Text → Option Node) (depth : ℕ)
    → WellShown env (run show site env opts cmd cwd history parse depth).findings
unfolding run run_on shown
run-WellShown show site env opts cmd cwd history parse depth =
    dedup_text-WellShown env _ (by_severity-Descending _)
      (by_severity-All _ _ (kept_not_ignored env _ (keep_if-All (λ f. not (is_ignored env f)) _)))
