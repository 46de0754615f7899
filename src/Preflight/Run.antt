-- ===== src/Preflight/Run.antt =====
-- `run` of src/preflight.rs: the findings of a line, in the order in which they are shown.
use fore_ai_assisted_termina.Prelude.{
  ℕ, Bool, true, false, not, ◌&&◌, Option, List, [], ◌∷◌, ◌++◌, ltb, if◌then◌else◌, any, map,
  keep_if,
}
use fore_ai_assisted_termina.Prelude.Text.{
  Text, codes, text_eq, is, is_empty, holds, split, trim, join,
}
use fore_ai_assisted_termina.Safety.Risk.{Risk, destructive, Assessment}
use fore_ai_assisted_termina.Safety.Command.{Node}
use fore_ai_assisted_termina.Safety.Assess.{assess}
use fore_ai_assisted_termina.Store.{HistoryEntry}
use fore_ai_assisted_termina.Preflight.{
  block, level, is_block, Finding, EnvSnapshot, Options, Preflight, SimpleCmd, Site,
}
use fore_ai_assisted_termina.Preflight.Commands.{split_commands}
use fore_ai_assisted_termina.Preflight.Guards.{guards, or_text}
use fore_ai_assisted_termina.Preflight.GitPreviews.{previews}
use fore_ai_assisted_termina.Preflight.Insights.{insights}

unfoldable pub ignored_checks : EnvSnapshot → List Text
ignored_checks env =
    keep_if (λ s. not (is_empty s)) (map trim (split b',' (or_text "" env.ignored)))

unfoldable pub is_ignored : EnvSnapshot → Finding → Bool
is_ignored env f = any (text_eq f.check) (ignored_checks env)

-- A preview that says this.
unfoldable pub is_noop : List Finding → Bool
is_noop fs = any (λ (f : Finding). is f.check "preview" && holds f.text "nothing matches") fs

unfoldable pub is_trashed : Options → List Finding → Bool
is_trashed opts fs =
    opts.safe_rm && any (λ (f : Finding). is f.check "preview" && holds f.text "→ trash") fs

abbrev pub is_destructive : Risk → Bool
is_destructive destructive = true
is_destructive _ = false

abbrev pub has_block : List Finding → Bool
has_block fs = any (λ (f : Finding). is_block f.severity) fs

-- The finding that a destructive command gets if nothing else has said so.
unfoldable pub last_resort : Options → Assessment → List Finding → List Finding
last_resort opts a out =
    if is_destructive a.risk
      && not (is_noop out)
      && not (is_trashed opts out)
      && not (has_block out)
    then record {
      severity = block;
      text = join (codes "; ") a.reasons;
      check = codes "destructive";
    }
      ∷ []
    else []

-- `sort_by_key(Reverse(severity))`, which is stable
unfoldable pub insert_finding : Finding → List Finding → List Finding
insert_finding f [] = f ∷ []
insert_finding f (g ∷ gs) =
    let later = g ∷ insert_finding f gs in
    if ltb (level f.severity) (level g.severity) then later else f ∷ g ∷ gs

unfoldable pub by_severity : List Finding → List Finding
by_severity [] = []
by_severity (f ∷ fs) = insert_finding f (by_severity fs)

-- `dedup_by`, behind the finding that was kept last
unfoldable pub dedup_behind : Finding → List Finding → List Finding
dedup_behind f [] = []
dedup_behind f (g ∷ gs) =
    let dropped = dedup_behind f gs in
    let kept = g ∷ dedup_behind g gs in if text_eq g.text f.text then dropped else kept

unfoldable pub dedup_text : List Finding → List Finding
dedup_text [] = []
dedup_text (f ∷ fs) = f ∷ dedup_behind f fs

module _ (show : ℕ → ℕ → Text) (site : Site) (env : EnvSnapshot) (opts : Options) (cmd cwd : Text)
    (history : List HistoryEntry) where
  -- The loop over the simple commands.
  unfoldable pub check_all : List SimpleCmd → List Finding
  check_all [] = []
  check_all (c ∷ cs) = guards site env opts c ++ (previews show site opts c ++ check_all cs)

  -- What is found, before the order is made.
  unfoldable pub raised : Assessment → Option Node → List Finding
  raised a tree =
      let out = check_all (split_commands tree) ++ insights show cmd cwd history in
      out ++ last_resort opts a out

  unfoldable pub shown : List Finding → List Finding
  shown out = dedup_text (by_severity (keep_if (λ f. not (is_ignored env f)) out))

  -- With the assessment of the line and the tree that the parser gives for it.
  unfoldable pub run_on : Assessment → Option Node → Preflight
  run_on a tree = record { findings = shown (raised a tree); risk = a.risk }

  unfoldable pub run : (Text → Option Node) → ℕ → Preflight
  run parse depth = run_on (assess parse depth cmd) (parse cmd)
