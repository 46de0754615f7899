-- ===== src/Preflight/Insights.antt =====
-- `insights` of src/preflight.rs: what the history knows of a command.
use fore_ai_assisted_termina.Prelude.{
  ℕ, suc, ◌/◌, ◌&&◌, none, some, List, [], ◌∷◌, ◌++◌, leb, if◌then◌else◌, length, take, keep_if,
  get_elem?, pos, eq_ℤ,
}
use fore_ai_assisted_termina.Prelude.Text.{Text, codes, text_eq}
use fore_ai_assisted_termina.Prelude.Text.Decimal.{decimal}
use fore_ai_assisted_termina.Store.{HistoryEntry}
use fore_ai_assisted_termina.Preflight.{info, warn, Finding, tells, fmt_dur}

unfoldable pub same_runs : Text → Text → List HistoryEntry → List HistoryEntry
same_runs cmd cwd history =
    take 20 (keep_if (λ (e : HistoryEntry). text_eq e.cmd cmd && text_eq e.cwd cwd) history)

-- The loop that counts failures up to the first success; a run without an exit code counts for nothing.
unfoldable pub streak : List HistoryEntry → ℕ
streak [] = 0
streak (e ∷ es) =
    let rest = streak es in
    elim e.exit_code [ none ↦ rest | some code ↦ if eq_ℤ code (pos 0) then 0 else suc rest ]

-- The durations of the successful runs.
unfoldable pub durations : List HistoryEntry → List ℕ
durations [] = []
durations (e ∷ es) =
    let rest = durations es in
    elim e.exit_code [
      | none ↦ rest
      | some code ↦ elim e.duration_ms [
        | none ↦ rest
        | some ms ↦ if eq_ℤ code (pos 0) then ms ∷ rest else rest
      ]
    ]

unfoldable pub insert_duration : ℕ → List ℕ → List ℕ
insert_duration d [] = d ∷ []
insert_duration d (e ∷ es) =
    let later = e ∷ insert_duration d es in if leb d e then d ∷ e ∷ es else later

unfoldable pub sort_durations : List ℕ → List ℕ
sort_durations [] = []
sort_durations (d ∷ ds) = insert_duration d (sort_durations ds)

module _ (show : ℕ → ℕ → Text) where
  unfoldable pub duration_finding : List ℕ → List Finding
  duration_finding durs = elim (get_elem? (sort_durations durs) (length durs / 2)) [
    | none ↦ []
    | some med ↦
        if leb 2 (length durs) && leb 10000 med
        then tells info "duration" (
            codes "usually takes ~"
            ++ (fmt_dur show med ++ (codes " here (" ++ (decimal (length durs) ++ codes " runs)"))))
        else []
  ]

  unfoldable pub insights : Text → Text → List HistoryEntry → List Finding
  insights cmd cwd history =
      let same = same_runs cmd cwd history in
      (if leb 2 (streak same)
        then tells warn "streak" (
            codes "this exact command failed the last "
            ++ (decimal (streak same) ++ codes " times here — Ctrl-/ has a fix ready"))
        else [])
      ++ duration_finding (durations same)
