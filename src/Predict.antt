-- ===== src/Predict.antt =====
-- src/predict.rs: the history in memory and the command that it suggests. Floating-point numbers and the
-- order in which a `HashMap` is walked are arguments.
pub mod Capacity
pub mod Suggest
pub mod Outcome
pub mod Tests
use fore_ai_assisted_termina.Prelude.{
  ℕ, zero, suc, ◌+◌, Bool, true, false, not, ◌&&◌, ◌||◌, Option, none, some, List, [], ◌∷◌, ltb,
  leb, ◌==◌, if◌then◌else◌, length, pop, take, keep_if, ℤ, pos, eq_ℤ, excess,
}
use fore_ai_assisted_termina.Prelude.Text.{Text, text_eq, starts_with, trim_start, utf8_len}
use fore_ai_assisted_termina.Store.{HistoryEntry, is_none}

-- Newest first.
pub record Predictor : Type 0 where
  pub history : List HistoryEntry
  pub capacity : ℕ

-- `Vec::truncate`
unfoldable pub new : List HistoryEntry → ℕ → Predictor
new history capacity = record { history = take capacity history; capacity = capacity }

unfoldable pub push : Predictor → HistoryEntry → Predictor
push p entry =
    let longer = entry ∷ p.history in
    record p { history = if ltb p.capacity (length longer) then pop longer else longer }

-- The first entry without an exit code, finished.
unfoldable pub finish_first : ℤ → ℕ → List HistoryEntry → List HistoryEntry
finish_first code ms [] = []
finish_first code ms (e ∷ es) =
    let rest = e ∷ finish_first code ms es in
    if is_none e.exit_code
    then record e { exit_code = some code; duration_ms = some ms } ∷ es
    else rest

unfoldable pub mark_done : Predictor → ℤ → ℕ → Predictor
mark_done p code ms = record p { history = finish_first code ms p.history }

unfoldable pub replace : Predictor → List HistoryEntry → Predictor
replace p history = record p { history = take p.capacity history }

unfoldable pub recent_in : Predictor → Text → ℕ → List HistoryEntry
recent_in p cwd n =
    let out = take n (keep_if (λ e. text_eq e.cwd cwd || starts_with e.cwd cwd) p.history) in
    if ltb (length out) 3 then take n p.history else out

-- The operations on `f64` that the scores are made of.
pub record Scores : Type 1 where
  pub Score : Type 0
  pub literal : (halves : ℕ) → Score
  pub add : Score → Score → Score
  pub sub : Score → Score → Score
  pub decay : (age_ms : ℕ) → Score
  pub log2 : ℕ → Score
  pub is_positive : Score → Bool
  pub is_greater : Score → Score → Bool

module _ (F : Scores) where
  pub record Candidate : Type 0 where
    pub cmd : Text
    pub score : F.Score
    pub count : ℕ

  -- 3.0, 1.5 and 0.0
  unfoldable pub dir_affinity : Text → Text → F.Score
  dir_affinity a b =
      if text_eq a b
      then F.literal 6
      else if starts_with a b || starts_with b a
      then F.literal 3
      else F.literal 0

  abbrev pub failed : Option ℤ → Bool
  failed none = false
  failed (some code) = not (eq_ℤ code (pos 0))

  -- What one occurrence adds to the score of its command.
  unfoldable pub occurrence : HistoryEntry → Text → ℤ → F.Score
  occurrence e cwd now =
      let near = F.add (F.literal 0) (dir_affinity e.cwd cwd) in
      let s = F.add near (F.decay (excess now e.ts_ms)) in
      if failed e.exit_code then F.sub s (F.literal 4) else s

  -- The two maps `agg` and `counts` in one: both have the same keys.
  unfoldable pub tally : Text → F.Score → List Candidate → List Candidate
  tally cmd s [] = record { cmd = cmd; score = s; count = 1 } ∷ []
  tally cmd s (c ∷ cs) =
      let rest = c ∷ tally cmd s cs in
      if text_eq c.cmd cmd
      then record { cmd = c.cmd; score = F.add c.score s; count = suc c.count } ∷ cs
      else rest

  abbrev pub extends : Text → Text → Bool
  extends prefix cmd = starts_with cmd prefix && not (utf8_len cmd == utf8_len prefix)

  -- The loop over the history, `agg` being the candidates so far.
  unfoldable pub aggregate : Text → Text → ℤ → List HistoryEntry → List Candidate → List Candidate
  aggregate prefix cwd now [] agg = agg
  aggregate prefix cwd now (e ∷ es) agg =
      let skipped = aggregate prefix cwd now es agg in
      let counted = aggregate prefix cwd now es (tally e.cmd (occurrence e cwd now) agg) in
      if extends prefix e.cmd then counted else skipped

  -- The bonus for frequency.
  unfoldable pub add_bonus : List Candidate → List Candidate
  add_bonus [] = []
  add_bonus (c ∷ cs) = record c { score = F.add c.score (F.log2 c.count) } ∷ add_bonus cs

  -- `max_by`: of equal elements the last, and what does not compare counts as equal.
  unfoldable pub best_from : Candidate → List Candidate → Candidate
  best_from c [] = c
  best_from c (d ∷ ds) = best_from (if F.is_greater c.score d.score then c else d) ds

  unfoldable pub best : List Candidate → Option Candidate
  best [] = none
  best (c ∷ cs) = some (best_from c cs)

  module _ (walked : List Candidate → List Candidate) where
    -- The candidates that compete: in the order of the map, with a positive score.
    unfoldable pub competitors : Predictor → Text → Text → ℤ → List Candidate
    competitors p prefix cwd now =
        keep_if (λ c. F.is_positive c.score)
          (walked (add_bonus (aggregate prefix cwd now p.history [])))

    unfoldable pub suggest : Predictor → Text → Text → ℤ → Option Text
    suggest p prefix cwd now =
        let typed = trim_start prefix in
        let winner : Option Text = elim (best (competitors p typed cwd now)) [
          | none ↦ none
          | some c ↦ some c.cmd
        ] in
        if ltb (utf8_len typed) 1 then none else winner
