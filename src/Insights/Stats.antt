-- ===== src/Insights/Stats.antt =====
-- `stats` of src/insights.rs. Fractions, and the order in which each `HashMap` is walked, are arguments.
use fore_ai_assisted_termina.Prelude.{
  ℕ, suc, ◌+◌, ◌/◌, Bool, false, not, ◌&&◌, Option, none, some, List, [], ◌∷◌, ltb, leb,
  if◌then◌else◌, length, take, keep_if, get_elem?, map, ℤ, pos, eq_ℤ, ltb_ℤ,
}
use fore_ai_assisted_termina.Prelude.Text.{Text, text_eq}
use fore_ai_assisted_termina.Prelude.Sort.{sort_by, higher}
use fore_ai_assisted_termina.Store.{HistoryEntry}
use fore_ai_assisted_termina.Insights.Mine.{Tally, count_in}

pub record Counters : Type 0 where
  pub suggest_shown : ℕ
  pub suggest_accepted : ℕ
  pub chars_saved : ℕ
  pub fix_requested : ℕ
  pub ask_requested : ℕ
  pub blocks_shown : ℕ

-- A command with its runs and its failures.
abbrev pub Runs : Type 0
Runs = Text × ℕ × ℕ

-- An exit code other than 0 and 130, that of an interrupt.
abbrev pub is_failure : HistoryEntry → Bool
is_failure e = elim e.exit_code [
  | none ↦ false
  | some c ↦ not (eq_ℤ c (pos 0)) && not (eq_ℤ c (pos 130))
]

unfoldable pub count_run : HistoryEntry → List Runs → List Runs
count_run e [] = (e.cmd, 1, if is_failure e then 1 else 0) ∷ []
count_run e ((c, r, f) ∷ fs) =
    let rest = (c, r, f) ∷ count_run e fs in
    if text_eq c e.cmd then (c, suc r, if is_failure e then suc f else f) ∷ fs else rest

-- `let s = map.entry(k).or_insert(0); if d > *s { *s = d; }`
unfoldable pub raise_in : Text → ℕ → Tally → Tally
raise_in k d [] = (k, d) ∷ []
raise_in k d ((x, n) ∷ fs) =
    let rest = (x, n) ∷ raise_in k d fs in
    if text_eq x k then (x, if ltb n d then d else n) ∷ fs else rest

-- The variables of the loop over the history.
pub record Sums : Type 0 where
  pub freq : List Runs
  pub dirs : Tally
  pub durs : List ℕ
  pub waiting : ℕ
  pub slowest : Tally

unfoldable pub add_duration : Text → Option ℕ → Sums → Sums
add_duration cmd none s = s
add_duration cmd (some d) s = record s {
  durs = d ∷ s.durs;
  waiting = if leb 1000 d then s.waiting + d else s.waiting;
  slowest = raise_in cmd d s.slowest;
}

unfoldable pub visit_all : List HistoryEntry → Sums → Sums
visit_all [] s = s
visit_all (e ∷ es) s = visit_all es (
    add_duration e.cmd e.duration_ms
      (record s { freq = count_run e s.freq; dirs = count_in e.cwd s.dirs }))

abbrev pub earliest : ℤ → List HistoryEntry → ℤ
earliest t [] = t
earliest t (e ∷ es) = earliest (if ltb_ℤ e.ts_ms t then e.ts_ms else t) es

abbrev pub oldest : ℤ → List HistoryEntry → ℤ
oldest now [] = now
oldest now (e ∷ es) = earliest e.ts_ms es

-- The upper one of the two in the middle.
unfoldable pub median : List ℕ → ℕ
median durs = elim (get_elem? (sort_by (λ d e. ltb d e) durs) (length durs / 2)) [
  | none ↦ 0
  | some d ↦ d
]

-- `sort_by_key(Reverse(…))` and `truncate`
abbrev pub highest : ℕ → Tally → Tally
highest n fs = take n (sort_by (higher (λ (e : Text × ℕ). e.1)) fs)

module _ (F : Type 0) where
  pub record Stats : Type 0 where
    pub window_days : F
    pub commands : ℕ
    pub commands_per_day : F
    pub failures : ℕ
    pub failure_rate : F
    pub distinct_commands : ℕ
    pub sessions : ℕ
    pub median_duration_ms : ℕ
    pub time_waiting_ms : ℕ
    pub top_commands : Tally
    pub slowest : Tally
    pub most_failing : List Runs
    pub busiest_dirs : Tally
    pub counters : Counters

module _ (F : Type 0) (days : ℤ → ℤ → F) (per : ℕ → F → F) (share : ℕ → ℕ → F) (nought : F)
    (walked_runs : List Runs → List Runs) (walked : Tally → Tally) where
  -- `days` is the time from the first to the second in days, an hour at least.
  unfoldable pub stats : List HistoryEntry → ℕ → ℤ → Counters → Stats F
  stats history sessions now counters =
      let s =
        visit_all history (record { freq = []; dirs = []; durs = []; waiting = 0; slowest = [] }) in
      let window = days (oldest now history) now in
      let n = length history in
      let failures = length (keep_if is_failure history) in
      let runs = walked_runs s.freq in
      let failing = keep_if (λ (e : Runs). leb 2 e.2 && leb 2 e.1) runs in
      record {
        window_days = window;
        commands = n;
        commands_per_day = per n window;
        failures = failures;
        failure_rate = if ltb 0 n then share failures n else nought;
        distinct_commands = length s.freq;
        sessions = sessions;
        median_duration_ms = median s.durs;
        time_waiting_ms = s.waiting;
        top_commands = highest 8 (map (λ (e : Runs). (e.0, e.1)) runs);
        slowest = highest 5 (walked s.slowest);
        most_failing =
            take 5
              (sort_by (higher (λ (e : Runs). e.1)) (map (λ (e : Runs). (e.0, e.2, e.1)) failing));
        busiest_dirs = highest 5 (walked s.dirs);
        counters = counters;
      }
