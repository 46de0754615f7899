-- ===== src/Predict/Tests.antt =====
-- Concrete histories for the theorems on src/predict.rs, with scores in whole numbers.
use fore_ai_assisted_termina.Prelude.{
  ℕ, ◌+◌, ◌-◌, ◌≤◌, ◌≡◌, refl, Option, none, some, List, [], ◌∷◌, map, arith, ltb, if◌then◌else◌,
  length, All, At, ℤ, pos, String,
}
use fore_ai_assisted_termina.Prelude.Text.{codes, text_eq, starts_with, trim_start}
use fore_ai_assisted_termina.Store.{Row, Store, HistoryEntry, entry_of, record_done}
use fore_ai_assisted_termina.Predict.{
  Predictor, new, push, mark_done, Scores, Candidate, dir_affinity, occurrence, tally, aggregate,
  add_bonus, best_from, best, competitors, suggest,
}
use fore_ai_assisted_termina.Predict.Capacity.{Reached, made, grown, pushed, Reached-IsBounded}
use fore_ai_assisted_termina.Predict.Outcome.{IsNext, mark_done-record_done}
use fore_ai_assisted_termina.Predict.Suggest.{IsOrder, Sourced, Beats, suggest-best}

abbrev entry : String → String → Option ℤ → HistoryEntry
entry cmd cwd code = record {
  cmd = codes cmd;
  cwd = codes cwd;
  exit_code = code;
  ts_ms = pos 100;
  duration_ms = none;
}

abbrev cargo : List HistoryEntry
cargo =
    entry "cargo test" "/proj/rs" (some (pos 0))
    ∷ entry "cargo build" "/proj/js" (some (pos 0))
    ∷ []

abbrev small : Predictor
small = new cargo 2

small-Reached : Reached 2 (push small (entry "ls" "/" none))
small-Reached = grown (made cargo) (pushed (entry "ls" "/" none))

Reached-IsBounded_example : length (push small (entry "ls" "/" none)).history ≤ 2
Reached-IsBounded_example = Reached-IsBounded 2 (push small (entry "ls" "/" none)) small-Reached

abbrev full : Predictor
full = record { history = cargo; capacity = 2 }

abbrev row : Row
row = record {
  id = 1;
  session = codes "a";
  cmd = codes "make";
  cwd = codes "/p";
  git_branch = none;
  ts_ms = pos 1;
  exit_code = none;
  duration_ms = none;
}

abbrev table : Store
table = record { rows = row ∷ []; counters = [] }

abbrev mirror : Predictor
mirror = record { history = map entry_of (row ∷ []); capacity = 9 }

row-IsNext : IsNext (codes "a") (row ∷ [])
unfolding text_eq
row-IsNext = refl

mark_done-record_done_example :
    (mark_done mirror (pos 1) 5).history
    ≡ map entry_of (record_done table (codes "a") (pos 1) 5).0.rows
mark_done-record_done_example =
    mark_done-record_done table mirror (codes "a") (pos 1) 5 (tt, tt) refl (omega arith) row-IsNext

abbrev pub whole : Scores
whole = record {
  Score = ℕ;
  literal = λ n. n;
  add = λ a b. a + b;
  sub = λ a b. a - b;
  decay = λ age. if ltb age 1000 then 2 else 0;
  log2 = λ n. n - 1;
  is_positive = λ a. ltb 0 a;
  is_greater = λ a b. ltb b a;
}

whole-IsOrder : IsOrder whole
whole-IsOrder = record {
  strict = λ a b h. ground (arith, h);
  carries = λ a b c h k. ground (arith, h, k);
}

abbrev same : List (Candidate whole) → List (Candidate whole)
same cs = cs

suggests :
    suggest whole same full (codes "c") (codes "/proj/rs") (pos 200) ≡ some (codes "cargo test")
unfolding suggest competitors aggregate add_bonus best best_from tally occurrence dir_affinity
    text_eq starts_with
suggests = refl

suggest-best_example :
    Sourced whole full.history (trim_start (codes "c")) (codes "cargo test")
    × ((c : Candidate whole) × At c
          (competitors whole same full (trim_start (codes "c")) (codes "/proj/rs") (pos 200))
        × (c.cmd ≡ codes "cargo test")
        × All
            (Beats whole c)
            (competitors whole same full (trim_start (codes "c")) (codes "/proj/rs") (pos 200)))
suggest-best_example =
    suggest-best whole whole-IsOrder same (λ cs c m. m) full (codes "c") (codes "/proj/rs")
      (pos 200) (codes "cargo test") suggests
