-- ===== src/Store/Tests.antt =====
-- Concrete tables for the theorems on src/store.rs.
use fore_ai_assisted_termina.Prelude.{
  ℕ, ◌≡◌, refl, false, inr, At, here, there, none, List, [], ◌∷◌, arith, ℤ, pos,
}
use fore_ai_assisted_termina.Prelude.Text.{Text, codes, text_eq}
use fore_ai_assisted_termina.Store.{Row, Store, record_done, import, value_of}
use fore_ai_assisted_termina.Store.Rows.{IsDescending, finish, has_open, record_done-finish}
use fore_ai_assisted_termina.Store.Imports.{import-again}
use fore_ai_assisted_termina.Store.Invariant.{finish_command, insert_batch, apply_all, apply_all-At}

abbrev row : ℕ → Text → Row
row id session = record {
  id = id;
  session = session;
  cmd = codes "make";
  cwd = codes "/p";
  git_branch = none;
  ts_ms = pos id;
  exit_code = none;
  duration_ms = none;
}

-- Two sessions, each with a command that runs.
abbrev two_sessions : Store
two_sessions = record {
  rows = row 2 (codes "b") ∷ row 1 (codes "a") ∷ [];
  counters = (codes "shown", pos 3) ∷ [];
}

two_sessions-IsDescending : IsDescending (row 2 (codes "b") ∷ row 1 (codes "a") ∷ [])
two_sessions-IsDescending = ((omega arith, tt), (tt, tt))

record_done-finish_example : record_done two_sessions (codes "a") (pos 0) 5 ≡ (
  record two_sessions { rows = finish (codes "a") (pos 0) 5 two_sessions.rows },
  has_open (codes "a") two_sessions.rows,
)
record_done-finish_example =
    record_done-finish two_sessions (codes "a") (pos 0) 5 two_sessions-IsDescending

abbrev batch : List (Text × ℤ)
batch = (codes "ls", pos 7) ∷ (codes "ls", pos 7) ∷ (codes "pwd", pos 8) ∷ []

import-again_example :
    import (import two_sessions batch).0 batch ≡ ((import two_sessions batch).0, 0)
import-again_example = import-again two_sessions batch

shown : value_of (codes "shown") two_sessions.counters ≡ pos 3
unfolding value_of text_eq
shown = refl

a_is_not_b : text_eq (codes "a") (codes "b") ≡ false
unfolding text_eq
a_is_not_b = refl

-- The older row of session `a` is open, and a row of session `b` is finished.
apply_all-At_example :
    At
      (row 1 (codes "a"))
      (apply_all (insert_batch batch ∷ finish_command (codes "b") (pos 1) 9 ∷ []) two_sessions).rows
    × IsDescending
        (apply_all
          (insert_batch batch ∷ finish_command (codes "b") (pos 1) 9 ∷ [])
          two_sessions).rows
apply_all-At_example =
    apply_all-At (insert_batch batch ∷ finish_command (codes "b") (pos 1) 9 ∷ []) two_sessions
      (row 1 (codes "a")) two_sessions-IsDescending (inr (tt, (a_is_not_b, tt))) (there here)
