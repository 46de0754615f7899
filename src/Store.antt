-- ===== src/Store.antt =====
-- src/store.rs: the table of commands and the counters. A table is the list of its rows, newest (with
-- the highest id) first; each function does what its SQL text says. The clock is an argument.
pub mod Rows
pub mod Imports
pub mod Counters
pub mod Invariant
pub mod Tests
use fore_ai_assisted_termina.Prelude.{
  ℕ, suc, ◌+◌, Bool, ◌&&◌, Option, none, some, List, [], ◌∷◌, ◌==◌, if◌then◌else◌, length, take,
  any, ℤ, pos, eq_ℤ, ltb_ℤ, clamp, as_i64, ◌+ℤ◌, true, false, map,
}
use fore_ai_assisted_termina.Prelude.Text.{Text, codes, text_eq, is}

pub record HistoryEntry : Type 0 where
  pub cmd : Text
  pub cwd : Text
  pub exit_code : Option ℤ
  pub ts_ms : ℤ
  pub duration_ms : Option ℕ

-- A row of the table `history`.
pub record Row : Type 0 where
  pub id : ℕ
  pub session : Text
  pub cmd : Text
  pub cwd : Text
  pub git_branch : Option Text
  pub ts_ms : ℤ
  pub exit_code : Option ℤ
  pub duration_ms : Option ℤ

pub record Store : Type 0 where
  pub rows : List Row
  pub counters : List (Text × ℤ)

-- `INTEGER PRIMARY KEY`: one above the highest id.
abbrev pub next_id : List Row → ℕ
next_id [] = 1
next_id (r ∷ _) = suc r.id

unfoldable pub record_exec : Store → Text → Text → Text → Option Text → ℤ → Store × ℕ
record_exec st session cmd cwd git_branch now =
    let row : Row = record {
      id = next_id st.rows;
      session = session;
      cmd = cmd;
      cwd = cwd;
      git_branch = git_branch;
      ts_ms = now;
      exit_code = none;
      duration_ms = none;
    } in
    (record st { rows = row ∷ st.rows }, row.id)

abbrev pub is_none {ℓ} : {A : Type ℓ} → Option A → Bool
is_none none = true
is_none (some _) = false

-- The latest row of the session that has no exit code.
unfoldable pub open_id : Text → List Row → Option ℕ
open_id session [] = none
open_id session (r ∷ rs) =
    let rest = open_id session rs in
    if text_eq r.session session && is_none r.exit_code then some r.id else rest

-- `UPDATE history SET … WHERE id = ?3`
unfoldable pub set_outcome : ℕ → ℤ → ℕ → List Row → List Row
set_outcome id code ms [] = []
set_outcome id code ms (r ∷ rs) =
    let rest = set_outcome id code ms rs in
    if r.id == id
    then record r { exit_code = some code; duration_ms = some (as_i64 ms) } ∷ rest
    else r ∷ rest

unfoldable pub record_done : Store → Text → ℤ → ℕ → Store × Bool
record_done st session code ms = elim (open_id session st.rows) [
  | some id ↦ (record st { rows = set_outcome id code ms st.rows }, true)
  | none ↦ (st, false)
]

abbrev pub read_duration : Option ℤ → Option ℕ
read_duration none = none
read_duration (some d) = some (clamp d)

unfoldable pub entry_of : Row → HistoryEntry
entry_of r = record {
  cmd = r.cmd;
  cwd = r.cwd;
  exit_code = r.exit_code;
  ts_ms = r.ts_ms;
  duration_ms = read_duration r.duration_ms;
}

-- `ORDER BY ts_ms DESC`; SQL leaves the order of equal times open, here the newer row stands first.
unfoldable pub insert_row : Row → List Row → List Row
insert_row r [] = r ∷ []
insert_row r (s ∷ ss) =
    let later = s ∷ insert_row r ss in if ltb_ℤ r.ts_ms s.ts_ms then later else r ∷ s ∷ ss

unfoldable pub by_time : List Row → List Row
by_time [] = []
by_time (r ∷ rs) = insert_row r (by_time rs)

unfoldable pub recent : Store → ℕ → List HistoryEntry
recent st limit = map entry_of (take limit (by_time st.rows))

-- Is there a row that the import has made for this command and time?
unfoldable pub is_imported : Text → ℤ → List Row → Bool
is_imported cmd ts rows =
    any (λ r. text_eq r.cmd cmd && eq_ℤ r.ts_ms ts && is r.session "import") rows

abbrev pub imported_row : List Row → Text → ℤ → Row
imported_row rows cmd ts = record {
  id = next_id rows;
  session = codes "import";
  cmd = cmd;
  cwd = [];
  git_branch = none;
  ts_ms = ts;
  exit_code = some (pos 0);
  duration_ms = none;
}

-- The loop over the rows to import: the table and the number of rows inserted.
unfoldable pub import_rows : List (Text × ℤ) → List Row → List Row × ℕ
import_rows [] rows = (rows, 0)
import_rows ((cmd, ts) ∷ more) rows =
    let skipped = import_rows more rows in
    let (out, n) = import_rows more (imported_row rows cmd ts ∷ rows) in
    if is_imported cmd ts rows then skipped else (out, suc n)

unfoldable pub import : Store → List (Text × ℤ) → Store × ℕ
import st batch = let (rows, n) = import_rows batch st.rows in (record st { rows = rows }, n)

-- The distinct sessions other than the import's.
unfoldable pub sessions : List Row → List Text
sessions [] = []
sessions (r ∷ rs) =
    let rest = sessions rs in
    if is r.session "import"
    then rest
    else if any (text_eq r.session) rest
    then rest
    else r.session ∷ rest

unfoldable pub session_count : Store → ℕ
session_count st = length (sessions st.rows)

-- `ON CONFLICT(name) DO UPDATE SET value = value + ?2`
unfoldable pub add_to : Text → ℤ → List (Text × ℤ) → List (Text × ℤ)
add_to name by [] = (name, by) ∷ []
add_to name by ((k, v) ∷ cs) =
    let rest = (k, v) ∷ add_to name by cs in if text_eq k name then (k, v +ℤ by) ∷ cs else rest

unfoldable pub bump_counter : Store → Text → ℕ → Store
bump_counter st name by = record st { counters = add_to name (as_i64 by) st.counters }

unfoldable pub value_of : Text → List (Text × ℤ) → ℤ
value_of name [] = pos 0
value_of name ((k, v) ∷ cs) = let rest = value_of name cs in if text_eq k name then v else rest

unfoldable pub counter : Store → Text → ℕ
counter st name = clamp (value_of name st.counters)

unfoldable pub count : Store → ℕ
count st = length st.rows
