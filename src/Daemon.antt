-- ===== src/Daemon.antt =====
-- src/daemon.rs: the circuit breaker of the model, and what the daemon does to its state when a shell
-- reports a command. The clock is an argument; the store is taken to answer without an error.
pub mod Breaker
pub mod Errors
pub mod Dispatch
pub mod Served
pub mod Privacy
pub mod Tests
use fore_ai_assisted_termina.Prelude.{
  ℕ, suc, ◌+◌, ◌%◌, ◌^◌, Bool, true, false, not, ◌&&◌, ◌||◌, Option, none, some, List, [], ◌∷◌, leb,
  if◌then◌else◌, any, ℤ, pos, eq_ℤ, ltb_ℤ, ◌+ℤ◌,
}
use fore_ai_assisted_termina.Prelude.Text.{
  is_empty, Text, codes, text_eq, starts_with, begins, trim, trim_start,
}
use fore_ai_assisted_termina.Store.{
  HistoryEntry, Store, record_exec, record_done, recent, bump_counter,
}
use fore_ai_assisted_termina.Predict.{Predictor, push, mark_done, replace}
use fore_ai_assisted_termina.Redact.Redactor.{Redactor, redact}

pub record Circuit : Type 0 where
  pub failures : ℕ
  pub open_until_ms : ℤ
  pub threshold : ℕ
  pub cooldown_ms : ℤ

unfoldable pub is_open : ℤ → Circuit → Bool
is_open now c = ltb_ℤ now c.open_until_ms

-- `failures` is an `AtomicU32`.
unfoldable pub record_result : Circuit → ℤ → Bool → Circuit
record_result c now true = record c { failures = 0 }
record_result c now false =
    let n = (c.failures + 1) % 2 ^ 32 in
    if leb c.threshold n
    then record c { failures = n; open_until_ms = now +ℤ c.cooldown_ms }
    else record c { failures = n }

-- The part of the configuration that says what is recorded.
pub record HistoryConfig : Type 0 where
  pub ignore_space : Bool
  pub ignore_prefixes : List Text
  pub redact_on_write : Bool
  pub hot_rows : ℕ

unfoldable pub should_record : HistoryConfig → Text → Bool
should_record cfg cmd =
    let t = trim_start cmd in
    if cfg.ignore_space && begins cmd " "
    then false
    else not (is_empty t) && not (any (starts_with t) cfg.ignore_prefixes)

abbrev pub Running : Type 0
Running = Text × Text × Option Text

pub record State : Type 0 where
  pub store : Store
  pub predictor : Predictor
  pub inflight : List (Text × Running)

-- `HashMap::remove`, `insert` and the value removed
unfoldable pub forget : Text → List (Text × Running) → List (Text × Running)
forget session [] = []
forget session ((s, r) ∷ rest) =
    let later = (s, r) ∷ forget session rest in
    if text_eq s session then forget session rest else later

unfoldable pub running_in : Text → List (Text × Running) → Option Running
running_in session [] = none
running_in session ((s, r) ∷ rest) =
    let later = running_in session rest in if text_eq s session then some r else later

-- What is kept of a command.
unfoldable pub kept_text : HistoryConfig → Redactor → Text → Text
kept_text cfg r cmd = if cfg.redact_on_write then redact r (trim cmd) else trim cmd

-- `Request::Exec`; the clock is read twice.
unfoldable pub exec :
    HistoryConfig → Redactor → ℤ → ℤ → Text → Text → Text → Option Text → State → State
exec cfg r now later cmd cwd session git_branch st =
    let kept = kept_text cfg r cmd in
    let (store, id) = record_exec st.store session kept cwd git_branch now in
    let entry : HistoryEntry = record {
      cmd = kept;
      cwd = cwd;
      exit_code = none;
      ts_ms = later;
      duration_ms = none;
    } in
    if should_record cfg cmd
    then record {
      store = store;
      predictor = push st.predictor entry;
      inflight = (session, (kept, cwd, git_branch)) ∷ forget session st.inflight;
    }
    else st

-- 130 is Ctrl-C and 148 is Ctrl-Z.
unfoldable pub deserves_fix : ℤ → Bool
deserves_fix code =
    not (eq_ℤ code (pos 0)) && not (eq_ℤ code (pos 130)) && not (eq_ℤ code (pos 148))

-- `Request::Done`: the state, and the command for which a speculative fix is started.
unfoldable pub done : Circuit → ℤ → Text → ℤ → ℕ → State → State × Option Running
done c now session code ms st =
    let (store, closed) = record_done st.store session code ms in
    let after : State = record {
      store = store;
      predictor = if closed then mark_done st.predictor code ms else st.predictor;
      inflight = forget session st.inflight;
    } in
    (
      after,
      if deserves_fix code && not (is_open now c) then running_in session st.inflight else none,
    )

-- `Request::Reload`
unfoldable pub reload : HistoryConfig → State → State
reload cfg st = record st { predictor = replace st.predictor (recent st.store cfg.hot_rows) }

-- `Request::Accepted`
unfoldable pub accepted : ℕ → State → State
accepted chars st = record st {
  store =
      bump_counter (bump_counter st.store (codes "suggest_accepted") 1) (codes "chars_saved") chars;
}
