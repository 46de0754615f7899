-- ===== src/Daemon/Tests.antt =====
-- Concrete runs for the theorems on src/daemon.rs.
use fore_ai_assisted_termina.Prelude.{
  ◌≤◌, ◌<◌, ◌≡◌, refl, true, Option, none, some, List, ℤ, inl, [], ◌∷◌, arith, pos, ltb_ℤ, ◌+ℤ◌,
  here,
}
use fore_ai_assisted_termina.Prelude.Text.{
  Text, begins, codes, contains, contains_char, starts_with,
}
use fore_ai_assisted_termina.Redact.Masked.{IsForeign}
use fore_ai_assisted_termina.Redact.Redactor.{Redactor}
use fore_ai_assisted_termina.Daemon.{Circuit, is_open, record_result, HistoryConfig, State}
use fore_ai_assisted_termina.Daemon
use fore_ai_assisted_termina.Daemon.Breaker.{fail_all, fail_all-is_open}
use fore_ai_assisted_termina.Daemon.Privacy.{IsClean}
use fore_ai_assisted_termina.Daemon.Errors.{model_unavailable}
use fore_ai_assisted_termina.Daemon.Dispatch.{
  Shared, Config, Moment, failure_in, dispatch_fix, dispatch,
}
use fore_ai_assisted_termina.Daemon.Served.{serve, serve-IsClean}
use fore_ai_assisted_termina.Protocol.{Request, Response, answer_error}
use fore_ai_assisted_termina.Protocol
use fore_ai_assisted_termina.Assist.Ask.{Llm}
use fore_ai_assisted_termina.Safety.Command.{Node}
use fore_ai_assisted_termina.Preflight.Tests.{site, opts, show}
use fore_ai_assisted_termina.Predict.Tests.{whole}

abbrev breaker : Circuit
breaker = record { failures = 2; open_until_ms = pos 0; threshold = 2; cooldown_ms = pos 60 }

fail_all-is_open_example :
    (2 < 2
      → is_open (pos 50) (fail_all (record_result breaker (pos 1) true) (pos 5 ∷ pos 9 ∷ []))
        ≡ is_open (pos 50) breaker)
    × (2 ≤ 2
        → is_open (pos 50) (fail_all (record_result breaker (pos 1) true) (pos 5 ∷ pos 9 ∷ []))
          ≡ ltb_ℤ (pos 50) (pos 9 +ℤ pos 60))
fail_all-is_open_example =
    fail_all-is_open breaker (pos 1) (pos 9) (pos 50) (pos 5 ∷ []) (omega arith)

abbrev cfg : HistoryConfig
cfg = record { ignore_space = true; ignore_prefixes = []; redact_on_write = true; hot_rows = 100 }

abbrev hunter : Text
hunter = codes "hunter2hunter2"

abbrev redactor : Redactor
redactor = record { env_values = hunter ∷ [] }

hunter-IsForeign : IsForeign hunter
unfolding contains_char contains starts_with
hunter-IsForeign = record { no_open = refl; no_close = refl; not_redacted = refl }

abbrev empty : State
empty = record {
  store = record { rows = []; counters = [] };
  predictor = record { history = []; capacity = 10 };
  inflight = [];
}

abbrev llm : Llm
llm = record { complete = λ system user n. inl (codes "Connection refused"); model = codes "small" }

abbrev settings : Config
settings = record {
  history = cfg;
  llm = record { base_url = codes "http://localhost:11434"; model = codes "small"; timeout_s = 30 };
  preflight_enabled = true;
  preflight_ignore = [];
  options = opts;
}

abbrev moment : ℤ → Moment
moment now = record {
  now = now;
  later = now;
  took = 7;
  arrived = none;
  site = site;
  project_kind = codes "unknown";
  os = codes "Linux";
  shell = codes "zsh";
  version = codes "0.1.0";
  pid = 1;
  started_ms = pos 0;
  db = none;
}

abbrev no_parse : Text → Option Node
no_parse t = none

abbrev fresh : Shared
fresh = record { state = empty; circuit = breaker; last_failure = [] }

abbrev requests : List (Moment × Request)
requests =
    (moment (pos 1), Protocol.exec (codes "login hunter2hunter2") (codes "/") (codes "s") none)
    ∷ (moment (pos 3), Protocol.done (codes "s") (pos 1) 5 none)
    ∷ (moment (pos 4), Protocol.fix (codes "s"))
    ∷ (moment (pos 5), Protocol.reload)
    ∷ []

abbrev served : Shared
served =
    serve hunter Unit Unit (λ st now. tt) (λ st now existing. tt) (λ cmd cwd. []) show whole
      (λ cs. cs) (λ t. t) no_parse 1 settings llm redactor refl here hunter-IsForeign requests fresh

serve-IsClean_example : IsClean hunter served.state
serve-IsClean_example =
    serve-IsClean hunter Unit Unit (λ st now. tt) (λ st now existing. tt) (λ cmd cwd. []) show whole
      (λ cs. cs) (λ t. t) no_parse 1 settings llm redactor refl here hunter-IsForeign requests fresh
      (tt, tt)

abbrev answer : Shared × Response Unit Unit
answer =
    dispatch Unit Unit (λ st now. tt) (λ st now existing. tt) (λ cmd cwd. []) show whole (λ cs. cs)
      (λ t. t) no_parse 1 settings llm redactor (moment (pos 9)) (Protocol.fix (codes "s")) fresh

-- The shell asks for a fix before a command has failed.
no_fix_run : answer.1 ≡ answer_error Unit Unit (codes "no failed command in this session yet") 7
unfolding dispatch dispatch_fix model_unavailable is_open failure_in
no_fix_run = refl

-- The store answers with an error: the daemon passes it on, and nothing has changed.
abbrev full_disk : Shared × Response Unit Unit
full_disk =
    dispatch Unit Unit (λ st now. tt) (λ st now existing. tt) (λ cmd cwd. []) show whole (λ cs. cs)
      (λ t. t) no_parse 1 settings llm redactor
      (record (moment (pos 9)) { db = some (codes "disk full") })
      (Protocol.exec (codes "make") (codes "/") (codes "s") none) fresh

full_disk_run :
    (full_disk.1 ≡ answer_error Unit Unit (codes "db: disk full") 7) × (full_disk.0 ≡ fresh)
unfolding dispatch Daemon.should_record begins
full_disk_run = (refl, refl)
