-- ===== src/Daemon/Dispatch.antt =====
-- `dispatch` of src/daemon.rs: what the daemon does with a request, and what it answers. The lock on
-- the state makes requests follow one another; a request that waits for a fix is given what has
-- arrived. The store is taken to answer without an error. The statistics and the alias proposals of
-- src/insights.rs, and the scan for redirects that truncate a file, are arguments.
use fore_ai_assisted_termina.Prelude.{
  ℕ, Bool, true, false, not, ◌&&◌, Option, none, some, List, [], ◌∷◌, ◌++◌, ◌⊎◌, inl, inr, ◌==◌,
  if◌then◌else◌, length, take, keep_if, map, ℤ, excess,
}
use fore_ai_assisted_termina.Prelude.Text.{
  Text, codes, text_eq, concat, join, split, trim, utf8_len,
}
use fore_ai_assisted_termina.Prelude.Text.Decimal.{decimal}
use fore_ai_assisted_termina.Safety.Risk.{read_only}
use fore_ai_assisted_termina.Safety.Command.{Node}
use fore_ai_assisted_termina.Safety.Assess.{assess}
use fore_ai_assisted_termina.Store.{HistoryEntry, recent, bump_counter}
use fore_ai_assisted_termina.Predict.{Scores, Candidate, recent_in, suggest}
use fore_ai_assisted_termina.Redact.Redactor.{Redactor}
use fore_ai_assisted_termina.Assist.Ask.{Proposal, Context, Llm, nl}
use fore_ai_assisted_termina.Preflight.{
  warn, Finding, EnvSnapshot, Options, Preflight, blocks, Site, fmt_bytes, fmt_dur,
}
use fore_ai_assisted_termina.Preflight.Run.{run}
use fore_ai_assisted_termina.Protocol.{
  Request, Response, answer_ok, answer_suggestion, answer_message, answer_error, answer_proposal,
  answer_assessment, answer_preflight, answer_stats, answer_aliases,
}
use fore_ai_assisted_termina.Protocol
use fore_ai_assisted_termina.Daemon.{
  Circuit, is_open, record_result, HistoryConfig, State, Running, should_record,
}
use fore_ai_assisted_termina.Daemon
use fore_ai_assisted_termina.Daemon.Errors.{LlmSection, friendly_llm_error, model_unavailable}

-- What a watch channel holds: `none` as long as the fix is computed.
abbrev pub Fix : Type 0
Fix = Option (Text ⊎ Proposal)

pub record Shared : Type 0 where
  pub state : State
  pub circuit : Circuit
  pub last_failure : List (Text × Fix)

-- The parts of the configuration that the requests read.
pub record Config : Type 0 where
  pub history : HistoryConfig
  pub llm : LlmSection
  pub preflight_enabled : Bool
  pub preflight_ignore : List Text
  pub options : Options

-- What a request meets: two readings of the clock, the time that it takes, what has arrived of the fix
-- that it waits for, the directory, how the daemon describes itself, and the error that the store
-- answers with, if it does; what fails in the store changes nothing in it.
pub record Moment : Type 0 where
  pub now : ℤ
  pub later : ℤ
  pub took : ℕ
  pub arrived : Fix
  pub site : Site
  pub project_kind : Text
  pub os : Text
  pub shell : Text
  pub version : Text
  pub pid : ℕ
  pub started_ms : ℤ
  pub db : Option Text

unfoldable pub failure_in : Text → List (Text × Fix) → Option Fix
failure_in session [] = none
failure_in session ((s, f) ∷ rest) =
    let later = failure_in session rest in if text_eq s session then some f else later

-- `HashMap::insert`
unfoldable pub put_failure : Text → Fix → List (Text × Fix) → List (Text × Fix)
put_failure session f fs = (session, f) ∷ keep_if (λ x. not (text_eq x.0 session)) fs

abbrev pub is_here : Fix → Bool
is_here none = false
is_here (some _) = true

abbrev pub bump_state : State → Text → ℕ → State
bump_state st name by = record st { store = bump_counter st.store name by }

abbrev pub is_ok : Text ⊎ Proposal → Bool
is_ok (inl _) = false
is_ok (inr _) = true

-- The checks that the configuration and the shell ignore.
unfoldable pub merged_ignores : List Text → Option Text → Text
merged_ignores ign none = join (codes ",") ign
merged_ignores ign (some e) = join (codes ",") (ign ++ map trim (split b',' e))

module _ (Stats Aliases : Type 0) (stats : State → ℤ → Stats)
    (aliases : State → ℤ → List Text → Aliases) (redirects : Text → Text → List (Text × ℕ))
    (show : ℕ → ℕ → Text) (F : Scores) (walked : List (Candidate F) → List (Candidate F))
    (debug : Text → Text) (parse : Text → Option Node) (depth : ℕ) (cfg : Config) (llm : Llm)
    (redactor : Redactor) where
  abbrev pub Answer : Type 0
  Answer = Response Stats Aliases

  -- `Response::error(format!("db: {e}"))`
  abbrev pub db_error : Moment → Text → Answer
  db_error m e = answer_error Stats Aliases (codes "db: " ++ e) m.took

  unfoldable pub pong : Moment → Shared → Text
  pong m sh = concat (
      codes "pong  v"
      ∷ m.version
      ∷ codes "  pid "
      ∷ decimal m.pid
      ∷ codes "  up "
      ∷ fmt_dur show (excess m.now m.started_ms)
      ∷ codes "  rows "
      ∷ decimal (length sh.state.predictor.history)
      ∷ codes "  model "
      ∷ cfg.llm.model
      ∷ (if is_open m.later sh.circuit then codes "  [AI paused]" else [])
      ∷ [])

  -- `Request::Done`, with the place for the fix that is now computed.
  unfoldable pub dispatch_done : Moment → Text → ℤ → ℕ → Shared → Shared
  dispatch_done m session code ms sh =
      let (st, failed) = Daemon.done sh.circuit m.now session code ms sh.state in
      record sh {
        state = st;
        last_failure = elim failed [
          | none ↦ sh.last_failure
          | some _ ↦ put_failure session none sh.last_failure
        ];
      }

  -- The fix has been computed.
  unfoldable pub fix_arrives : Moment → Text → Text ⊎ Proposal → Shared → Shared
  fix_arrives m session result sh = record sh {
    circuit = record_result sh.circuit m.now (is_ok result);
    last_failure = put_failure session (some result) sh.last_failure;
  }

  unfoldable pub fix_answer : ℕ → Bool → Fix → Answer
  fix_answer took already none =
      answer_error Stats Aliases (codes "fix is still computing; try again") took
  fix_answer took already (some (inl e)) =
      answer_error Stats Aliases (friendly_llm_error cfg.llm e) took
  fix_answer took already (some (inr p)) =
      answer_proposal Stats Aliases (record p { cached = already }) took

  unfoldable pub dispatch_fix : Moment → Text → Shared → Shared × Answer
  dispatch_fix m session sh =
      let asked = record sh { state = bump_state sh.state (codes "fix_requested") 1 } in
      elim (model_unavailable cfg.llm m.now m.later sh.circuit) [
        | some msg ↦ (sh, answer_error Stats Aliases msg m.took)
        | none ↦ elim (failure_in session sh.last_failure) [
          | none ↦ (
            asked,
            answer_error Stats Aliases (codes "no failed command in this session yet") m.took,
          )
          | some f ↦ (
            asked,
            if is_here f then fix_answer m.took true f else fix_answer m.took false m.arrived,
          )
        ]
      ]

  unfoldable pub nl_answer : ℕ → Text ⊎ Proposal → Answer
  nl_answer took (inl e) = answer_error Stats Aliases (friendly_llm_error cfg.llm e) took
  nl_answer took (inr p) = answer_proposal Stats Aliases p took

  unfoldable pub dispatch_nl : Moment → Text → Text → Option Text → Shared → Shared × Answer
  dispatch_nl m cwd request branch sh =
      let context : Context = record {
        cwd = cwd;
        git_branch = branch;
        os = m.os;
        shell = m.shell;
        project_kind = m.project_kind;
        recent = recent_in sh.state.predictor cwd 8;
      } in
      let r = nl debug parse depth llm redactor context request in
      elim (model_unavailable cfg.llm m.now m.later sh.circuit) [
        | some msg ↦ (sh, answer_error Stats Aliases msg m.took)
        | none ↦ (
          record sh {
            state = bump_state sh.state (codes "ask_requested") 1;
            circuit = record_result sh.circuit m.later (is_ok r);
          },
          nl_answer m.took r,
        )
      ]

  -- A warning for each file that a redirect empties, in front of the others.
  unfoldable pub add_redirects : List (Text × ℕ) → List Finding → List Finding
  add_redirects [] fs = fs
  add_redirects ((target, size) ∷ more) fs = add_redirects more (
      record {
        severity = warn;
        check = codes "truncate";
        text = concat (
            codes "`> "
            ∷ target
            ∷ codes "` overwrites an existing "
            ∷ fmt_bytes show size
            ∷ codes " file — did you mean `>>`?"
            ∷ []);
      }
      ∷ fs)

  unfoldable pub preflight_result : Moment → Text → Text → EnvSnapshot → Shared → Preflight
  preflight_result m cmd cwd env sh =
      let ran =
        run show m.site
          (record env { ignored = some (merged_ignores cfg.preflight_ignore env.ignored) })
          cfg.options cmd cwd
          (take 20 (keep_if (λ (e : HistoryEntry). text_eq e.cmd cmd) sh.state.predictor.history))
          parse depth in
      if cfg.preflight_enabled
      then record ran { findings = add_redirects (redirects cmd cwd) ran.findings }
      else record { findings = []; risk = read_only }

  unfoldable pub dispatch_preflight : Moment → Text → Text → EnvSnapshot → Shared → Shared × Answer
  dispatch_preflight m cmd cwd env sh =
      let pf = preflight_result m cmd cwd env sh in
      (
        record sh {
          state = if blocks pf then bump_state sh.state (codes "blocks_shown") 1 else sh.state;
        },
        answer_preflight Stats Aliases pf m.took,
      )

  abbrev is_some : Option Text → Bool
  is_some none = false
  is_some (some _) = true

  unfoldable pub dispatch_suggest : Moment → Text → Text → Shared → Shared × Answer
  dispatch_suggest m prefix cwd sh =
      let s = suggest F walked sh.state.predictor prefix cwd m.now in
      (
        record sh {
          state =
              if is_some s && utf8_len prefix == 1
              then bump_state sh.state (codes "suggest_shown") 1
              else sh.state;
        },
        answer_suggestion Stats Aliases s m.took,
      )

  unfoldable pub dispatch : Moment → Request → Shared → Shared × Answer
  dispatch m Protocol.ping sh = (sh, answer_message Stats Aliases (pong m sh) m.took)
  dispatch m Protocol.shutdown sh = (sh, answer_message Stats Aliases (codes "bye") m.took)
  dispatch m Protocol.reload sh = elim m.db [
    | some e ↦ (sh, db_error m e)
    | none ↦ (
      record sh { state = Daemon.reload cfg.history sh.state },
      answer_message Stats Aliases
          (concat (
            codes "reloaded "
            ∷ decimal (length (recent sh.state.store cfg.history.hot_rows))
            ∷ codes " rows"
            ∷ []))
          m.took,
    )
  ]
  dispatch m (Protocol.exec cmd cwd session branch) sh = elim m.db [
    | some e ↦ (
      sh,
      if Daemon.should_record cfg.history cmd then db_error m e else answer_ok Stats Aliases m.took,
    )
    | none ↦ (
      record sh {
        state = Daemon.exec cfg.history redactor m.now m.later cmd cwd session branch sh.state;
      },
      answer_ok Stats Aliases m.took,
    )
  ]
  dispatch m (Protocol.done session code ms stderr_tail) sh = elim m.db [
    | some e ↦ (sh, db_error m e)
    | none ↦ (dispatch_done m session code ms sh, answer_ok Stats Aliases m.took)
  ]
  dispatch m (Protocol.fix session) sh = dispatch_fix m session sh
  dispatch m (Protocol.nl session cwd request branch) sh = dispatch_nl m cwd request branch sh
  dispatch m (Protocol.assess cmd) sh =
      (sh, answer_assessment Stats Aliases (assess parse depth cmd) m.took)
  dispatch m (Protocol.preflight session cmd cwd env) sh = dispatch_preflight m cmd cwd env sh
  dispatch m (Protocol.accepted session chars) sh =
      (record sh { state = Daemon.accepted chars sh.state }, answer_ok Stats Aliases m.took)
  dispatch m Protocol.stats sh = (sh, answer_stats Stats Aliases (stats sh.state m.now) m.took)
  dispatch m (Protocol.aliases existing) sh =
      (sh, answer_aliases Stats Aliases (aliases sh.state m.now existing) m.took)
  dispatch m (Protocol.suggest prefix cwd session) sh = dispatch_suggest m prefix cwd sh
