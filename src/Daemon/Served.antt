-- ===== src/Daemon/Served.antt =====
-- No value of the environment reaches what the daemon of src/daemon.rs keeps, whatever it is asked.
use fore_ai_assisted_termina.Prelude.{
  ℕ, zero, suc, ◌≡◌, inl, inr, Bool, true, false, Bool-cases, Option-cases, Option, List, [], ◌∷◌,
  if◌then◌else◌, take, map, At, ℤ, ltb_ℤ,
}
use fore_ai_assisted_termina.Prelude.Text.{Text, contains}
use fore_ai_assisted_termina.Redact.Masked.{IsForeign}
use fore_ai_assisted_termina.Redact.Redactor.{Redactor}
use fore_ai_assisted_termina.Safety.Command.{Node}
use fore_ai_assisted_termina.Store.{
  Row, HistoryEntry, entry_of, insert_row, by_time, recent, bump_counter,
}
use fore_ai_assisted_termina.Predict.{Scores, Candidate, replace}
use fore_ai_assisted_termina.Assist.Ask.{Llm}
use fore_ai_assisted_termina.Protocol.{Request}
use fore_ai_assisted_termina.Protocol
use fore_ai_assisted_termina.Daemon.{State}
use fore_ai_assisted_termina.Daemon
use fore_ai_assisted_termina.Daemon.Errors.{model_unavailable}
use fore_ai_assisted_termina.Daemon.Privacy.{
  RowsLack, HistoryLacks, IsClean, done-IsClean, exec-IsClean,
}
use fore_ai_assisted_termina.Daemon.Dispatch.{
  Shared, Config, Moment, bump_state, failure_in, dispatch_done, dispatch_fix, dispatch_nl,
  dispatch_preflight, dispatch_suggest, dispatch,
}

module _ (v : Text) where
  insert_row-RowsLack :
      (r : Row) (rs : List Row)
      → contains r.cmd v ≡ false
      → RowsLack v rs
      → RowsLack v (insert_row r rs)
  unfolding insert_row
  insert_row-RowsLack r [] h k = (h, tt)
  insert_row-RowsLack r (s ∷ ss) h k = elim (Bool-cases (ltb_ℤ r.ts_ms s.ts_ms)) [
    | inl e ↦ rw (e, insert_row) (k.0, insert_row-RowsLack r ss h k.1)
    | inr e ↦ rw (e, insert_row) (h, k)
  ]

  by_time-RowsLack : (rs : List Row) → RowsLack v rs → RowsLack v (by_time rs)
  unfolding by_time
  by_time-RowsLack [] h = tt
  by_time-RowsLack (r ∷ rs) h = insert_row-RowsLack r (by_time rs) h.0 (by_time-RowsLack rs h.1)

  entries-HistoryLacks :
      (n : ℕ) (rs : List Row) → RowsLack v rs → HistoryLacks v (map entry_of (take n rs))
  unfolding entry_of
  entries-HistoryLacks zero rs h = tt
  entries-HistoryLacks (suc n) [] h = tt
  entries-HistoryLacks (suc n) (r ∷ rs) h = (h.0, entries-HistoryLacks n rs h.1)

  take-HistoryLacks :
      (n : ℕ) (es : List HistoryEntry) → HistoryLacks v es → HistoryLacks v (take n es)
  take-HistoryLacks zero es h = tt
  take-HistoryLacks (suc n) [] h = tt
  take-HistoryLacks (suc n) (e ∷ es) h = (h.0, take-HistoryLacks n es h.1)

  reload-IsClean :
      (cfg : Daemon.HistoryConfig) (st : State) → IsClean v st → IsClean v (Daemon.reload cfg st)
  unfolding Daemon.reload replace recent
  reload-IsClean cfg st h = (
    h.0,
    take-HistoryLacks _ _
        (entries-HistoryLacks cfg.hot_rows _ (by_time-RowsLack st.store.rows h.0)),
  )

  bump-IsClean :
      (st : State) (name : Text) (by : ℕ) → IsClean v st → IsClean v (bump_state st name by)
  unfolding bump_counter
  bump-IsClean st name by h = h

  accepted-IsClean : (chars : ℕ) (st : State) → IsClean v st → IsClean v (Daemon.accepted chars st)
  unfolding Daemon.accepted bump_counter
  accepted-IsClean chars st h = h

  if-IsClean : (b : Bool) (s t : State) → IsClean v s → IsClean v t → IsClean v (if b then s else t)
  if-IsClean true s t h k = h
  if-IsClean false s t h k = k

  module _ (Stats Aliases : Type 0) (stats : State → ℤ → Stats)
      (aliases : State → ℤ → List Text → Aliases) (redirects : Text → Text → List (Text × ℕ))
      (show : ℕ → ℕ → Text) (F : Scores) (walked : List (Candidate F) → List (Candidate F))
      (debug : Text → Text) (parse : Text → Option Node) (depth : ℕ) (cfg : Config) (llm : Llm)
      (redactor : Redactor) (on : cfg.history.redact_on_write ≡ true)
      (secret : At v redactor.env_values) (foreign : IsForeign v) where
    dispatch-IsClean :
        (m : Moment) (q : Request) (sh : Shared)
        → IsClean v sh.state
        → IsClean v
            (dispatch Stats Aliases stats aliases redirects show F walked debug parse depth cfg llm
              redactor m q sh).0.state
    unfolding dispatch dispatch_done dispatch_fix dispatch_nl dispatch_preflight dispatch_suggest
    dispatch-IsClean m (Protocol.exec cmd cwd session branch) sh h = elim (Option-cases m.db) [
      | inl e ↦
          rw (dispatch, e)
            (exec-IsClean v cfg.history redactor on secret foreign m.now m.later cmd cwd session
              branch sh.state h)
      | inr (_, e) ↦ rw (dispatch, e) h
    ]
    dispatch-IsClean m (Protocol.done session code ms tail) sh h = elim (Option-cases m.db) [
      | inl e ↦ rw (dispatch, e) (done-IsClean v sh.circuit m.now session code ms sh.state h)
      | inr (_, e) ↦ rw (dispatch, e) h
    ]
    dispatch-IsClean m (Protocol.accepted session chars) sh h = accepted-IsClean chars sh.state h
    dispatch-IsClean m (Protocol.fix session) sh h =
        elim (Option-cases (model_unavailable cfg.llm m.now m.later sh.circuit)) [
          | inr (msg, e) ↦ rw (dispatch, dispatch_fix, e) h
          | inl e ↦ elim (Option-cases (failure_in session sh.last_failure)) [
            | inl k ↦ rw (dispatch, dispatch_fix, e, k) (bump-IsClean sh.state _ 1 h)
            | inr (f, k) ↦ rw (dispatch, dispatch_fix, e, k) (bump-IsClean sh.state _ 1 h)
          ]
        ]
    dispatch-IsClean m (Protocol.nl session cwd request branch) sh h =
        elim (Option-cases (model_unavailable cfg.llm m.now m.later sh.circuit)) [
          | inr (msg, e) ↦ rw (dispatch, dispatch_nl, e) h
          | inl e ↦ rw (dispatch, dispatch_nl, e) (bump-IsClean sh.state _ 1 h)
        ]
    dispatch-IsClean m (Protocol.assess cmd) sh h = h
    dispatch-IsClean m (Protocol.preflight session cmd cwd env) sh h =
        if-IsClean _ _ sh.state (bump-IsClean sh.state _ 1 h) h
    dispatch-IsClean m (Protocol.aliases existing) sh h = h
    dispatch-IsClean m (Protocol.suggest prefix cwd session) sh h =
        if-IsClean _ _ sh.state (bump-IsClean sh.state _ 1 h) h
    dispatch-IsClean m Protocol.stats sh h = h
    dispatch-IsClean m Protocol.reload sh h = elim (Option-cases m.db) [
      | inl e ↦ rw (dispatch, e) (reload-IsClean cfg.history sh.state h)
      | inr (_, e) ↦ rw (dispatch, e) h
    ]
    dispatch-IsClean m Protocol.ping sh h = h
    dispatch-IsClean m Protocol.shutdown sh h = h

    -- Requests that are served one after the other, each at its moment.
    unfoldable pub serve : List (Moment × Request) → Shared → Shared
    serve [] sh = sh
    serve ((m, q) ∷ more) sh =
        serve more
          (dispatch Stats Aliases stats aliases redirects show F walked debug parse depth cfg llm
            redactor m q sh).0

    -- With `redact_on_write`, whatever the daemon is asked in whatever order, a value that the
    -- redactor holds gets into no command of the table or of the history, if it was in none before,
    -- has no `<` and no `>`, and is no part of the word `REDACTED`.
    pub serve-IsClean :
        (asked : List (Moment × Request)) (sh : Shared)
        → IsClean v sh.state
        → IsClean v (serve asked sh).state
    unfolding serve
    serve-IsClean [] sh h = h
    serve-IsClean ((m, q) ∷ more) sh h = serve-IsClean more _ (dispatch-IsClean m q sh h)
