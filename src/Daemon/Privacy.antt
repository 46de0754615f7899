-- ===== src/Daemon/Privacy.antt =====
-- No value of the environment reaches what the daemon of src/daemon.rs keeps of a command.
use fore_ai_assisted_termina.Prelude.{
  ℕ, ◌≡◌, inl, inr, Bool, true, false, Bool-cases, Option-cases, Option, List, [], ◌∷◌, ◌==◌, ltb,
  if◌then◌else◌, All, At, pop, length, ℤ,
}
use fore_ai_assisted_termina.Prelude.Text.{Text, contains, trim}
use fore_ai_assisted_termina.Redact.Masked.{IsForeign}
use fore_ai_assisted_termina.Redact.Redactor.{Redactor}
use fore_ai_assisted_termina.Redact.Redactor.Leaks.{redact-contains}
use fore_ai_assisted_termina.Store.{
  Row, Store, HistoryEntry, is_none, record_exec, open_id, set_outcome, record_done, bump_counter,
}
use fore_ai_assisted_termina.Predict.{Predictor, push, finish_first, mark_done}
use fore_ai_assisted_termina.Daemon.{
  Circuit, HistoryConfig, should_record, State, kept_text, exec, done, accepted,
}

module _ (v : Text) where
  abbrev pub RowsLack : List Row → Type 0
  RowsLack rows = All (λ (r : Row). contains r.cmd v ≡ false) rows

  abbrev pub HistoryLacks : List HistoryEntry → Type 0
  HistoryLacks es = All (λ (e : HistoryEntry). contains e.cmd v ≡ false) es

  -- The value occurs in no command of the table and of the history.
  abbrev pub IsClean : State → Type 0
  IsClean st = RowsLack st.store.rows × HistoryLacks st.predictor.history

  pop-HistoryLacks : (es : List HistoryEntry) → HistoryLacks es → HistoryLacks (pop es)
  pop-HistoryLacks [] h = tt
  pop-HistoryLacks (e ∷ []) h = tt
  pop-HistoryLacks (e ∷ f ∷ es) h = (h.0, pop-HistoryLacks (f ∷ es) h.1)

  push-HistoryLacks :
      (p : Predictor) (e : HistoryEntry)
      → contains e.cmd v ≡ false
      → HistoryLacks p.history
      → HistoryLacks (push p e).history
  unfolding push
  push-HistoryLacks p e h k = elim (Bool-cases (ltb p.capacity (length (e ∷ p.history)))) [
    | inl t ↦ rw t (pop-HistoryLacks (e ∷ p.history) (h, k))
    | inr t ↦ rw t (h, k)
  ]

  set_outcome-RowsLack :
      (id : ℕ) (code : ℤ) (ms : ℕ) (rs : List Row)
      → RowsLack rs
      → RowsLack (set_outcome id code ms rs)
  unfolding set_outcome
  set_outcome-RowsLack id code ms [] h = tt
  set_outcome-RowsLack id code ms (r ∷ rs) h = elim (Bool-cases (r.id == id)) [
    | inl e ↦ rw e (h.0, set_outcome-RowsLack id code ms rs h.1)
    | inr e ↦ rw e (h.0, set_outcome-RowsLack id code ms rs h.1)
  ]

  finish_first-HistoryLacks :
      (code : ℤ) (ms : ℕ) (es : List HistoryEntry)
      → HistoryLacks es
      → HistoryLacks (finish_first code ms es)
  unfolding finish_first
  finish_first-HistoryLacks code ms [] h = tt
  finish_first-HistoryLacks code ms (e ∷ es) h = elim (Bool-cases (is_none e.exit_code)) [
    | inl t ↦ rw t h
    | inr t ↦ rw t (h.0, finish_first-HistoryLacks code ms es h.1)
  ]

  record_done-RowsLack :
      (st : Store) (session : Text) (code : ℤ) (ms : ℕ)
      → RowsLack st.rows
      → RowsLack (record_done st session code ms).0.rows
  unfolding record_done
  record_done-RowsLack st session code ms h = elim (Option-cases (open_id session st.rows)) [
    | inl e ↦ rw (e, record_done) h
    | inr (id, e) ↦ rw (e, record_done) (set_outcome-RowsLack id code ms st.rows h)
  ]

  if-HistoryLacks :
      (b : Bool) (p q : Predictor)
      → HistoryLacks p.history
      → HistoryLacks q.history
      → HistoryLacks (if b then p else q).history
  if-HistoryLacks true p q h k = h
  if-HistoryLacks false p q h k = k

  pub done-IsClean :
      (c : Circuit) (now : ℤ) (session : Text) (code : ℤ) (ms : ℕ) (st : State)
      → IsClean st
      → IsClean (done c now session code ms st).0
  unfolding done mark_done
  done-IsClean c now session code ms st h = (
    record_done-RowsLack st.store session code ms h.0,
    if-HistoryLacks (record_done st.store session code ms).1 (mark_done st.predictor code ms)
        st.predictor (finish_first-HistoryLacks code ms st.predictor.history h.1) h.1,
  )

  module _ (cfg : HistoryConfig) (r : Redactor) (on : cfg.redact_on_write ≡ true)
      (secret : At v r.env_values) (foreign : IsForeign v) where
    kept_text-contains : (cmd : Text) → contains (kept_text cfg r cmd) v ≡ false
    unfolding kept_text
    kept_text-contains cmd = rw on (redact-contains r (trim cmd) v secret foreign)

    pub exec-IsClean :
        (now later : ℤ) (cmd cwd session : Text) (branch : Option Text) (st : State)
        → IsClean st
        → IsClean (exec cfg r now later cmd cwd session branch st)
    unfolding exec record_exec
    exec-IsClean now later cmd cwd session branch st h = elim (Bool-cases (should_record cfg cmd)) [
      | inl e ↦ rw e (
        (kept_text-contains cmd, h.0),
        push-HistoryLacks st.predictor _ (kept_text-contains cmd) h.1,
      )
      | inr e ↦ rw e h
    ]

    -- What a shell may report.
    pub data Report : State → State → Type 0 where
      ran :
          {st : State} (now later : ℤ) (cmd cwd session : Text) (branch : Option Text)
          → Report st (exec cfg r now later cmd cwd session branch st)
      ended :
          {st : State} (c : Circuit) (now : ℤ) (session : Text) (code : ℤ) (ms : ℕ)
          → Report st (done c now session code ms st).0
      took : {st : State} (chars : ℕ) → Report st (accepted chars st)

    pub data Reports (first : State) : State → Type 0 where
      none_yet : Reports first first
      and_then : {st next : State} → Reports first st → Report st next → Reports first next

    Report-IsClean : (st next : State) → Report st next → IsClean st → IsClean next
    unfolding accepted bump_counter
    Report-IsClean st next (ran now later cmd cwd session branch) h =
        exec-IsClean now later cmd cwd session branch st h
    Report-IsClean st next (ended c now session code ms) h = done-IsClean c now session code ms st h
    Report-IsClean st next (took chars) h = h

    -- With `redact_on_write`, whatever the shells report in whatever order, a value that the redactor
    -- holds gets into no command of the table or of the history, if it was in none before, has no `<`
    -- and no `>`, and is no part of the word `REDACTED`.
    pub Reports-IsClean : (first last : State) → Reports first last → IsClean first → IsClean last
    Reports-IsClean first last none_yet h = h
    Reports-IsClean first last (and_then {st = st} rs s) h =
        Report-IsClean st last s (Reports-IsClean first st rs h)
