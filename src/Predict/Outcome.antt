-- ===== src/Predict/Outcome.antt =====
-- `mark_done` of src/predict.rs against `record_done` of src/store.rs.
use fore_ai_assisted_termina.Prelude.{
  ℕ, ◌<◌, ◌^◌, ◌≡◌, refl, ap, inl, inr, true, false, Bool-cases, List, [], ◌∷◌, arith,
  if◌then◌else◌, map, ℤ, clamp, as_i64,
}
use fore_ai_assisted_termina.Prelude.Text.{Text, text_eq}
use fore_ai_assisted_termina.Store.{Row, Store, entry_of, is_none, record_done}
use fore_ai_assisted_termina.Store.Rows.{IsDescending, finish, is_open, record_done-finish}
use fore_ai_assisted_termina.Predict.{Predictor, finish_first, mark_done}

-- The newest unfinished row, of whatever session, is one of the session.
abbrev pub IsNext : Text → List Row → Type 0
IsNext session [] = Unit {0}
IsNext session (r ∷ rs) =
    if is_none r.exit_code then text_eq r.session session ≡ true else IsNext session rs

read_back : (ms : ℕ) → ms < 2 ^ 63 → clamp (as_i64 ms) ≡ ms
read_back ms h = ground (arith, h)

finish_first-finish :
    (session : Text) (code : ℤ) (ms : ℕ) (rows : List Row)
    → ms < 2 ^ 63
    → IsNext session rows
    → finish_first code ms (map entry_of rows) ≡ map entry_of (finish session code ms rows)
unfolding finish_first finish entry_of
finish_first-finish session code ms [] h k = refl
finish_first-finish session code ms (r ∷ rs) h k = elim (Bool-cases (is_none r.exit_code)) [
  | inl e ↦
      let own : text_eq r.session session ≡ true = rw e at k in
      let chosen : is_open session r ≡ true = rw (own, e) refl in
      rw (chosen, e) (rw (read_back ms h) refl)
  | inr e ↦
      let passed : is_open session r ≡ false = rw e (ground arith) in
      rw (passed, e)
        (ap (λ t. entry_of r ∷ t) (finish_first-finish session code ms rs h (rw e at k)))
]

-- If the ids of the table fall, the history holds its rows and the newest unfinished command is
-- one of the session, then for a duration below 2 ^ 63 `mark_done` does to the history what
-- `record_done` does to the table.
pub mark_done-record_done :
    (st : Store) (p : Predictor) (session : Text) (code : ℤ) (ms : ℕ)
    → IsDescending st.rows
    → p.history ≡ map entry_of st.rows
    → ms < 2 ^ 63
    → IsNext session st.rows
    → (mark_done p code ms).history ≡ map entry_of (record_done st session code ms).0.rows
unfolding mark_done
mark_done-record_done st p session code ms d e h k =
    rw (e, record_done-finish st session code ms d)
      (finish_first-finish session code ms st.rows h k)
