-- ===== src/Store/Invariant.antt =====
-- What any sequence of operations leaves of the table of src/store.rs.
use mathlib.Core.Path.{subst}
use fore_ai_assisted_termina.Prelude.{
  ℕ, ◌≡◌, sym, ap, ◌∙◌, ◌⊎◌, inl, inr, true, false, Bool, Bool-cases, List, [], ◌∷◌, ℤ, Option, All,
  At, At-cases, here, there, arith,
}
use fore_ai_assisted_termina.Prelude.Text.{Text, text_eq}
use fore_ai_assisted_termina.Store.{
  Row, Store, is_none, record_exec, record_done, import, import_rows, is_imported, bump_counter,
}
use fore_ai_assisted_termina.Store.Rows.{
  IsDescending, is_open, finish, next_id-above, finish-IsDescending, record_done-finish,
}
use fore_ai_assisted_termina.Store.Imports.{import_rows-IsDescending}

-- An operation of the daemon on the store.
pub data Operation : Type 0 where
  insert_command : (session cmd cwd : Text) (git_branch : Option Text) (now : ℤ) → Operation
  finish_command : (session : Text) (code : ℤ) (ms : ℕ) → Operation
  insert_batch : (batch : List (Text × ℤ)) → Operation
  count_up : (name : Text) (by : ℕ) → Operation

unfoldable pub apply : Operation → Store → Store
apply (insert_command session cmd cwd git_branch now) st =
    (record_exec st session cmd cwd git_branch now).0
apply (finish_command session code ms) st = (record_done st session code ms).0
apply (insert_batch batch) st = (import st batch).0
apply (count_up name by) st = bump_counter st name by

unfoldable pub apply_all : List Operation → Store → Store
apply_all [] st = st
apply_all (o ∷ os) st = apply_all os (apply o st)

apply-IsDescending :
    (o : Operation) (st : Store) → IsDescending st.rows → IsDescending (apply o st).rows
unfolding apply record_exec import bump_counter
apply-IsDescending (insert_command session cmd cwd git_branch now) st h =
    (next_id-above st.rows h, h)
apply-IsDescending (finish_command session code ms) st h =
    subst (λ (p : Store × Bool). IsDescending p.0.rows)
      (sym (record_done-finish st session code ms h))
      (finish-IsDescending session code ms st.rows h)
apply-IsDescending (insert_batch batch) st h = import_rows-IsDescending batch st.rows h
apply-IsDescending (count_up name by) st h = h

apply_all-IsDescending :
    (os : List Operation) (st : Store) → IsDescending st.rows → IsDescending (apply_all os st).rows
unfolding apply_all
apply_all-IsDescending [] st h = h
apply_all-IsDescending (o ∷ os) st h =
    apply_all-IsDescending os (apply o st) (apply-IsDescending o st h)

-- The operation finishes no row of the session.
abbrev pub Spares : Text → Operation → Type 0
Spares session (insert_command _ _ _ _ _) = Unit
Spares session (finish_command s _ _) = text_eq session s ≡ false
Spares session (insert_batch _) = Unit
Spares session (count_up _ _) = Unit

-- The row has its outcome, or none of the operations finishes one of its session.
abbrev pub IsSettled : List Operation → Row → Type 0
IsSettled os r = (is_none r.exit_code ≡ false) ⊎ All (Spares r.session) os

IsSettled-next :
    (o : Operation) (os : List Operation) (r : Row) → IsSettled (o ∷ os) r → IsSettled os r
IsSettled-next o os r (inl h) = inl h
IsSettled-next o os r (inr h) = inr h.1

finish-At :
    (session : Text) (code : ℤ) (ms : ℕ) (r : Row) (rs : List Row)
    → is_open session r ≡ false
    → At r rs
    → At r (finish session code ms rs)
unfolding finish
finish-At session code ms r [] h m = elim m [ ]
finish-At session code ms r (s ∷ rs) h m = elim (Bool-cases (is_open session s)) [
  | inl e ↦ elim (At-cases m) [
    | inl same ↦ absurd (differ (sym h ∙ ap (is_open session) same ∙ e))
    | inr n ↦ rw (finish, e) (there n)
  ]
  | inr e ↦ elim (At-cases m) [
    | inl same ↦ rw (finish, e) (subst (λ x. At x (s ∷ finish session code ms rs)) (sym same) here)
    | inr n ↦ rw (finish, e) (there (finish-At session code ms r rs h n))
  ]
]
  where
    differ : false ≡ true → ⊥
    differ x = cc x

import_rows-At :
    (batch : List (Text × ℤ)) (rows : List Row) (r : Row)
    → At r rows
    → At r (import_rows batch rows).0
unfolding import_rows
import_rows-At [] rows r m = m
import_rows-At ((c, t) ∷ more) rows r m = elim (Bool-cases (is_imported c t rows)) [
  | inl e ↦ rw (import_rows, e) (import_rows-At more rows r m)
  | inr e ↦ rw (import_rows, e) (import_rows-At more _ r (there m))
]

apply-At :
    (o : Operation) (os : List Operation) (st : Store) (r : Row)
    → IsDescending st.rows
    → IsSettled (o ∷ os) r
    → At r st.rows
    → At r (apply o st).rows
unfolding apply record_exec import bump_counter
apply-At (insert_command session cmd cwd git_branch now) os st r h s m = there m
apply-At (finish_command session code ms) os st r h s m =
    subst (λ (p : Store × Bool). At r p.0.rows) (sym (record_done-finish st session code ms h))
      (finish-At session code ms r st.rows (not_open s) m)
  where
    not_open : IsSettled (finish_command session code ms ∷ os) r → is_open session r ≡ false
    not_open (inl e) = ground (arith, e)
    not_open (inr e) = ground (arith, e.0)
apply-At (insert_batch batch) os st r h s m = import_rows-At batch st.rows r m
apply-At (count_up name by) os st r h s m = m

-- History is not rewritten. Where the ids fall from row to row, whatever is done to the table: a row
-- that has its outcome, or of whose session no row is finished, is still there as it was, column by
-- column; and the ids still fall.
pub apply_all-At :
    (os : List Operation) (st : Store) (r : Row)
    → IsDescending st.rows
    → IsSettled os r
    → At r st.rows
    → At r (apply_all os st).rows × IsDescending (apply_all os st).rows
unfolding apply_all
apply_all-At [] st r h s m = (m, h)
apply_all-At (o ∷ os) st r h s m =
    apply_all-At os (apply o st) r (apply-IsDescending o st h) (IsSettled-next o os r s)
      (apply-At o os st r h s m)
