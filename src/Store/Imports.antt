-- ===== src/Store/Imports.antt =====
-- `import` of src/store.rs: each command and time is inserted once, and a second import inserts nothing.
use fore_ai_assisted_termina.Prelude.{
  ℕ, suc, ◌+◌, ◌≡◌, refl, sym, ap, ◌∙◌, inl, inr, true, false, Bool-cases, List, [], ◌∷◌, arith,
  All, ℤ, eq_ℤ_iff, length,
}
use mathlib.Core.Path.{subst}
use fore_ai_assisted_termina.Prelude.Text.{Text, codes, text_eq_refl, is}
use fore_ai_assisted_termina.Store.{
  Row, Store, is_imported, imported_row, import_rows, import, sessions, session_count, count,
}
use fore_ai_assisted_termina.Store.Rows.{IsDescending, next_id-above}

import_is : is (codes "import") "import" ≡ true
unfolding is
import_is = refl

-- The two results of a round.
import_rows-known :
    (cmd : Text) (ts : ℤ) (more : List (Text × ℤ)) (rows : List Row)
    → is_imported cmd ts rows ≡ true
    → import_rows ((cmd, ts) ∷ more) rows ≡ import_rows more rows
unfolding import_rows
import_rows-known cmd ts more rows h = rw (h, import_rows) refl

import_rows-new :
    (cmd : Text) (ts : ℤ) (more : List (Text × ℤ)) (rows : List Row)
    → is_imported cmd ts rows ≡ false
    → import_rows ((cmd, ts) ∷ more) rows ≡ (
      (import_rows more (imported_row rows cmd ts ∷ rows)).0,
      suc (import_rows more (imported_row rows cmd ts ∷ rows)).1,
    )
unfolding import_rows
import_rows-new cmd ts more rows h = rw (h, import_rows) refl

imported_here :
    (rows : List Row) (cmd : Text) (ts : ℤ)
    → is_imported cmd ts (imported_row rows cmd ts ∷ rows) ≡ true
unfolding is_imported
imported_here rows cmd ts = ground (arith, text_eq_refl cmd, (eq_ℤ_iff ts ts).1 refl, import_is)

imported_there :
    (r : Row) (rows : List Row) (cmd : Text) (ts : ℤ)
    → is_imported cmd ts rows ≡ true
    → is_imported cmd ts (r ∷ rows) ≡ true
unfolding is_imported
imported_there r rows cmd ts h = ground (arith, h)

-- What was imported before stays imported.
import_rows-keeps :
    (more : List (Text × ℤ)) (rows : List Row) (cmd : Text) (ts : ℤ)
    → is_imported cmd ts rows ≡ true
    → is_imported cmd ts (import_rows more rows).0 ≡ true
unfolding import_rows
import_rows-keeps [] rows cmd ts h = h
import_rows-keeps ((c, t) ∷ more) rows cmd ts h = elim (Bool-cases (is_imported c t rows)) [
  | inl e ↦ rw (import_rows-known c t more rows e) (import_rows-keeps more rows cmd ts h)
  | inr e ↦
      rw (import_rows-new c t more rows e)
        (import_rows-keeps more _ cmd ts (imported_there (imported_row rows c t) rows cmd ts h))
]

abbrev AllImported : List Row → List (Text × ℤ) → Type 0
AllImported rows batch = All (λ (b : Text × ℤ). is_imported b.0 b.1 rows ≡ true) batch

import_rows-AllImported :
    (batch : List (Text × ℤ)) (rows : List Row) → AllImported (import_rows batch rows).0 batch
import_rows-AllImported [] rows = tt
import_rows-AllImported ((c, t) ∷ more) rows = elim (Bool-cases (is_imported c t rows)) [
  | inl e ↦
      subst (λ out. AllImported out ((c, t) ∷ more))
        (sym (ap (λ (p : List Row × ℕ). p.0) (import_rows-known c t more rows e)))
        (import_rows-keeps more rows c t e, import_rows-AllImported more rows)
  | inr e ↦
      subst (λ out. AllImported out ((c, t) ∷ more))
        (sym (ap (λ (p : List Row × ℕ). p.0) (import_rows-new c t more rows e)))
        (import_rows-keeps more _ c t (imported_here rows c t), import_rows-AllImported more _)
]

import_rows-again :
    (batch : List (Text × ℤ)) (rows : List Row)
    → AllImported rows batch
    → import_rows batch rows ≡ (rows, 0)
unfolding import_rows
import_rows-again [] rows h = refl
import_rows-again ((c, t) ∷ more) rows h =
    import_rows-known c t more rows h.0 ∙ import_rows-again more rows h.1

-- Importing the same rows again inserts none and leaves the store as it is.
pub import-again :
    (st : Store) (batch : List (Text × ℤ))
    → import (import st batch).0 batch ≡ ((import st batch).0, 0)
unfolding import
import-again st batch =
    ap (λ (p : List Row × ℕ). (record st { rows = p.0 }, p.1))
      (import_rows-again batch _ (import_rows-AllImported batch st.rows))

import_rows-length :
    (batch : List (Text × ℤ)) (rows : List Row)
    → length (import_rows batch rows).0 ≡ (import_rows batch rows).1 + length rows
unfolding import_rows
import_rows-length [] rows = omega arith
import_rows-length ((c, t) ∷ more) rows = elim (Bool-cases (is_imported c t rows)) [
  | inl e ↦ rw (import_rows-known c t more rows e) (import_rows-length more rows)
  | inr e ↦
      rw (import_rows-new c t more rows e)
        (omega (arith, import_rows-length more (imported_row rows c t ∷ rows)))
]

import_rows-sessions :
    (batch : List (Text × ℤ)) (rows : List Row)
    → sessions (import_rows batch rows).0 ≡ sessions rows
unfolding import_rows sessions
import_rows-sessions [] rows = refl
import_rows-sessions ((c, t) ∷ more) rows = elim (Bool-cases (is_imported c t rows)) [
  | inl e ↦ rw (import_rows-known c t more rows e) (import_rows-sessions more rows)
  | inr e ↦ rw (import_rows-new c t more rows e) (import_rows-sessions more _ ∙ rw import_is refl)
]

-- An import adds as many rows as it reports, and no session to the count.
import-counts :
    (st : Store) (batch : List (Text × ℤ))
    → (count (import st batch).0 ≡ (import st batch).1 + count st)
      × (session_count (import st batch).0 ≡ session_count st)
unfolding import count session_count
import-counts st batch =
    (import_rows-length batch st.rows, ap length (import_rows-sessions batch st.rows))

pub import_rows-IsDescending :
    (batch : List (Text × ℤ)) (rows : List Row)
    → IsDescending rows
    → IsDescending (import_rows batch rows).0
unfolding import_rows
import_rows-IsDescending [] rows h = h
import_rows-IsDescending ((c, t) ∷ more) rows h = elim (Bool-cases (is_imported c t rows)) [
  | inl e ↦ rw (import_rows-known c t more rows e) (import_rows-IsDescending more rows h)
  | inr e ↦
      rw (import_rows-new c t more rows e)
        (import_rows-IsDescending more _ (next_id-above rows h, h))
]
