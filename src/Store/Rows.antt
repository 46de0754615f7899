-- ===== src/Store/Rows.antt =====
-- The ids of src/store.rs's table, and which row `record_done` finishes.
use mathlib.Core.Path.{ap₂}
use fore_ai_assisted_termina.Prelude.{
  ℕ, suc, ◌≤◌, ◌<◌, ◌≡◌, refl, sym, ap, ◌∙◌, inl, inr, Bool, true, false, not, Bool-cases,
  Option-cases, none, some, List, [], ◌∷◌, ◌&&◌, ◌==◌, arith, if◌then◌else◌, All, ℤ, as_i64,
}
use fore_ai_assisted_termina.Prelude.Text.{Text, text_eq}
use fore_ai_assisted_termina.Store.{Row, Store, next_id, is_none, open_id, set_outcome, record_done}

-- The ids fall from row to row.
abbrev pub IsDescending : List Row → Type 0
IsDescending [] = Unit {0}
IsDescending (r ∷ rs) = All (λ (s : Row). s.id < r.id) rs × IsDescending rs

abbrev pub is_open : Text → Row → Bool
is_open session r = text_eq r.session session && is_none r.exit_code

abbrev pub finished : ℤ → ℕ → Row → Row
finished code ms r = record r { exit_code = some code; duration_ms = some (as_i64 ms) }

-- The table with the first open row of the session finished, if there is one.
unfoldable pub finish : Text → ℤ → ℕ → List Row → List Row
finish session code ms [] = []
finish session code ms (r ∷ rs) =
    let rest = r ∷ finish session code ms rs in
    if is_open session r then finished code ms r ∷ rs else rest

unfoldable pub has_open : Text → List Row → Bool
has_open session [] = false
has_open session (r ∷ rs) =
    let rest = has_open session rs in if is_open session r then true else rest

All-weaken :
    (m n : ℕ) (rs : List Row)
    → m ≤ n
    → All (λ (s : Row). s.id < m) rs
    → All (λ (s : Row). s.id < n) rs
All-weaken m n [] h k = tt
All-weaken m n (r ∷ rs) h k = (omega (arith, h, k.0), All-weaken m n rs h k.1)

set_outcome-above :
    (id : ℕ) (code : ℤ) (ms : ℕ) (rs : List Row)
    → All (λ (s : Row). s.id < id) rs
    → set_outcome id code ms rs ≡ rs
unfolding set_outcome
set_outcome-above id code ms [] h = refl
set_outcome-above id code ms (r ∷ rs) h =
    let differs : (r.id == id) ≡ false = ground (arith, h.0) in
    rw (differs, set_outcome) (ap (λ t. r ∷ t) (set_outcome-above id code ms rs h.1))

open_id-below :
    (session : Text) (n id : ℕ) (rs : List Row)
    → All (λ (s : Row). s.id < n) rs
    → open_id session rs ≡ some id
    → id < n
unfolding open_id
open_id-below session n id [] h e = absurd (cc e)
open_id-below session n id (r ∷ rs) h e = ground (arith, open_id-below session n id rs, h)

record_rows : Text → ℤ → ℕ → List Row → List Row
record_rows session code ms rs = elim (open_id session rs) [
  | some id ↦ set_outcome id code ms rs
  | none ↦ rs
]

set_outcome-here :
    (code : ℤ) (ms : ℕ) (r : Row) (rs : List Row)
    → All (λ (s : Row). s.id < r.id) rs
    → set_outcome r.id code ms (r ∷ rs) ≡ finished code ms r ∷ rs
unfolding set_outcome
set_outcome-here code ms r rs h =
    let same : (r.id == r.id) ≡ true = ground arith in
    rw (same, set_outcome) (ap (λ t. finished code ms r ∷ t) (set_outcome-above r.id code ms rs h))

set_outcome-there :
    (id : ℕ) (code : ℤ) (ms : ℕ) (r : Row) (rs : List Row)
    → id < r.id
    → set_outcome id code ms (r ∷ rs) ≡ r ∷ set_outcome id code ms rs
unfolding set_outcome
set_outcome-there id code ms r rs h =
    let differs : (r.id == id) ≡ false = ground (arith, h) in rw (differs, set_outcome) refl

record_rows-finish :
    (session : Text) (code : ℤ) (ms : ℕ) (rs : List Row)
    → IsDescending rs
    → record_rows session code ms rs ≡ finish session code ms rs
unfolding record_rows finish open_id
record_rows-finish session code ms [] h = refl
record_rows-finish session code ms (r ∷ rs) h = elim (Bool-cases (is_open session r)) [
  | inl e ↦ rw (e, record_rows) (set_outcome-here code ms r rs h.0)
  | inr e ↦ elim (Option-cases (open_id session rs)) [
    | inl o ↦
        let later : record_rows session code ms rs ≡ rs = rw (o, record_rows) refl in
        rw (e, o, record_rows)
          (ap (λ t. r ∷ t) (sym later ∙ record_rows-finish session code ms rs h.1))
    | inr (id, o) ↦
        let later : record_rows session code ms rs ≡ set_outcome id code ms rs =
          rw (o, record_rows) refl in
        rw (e, o, record_rows)
          (set_outcome-there id code ms r rs (open_id-below session r.id id rs h.0 o)
            ∙ ap (λ t. r ∷ t) (sym later ∙ record_rows-finish session code ms rs h.1))
  ]
]

open_id-has_open :
    (session : Text) (rs : List Row) → has_open session rs ≡ not (is_none (open_id session rs))
unfolding has_open open_id
open_id-has_open session [] = refl
open_id-has_open session (r ∷ rs) = ground (arith, open_id-has_open session rs)

-- In a table whose ids fall, a `Done` finishes the newest unfinished row of its session and no other
-- row, and it answers whether there was one.
pub record_done-finish :
    (st : Store) (session : Text) (code : ℤ) (ms : ℕ)
    → IsDescending st.rows
    → record_done st session code ms
      ≡ (record st { rows = finish session code ms st.rows }, has_open session st.rows)
unfolding record_done record_rows
record_done-finish st session code ms h =
    let all = record_rows-finish session code ms st.rows h in
    elim (Option-cases (open_id session st.rows)) [
      | inl o ↦
          let same : st.rows ≡ finish session code ms st.rows = rw (o, record_rows) at all in
          let answer : has_open session st.rows ≡ false =
            open_id-has_open session st.rows ∙ rw o refl in
          rw (o, record_done) (ap₂ (λ rs b. (record st { rows = rs }, b)) same (sym answer))
      | inr (id, o) ↦
          let same : set_outcome id code ms st.rows ≡ finish session code ms st.rows =
            rw (o, record_rows) at all in
          let answer : has_open session st.rows ≡ true =
            open_id-has_open session st.rows ∙ rw o refl in
          rw (o, record_done) (ap₂ (λ rs b. (record st { rows = rs }, b)) same (sym answer))
    ]

finish-All :
    (session : Text) (code : ℤ) (ms n : ℕ) (rs : List Row)
    → All (λ (s : Row). s.id < n) rs
    → All (λ (s : Row). s.id < n) (finish session code ms rs)
unfolding finish
finish-All session code ms n [] h = tt
finish-All session code ms n (r ∷ rs) h = ground (arith, finish-All session code ms n rs)

pub finish-IsDescending :
    (session : Text) (code : ℤ) (ms : ℕ) (rs : List Row)
    → IsDescending rs
    → IsDescending (finish session code ms rs)
unfolding finish
finish-IsDescending session code ms [] h = tt
finish-IsDescending session code ms (r ∷ rs) h = elim (Bool-cases (is_open session r)) [
  | inl e ↦ rw e h
  | inr e ↦
      rw e (finish-All session code ms r.id rs h.0, finish-IsDescending session code ms rs h.1)
]

pub next_id-above : (rs : List Row) → IsDescending rs → All (λ (s : Row). s.id < next_id rs) rs
next_id-above [] h = tt
next_id-above (r ∷ rs) h = (omega arith, All-weaken r.id (suc r.id) rs (omega arith) h.0)
