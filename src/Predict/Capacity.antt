-- ===== src/Predict/Capacity.antt =====
-- The history of src/predict.rs stays within its capacity.
use fore_ai_assisted_termina.Prelude.{
  ℕ, zero, suc, ◌≤◌, ◌≡◌, refl, sym, ap, ◌∙◌, inl, inr, Bool-cases, List, [], ◌∷◌, arith, ltb,
  length, length-take, take, pop, ℤ,
}
use fore_ai_assisted_termina.Store.{HistoryEntry}
use fore_ai_assisted_termina.Predict.{Predictor, new, push, finish_first, mark_done, replace}

length-pop {ℓ} : {A : Type ℓ} (x : A) (xs : List A) → length (pop (x ∷ xs)) ≡ length xs
length-pop x [] = refl
length-pop x (y ∷ ys) = omega (arith, length-pop y ys)

length-finish_first :
    (code : ℤ) (ms : ℕ) (es : List HistoryEntry) → length (finish_first code ms es) ≡ length es
unfolding finish_first
length-finish_first code ms [] = refl
length-finish_first code ms (e ∷ es) = ground (arith, length-finish_first code ms es)

abbrev pub IsBounded : Predictor → Type 0
IsBounded p = length p.history ≤ p.capacity

-- A step of the daemon on the predictor.
pub data Step : Predictor → Predictor → Type 0 where
  pushed : {p : Predictor} (e : HistoryEntry) → Step p (push p e)
  finished : {p : Predictor} (code : ℤ) (ms : ℕ) → Step p (mark_done p code ms)
  replaced : {p : Predictor} (history : List HistoryEntry) → Step p (replace p history)

pub data Reached (capacity : ℕ) : Predictor → Type 0 where
  made : (history : List HistoryEntry) → Reached capacity (new history capacity)
  grown : {p q : Predictor} → Reached capacity p → Step p q → Reached capacity q

step-IsBounded : (p q : Predictor) → Step p q → IsBounded p → IsBounded q
unfolding push mark_done replace
step-IsBounded p q (pushed e) h = elim (Bool-cases (ltb p.capacity (length (e ∷ p.history)))) [
  | inl t ↦ rw t (omega (arith, length-pop e p.history, h))
  | inr t ↦ rw t (ground (arith, t))
]
step-IsBounded p q (finished code ms) h = omega (arith, h, length-finish_first code ms p.history)
step-IsBounded p q (replaced history) h = length-take p.capacity history

step-capacity : (p q : Predictor) → Step p q → q.capacity ≡ p.capacity
unfolding push mark_done replace
step-capacity p q (pushed e) = refl
step-capacity p q (finished code ms) = refl
step-capacity p q (replaced history) = refl

bounded :
    (capacity : ℕ) (p : Predictor) → Reached capacity p → IsBounded p × (p.capacity ≡ capacity)
unfolding new
bounded capacity p (made history) = (length-take capacity history, refl)
bounded capacity q (grown {p = p} r s) =
    let (h, e) = bounded capacity p r in (step-IsBounded p q s h, step-capacity p q s ∙ e)

take-all {ℓ} : {A : Type ℓ} (n : ℕ) (xs : List A) → length xs ≤ n → take n xs ≡ xs
take-all zero [] h = refl
take-all (suc n) [] h = refl
take-all zero (x ∷ xs) h = absurd (omega (arith, h))
take-all (suc n) (x ∷ xs) h = ap (λ t. x ∷ t) (take-all n xs (omega (arith, h)))

pop-eq-take {ℓ} : {A : Type ℓ} (x : A) (xs : List A) → pop (x ∷ xs) ≡ take (length xs) (x ∷ xs)
pop-eq-take x [] = refl
pop-eq-take x (y ∷ ys) = ap (λ t. x ∷ t) (pop-eq-take y ys)

-- A push to a predictor within its capacity keeps the newest entries that fit, the pushed one first.
push-take :
    (p : Predictor) (e : HistoryEntry)
    → length p.history ≤ p.capacity
    → (push p e).history ≡ take p.capacity (e ∷ p.history)
unfolding push
push-take p e h = elim (Bool-cases (ltb p.capacity (length (e ∷ p.history)))) [
  | inl t ↦
      let full : length p.history ≡ p.capacity = ground (arith, t, h) in
      rw t (pop-eq-take e p.history ∙ ap (λ n. take n (e ∷ p.history)) full)
  | inr t ↦ rw t (sym (take-all p.capacity (e ∷ p.history) (ground (arith, t))))
]

-- Whatever the daemon does to a predictor, in whatever order, it holds no more entries than its capacity.
pub Reached-IsBounded :
    (capacity : ℕ) (p : Predictor) → Reached capacity p → length p.history ≤ capacity
Reached-IsBounded capacity p r = let (h, e) = bounded capacity p r in omega (arith, h, e)
