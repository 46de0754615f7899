-- ===== src/Prelude/Sort.antt =====
-- Rust's stable `sort_by`, and what a sort by a number gives.
use Prim.Native.Nat.{ℕ, zero, suc, ◌≤◌}
use mathlib.Core.Logic.{inl, inr}
use mathlib.Core.Bool.{Bool}
use mathlib.Core.List.{List, [], ◌∷◌}
use native.Mathlib.Omega.{arith}
use fore_ai_assisted_termina.Prelude.Tests.{ltb, if◌then◌else◌, Bool-cases}
use fore_ai_assisted_termina.Prelude.Lists.{All, take, take-All}

-- `above` says what goes strictly before what.
module _ {ℓ} {A : Type ℓ} (above : A → A → Bool) where
  unfoldable pub insert_by : A → List A → List A
  insert_by x [] = x ∷ []
  insert_by x (y ∷ ys) = let rest = y ∷ insert_by x ys in if above y x then rest else x ∷ y ∷ ys

  unfoldable pub sort_by : List A → List A
  sort_by [] = []
  sort_by (x ∷ xs) = insert_by x (sort_by xs)

  module _ {κ} (P : A → Type κ) where
    insert_by-All : (x : A) (xs : List A) → P x → All P xs → All P (insert_by x xs)
    unfolding insert_by
    insert_by-All x [] h k = (h, tt)
    insert_by-All x (y ∷ ys) h k = elim (Bool-cases (above y x)) [
      | inl e ↦ rw (e, insert_by) (k.0, insert_by-All x ys h k.1)
      | inr e ↦ rw (e, insert_by) (h, k)
    ]

    pub sort_by-All : (xs : List A) → All P xs → All P (sort_by xs)
    unfolding sort_by
    sort_by-All [] h = tt
    sort_by-All (x ∷ xs) h = insert_by-All x (sort_by xs) h.0 (sort_by-All xs h.1)

-- No element has a greater number than one before it.
module _ {ℓ} {A : Type ℓ} (rank : A → ℕ) where
  abbrev pub Falling : List A → Type 0
  Falling [] = Unit
  Falling (x ∷ xs) = All (λ y. rank y ≤ rank x) xs × Falling xs

  abbrev pub higher : A → A → Bool
  higher x y = ltb (rank y) (rank x)

  below-All :
      (x y : A) (ys : List A) → rank y ≤ rank x → Falling (y ∷ ys) → All (λ z. rank z ≤ rank x) ys
  below-All x y [] h f = tt
  below-All x y (z ∷ zs) h f = (omega (arith, h, f.0.0), below-All x y zs h (f.0.1, f.1.1))

  insert_by-Falling : (x : A) (xs : List A) → Falling xs → Falling (insert_by higher x xs)
  unfolding insert_by
  insert_by-Falling x [] f = (tt, tt)
  insert_by-Falling x (y ∷ ys) f = elim (Bool-cases (ltb (rank x) (rank y))) [
    | inl e ↦
        rw (e, insert_by)
          (
            insert_by-All higher (λ z. rank z ≤ rank y) x ys (ground (arith, e)) f.0,
            insert_by-Falling x ys f.1,
          )
    | inr e ↦
        let le : rank y ≤ rank x = ground (arith, e) in
        rw (e, insert_by) ((le, below-All x y ys le f), f)
  ]

  pub sort_by-Falling : (xs : List A) → Falling (sort_by higher xs)
  unfolding sort_by
  sort_by-Falling [] = tt
  sort_by-Falling (x ∷ xs) = insert_by-Falling x (sort_by higher xs) (sort_by-Falling xs)

  pub take-Falling : (n : ℕ) (xs : List A) → Falling xs → Falling (take n xs)
  take-Falling zero xs f = tt
  take-Falling (suc n) [] f = tt
  take-Falling (suc n) (x ∷ xs) f = (take-All _ n xs f.0, take-Falling n xs f.1)
