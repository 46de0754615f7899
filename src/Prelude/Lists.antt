-- ===== src/Prelude/Lists.antt =====
-- Lists over the native numbers, under the library's names, and predicates on lists.
use Prim.Native.Nat.{ℕ, zero, suc, ◌+◌, ◌≤◌}
use mathlib.Core.Path.{◌≡◌, refl}
use mathlib.Core.Logic.{◌⊎◌, inl, inr}
use mathlib.Core.Bool.{Bool, true, false, ◌&&◌, ◌||◌}
use mathlib.Core.Option.{Option, none, some}
use mathlib.Core.List.{List, [], ◌∷◌, ◌++◌}
use native.Mathlib.Omega.{arith}
use fore_ai_assisted_termina.Prelude.Tests.{if◌then◌else◌}

module _ {ℓ} {A : Type ℓ} where
  abbrev pub length : List A → ℕ
  length [] = 0
  length (x ∷ xs) = suc (length xs)

  abbrev pub take : ℕ → List A → List A
  take zero xs = []
  take (suc n) [] = []
  take (suc n) (x ∷ xs) = x ∷ take n xs

  abbrev pub drop : ℕ → List A → List A
  drop zero xs = xs
  drop (suc n) [] = []
  drop (suc n) (x ∷ xs) = drop n xs

  -- `Vec::pop`, and `PathBuf::pop` on components: without the last element.
  abbrev pub pop : List A → List A
  pop [] = []
  pop (x ∷ []) = []
  pop (x ∷ y ∷ ys) = x ∷ pop (y ∷ ys)

  abbrev pub get_elem? : List A → ℕ → Option A
  get_elem? [] i = none
  get_elem? (x ∷ xs) zero = some x
  get_elem? (x ∷ xs) (suc i) = get_elem? xs i

  -- Rust's `iter().any`, `iter().all`, `take_while`, `skip_while` and `filter`.
  abbrev pub any : (A → Bool) → List A → Bool
  any p [] = false
  any p (x ∷ xs) = p x || any p xs

  abbrev pub all : (A → Bool) → List A → Bool
  all p [] = true
  all p (x ∷ xs) = p x && all p xs

  abbrev pub take_while : (A → Bool) → List A → List A
  take_while p [] = []
  take_while p (x ∷ xs) = let rest = take_while p xs in if p x then x ∷ rest else []

  abbrev pub skip_while : (A → Bool) → List A → List A
  skip_while p [] = []
  skip_while p (x ∷ xs) = let rest = skip_while p xs in if p x then rest else x ∷ xs

  abbrev pub keep_if : (A → Bool) → List A → List A
  keep_if p [] = []
  keep_if p (x ∷ xs) = let rest = keep_if p xs in if p x then x ∷ rest else rest

  abbrev pub position : (A → Bool) → List A → Option ℕ
  position p [] = none
  position p (x ∷ xs) =
      let rest : Option ℕ = elim (position p xs) [ none ↦ none | some i ↦ some (suc i) ] in
      if p x then some 0 else rest

  pub length-append : (xs ys : List A) → length (xs ++ ys) ≡ length xs + length ys
  length-append [] ys = omega arith
  length-append (x ∷ xs) ys = omega (arith, length-append xs ys)

-- A predicate on every element, by recursion, so that it computes to a tuple.
abbrev pub All {ℓ κ} : {A : Type ℓ} → (A → Type κ) → List A → Type κ
All P [] = Unit
All P (x ∷ xs) = P x × All P xs

-- Membership as a proof of where the element stands.
pub data At {ℓ} {A : Type ℓ} (a : A) : List A → Type ℓ where
  here : {xs : List A} → At a (a ∷ xs)
  there : {x : A} {xs : List A} → At a xs → At a (x ∷ xs)

pub All-at {ℓ κ} : {A : Type ℓ} (P : A → Type κ) {a : A} (xs : List A) → All P xs → At a xs → P a
All-at P [] h m = elim m [ ]
All-at P (x ∷ xs) h here = h.0
All-at P (x ∷ xs) h (there m) = All-at P xs h.1 m

pub All-append {ℓ κ} :
    {A : Type ℓ} (P : A → Type κ) (xs ys : List A) → All P xs → All P ys → All P (xs ++ ys)
All-append P [] ys hx hy = hy
All-append P (x ∷ xs) ys hx hy = (hx.0, All-append P xs ys hx.1 hy)

module _ {ℓ} {A : Type ℓ} where
  pub At-append_left : {a : A} (xs ys : List A) → At a xs → At a (xs ++ ys)
  At-append_left [] ys m = elim m [ ]
  At-append_left (x ∷ xs) ys here = here
  At-append_left (x ∷ xs) ys (there m) = there (At-append_left xs ys m)

  pub At-append_right : {a : A} (xs ys : List A) → At a ys → At a (xs ++ ys)
  At-append_right [] ys m = m
  At-append_right (x ∷ xs) ys m = there (At-append_right xs ys m)

  pub At-cases : {a d : A} {xs : List A} → At a (d ∷ xs) → (a ≡ d) ⊎ At a xs
  At-cases here = inl refl
  At-cases (there m) = inr m

pub At-All {ℓ κ} :
    {A : Type ℓ} {P : A → Type κ} (xs : List A) → ((x : A) → At x xs → P x) → All P xs
At-All [] h = tt
At-All (x ∷ xs) h = (h x here, At-All xs (λ y m. h y (there m)))

pub length-take {ℓ} : {A : Type ℓ} (n : ℕ) (xs : List A) → length (take n xs) ≤ n
length-take zero xs = omega arith
length-take (suc n) [] = omega arith
length-take (suc n) (x ∷ xs) = omega (arith, length-take n xs)

pub take-All {ℓ κ} :
    {A : Type ℓ} (P : A → Type κ) (n : ℕ) (xs : List A) → All P xs → All P (take n xs)
take-All P zero xs h = tt
take-All P (suc n) [] h = tt
take-All P (suc n) (x ∷ xs) h = (h.0, take-All P n xs h.1)
