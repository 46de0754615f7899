-- ===== src/Prelude/Int.antt =====
-- Rust's signed integers, on the native numbers and under the library's names.
use Prim.Native.Nat.{ℕ, suc, ◌+◌, ◌-◌, ◌^◌}
use mathlib.Core.Bool.{Bool, true, false}
use mathlib.Core.Path.{◌≡◌, ap}
use mathlib.Core.Logic.{◌↔◌}
use native.Mathlib.Omega.{arith}
use fore_ai_assisted_termina.Prelude.Tests.{ltb, ◌==◌, ==_iff, if◌then◌else◌}

-- `negsuc n` is -(n + 1).
pub data ℤ : Type 0 where
  pos : ℕ → ℤ
  negsuc : ℕ → ℤ

abbrev pub pos_part : ℤ → ℕ
pos_part (pos n) = n
pos_part (negsuc n) = 0

abbrev pub neg_part : ℤ → ℕ
neg_part (pos n) = 0
neg_part (negsuc n) = suc n

abbrev pub ltb_ℤ : ℤ → ℤ → Bool
ltb_ℤ a b = ltb (pos_part a + neg_part b) (pos_part b + neg_part a)

abbrev pub eq_ℤ : ℤ → ℤ → Bool
eq_ℤ (pos a) (pos b) = a == b
eq_ℤ (negsuc a) (negsuc b) = a == b
eq_ℤ _ _ = false

-- `(a - b).max(0)`
abbrev pub excess : ℤ → ℤ → ℕ
excess a b = (pos_part a + neg_part b) - (pos_part b + neg_part a)

-- `x.max(0) as u64`
abbrev pub clamp : ℤ → ℕ
clamp (pos n) = n
clamp (negsuc n) = 0

-- `n as i64` for n below 2 ^ 64
abbrev pub as_i64 : ℕ → ℤ
as_i64 n = if ltb n (2 ^ 63) then pos n else negsuc (2 ^ 64 - n - 1)

infixl 65 ◌+ℤ◌
unfoldable pub ◌+ℤ◌ : ℤ → ℤ → ℤ
a +ℤ b =
    let up = pos_part a + pos_part b in
    let down = neg_part a + neg_part b in
    if ltb up down then negsuc (down - up - 1) else pos (up - down)

pub eq_ℤ_iff : (a b : ℤ) → (eq_ℤ a b ≡ true) ↔ (a ≡ b)
eq_ℤ_iff (pos a) (pos b) = (λ h. ap pos ((==_iff a b).0 h), λ e. (==_iff a b).1 (ap pos_part e))
eq_ℤ_iff (negsuc a) (negsuc b) =
    (λ h. ap negsuc ((==_iff a b).0 h), λ e. (==_iff a b).1 (omega (arith, ap neg_part e)))
eq_ℤ_iff (pos a) (negsuc b) = (λ h. cc h, λ e. cc e)
eq_ℤ_iff (negsuc a) (pos b) = (λ h. cc h, λ e. cc e)
