-- ===== src/Prelude/Text/Decimal.antt =====
-- `usize::to_string`, and that different numbers read differently.
use fore_ai_assisted_termina.Prelude.Tests.{ltb}
use fore_ai_assisted_termina.Prelude.Text.Base.{Text}
use Prim.Native.Nat.{ℕ, zero, suc, ◌+◌, ◌-◌, ◌*◌, ◌/◌, ◌%◌, ◌<◌}
use mathlib.Core.Path.{◌≡◌, refl, sym, ap, ◌∙◌}
use mathlib.Core.Logic.{inl, inr}
use mathlib.Core.Bool.{true, false}
use mathlib.Core.List.{[], ◌∷◌, ◌++◌}
use native.Mathlib.Omega.{arith}
use fore_ai_assisted_termina.Prelude.Tests.{Bool-cases}

-- With one more round than the number, each of which divides it by ten.
unfoldable pub digits : ℕ → ℕ → Text
digits zero n = []
digits (suc fuel) n = elim (ltb n 10) [
  | true ↦ (b'0' + n) ∷ []
  | false ↦ digits fuel (n / 10) ++ (b'0' + n % 10) ∷ []
]

unfoldable pub decimal : ℕ → Text
decimal n = digits (suc n) n

value : ℕ → Text → ℕ
value acc [] = acc
value acc (c ∷ cs) = value (acc * 10 + (c - b'0')) cs

value-append :
    (acc : ℕ) (s : Text) (c : ℕ) → value acc (s ++ c ∷ []) ≡ value acc s * 10 + (c - b'0')
unfolding value
value-append acc [] c = refl
value-append acc (d ∷ s) c = value-append (acc * 10 + (d - b'0')) s c

value-digits : (fuel n : ℕ) → n < fuel → value 0 (digits fuel n) ≡ n
unfolding digits value
value-digits zero n h = omega (arith, h)
value-digits (suc fuel) n h = elim (Bool-cases (ltb n 10)) [
  | inl e ↦ rw (e, digits, value) (omega arith)
  | inr e ↦
      rw (e, digits)
        (omega (
          arith,
          value-append 0 (digits fuel (n / 10)) (b'0' + n % 10),
          value-digits fuel (n / 10) (smaller n fuel h e),
        ))
]
  where
    smaller : (n fuel : ℕ) → n < suc fuel → ltb n 10 ≡ false → n / 10 < fuel
    smaller n fuel h e = ground (arith, h, e)

pub decimal_injective : (m n : ℕ) → decimal m ≡ decimal n → m ≡ n
unfolding decimal
decimal_injective m n e =
    sym (value-digits (suc m) m (omega arith))
    ∙ ap (value 0) e
    ∙ value-digits (suc n) n (omega arith)
