-- ===== src/Daemon/Breaker.antt =====
-- When the circuit breaker of src/daemon.rs opens.
use fore_ai_assisted_termina.Prelude.{
  ℕ, suc, ◌+◌, ◌%◌, ◌^◌, ◌≤◌, ◌<◌, ◌≡◌, refl, ap, ◌∙◌, true, false, List, [], ◌∷◌, ◌++◌, arith,
  length, ℤ, ltb_ℤ, ◌+ℤ◌,
}
use fore_ai_assisted_termina.Daemon.{Circuit, is_open, record_result}

-- Calls of the model that fail at these times, one after the other.
unfoldable pub fail_all : Circuit → List ℤ → Circuit
fail_all c [] = c
fail_all c (t ∷ ts) = fail_all (record_result c t false) ts

one_more : (f n : ℕ) → f + suc n < 2 ^ 32 → (f + 1) % 2 ^ 32 ≡ f + 1
one_more f n h = omega (arith, h)

failed_once :
    (c : Circuit) (t : ℤ)
    → c.failures + 1 < 2 ^ 32
    → ((record_result c t false).failures ≡ c.failures + 1)
      × ((record_result c t false).threshold ≡ c.threshold)
      × ((record_result c t false).cooldown_ms ≡ c.cooldown_ms)
unfolding record_result
failed_once c t h = ground (arith, one_more c.failures 0 h)

fail_all-counts :
    (c : Circuit) (ts : List ℤ)
    → c.failures + length ts < 2 ^ 32
    → ((fail_all c ts).failures ≡ c.failures + length ts)
      × ((fail_all c ts).threshold ≡ c.threshold)
      × ((fail_all c ts).cooldown_ms ≡ c.cooldown_ms)
unfolding fail_all
fail_all-counts c [] h = (omega arith, refl, refl)
fail_all-counts c (t ∷ ts) h =
    let (f, th, co) = failed_once c t (omega (arith, h)) in
    let (f2, th2, co2) = fail_all-counts (record_result c t false) ts (omega (arith, h, f)) in
    (omega (arith, f, f2), th2 ∙ th, co2 ∙ co)

fail_all-append :
    (c : Circuit) (ts : List ℤ) (t : ℤ)
    → fail_all c (ts ++ t ∷ []) ≡ record_result (fail_all c ts) t false
unfolding fail_all
fail_all-append c [] t = refl
fail_all-append c (u ∷ ts) t = fail_all-append (record_result c u false) ts t

failed_quietly :
    (c : Circuit) (t : ℤ)
    → c.failures + 1 < 2 ^ 32
    → c.failures + 1 < c.threshold
    → (record_result c t false).open_until_ms ≡ c.open_until_ms
unfolding record_result
failed_quietly c t h k = ground (arith, one_more c.failures 0 h, k)

fail_all-quiet :
    (c : Circuit) (ts : List ℤ)
    → c.failures + length ts < 2 ^ 32
    → c.failures + length ts < c.threshold
    → (fail_all c ts).open_until_ms ≡ c.open_until_ms
unfolding fail_all
fail_all-quiet c [] h k = refl
fail_all-quiet c (t ∷ ts) h k =
    let (f, th, _) = failed_once c t (omega (arith, h)) in
    fail_all-quiet (record_result c t false) ts (omega (arith, h, f)) (omega (arith, k, f, th))
    ∙ failed_quietly c t (omega (arith, h)) (omega (arith, k))

failed_loudly :
    (c : Circuit) (t : ℤ)
    → c.failures + 1 < 2 ^ 32
    → c.threshold ≤ c.failures + 1
    → (record_result c t false).open_until_ms ≡ t +ℤ c.cooldown_ms
unfolding record_result
failed_loudly c t h k = ground (arith, one_more c.failures 0 h, k)

-- After a success, fewer failures in a row than the threshold leave the breaker as it was, and
-- with as many or more, below 2 ^ 32, it is open exactly until the cooldown behind the last
-- failure has passed.
pub fail_all-is_open :
    (c : Circuit) (success t now : ℤ) (ts : List ℤ)
    → length ts + 1 < 2 ^ 32
    → (length ts + 1 < c.threshold
        → is_open now (fail_all (record_result c success true) (ts ++ t ∷ [])) ≡ is_open now c)
      × (c.threshold ≤ length ts + 1
          → is_open now (fail_all (record_result c success true) (ts ++ t ∷ []))
            ≡ ltb_ℤ now (t +ℤ c.cooldown_ms))
unfolding is_open record_result
fail_all-is_open c success t now ts h =
    let reset : Circuit = record c { failures = 0 } in
    let (f, th, co) = fail_all-counts reset ts (omega (arith, h)) in
    let last = fail_all-append reset ts t in
    (
      λ few.
          ap (λ (d : Circuit). ltb_ℤ now d.open_until_ms) last
          ∙ ap (ltb_ℤ now) (
              failed_quietly (fail_all reset ts) t (omega (arith, f, h)) (omega (arith, f, th, few))
              ∙ fail_all-quiet reset ts (omega (arith, h)) (omega (arith, few))),
      λ many.
          ap (λ (d : Circuit). ltb_ℤ now d.open_until_ms) last
          ∙ ap (ltb_ℤ now) (
              failed_loudly (fail_all reset ts) t (omega (arith, f, h)) (omega (arith, f, th, many))
              ∙ ap (λ k. t +ℤ k) co),
    )
