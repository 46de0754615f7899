-- ===== src/Import/Times.antt =====
-- The times that src/import.rs gives to entries that have none.
use native.Mathlib.Nat.{mul-le-mul_left, div-mul-le_self, le-div_iff_mul-le, div-le_of_le-mul}
use mathlib.Core.Path.{subst}
use fore_ai_assisted_termina.Prelude.{
  ℕ, zero, suc, ◌+◌, ◌*◌, ◌/◌, ◌≤◌, ◌<◌, ◌≡◌, refl, sym, ap, Option, none, some, List, [], ◌∷◌,
  arith, ℤ, pos, negsuc, pos_part, neg_part, excess, ◌+ℤ◌,
}
use fore_ai_assisted_termina.Import.{
  span, anchor_end, minus, between, unknown, next_known, low, high, Run, start_run, next_in, fill,
}

infix 50 ◌≤ℤ◌
abbrev pub ◌≤ℤ◌ : ℤ → ℤ → Type 0
a ≤ℤ b = pos_part a + neg_part b ≤ pos_part b + neg_part a

-- No time is before the one in front of it; the first is not before `b`.
abbrev pub AscendingFrom : ℤ → List ℤ → Type 0
AscendingFrom b [] = Unit
AscendingFrom b (t ∷ ts) = (b ≤ℤ t) × AscendingFrom t ts

abbrev pub Ascending : List ℤ → Type 0
Ascending [] = Unit
Ascending (t ∷ ts) = AscendingFrom t ts

-- The times that the file has ascend from `b`, and none is after `end`.
abbrev pub KnownFrom : ℤ → ℤ → List (Option ℤ) → Type 0
KnownFrom end b [] = Unit
KnownFrom end b (none ∷ ts) = KnownFrom end b ts
KnownFrom end b (some t ∷ ts) = (b ≤ℤ t) × (t ≤ℤ end) × KnownFrom end t ts

abbrev pub Known : ℤ → List (Option ℤ) → Type 0
Known end [] = Unit
Known end (none ∷ ts) = Known end ts
Known end (some t ∷ ts) = (t ≤ℤ end) × KnownFrom end t ts

≤ℤ_refl : (a : ℤ) → a ≤ℤ a
≤ℤ_refl a = omega arith

pub ≤ℤ_trans : (a b c : ℤ) → a ≤ℤ b → b ≤ℤ c → a ≤ℤ c
≤ℤ_trans a b c h k = omega (arith, h, k)

add_up : (a : ℤ) (m n : ℕ) → m ≤ n → (a +ℤ pos m) ≤ℤ (a +ℤ pos n)
unfolding ◌+ℤ◌
add_up (pos a) m n h = ground (arith, h)
add_up (negsuc a) m n h = ground (arith, h)

add_above : (a : ℤ) (n : ℕ) → a ≤ℤ (a +ℤ pos n)
unfolding ◌+ℤ◌
add_above (pos a) n = ground arith
add_above (negsuc a) n = ground arith

add_below : (a b : ℤ) (n : ℕ) → a ≤ℤ b → n ≤ excess b a → (a +ℤ pos n) ≤ℤ b
unfolding ◌+ℤ◌
add_below (pos a) b n h k = ground (arith, h, k)
add_below (negsuc a) b n h k = ground (arith, h, k)

share_up : (e s g : ℕ) → 0 < g → (e * s) / g ≤ (e * suc s) / g
share_up e s g h =
    (le-div_iff_mul-le h).1
      (le_through (div-mul-le_self (e * s) g) (mul-le-mul_left e (omega arith)))
  where
    le_through : {a b c : ℕ} → a ≤ b → b ≤ c → a ≤ c
    le_through h k = omega (arith, h, k)

share_below : (e s g : ℕ) → s ≤ g → (e * s) / g ≤ e
share_below e s g h = div-le_of_le-mul g (omega (arith, mul-le-mul_left e h, commute e g))
  where
    commute : (a b : ℕ) → a * b ≡ b * a
    commute a b = omega arith

forwards :
    (lo hi : ℤ) (step gap : ℕ)
    → lo ≤ℤ hi
    → between lo hi step gap ≡ lo +ℤ pos ((excess hi lo * step) / gap)
unfolding between
forwards lo hi step gap h = ground (arith, h)

-- In a run that goes forwards, with a place for each entry without a time that is still to come.
abbrev pub Forwards : ℕ → Run → List (Option ℤ) → Type 0
Forwards now r ts =
    (r.lo ≤ℤ r.hi) × (r.hi ≡ high now (next_known ts)) × (r.gap ≡ r.step + unknown ts + 1)

abbrev reached : Run → ℤ
reached r = between r.lo r.hi r.step r.gap

reached-hi : (now : ℕ) (r : Run) (ts : List (Option ℤ)) → Forwards now r ts → reached r ≤ℤ r.hi
reached-hi now r ts (o, _, g) =
    subst (λ x. x ≤ℤ r.hi) (sym (forwards r.lo r.hi r.step r.gap o))
      (add_below r.lo r.hi _ o (share_below (excess r.hi r.lo) r.step r.gap (omega (arith, g))))

reached-next :
    (now : ℕ) (r : Run) (ts : List (Option ℤ))
    → Forwards now r ts
    → reached r ≤ℤ reached (next_in r)
reached-next now r ts (o, _, g) =
    rw (forwards r.lo r.hi r.step r.gap o, forwards r.lo r.hi (suc r.step) r.gap o)
      (add_up r.lo _ _ (share_up (excess r.hi r.lo) r.step r.gap (omega (arith, g))))

known_high :
    (now : ℕ) (b : ℤ) (ts : List (Option ℤ))
    → b ≤ℤ pos (anchor_end now)
    → KnownFrom (pos (anchor_end now)) b ts
    → b ≤ℤ high now (next_known ts)
unfolding next_known high
known_high now b [] h k = h
known_high now b (none ∷ ts) h k = known_high now b ts h k
known_high now b (some t ∷ ts) h k = k.0

module _ (now : ℕ) where
  abbrev end : ℤ
  end = pos (anchor_end now)

  -- The time in front of the entries to come, and what holds there.
  abbrev front : ℤ → Option Run → ℤ
  front t none = t
  front t (some r) = reached r

  abbrev Fits : Option ℤ → ℤ → Option Run → List (Option ℤ) → Type 0
  Fits last t none ts = last ≡ some t
  Fits last t (some r) ts = Forwards now r ts

  start_run-Forwards :
      (last : Option ℤ) (ts : List (Option ℤ))
      → low now last (next_known ts) ≤ℤ high now (next_known ts)
      → Forwards now (next_in (start_run now last (none ∷ ts))) ts
  unfolding start_run next_known unknown
  start_run-Forwards last ts h = (h, refl, omega arith)

  first-above : (t : ℤ) (r : Run) → r.lo ≡ t → r.lo ≤ℤ r.hi → t ≤ℤ reached (next_in r)
  first-above t r e h =
      subst (λ x. x ≤ℤ reached (next_in r)) e
        (subst (λ x. r.lo ≤ℤ x) (sym (forwards r.lo r.hi (suc r.step) r.gap h)) (add_above r.lo _))

  fill_from-Ascending :
      (ts : List (Option ℤ)) (last : Option ℤ) (t : ℤ) (run : Option Run)
      → Fits last t run ts
      → KnownFrom end t ts
      → t ≤ℤ end
      → AscendingFrom (front t run) (fill now last run ts)
  unfolding fill next_known unknown high low start_run
  fill_from-Ascending [] last t run f k e = tt
  fill_from-Ascending (some u ∷ ts) last t none f k e =
      (k.0, fill_from-Ascending ts (some u) u none refl k.2 k.1)
  fill_from-Ascending (some u ∷ ts) last t (some r) f k e = (
    subst (λ x. reached r ≤ℤ x) f.1 (reached-hi now r (some u ∷ ts) f),
    fill_from-Ascending ts (some u) u none refl k.2 k.1,
  )
  fill_from-Ascending (none ∷ ts) last t (some r) f k e = (
    reached-next now r (none ∷ ts) f,
    fill_from-Ascending ts last t (some (next_in r)) (f.0, f.1, omega (arith, f.2)) k e,
  )
  fill_from-Ascending (none ∷ ts) last t none f k e =
      let r = start_run now last (none ∷ ts) in
      let fw = start_run-Forwards last ts (
        subst (λ (l : Option ℤ). low now l (next_known ts) ≤ℤ high now (next_known ts)) (sym f)
          (known_high now t ts e k)) in
      (
        first-above t r (ap (λ (l : Option ℤ). low now l (next_known ts)) f) fw.0,
        fill_from-Ascending ts last t (some (next_in r)) fw k e,
      )

  minus_below : (a : ℤ) (n : ℕ) → minus a n ≤ℤ a
  unfolding ◌+ℤ◌
  minus_below a zero = omega arith
  minus_below (pos a) (suc n) = ground arith
  minus_below (negsuc a) (suc n) = ground arith

  low-high : (next : Option ℤ) → low now none next ≤ℤ high now next
  unfolding low high
  low-high none = minus_below _ span
  low-high (some t) = minus_below t span

  low-end : (ts : List (Option ℤ)) → Known end ts → low now none (next_known ts) ≤ℤ end
  unfolding low next_known
  low-end [] k = minus_below _ span
  low-end (none ∷ ts) k = low-end ts k
  low-end (some t ∷ ts) k = ≤ℤ_trans (minus t span) t end (minus_below t span) k.0

  known_from :
      (ts : List (Option ℤ)) → Known end ts → KnownFrom end (low now none (next_known ts)) ts
  unfolding low next_known
  known_from [] k = tt
  known_from (none ∷ ts) k = known_from ts k
  known_from (some t ∷ ts) k = (minus_below t span, k.0, k.1)

  -- If the times that a history file has are in order and none is after the full hour at or
  -- before the import, then the times are in order after those that are missing were filled in.
  pub fill-Ascending : (ts : List (Option ℤ)) → Known end ts → Ascending (fill now none none ts)
  unfolding fill
  fill-Ascending [] k = tt
  fill-Ascending (some t ∷ ts) k = fill_from-Ascending ts (some t) t none refl k.1 k.0
  fill-Ascending (none ∷ ts) k =
      fill_from-Ascending ts none (low now none (next_known ts))
        (some (next_in (start_run now none (none ∷ ts))))
        (start_run-Forwards none ts (low-high (next_known ts))) (known_from ts k) (low-end ts k)
