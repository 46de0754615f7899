-- ===== src/Store/Counters.antt =====
-- The counters of src/store.rs.
use fore_ai_assisted_termina.Prelude.{
  ℕ, ◌+◌, ◌^◌, ◌<◌, ◌≡◌, refl, ap, ◌∙◌, inl, inr, false, Bool-cases, List, [], ◌∷◌, arith, ℤ, pos,
  pos_part, ◌+ℤ◌, as_i64, clamp,
}
use fore_ai_assisted_termina.Prelude.Text.{Text, text_eq, text_eq_refl, text_eq_iff}
use fore_ai_assisted_termina.Store.{Store, add_to, bump_counter, value_of, counter}

pos-+ℤ : (a b : ℕ) → pos a +ℤ pos b ≡ pos (a + b)
unfolding ◌+ℤ◌
pos-+ℤ a b = ground arith

value_of-add_to :
    (name : Text) (v by : ℕ) (cs : List (Text × ℤ))
    → value_of name cs ≡ pos v
    → value_of name (add_to name (pos by) cs) ≡ pos (v + by)
unfolding value_of add_to
value_of-add_to name v by [] h = rw text_eq_refl (ap pos (omega (arith, ap pos_part h)))
value_of-add_to name v by ((k, x) ∷ cs) h = elim (Bool-cases (text_eq k name)) [
  | inl e ↦
      let now : x ≡ pos v = rw (e, value_of) at h in
      rw (e, add_to, value_of) (rw e (rw now (pos-+ℤ v by)))
  | inr e ↦ rw (e, add_to, value_of) (rw e (value_of-add_to name v by cs (rw (e, value_of) at h)))
]

value_of-other :
    (name other : Text) (by : ℤ) (cs : List (Text × ℤ))
    → text_eq name other ≡ false
    → value_of other (add_to name by cs) ≡ value_of other cs
unfolding value_of add_to
value_of-other name other by [] h = rw h refl
value_of-other name other by ((k, x) ∷ cs) h = elim (Bool-cases (text_eq k name)) [
  | inl e ↦
      let differs : text_eq k other ≡ false =
        ap (λ t. text_eq t other) ((text_eq_iff k name).0 e) ∙ h in
      rw (e, differs, add_to, value_of) refl
  | inr e ↦ ground (arith, value_of-other name other by cs h)
]

small_as_i64 : (v by : ℕ) → v + by < 2 ^ 63 → as_i64 by ≡ pos by
small_as_i64 v by h = ground (arith, h)

-- Bumping a counter that holds no negative value and stays below 2 ^ 63 adds to it, and changes no
-- other counter.
pub counter-bump_counter :
    (st : Store) (name : Text) (v by : ℕ)
    → value_of name st.counters ≡ pos v
    → v + by < 2 ^ 63
    → (counter (bump_counter st name by) name ≡ counter st name + by)
      × ((other : Text)
          → text_eq name other ≡ false
          → counter (bump_counter st name by) other ≡ counter st other)
unfolding counter bump_counter
counter-bump_counter st name v by h k =
    let small : as_i64 by ≡ pos by = small_as_i64 v by k in
    (
      rw (small, h) (ap clamp (value_of-add_to name v by st.counters h)),
      λ other differs. ap clamp (value_of-other name other _ st.counters differs),
    )
