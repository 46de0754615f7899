-- ===== src/Redact/Assign/Cover.antt =====
-- Which of the ranges that layer 2 collects are masked: those that do not start inside another one.
use fore_ai_assisted_termina.Prelude.{
  ℕ, ◌-◌, ◌≤◌, ◌<◌, ◌≡◌, refl, ap, false, Bool-cases, inl, inr, List, [], ◌∷◌, ◌++◌, arith, ltb,
  if◌then◌else◌, drop, take, All, At, here, there, At-cases,
}
use fore_ai_assisted_termina.Prelude.Text.{Text}
use fore_ai_assisted_termina.Redact.Known.{mask}
use fore_ai_assisted_termina.Redact.Assign.{
  assign_keys, all_cuts, before, insert_cut, sort_cuts, render, redact_assignments_line,
}
use fore_ai_assisted_termina.Redact.Assign.Cuts.{Within, all_cuts-Within, sort_cuts-All}

pub kept : ℕ → List (ℕ × ℕ) → List (ℕ × ℕ)
kept i [] = []
kept i ((a, b) ∷ cs) =
    let rest = kept i cs in let more = (a, b) ∷ kept b cs in if ltb a i then rest else more

-- The line with the parts masked, each written after what stands between it and the one before.
pub weave : Text → ℕ → List (ℕ × ℕ) → Text
weave line i [] = drop i line
weave line i ((a, b) ∷ ks) = take (a - i) (drop i line) ++ (mask ++ weave line b ks)

abbrev pub IsIncreasing : ℕ → List (ℕ × ℕ) → Type 0
IsIncreasing i [] = Unit {0}
IsIncreasing i ((a, b) ∷ ks) = (i ≤ a) × (a < b) × IsIncreasing b ks

abbrev pub Covers : List (ℕ × ℕ) → ℕ × ℕ → Type 0
Covers ks c = (k : ℕ × ℕ) × At k ks × (k.0 ≤ c.0) × (c.0 < k.1)

abbrev IsSorted : ℕ → List (ℕ × ℕ) → Type 0
IsSorted lo [] = Unit {0}
IsSorted lo ((a, b) ∷ cs) = (lo ≤ a) × IsSorted a cs

render-eq-weave :
    (line : Text) (i : ℕ) (cs : List (ℕ × ℕ)) → render line i cs ≡ weave line i (kept i cs)
unfolding render weave kept
render-eq-weave line i [] = refl
render-eq-weave line i ((a, b) ∷ cs) = elim (Bool-cases (ltb a i)) [
  | inl e ↦ rw (e, render, kept) (render-eq-weave line i cs)
  | inr e ↦ rw (e, render, kept) (rw (render-eq-weave line b cs))
]

kept-IsIncreasing :
    (line : Text) (i : ℕ) (cs : List (ℕ × ℕ)) → All (Within line) cs → IsIncreasing i (kept i cs)
unfolding kept
kept-IsIncreasing line i [] h = tt
kept-IsIncreasing line i ((a, b) ∷ cs) h =
    ground (arith, h.0, kept-IsIncreasing line i cs h.1, kept-IsIncreasing line b cs h.1)

kept-All : (P : ℕ × ℕ → Type 0) (i : ℕ) (cs : List (ℕ × ℕ)) → All P cs → All P (kept i cs)
unfolding kept
kept-All P i [] h = tt
kept-All P i ((a, b) ∷ cs) h = ground (arith, kept-All P i cs h.1, kept-All P b cs h.1)

IsSorted-mono : (lo hi : ℕ) (cs : List (ℕ × ℕ)) → lo ≤ hi → IsSorted hi cs → IsSorted lo cs
IsSorted-mono lo hi [] h s = tt
IsSorted-mono lo hi ((a, b) ∷ cs) h s = (omega arith, s.1)

insert_cut-IsSorted :
    (lo : ℕ) (c : ℕ × ℕ) (cs : List (ℕ × ℕ))
    → lo ≤ c.0
    → IsSorted lo cs
    → IsSorted lo (insert_cut c cs)
unfolding insert_cut
insert_cut-IsSorted lo c [] h s = (h, tt)
insert_cut-IsSorted lo c (d ∷ ds) h s = ground (arith, insert_cut-IsSorted d.0 c ds)

sort_cuts-IsSorted : (cs : List (ℕ × ℕ)) → IsSorted 0 (sort_cuts cs)
unfolding sort_cuts
sort_cuts-IsSorted [] = tt
sort_cuts-IsSorted (c ∷ cs) =
    insert_cut-IsSorted 0 c (sort_cuts cs) (omega arith) (sort_cuts-IsSorted cs)

insert_cut-here : (c : ℕ × ℕ) (cs : List (ℕ × ℕ)) → At c (insert_cut c cs)
unfolding insert_cut
insert_cut-here c [] = here
insert_cut-here c (d ∷ ds) = elim (Bool-cases (before c d)) [
  | inl e ↦ rw (e, insert_cut) here
  | inr e ↦ rw (e, insert_cut) (there (insert_cut-here c ds))
]

At-tail : {c d : ℕ × ℕ} {xs ys : List (ℕ × ℕ)} → (At c xs → At c ys) → At c (d ∷ xs) → At c (d ∷ ys)
At-tail f here = here
At-tail f (there m) = there (f m)

insert_cut-there : (c d : ℕ × ℕ) (cs : List (ℕ × ℕ)) → At d cs → At d (insert_cut c cs)
unfolding insert_cut
insert_cut-there c d [] m = elim m [ ]
insert_cut-there c d (e ∷ es) m = elim (Bool-cases (before c e)) [
  | inl f ↦ rw (f, insert_cut) (there m)
  | inr f ↦ rw (f, insert_cut) (At-tail (insert_cut-there c d es) m)
]

sort_cuts-At : (c : ℕ × ℕ) (cs : List (ℕ × ℕ)) → At c cs → At c (sort_cuts cs)
unfolding sort_cuts
sort_cuts-At c [] m = elim m [ ]
sort_cuts-At c (c' ∷ cs) here = insert_cut-here c (sort_cuts cs)
sort_cuts-At c (d ∷ cs) (there m) = insert_cut-there d c (sort_cuts cs) (sort_cuts-At c cs m)

Covers-there : (k c : ℕ × ℕ) (ks : List (ℕ × ℕ)) → Covers ks c → Covers (k ∷ ks) c
Covers-there k c ks (d, m, lo, hi) = (d, there m, lo, hi)

-- `(p, i)` is the range masked last, and the ranges that are left start behind its start.
kept-Covers :
    (line : Text) (p i : ℕ) (c : ℕ × ℕ) (cs : List (ℕ × ℕ))
    → IsSorted p cs
    → All (Within line) cs
    → At c cs
    → Covers ((p, i) ∷ kept i cs) c
unfolding kept
kept-Covers line p i c [] s h m = elim m [ ]
kept-Covers line p i c ((a, b) ∷ cs) s h m = elim (At-cases m) [
  | inl same ↦ elim (Bool-cases (ltb a i)) [
    | inl e ↦ rw (e, kept) ((p, i), here, omega (arith, start same), ground (arith, start same))
    | inr e ↦
        rw (e, kept) ((a, b), there here, omega (arith, start same), omega (arith, start same, h.0))
  ]
  | inr later ↦ elim (Bool-cases (ltb a i)) [
    | inl e ↦ rw (e, kept) (kept-Covers line p i c cs (IsSorted-mono p a cs s.0 s.1) h.1 later)
    | inr e ↦ rw (e, kept) (Covers-there (p, i) c _ (kept-Covers line a b c cs s.1 h.1 later))
  ]
]
  where
    start : c ≡ (a, b) → c.0 ≡ a
    start e = ap (λ (x : ℕ × ℕ). x.0) e

kept-Covers-All :
    (line : Text) (c : ℕ × ℕ) (cs : List (ℕ × ℕ))
    → IsSorted 0 cs
    → All (Within line) cs
    → At c cs
    → Covers (kept 0 cs) c
unfolding kept
kept-Covers-All line c [] s h m = elim m [ ]
kept-Covers-All line c ((a, b) ∷ cs) s h m =
    let from_start : ltb a 0 ≡ false = ground arith in
    rw (from_start, kept)
      (elim (At-cases m) [
        | inl same ↦
            let start : c.0 ≡ a = ap (λ (x : ℕ × ℕ). x.0) same in
            ((a, b), here, omega (arith, start), omega (arith, start, h.0))
        | inr later ↦ kept-Covers line a b c cs s.1 h.1 later
      ])

-- The ranges of a line that are masked.
pub masked_parts : Text → List (ℕ × ℕ)
masked_parts line = kept 0 (sort_cuts (all_cuts assign_keys line))

line-eq-weave :
    (line : Text) (cs : List (ℕ × ℕ))
    → all_cuts assign_keys line ≡ cs
    → redact_assignments_line line ≡ weave line 0 (kept 0 (sort_cuts cs))
unfolding redact_assignments_line
line-eq-weave line [] e = rw (e, redact_assignments_line) (unfold kept sort_cuts weave in refl)
line-eq-weave line (c ∷ cs) e = rw (e, redact_assignments_line) (render-eq-weave line 0 _)

-- Of a line, exactly the parts `masked_parts` are masked and all else is copied. They are
-- not empty, do not overlap, lie within the line, and each range that the keys give starts in one.
pub redact_assignments_line-cover :
    (line : Text) (c : ℕ × ℕ)
    → At c (all_cuts assign_keys line)
    → (redact_assignments_line line ≡ weave line 0 (masked_parts line))
      × IsIncreasing 0 (masked_parts line)
      × All (Within line) (masked_parts line)
      × Covers (masked_parts line) c
unfolding masked_parts
redact_assignments_line-cover line c m =
    let cuts = all_cuts assign_keys line in
    let fits = sort_cuts-All (Within line) cuts (all_cuts-Within assign_keys line) in
    (
      line-eq-weave line cuts refl,
      kept-IsIncreasing line 0 (sort_cuts cuts) fits,
      kept-All (Within line) 0 (sort_cuts cuts) fits,
      kept-Covers-All line c (sort_cuts cuts) (sort_cuts-IsSorted cuts) fits
          (sort_cuts-At c cuts m),
    )
