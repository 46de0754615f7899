-- ===== src/Redact/Assign/Cuts.antt =====
-- The ranges that layer 2 masks lie within the line and are not empty.
use fore_ai_assisted_termina.Prelude.{
  ℕ, zero, suc, ◌+◌, ◌-◌, ◌≤◌, ◌<◌, ◌≡◌, refl, ap, Bool, Option-cases, inl, inr, Option, none, some,
  List, [], ◌∷◌, arith, ◌==◌, if◌then◌else◌, length, drop, position, All, All-append, String,
}
use fore_ai_assisted_termina.Prelude.Text.{
  Text, codes, find, to_ascii_lowercase, strip_prefix, trim_start, is_whitespace,
}
use fore_ai_assisted_termina.Prelude.Text.Laws.{length-drop, length-skip_while}
use fore_ai_assisted_termina.Redact.Assign.{
  opening, terminator, or_else, schemes, strip_scheme, separator, value_range, value_cut, cut_at,
  push_cut, key_cuts, all_cuts, insert_cut, sort_cuts,
}

abbrev pub Within : Text → ℕ × ℕ → Type 0
Within line (a, b) = (a < b) × (b ≤ length line)

length-strip_prefix :
    (s p : Text) (rest : Text) → strip_prefix s p ≡ some rest → length rest ≤ length s
unfolding strip_prefix
length-strip_prefix s [] rest h = ground (arith, ap (λ (o : Option Text). or_length o) h)
  where
    or_length : Option Text → ℕ
    or_length none = 0
    or_length (some t) = length t
length-strip_prefix [] (y ∷ p) rest h = cc
length-strip_prefix (x ∷ s) (y ∷ p) rest h = ground (arith, length-strip_prefix s p rest)

length-strip_scheme : (ss : List String) (body : Text) → length (strip_scheme ss body) ≤ length body
unfolding strip_scheme
length-strip_scheme [] body = omega arith
length-strip_scheme (s ∷ ss) body = elim (Option-cases (strip_prefix body (codes s))) [
  | inl e ↦ rw (e, strip_scheme) (length-strip_scheme ss body)
  | inr (rest, e) ↦
      rw (e, strip_scheme)
        (omega
          (arith, length-strip_prefix body (codes s) rest e, length-skip_while is_whitespace rest))
]

position-lt : (p : ℕ → Bool) (s : Text) → or_else (length s) (position p s) ≤ length s
position-lt p [] = omega arith
position-lt p (x ∷ s) = ground (arith, position-lt p s)

opening-le : (q : ℕ) (v : Text) → opening (q ∷ v) ≤ 1
opening-le q v = ground arith

-- The arithmetic of a cut, with the lengths of the parts as numbers.
cut_arith :
    (n from rest v skip quoted body vlen : ℕ)
    → rest ≡ n - from
    → v ≤ rest
    → 0 < v
    → skip ≤ 1
    → quoted ≡ v - skip
    → body ≤ quoted
    → vlen ≤ body
    → from + (rest - v) + (quoted - body) + skip + vlen ≤ n
cut_arith n from rest v skip quoted body vlen a b c d e f g = omega arith

range_bounds :
    (start skip vlen n a b : ℕ)
    → start + skip + vlen ≤ n
    → if◌then◌else◌ {A = Option (ℕ × ℕ)} (vlen == 0) none (some (start + skip, start + skip + vlen))
      ≡ some (a, b)
    → (a < b) × (b ≤ n)
range_bounds start skip vlen n a b h e = ground arith

value_range-Within :
    (line : Text) (from q : ℕ) (v : Text) (a b : ℕ)
    → length (q ∷ v) ≤ length (drop from line)
    → value_range line from (q ∷ v) ≡ some (a, b)
    → Within line (a, b)
unfolding value_range
value_range-Within line from q v a b h e =
    let skip = opening (q ∷ v) in
    let quoted = drop skip (q ∷ v) in
    let body = strip_scheme schemes quoted in
    range_bounds _ skip _ (length line) a b
      (cut_arith (length line) from _ (length (q ∷ v)) skip _ (length body) _
        (length-drop from line) h (omega arith) (opening-le q v) (length-drop skip (q ∷ v))
        (length-strip_scheme schemes quoted) (position-lt (terminator (q ∷ v)) body))
      e

value_cut-Within :
    (line : Text) (from a b : ℕ) → value_cut line from ≡ some (a, b) → Within line (a, b)
unfolding value_cut value_range
value_cut-Within line from a b h =
    go (trim_start (drop from line)) (length-skip_while is_whitespace (drop from line)) h
  where
    go :
        (v : Text)
        → length v ≤ length (drop from line)
        → value_range line from v ≡ some (a, b)
        → Within line (a, b)
    go [] k e = cc
    go (q ∷ v) k e = value_range-Within line from q v a b k e

cut_at-Within :
    (line lower key : Text) (kstart kend : ℕ) (c : ℕ × ℕ)
    → cut_at line lower key kstart kend ≡ some c
    → Within line c
unfolding cut_at
cut_at-Within line lower key kstart kend c h =
    elim (Option-cases (separator line lower key kstart kend)) [
      | inl e ↦ ground arith
      | inr (r, e) ↦ value_cut-Within line (kend + r) c.0 c.1 (ground arith)
    ]

push_cut-Within :
    (line : Text) (o : Option (ℕ × ℕ)) (cs : List (ℕ × ℕ))
    → ((c : ℕ × ℕ) → o ≡ some c → Within line c)
    → All (Within line) cs
    → All (Within line) (push_cut o cs)
push_cut-Within line none cs h k = k
push_cut-Within line (some c) cs h k = (h c refl, k)

key_cuts-Within :
    (fuel : ℕ) (line lower key : Text) (from : ℕ)
    → All (Within line) (key_cuts fuel line lower key from)
unfolding key_cuts
key_cuts-Within zero line lower key from = tt
key_cuts-Within (suc fuel) line lower key from = elim (Option-cases (find (drop from lower) key)) [
  | inl e ↦ rw (e, key_cuts) tt
  | inr (pos, e) ↦
      let kend = from + pos + length key in
      rw (e, key_cuts)
        (push_cut-Within line _ _ (λ c h. cut_at-Within line lower key (from + pos) kend c h)
          (key_cuts-Within fuel line lower key kend))
]

-- Every range that the loops collect, for whatever keys, is a non-empty part of the line.
pub all_cuts-Within : (keys : List String) (line : Text) → All (Within line) (all_cuts keys line)
unfolding all_cuts
all_cuts-Within [] line = tt
all_cuts-Within (key ∷ keys) line =
    All-append (Within line) _ _
      (key_cuts-Within (suc (length line)) line (to_ascii_lowercase line) (codes key) 0)
      (all_cuts-Within keys line)

insert_cut-All :
    (P : ℕ × ℕ → Type 0) (c : ℕ × ℕ) (cs : List (ℕ × ℕ)) → P c → All P cs → All P (insert_cut c cs)
unfolding insert_cut
insert_cut-All P c [] h k = (h, tt)
insert_cut-All P c (d ∷ ds) h k = ground (arith, insert_cut-All P c ds)

pub sort_cuts-All : (P : ℕ × ℕ → Type 0) (cs : List (ℕ × ℕ)) → All P cs → All P (sort_cuts cs)
unfolding sort_cuts
sort_cuts-All P [] h = tt
sort_cuts-All P (c ∷ cs) h = insert_cut-All P c (sort_cuts cs) h.0 (sort_cuts-All P cs h.1)
