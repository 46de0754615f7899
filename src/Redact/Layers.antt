-- ===== src/Redact/Layers.antt =====
-- Each layer of src/redact.rs only replaces parts of the text by the mask.
use mathlib.Core.List.{append-nil, append_assoc}
use fore_ai_assisted_termina.Prelude.{
  ℕ, zero, suc, ◌+◌, ◌-◌, ◌≤◌, ◌≡◌, refl, sym, ap, ◌∙◌, ◌&&◌, Bool-cases, Option-cases, inl, inr,
  some, List, [], ◌∷◌, ◌++◌, map, arith, ltb, length, drop, take, All,
}
use fore_ai_assisted_termina.Prelude.Text.{
  Text, codes, starts_with, find, rfind, holds, replace, replace_from, split, join,
}
use fore_ai_assisted_termina.Prelude.Text.Laws.{take-drop, drop-drop}
use fore_ai_assisted_termina.Redact.Masked.{
  Masked, done, keep, hide, Masked-refl, Masked-append, Masked-mask,
}
use fore_ai_assisted_termina.Redact.Known.{
  mask, is_token_char, mask_token, is_known_secret_token, redact_pem, redact_known_formats,
}
use fore_ai_assisted_termina.Redact.Known.Tokens.{scan, redact_tokens-eq-scan}
use fore_ai_assisted_termina.Redact.Assign.{
  assign_keys, all_cuts, sort_cuts, render, redact_assignments_line, redact_assignments,
}
use fore_ai_assisted_termina.Redact.Assign.Lines.{join-split}
use fore_ai_assisted_termina.Redact.Assign.Cuts.{Within, all_cuts-Within, sort_cuts-All}

mask_token-Masked : (tok : Text) → Masked tok (mask_token tok)
unfolding mask_token
mask_token-Masked tok = elim (Bool-cases (is_known_secret_token tok)) [
  | inl e ↦ rw (e, mask_token) (Masked-mask tok)
  | inr e ↦ rw (e, mask_token) (Masked-refl tok)
]

scan-Masked : (cur s : Text) → Masked (cur ++ s) (scan cur s)
unfolding scan
scan-Masked cur [] = rw append-nil (mask_token-Masked cur)
scan-Masked cur (c ∷ s) = elim (Bool-cases (is_token_char c)) [
  | inl e ↦ rw (e, scan) (rw append_assoc at (scan-Masked (cur ++ c ∷ []) s))
  | inr e ↦ rw (e, scan) (Masked-append _ _ (mask_token-Masked cur) (keep c (scan-Masked [] s)))
]

parts-Masked : (p q r t u : Text) → u ≡ p ++ (q ++ r) → Masked r t → Masked u (p ++ (mask ++ t))
parts-Masked p q r t u e m =
    rw e (Masked-append (q ++ r) (mask ++ t) (Masked-refl p) (hide q r t refl refl m))

between : (s : Text) (a b : ℕ) → a ≤ b → s ≡ take a s ++ (take (b - a) (drop a s) ++ drop b s)
between s a b h = sym (
    ap (λ x. take a s ++ (take (b - a) (drop a s) ++ x))
      (ap (λ n. drop n s) (omega arith) ∙ sym (drop-drop (b - a) a s))
    ∙ ap (λ x. take a s ++ x) (take-drop (b - a) (drop a s))
    ∙ take-drop a s)

-- The mask may stand for the part of a text between two positions.
cut-Masked :
    (s : Text) (a b : ℕ) (t : Text)
    → a ≤ b
    → Masked (drop b s) t
    → Masked s (take a s ++ (mask ++ t))
cut-Masked s a b t h m = parts-Masked (take a s) _ (drop b s) t s (between s a b h) m

redact_pem-Masked : (s out : Text) → redact_pem s ≡ some out → Masked s out
unfolding redact_pem
redact_pem-Masked s out h = elim (Bool-cases (holds s "-----BEGIN" && holds s "PRIVATE KEY-----")) [
  | inr e ↦ absurd (ground arith)
  | inl e ↦ elim (Option-cases (find s (codes "-----BEGIN"))) [
    | inl f ↦ absurd (ground arith)
    | inr (a, f) ↦ elim (Option-cases (rfind s (codes "PRIVATE KEY-----"))) [
      | inl g ↦ absurd (ground arith)
      | inr (b, g) ↦ elim (Bool-cases (ltb a (b + 16))) [
        | inr l ↦ absurd (ground arith)
        | inl l ↦
            let out_is : take a s ++ (mask ++ drop (b + 16) s) ≡ out = ground arith in
            rw out_is at (cut-Masked s a (b + 16) _ (ground arith) (Masked-refl _))
      ]
    ]
  ]
]

pub redact_known_formats-Masked : (s : Text) → Masked s (redact_known_formats s)
unfolding redact_known_formats
redact_known_formats-Masked s = elim (Option-cases (redact_pem s)) [
  | inl e ↦ rw (e, redact_known_formats) (rw redact_tokens-eq-scan (scan-Masked [] s))
  | inr (out, e) ↦ rw (e, redact_known_formats) (redact_pem-Masked s out e)
]

pub replace_from-Masked :
    (skip : ℕ) (v s : Text) → Masked (drop skip s) (replace_from skip v mask s)
unfolding replace_from
replace_from-Masked zero v [] = done
replace_from-Masked (suc skip) v [] = done
replace_from-Masked (suc skip) v (x ∷ s) = replace_from-Masked skip v s
replace_from-Masked zero v (x ∷ s) = elim (Bool-cases (starts_with (x ∷ s) v)) [
  | inl e ↦
      let n = length v - 1 in
      rw (e, replace_from)
        (hide (x ∷ take n s) (drop n s) (replace_from n v mask s)
          (ap (λ t. x ∷ t) (sym (take-drop n s))) refl (replace_from-Masked n v s))
  | inr e ↦ rw (e, replace_from) (keep x (replace_from-Masked 0 v s))
]

pub replace-Masked : (v s : Text) → Masked s (replace s v mask)
unfolding replace
replace-Masked v s = replace_from-Masked 0 v s

render-Masked :
    (line : Text) (i : ℕ) (cuts : List (ℕ × ℕ))
    → All (Within line) cuts
    → Masked (drop i line) (render line i cuts)
unfolding render
render-Masked line i [] h = Masked-refl (drop i line)
render-Masked line i ((a, b) ∷ cuts) h = elim (Bool-cases (ltb a i)) [
  | inl e ↦ rw (e, render) (render-Masked line i cuts h.1)
  | inr e ↦
      let rest : drop (b - i) (drop i line) ≡ drop b line =
        drop-drop (b - i) i line ∙ ap (λ n. drop n line) (ground (arith, h.0)) in
      rw (e, render)
        (cut-Masked (drop i line) (a - i) (b - i) _ (ground (arith, h.0))
          (rw rest (render-Masked line b cuts h.1)))
]

redact_assignments_line-Masked : (line : Text) → Masked line (redact_assignments_line line)
unfolding redact_assignments_line
redact_assignments_line-Masked line = go (all_cuts assign_keys line) refl
  where
    go :
        (cs : List (ℕ × ℕ))
        → all_cuts assign_keys line ≡ cs
        → Masked line (redact_assignments_line line)
    go [] e = rw (e, redact_assignments_line) (Masked-refl line)
    go (c ∷ cs) e =
        rw (e, redact_assignments_line)
          (render-Masked line 0 (sort_cuts (c ∷ cs))
            (sort_cuts-All (Within line) (c ∷ cs) (rw e at (all_cuts-Within assign_keys line))))

join-Masked :
    (sep : Text) (ls : List Text) → Masked (join sep ls) (join sep (map redact_assignments_line ls))
join-Masked sep [] = done
join-Masked sep (l ∷ []) = redact_assignments_line-Masked l
join-Masked sep (l ∷ m ∷ ls) =
    Masked-append _ _ (redact_assignments_line-Masked l)
      (Masked-append _ _ (Masked-refl sep) (join-Masked sep (m ∷ ls)))

pub redact_assignments-Masked : (s : Text) → Masked s (redact_assignments s)
unfolding redact_assignments
redact_assignments-Masked s = rw join-split at (join-Masked (10 ∷ []) (split 10 s))
