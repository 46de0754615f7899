-- ===== src/Redact/Known/Tokens.antt =====
-- The token scan of src/redact.rs: a scan that carries the current token says the same in one pass.
use mathlib.Core.List.{append-nil, append_assoc}
use fore_ai_assisted_termina.Prelude.{
  ℕ, zero, suc, ◌≤◌, ◌<◌, ◌≡◌, refl, sym, ap, ◌∙◌, inl, inr, Bool, true, false, not, List, [], ◌∷◌,
  ◌++◌, arith, length, take_while, skip_while, Bool-cases, none, All,
}
use fore_ai_assisted_termina.Prelude.Text.{Text}
use fore_ai_assisted_termina.Prelude.Text.Laws.{length-skip_while}
use fore_ai_assisted_termina.Redact.Known.{
  mask, is_token_char, is_known_secret_token, mask_token, mask_tokens, redact_tokens, redact_pem,
  redact_known_formats,
}

abbrev is_gap : ℕ → Bool
is_gap c = not (is_token_char c)

unfoldable pub scan : Text → Text → Text
scan cur [] = mask_token cur
scan cur (c ∷ s) = elim (is_token_char c) [
  | true ↦ scan (cur ++ c ∷ []) s
  | false ↦ mask_token cur ++ c ∷ scan [] s
]

mask_token-nil : mask_token [] ≡ []
unfolding mask_token
mask_token-nil = refl

scan-nil : scan [] [] ≡ []
unfolding scan
scan-nil = mask_token-nil

scan-gap : (s : Text) → scan [] s ≡ take_while is_gap s ++ scan [] (skip_while is_gap s)
unfolding scan
scan-gap [] = refl
scan-gap (c ∷ s) = ground (arith, mask_token-nil, scan-gap s)

scan-token :
    (cur s : Text)
    → scan cur s
      ≡ mask_token (cur ++ take_while is_token_char s) ++ scan [] (skip_while is_token_char s)
unfolding scan
scan-token cur [] = simp (append-nil, mask_token-nil)
scan-token cur (c ∷ s) = elim (Bool-cases (is_token_char c)) [
  | inl e ↦ rw (e, scan) (scan-token (cur ++ c ∷ []) s ∙ simp append_assoc)
  | inr e ↦ rw (e, scan) (simp (append-nil, mask_token-nil, e))
]

skip_while-stops :
    (p : ℕ → Bool) (s : Text) (c : ℕ) (cs : Text) → skip_while p s ≡ c ∷ cs → p c ≡ false
skip_while-stops p [] c cs h = cc
skip_while-stops p (x ∷ s) c cs h = ground (arith, skip_while-stops p s c cs)

length-skip_token :
    (c : ℕ) (cs : Text)
    → is_token_char c ≡ true
    → length (skip_while is_token_char (c ∷ cs)) ≤ length cs
length-skip_token c cs h = ground (arith, length-skip_while is_token_char cs)

-- A round of the loop, with what follows the gap given by its shape.
mask_tokens-round :
    (fuel : ℕ) (rest t : Text)
    → length rest ≤ fuel
    → skip_while is_gap rest ≡ t
    → ((s : Text) → length s < fuel → mask_tokens fuel s ≡ scan [] s)
    → mask_tokens (suc fuel) rest ≡ scan [] rest
unfolding mask_tokens
mask_tokens-round fuel rest [] h e ih =
    rw (e, mask_tokens) (sym (scan-gap rest ∙ rw (e, scan-nil) (append-nil _)))
mask_tokens-round fuel rest (c ∷ cs) h e ih =
    let gap = take_while is_gap rest in
    let after = skip_while is_token_char (c ∷ cs) in
    let is_tok : is_token_char c ≡ true = ground (arith, skip_while-stops is_gap rest c cs e) in
    let shorter : length after < fuel = omega (
      arith,
      length-skip_token c cs is_tok,
      length-skip_while is_gap rest,
      ap (λ (s : Text). length s) e,
      h,
    ) in
    let from_token : scan [] (skip_while is_gap rest) ≡ scan [] (c ∷ cs) = ap (scan []) e in
    rw (e, mask_tokens)
      (rw (ih after shorter)
        (sym (scan-gap rest ∙ ap (λ x. gap ++ x) (from_token ∙ scan-token [] (c ∷ cs)))))

mask_tokens-eq-scan :
    (fuel : ℕ) (rest : Text) → length rest < fuel → mask_tokens fuel rest ≡ scan [] rest
mask_tokens-eq-scan zero rest h = absurd (omega arith)
mask_tokens-eq-scan (suc fuel) rest h =
    mask_tokens-round fuel rest _ (omega arith) refl (mask_tokens-eq-scan fuel)

-- The fuel that the model gives the loop is enough: it computes the one-pass scan.
pub redact_tokens-eq-scan : (s : Text) → redact_tokens s ≡ scan [] s
unfolding redact_tokens
redact_tokens-eq-scan s = mask_tokens-eq-scan (suc (length s)) s (omega arith)

-- Text that a token cannot go on into, at the front and at the back.
abbrev pub StartsOutside : Text → Type 0
StartsOutside [] = Unit {0}
StartsOutside (c ∷ s) = is_token_char c ≡ false

abbrev pub EndsOutside : Text → Type 0
EndsOutside [] = Unit {0}
EndsOutside (c ∷ []) = is_token_char c ≡ false
EndsOutside (c ∷ d ∷ s) = EndsOutside (d ∷ s)

abbrev pub IsTokenText : Text → Type 0
IsTokenText = All (λ c. is_token_char c ≡ true)

scan-pre :
    (cur : Text) (c : ℕ) (pre t : Text)
    → EndsOutside (c ∷ pre)
    → scan cur ((c ∷ pre) ++ t) ≡ scan cur (c ∷ pre) ++ scan [] t
unfolding scan
scan-pre cur c [] t h = rw (h, scan) (rw mask_token-nil (sym (append_assoc (mask_token cur) _ _)))
scan-pre cur c (d ∷ pre) t h = elim (Bool-cases (is_token_char c)) [
  | inl e ↦ rw (e, scan) (scan-pre (cur ++ c ∷ []) d pre t h)
  | inr e ↦ rw (e, scan) (rw (scan-pre [] d pre t h) (sym (append_assoc (mask_token cur) _ _)))
]

scan-cur : (cur tok post : Text) → IsTokenText tok → scan cur (tok ++ post) ≡ scan (cur ++ tok) post
unfolding scan
scan-cur cur [] post h = rw append-nil
scan-cur cur (c ∷ tok) post h =
    rw (h.0, scan) (scan-cur (cur ++ c ∷ []) tok post h.1 ∙ simp append_assoc)

scan-post : (cur post : Text) → StartsOutside post → scan cur post ≡ mask_token cur ++ scan [] post
unfolding scan
scan-post cur [] h = simp (mask_token-nil, append-nil)
scan-post cur (c ∷ post) h = rw (h, scan) (rw mask_token-nil refl)

scan-split :
    (pre tok post : Text)
    → EndsOutside pre
    → IsTokenText tok
    → StartsOutside post
    → scan [] (pre ++ (tok ++ post)) ≡ scan [] pre ++ (mask_token tok ++ scan [] post)
scan-split [] tok post h k l =
    scan-cur [] tok post k
    ∙ scan-post tok post l
    ∙ ap (λ x. x ++ (mask_token tok ++ scan [] post)) (sym scan-nil)
scan-split (c ∷ pre) tok post h k l =
    scan-pre [] c pre (tok ++ post) h
    ∙ ap (λ x. scan [] (c ∷ pre) ++ x) (scan-cur [] tok post k ∙ scan-post tok post l)

-- In a text without a PEM block, a maximal run of token characters that is a known secret token is
-- replaced by the mask, and what stands before and behind it is redacted as if it stood alone.
pub redact_known_formats-secret :
    (pre tok post : Text)
    → EndsOutside pre
    → IsTokenText tok
    → StartsOutside post
    → redact_pem (pre ++ (tok ++ post)) ≡ none
    → is_known_secret_token tok ≡ true
    → redact_known_formats (pre ++ (tok ++ post))
      ≡ redact_tokens pre ++ (mask ++ redact_tokens post)
unfolding redact_known_formats mask_token
redact_known_formats-secret pre tok post h k l no_pem secret =
    rw (no_pem, redact_known_formats)
      (simp redact_tokens-eq-scan
        (rw (scan-split pre tok post h k l) (rw (secret, mask_token) refl)))

-- The tokens of a text: its maximal runs of token characters, in order, with `cur` before them.
unfoldable pub tokens : Text → Text → List Text
tokens cur [] = cur ∷ []
tokens cur (c ∷ s) = elim (is_token_char c) [
  | true ↦ tokens (cur ++ c ∷ []) s
  | false ↦ cur ∷ tokens [] s
]

plain_head :
    (cur s : Text)
    → All (λ t. is_known_secret_token t ≡ false) (cur ∷ tokens [] s)
    → (mask_token cur ≡ cur) × All (λ t. is_known_secret_token t ≡ false) (tokens [] s)
unfolding mask_token
plain_head cur s h = (rw h.0, h.1)

scan-plain :
    (cur s : Text)
    → All (λ t. is_known_secret_token t ≡ false) (tokens cur s)
    → scan cur s ≡ cur ++ s
unfolding scan tokens mask_token
scan-plain cur [] h = rw h.0 (sym (append-nil cur))
scan-plain cur (c ∷ s) h = elim (Bool-cases (is_token_char c)) [
  | inl e ↦
      rw (e, scan)
        (scan-plain (cur ++ c ∷ []) s (rw (e, tokens) at h) ∙ append_assoc cur (c ∷ []) s)
  | inr e ↦
      let (plain, rest) = plain_head cur s (rw (e, tokens) at h) in
      rw (e, scan) (rw plain (ap (λ x. cur ++ c ∷ x) (scan-plain [] s rest)))
]

-- A text without a PEM block of which no token is a known secret token is left as it is.
pub redact_known_formats-plain :
    (s : Text)
    → redact_pem s ≡ none
    → All (λ t. is_known_secret_token t ≡ false) (tokens [] s)
    → redact_known_formats s ≡ s
unfolding redact_known_formats
redact_known_formats-plain s no_pem h =
    rw (no_pem, redact_known_formats) (redact_tokens-eq-scan s ∙ scan-plain [] s h)
