-- ===== src/Redact/Known/Pem.antt =====
-- The PEM rule of src/redact.rs: which part it masks, and what it leaves alone.
use mathlib.Core.List.{append_assoc}
use fore_ai_assisted_termina.Prelude.{
  ℕ, ◌+◌, ◌<◌, ◌≡◌, refl, sym, ap, ◌∙◌, true, false, ◌++◌, arith, lt→ltb, length, length-append,
  take, drop, some,
}
use mathlib.Core.Path.{ap₂}
use fore_ai_assisted_termina.Prelude.Text.{Text, codes, contains, contains_char, find, rfind, holds}
use fore_ai_assisted_termina.Prelude.Text.Laws.{take-append, drop-append}
use fore_ai_assisted_termina.Prelude.Text.Find.{
  contains_self, find_first, rfind_last, contains_without,
}
use fore_ai_assisted_termina.Redact.Known.{mask, redact_pem, redact_known_formats}

-- The rule with its four searches decided: the positions of the markers are `a` and `b`.
redact_pem-found :
    (s : Text) (a b : ℕ)
    → contains s (codes "-----BEGIN") ≡ true
    → contains s (codes "PRIVATE KEY-----") ≡ true
    → find s (codes "-----BEGIN") ≡ some a
    → rfind s (codes "PRIVATE KEY-----") ≡ some b
    → a < b + 16
    → redact_known_formats s ≡ take a s ++ (mask ++ drop (b + 16) s)
unfolding redact_known_formats redact_pem holds
redact_pem-found s a b h k p q l = rw (h, k, p, q, lt→ltb a (b + 16) l, redact_known_formats) refl

-- The text before the last end marker, and the same text bracketed as the search reads it.
pem_shape :
    (pre body post : Text)
    → pre ++ (codes "-----BEGIN" ++ (body ++ (codes "PRIVATE KEY-----" ++ post)))
      ≡ (pre ++ (codes "-----BEGIN" ++ body)) ++ (codes "PRIVATE KEY-----" ++ post)
pem_shape pre body post = sym (append_assoc pre (codes "-----BEGIN" ++ body) _)

-- From the first BEGIN to the last end of a marker all is masked; the text before and behind, which
-- has no dash here, is returned as it was, known secret tokens in it included.
pub redact_known_formats-pem :
    (pre body post : Text)
    → contains_char pre b'-' ≡ false
    → contains_char post b'-' ≡ false
    → redact_known_formats
        (pre ++ (codes "-----BEGIN" ++ (body ++ (codes "PRIVATE KEY-----" ++ post))))
      ≡ pre ++ (mask ++ post)
unfolding contains_char
redact_known_formats-pem pre body post h k =
    redact_pem-found s a b (contains_self pre _ _)
      (rw (pem_shape pre body post) (contains_self before _ post))
      (find_first b'-' (codes "----BEGIN") pre _ h)
      (rw (pem_shape pre body post) (
        rfind_last b'P' (codes "RIVATE KEY-----") before post refl
          (contains_without post _ b'-' refl k)))
      (omega (arith, sizes))
    ∙ ap₂ (λ x y. x ++ (mask ++ y)) (take-append pre _) drops
  where
    before : Text
    before = pre ++ (codes "-----BEGIN" ++ body)

    s : Text
    s = pre ++ (codes "-----BEGIN" ++ (body ++ (codes "PRIVATE KEY-----" ++ post)))

    a : ℕ
    a = length pre

    b : ℕ
    b = length before

    sizes : length before ≡ length pre + length (codes "-----BEGIN" ++ body)
    sizes = length-append pre _

    upto : Text
    upto = before ++ codes "PRIVATE KEY-----"

    drops : drop (b + 16) s ≡ post
    drops =
        ap (λ n. drop n s) (sym (length-append before _))
        ∙ ap (drop (length upto)) (pem_shape pre body post ∙ sym (append_assoc before _ post))
        ∙ drop-append upto post
