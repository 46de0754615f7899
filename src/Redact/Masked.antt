-- ===== src/Redact/Masked.antt =====
-- What masking does to a text, whatever picks the parts to mask: each stands replaced by the mask,
-- and all else is kept. A text that has no occurrence of a value gets none by masking.
use mathlib.Core.List.{append-nil, append_assoc}
use fore_ai_assisted_termina.Prelude.{ℕ, ◌≡◌, refl, sym, ap, true, false, [], ◌∷◌, ◌++◌, arith}
use fore_ai_assisted_termina.Prelude.Text.{Text, codes, starts_with, contains, contains_char}
use fore_ai_assisted_termina.Prelude.Text.Laws.{contains_cut, contains_append_right}
use fore_ai_assisted_termina.Redact.Known.{mask}

-- The text `t` is `s` with some of its parts replaced by the mask.
pub data Masked : Text → Text → Type 0 where
  done : Masked [] []
  keep : (c : ℕ) {s t : Text} → Masked s t → Masked (c ∷ s) (c ∷ t)
  hide :
      (secret s t : Text) {u v : Text} → u ≡ secret ++ s → v ≡ mask ++ t → Masked s t → Masked u v

pub Masked-refl : (s : Text) → Masked s s
Masked-refl [] = done
Masked-refl (c ∷ s) = keep c (Masked-refl s)

pub Masked-append :
    {s t : Text} (s' t' : Text) → Masked s t → Masked s' t' → Masked (s ++ s') (t ++ t')
Masked-append s' t' done m' = m'
Masked-append s' t' (keep c m) m' = keep c (Masked-append s' t' m m')
Masked-append s' t' (hide secret s t e f m) m' =
    hide secret (s ++ s') (t ++ t') (rw e (append_assoc secret s s'))
      (rw f (append_assoc mask t t')) (Masked-append s' t' m m')

pub Masked-mask : (secret : Text) → Masked secret mask
Masked-mask secret = hide secret [] [] (sym (append-nil secret)) (sym (append-nil mask)) done

-- A value that the mask cannot be part of: without angle brackets, and not inside `REDACTED`.
pub record IsForeign (v : Text) : Type 0 where
  pub no_open : contains_char v b'<' ≡ false
  pub no_close : contains_char v b'>' ≡ false
  pub not_redacted : contains (codes "REDACTED") v ≡ false

-- What the masked text begins with, and has no `<`, the text itself begins with.
pub Masked-starts_with :
    (s t u : Text)
    → contains_char u b'<' ≡ false
    → Masked s t
    → starts_with t u ≡ true
    → starts_with s u ≡ true
unfolding starts_with contains_char
Masked-starts_with s t [] h m e = refl
Masked-starts_with s t (y ∷ u) h done e = e
Masked-starts_with s t (y ∷ u) h (keep c {s = s'} {t = t'} m) e =
    ground (arith, Masked-starts_with s' t' u)
Masked-starts_with s t (y ∷ u) h (hide secret s' t' p q m) e = ground arith

pub mask-contains :
    (t v : Text) → IsForeign v → contains t v ≡ false → contains (mask ++ t) v ≡ false
mask-contains t v f h = ground (
  arith,
  contains_cut [] (codes "REDACTED" ++ b'>' ∷ t) v b'<' f.no_open,
  contains_cut (codes "REDACTED") t v b'>' f.no_close,
  contains_append_right (codes "REDACTED") [] v,
)

-- Masking makes no occurrence of a foreign value.
pub Masked-contains :
    (s t v : Text) → IsForeign v → Masked s t → contains s v ≡ false → contains t v ≡ false
unfolding contains
Masked-contains s t v f done h = h
Masked-contains s t v f (keep c {s = s'} {t = t'} m) h = ground (
  arith,
  Masked-contains s' t' v f m,
  Masked-starts_with (c ∷ s') (c ∷ t') v f.no_open (keep c m),
)
Masked-contains s t v f (hide secret s' t' p q m) h = rw q (
    mask-contains t' v f (
      Masked-contains s' t' v f m
        (ground (arith, ap (λ x. contains x v) p, contains_append_right secret s' v))))
