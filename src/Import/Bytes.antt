-- ===== src/Import/Bytes.antt =====
-- `unmetafy` of src/import.rs undoes what zsh does to the bytes of its history.
use fore_ai_assisted_termina.Prelude.{
  ℕ, ◌≡◌, refl, inl, inr, Bool, true, false, Bool-cases, List, [], ◌∷◌, arith, ◌==◌, if◌then◌else◌,
}
use fore_ai_assisted_termina.Import.{flip, unmetafy}

-- How zsh writes bytes: one that `escapes` names as 0x83 and the byte with its sixth bit flipped.
unfoldable pub metafy : (ℕ → Bool) → List ℕ → List ℕ
metafy escapes [] = []
metafy escapes (b ∷ bs) =
    let rest = metafy escapes bs in if escapes b then 0x83 ∷ flip b ∷ rest else b ∷ rest

flip-flip : (b : ℕ) → flip (flip b) ≡ b
flip-flip b = ground arith

unmetafy-nothing : unmetafy [] ≡ []
unfolding unmetafy
unmetafy-nothing = refl

unmetafy-plain : (b : ℕ) (bs : List ℕ) → b == 0x83 ≡ false → unmetafy (b ∷ bs) ≡ b ∷ unmetafy bs
unfolding unmetafy
unmetafy-plain b [] h = refl
unmetafy-plain b (c ∷ cs) h = rw (h, unmetafy) refl

unmetafy-escaped : (b : ℕ) (bs : List ℕ) → unmetafy (0x83 ∷ b ∷ bs) ≡ flip b ∷ unmetafy bs
unfolding unmetafy
unmetafy-escaped b bs = refl

-- Whatever set of bytes zsh escapes, as long as it escapes 0x83 itself: `unmetafy` gives back the
-- bytes that zsh wrote.
pub unmetafy-metafy :
    (escapes : ℕ → Bool) (bytes : List ℕ)
    → escapes 0x83 ≡ true
    → unmetafy (metafy escapes bytes) ≡ bytes
unfolding metafy
unmetafy-metafy escapes [] h = unmetafy-nothing
unmetafy-metafy escapes (b ∷ bs) h = elim (Bool-cases (escapes b)) [
  | inl e ↦ rw (e, unmetafy-escaped, flip-flip, unmetafy-metafy escapes bs h) refl
  | inr e ↦
      rw (e, unmetafy-plain b (metafy escapes bs) (plain b e), unmetafy-metafy escapes bs h) refl
]
  where
    plain : (b : ℕ) → escapes b ≡ false → b == 0x83 ≡ false
    plain b e = ground (arith, h)
