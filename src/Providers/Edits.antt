-- ===== src/Providers/Edits.antt =====
-- What an edit of src/providers.rs changes.
use fore_ai_assisted_termina.Prelude.{
  ℕ, zero, suc, ◌+◌, ◌≤◌, ◌<◌, ◌≡◌, refl, ap, true, Option, none, some, List, [], ◌∷◌, ◌++◌, length,
  take, drop, position, arith,
}
use fore_ai_assisted_termina.Prelude.Text.{Text, codes, trim, trim_start}
use fore_ai_assisted_termina.Providers.{
  has_key, is_commented, line_at, setting, trailing_comment, is_header, is_llm_header,
}

-- What an edit may do to the lines behind the index `start` and before `end`.
pub data Edit (key value : Text) (start end : ℕ) : List Text → List Text → Type 0 where
  replaced :
      (pre post : List Text) (old : Text)
      → start < length pre
      → length pre < end
      → has_key key old ≡ true
      → Edit key value start end
          (pre ++ old ∷ post)
          (pre ++ (setting key value ++ trailing_comment old) ∷ post)
  uncommented :
      (pre post : List Text) (old : Text)
      → start < length pre
      → length pre < end
      → is_commented key old ≡ true
      → Edit key value start end (pre ++ old ∷ post) (pre ++ setting key value ∷ post)
  appended :
      (pre post : List Text)
      → start < length pre
      → length pre ≤ end
      → Edit key value start end (pre ++ post) (pre ++ setting key value ∷ post)

-- The lines behind the index `start` and before `end` are those of the table `[llm]`: its header is at
-- `start`, and none of them is the header of another one.
abbrev pub IsTable : List Text → ℕ → ℕ → Type 0
IsTable ls start end =
    (trim (line_at start ls) ≡ codes "[llm]")
    × ((i c : ℕ) (rest : Text)
        → start < i
        → i < end
        → trim_start (line_at i ls) ≡ b'[' ∷ c ∷ rest
        → c ≡ b'[')

cut_at : (i : ℕ) (ls : List Text) → i < length ls → ls ≡ take i ls ++ line_at i ls ∷ drop (suc i) ls
cut_at zero [] h = absurd (omega (arith, h))
cut_at (suc i) [] h = absurd (omega (arith, h))
cut_at zero (l ∷ ls) h = refl
cut_at (suc i) (l ∷ ls) h = ap (λ t. l ∷ t) (cut_at i ls (omega (arith, h)))

abbrev next_index : Option ℕ → Option ℕ
next_index none = none
next_index (some i) = some (suc i)

-- Where `llm_span` finds the table.
abbrev Found : List Text → ℕ → ℕ → Type 0
Found ls start end =
    (position is_llm_header ls ≡ some start)
    × (start < end)
    × (end ≤ length ls)
    × ((j : ℕ) → position is_header (drop (suc start) ls) ≡ some j → end ≤ suc start + j)
