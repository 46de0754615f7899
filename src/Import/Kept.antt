-- ===== src/Import/Kept.antt =====
-- What `parse` of src/import.rs hands to the store.
use fore_ai_assisted_termina.Prelude.{
  ℕ, ◌≤◌, ◌≡◌, inl, inr, true, false, Bool-cases, List, [], ◌∷◌, arith, All, ℤ, pos, map,
}
use fore_ai_assisted_termina.Prelude.Text.{Text, is, is_empty, utf8_len, begins, trim}
use fore_ai_assisted_termina.Import.{
  Raw, is_kept, Imported, keep, times, read_raw, parse, unmetafy, anchor_end,
}
use fore_ai_assisted_termina.Import.Times.{
  ◌≤ℤ◌, AscendingFrom, Ascending, Known, ≤ℤ_trans, fill-Ascending,
}

-- A command that may be suggested back.
abbrev pub Importable : Imported → Type 0
Importable i =
    (is_empty i.cmd ≡ false)
    × (utf8_len i.cmd ≤ 2000)
    × (begins i.cmd "fore " ≡ false)
    × (is i.cmd "exit" ≡ false)
    × (is i.cmd "logout" ≡ false)

kept-Importable :
    (cmd : Text) (t : ℤ) → is_kept cmd ≡ true → Importable (record { cmd = cmd; ts_ms = t })
unfolding is_kept
kept-Importable cmd t h = ground (arith, h)

keep-Importable : (raw : List Raw) (ts : List ℤ) → All Importable (keep raw ts)
unfolding keep
keep-Importable [] ts = tt
keep-Importable (r ∷ raw) [] = tt
keep-Importable ((cmd, u) ∷ raw) (t ∷ ts) = elim (Bool-cases (is_kept (trim cmd))) [
  | inl e ↦ rw (e, keep) (kept-Importable (trim cmd) t e, keep-Importable raw ts)
  | inr e ↦ rw (e, keep) (keep-Importable raw ts)
]

-- Whatever the bytes of the history file, the shell and the decoder: no imported command is empty,
-- is longer than 2000 bytes, begins with `fore `, or is `exit` or `logout`.
pub parse-Importable :
    (from_utf8_lossy : List ℕ → Text) (bytes : List ℕ) (shell : Text) (now : ℕ)
    → All Importable (parse from_utf8_lossy bytes shell now)
unfolding parse
parse-Importable from_utf8_lossy bytes shell now = keep-Importable _ _

abbrev pub stamps : List Imported → List ℤ
stamps = map (λ (i : Imported). i.ts_ms)

later_from : (b t : ℤ) (ts : List ℤ) → b ≤ℤ t → AscendingFrom t ts → AscendingFrom b ts
later_from b t [] h k = tt
later_from b t (u ∷ ts) h k = (≤ℤ_trans b t u h k.0, k.1)

keep-AscendingFrom :
    (raw : List Raw) (ts : List ℤ) (b : ℤ)
    → AscendingFrom b ts
    → AscendingFrom b (stamps (keep raw ts))
unfolding keep
keep-AscendingFrom [] ts b h = tt
keep-AscendingFrom (r ∷ raw) [] b h = tt
keep-AscendingFrom ((cmd, u) ∷ raw) (t ∷ ts) b h = elim (Bool-cases (is_kept (trim cmd))) [
  | inl e ↦ rw (e, keep) (h.0, keep-AscendingFrom raw ts t h.1)
  | inr e ↦ rw (e, keep) (keep-AscendingFrom raw ts b (later_from b t ts h.0 h.1))
]

from-Ascending : (b : ℤ) (ts : List ℤ) → AscendingFrom b ts → Ascending ts
from-Ascending b [] h = tt
from-Ascending b (t ∷ ts) h = h.1

keep-Ascending : (raw : List Raw) (ts : List ℤ) → Ascending ts → Ascending (stamps (keep raw ts))
unfolding keep
keep-Ascending [] ts h = tt
keep-Ascending (r ∷ raw) [] h = tt
keep-Ascending ((cmd, u) ∷ raw) (t ∷ ts) h = elim (Bool-cases (is_kept (trim cmd))) [
  | inl e ↦ rw (e, keep) (keep-AscendingFrom raw ts t h)
  | inr e ↦ rw (e, keep) (from-Ascending t _ (keep-AscendingFrom raw ts t h))
]

-- The order of the file is the order of the times: if the times that the file has are in order and
-- none is after the full hour at or before the import, the times of the imported commands, the
-- interpolated ones among them, are in order.
pub parse-Ascending :
    (from_utf8_lossy : List ℕ → Text) (bytes : List ℕ) (shell : Text) (now : ℕ)
    → Known (pos (anchor_end now)) (times (read_raw (from_utf8_lossy (unmetafy bytes)) shell))
    → Ascending (stamps (parse from_utf8_lossy bytes shell now))
unfolding parse
parse-Ascending from_utf8_lossy bytes shell now k = keep-Ascending _ _ (fill-Ascending now _ k)
