-- ===== src/Insights/Tallies.antt =====
-- What the counting loops of `mine_aliases` count.
use fore_ai_assisted_termina.Prelude.{
  ℕ, ◌+◌, ◌≡◌, refl, sym, ◌∙◌, inl, inr, Bool-cases, Bool, true, false, not, ◌&&◌, ◌||◌, List, [],
  ◌∷◌, ◌++◌, if◌then◌else◌, keep_if, map, arith, All, All-at, At, At-cases,
}
use mathlib.Core.Path.{subst}
use fore_ai_assisted_termina.Prelude.Text.{Text, text_eq, text_eq_iff, text_eq_refl}
use fore_ai_assisted_termina.Store.{HistoryEntry}
use fore_ai_assisted_termina.Insights.{is_checkpoint, is_noise}
use fore_ai_assisted_termina.Insights.Mine.{
  Tally, count_in, is_long, count_long, and_then, is_close, count_window, count_chains,
}

abbrev pub times : Text → List Text → ℕ
times k [] = 0
times k (x ∷ xs) = (if text_eq x k then 1 else 0) + times k xs

times-append : (k : Text) (xs ys : List Text) → times k (xs ++ ys) ≡ times k xs + times k ys
times-append k [] ys = omega arith
times-append k (x ∷ xs) ys = omega (arith, times-append k xs ys)

-- What a tally has for a key, over all of its entries.
abbrev pub amount : Text → Tally → ℕ
amount k [] = 0
amount k ((x, n) ∷ fs) = (if text_eq x k then n else 0) + amount k fs

text_eq_swap : (s t : Text) → text_eq s t ≡ false → text_eq t s ≡ false
text_eq_swap s t h = ground (arith, h, text_eq_refl s, (text_eq_iff t s).0)

count_in-amount :
    (k x : Text) (fs : Tally)
    → amount k (count_in x fs) ≡ (if text_eq x k then 1 else 0) + amount k fs
unfolding count_in
count_in-amount k x [] = refl
count_in-amount k x ((y, n) ∷ fs) = elim (Bool-cases (text_eq y x)) [
  | inl e ↦ rw (e, count_in, sym ((text_eq_iff y x).0 e)) (ground arith)
  | inr e ↦ rw (e, count_in, count_in-amount k x fs) (omega arith)
]

abbrev pub Absent : Text → Tally → Type 0
Absent k fs = All (λ (e : Text × ℕ). text_eq e.0 k ≡ false) fs

abbrev pub Distinct : Tally → Type 0
Distinct [] = Unit
Distinct ((x, n) ∷ fs) = Absent x fs × Distinct fs

count_in-Absent :
    (k x : Text) (fs : Tally) → text_eq x k ≡ false → Absent k fs → Absent k (count_in x fs)
unfolding count_in
count_in-Absent k x [] h a = (h, tt)
count_in-Absent k x ((y, n) ∷ fs) h a = elim (Bool-cases (text_eq y x)) [
  | inl e ↦ rw (e, count_in) a
  | inr e ↦ rw (e, count_in) ((a.0, count_in-Absent k x fs h a.1))
]

count_in-Distinct : (x : Text) (fs : Tally) → Distinct fs → Distinct (count_in x fs)
unfolding count_in
count_in-Distinct x [] d = (tt, tt)
count_in-Distinct x ((y, n) ∷ fs) d = elim (Bool-cases (text_eq y x)) [
  | inl e ↦ rw (e, count_in) d
  | inr e ↦
      rw (e, count_in)
        ((count_in-Absent y x fs (text_eq_swap y x e) d.0, count_in-Distinct x fs d.1))
]

Absent-amount : (k : Text) (fs : Tally) → Absent k fs → amount k fs ≡ 0
Absent-amount k [] a = refl
Absent-amount k ((x, n) ∷ fs) a = ground (arith, a.0, Absent-amount k fs a.1)

Distinct-amount : (k : Text) (n : ℕ) (fs : Tally) → Distinct fs → At (k, n) fs → n ≡ amount k fs
Distinct-amount k n [] d m = elim m [ ]
Distinct-amount k n (f ∷ fs) d m = elim (At-cases m) [
  | inl e ↦ subst (λ (g : Text × ℕ). g.1 ≡ amount g.0 (f ∷ fs)) (sym e) (head d.0)
  | inr at ↦ ground (arith, text_eq_swap k f.0 (All-at _ fs d.0 at), Distinct-amount k n fs d.1 at)
]
  where
    head : Absent f.0 fs → f.1 ≡ amount f.0 (f ∷ fs)
    head a = ground (arith, Absent-amount f.0 fs a, text_eq_refl f.0)

-- The entries of a tally say how often their keys stand in a list.
abbrev pub Counts : List Text → Tally → Type 0
Counts seen fs = Distinct fs × ((k : Text) → amount k fs ≡ times k seen)

pub Counts-At :
    (seen : List Text) (fs : Tally) {e : Text × ℕ} → Counts seen fs → At e fs → e.1 ≡ times e.0 seen
Counts-At seen fs {e} c m = Distinct-amount e.0 e.1 fs c.0 m ∙ c.1 e.0

abbrev pub tally_all : List Text → Tally → Tally
tally_all [] fs = fs
tally_all (x ∷ xs) fs = tally_all xs (count_in x fs)

tally_all-Distinct : (xs : List Text) (fs : Tally) → Distinct fs → Distinct (tally_all xs fs)
tally_all-Distinct [] fs d = d
tally_all-Distinct (x ∷ xs) fs d = tally_all-Distinct xs (count_in x fs) (count_in-Distinct x fs d)

tally_all-amount :
    (k : Text) (xs : List Text) (fs : Tally) → amount k (tally_all xs fs) ≡ times k xs + amount k fs
tally_all-amount k [] fs = omega arith
tally_all-amount k (x ∷ xs) fs =
    omega (arith, tally_all-amount k xs (count_in x fs), count_in-amount k x fs)

pub tally_all-Counts : (xs : List Text) → Counts xs (tally_all xs [])
tally_all-Counts xs = (tally_all-Distinct xs [] tt, λ k. omega (arith, tally_all-amount k xs []))

-- The commands that `count_long` counts.
abbrev pub long_commands : List HistoryEntry → List Text
long_commands h = keep_if is_long (map (λ (e : HistoryEntry). e.cmd) h)

count_long-Distinct :
    (h : List HistoryEntry) (fs : Tally) → Distinct fs → Distinct (count_long h fs)
unfolding count_long
count_long-Distinct [] fs d = d
count_long-Distinct (e ∷ es) fs d = elim (Bool-cases (is_long e.cmd)) [
  | inl l ↦ rw l (count_long-Distinct es (count_in e.cmd fs) (count_in-Distinct e.cmd fs d))
  | inr l ↦ rw l (count_long-Distinct es fs d)
]

count_long-amount :
    (k : Text) (h : List HistoryEntry) (fs : Tally)
    → amount k (count_long h fs) ≡ times k (long_commands h) + amount k fs
unfolding count_long
count_long-amount k [] fs = omega arith
count_long-amount k (e ∷ es) fs = elim (Bool-cases (is_long e.cmd)) [
  | inl l ↦
      rw l (omega (arith, count_long-amount k es (count_in e.cmd fs), count_in-amount k e.cmd fs))
  | inr l ↦ rw l (count_long-amount k es fs)
]

pub count_long-Counts : (h : List HistoryEntry) → Counts (long_commands h) (count_long h [])
count_long-Counts h = (count_long-Distinct h [] tt, λ k. omega (arith, count_long-amount k h []))

-- One command is followed by another as in a habit: soon, in the same directory, another command,
-- neither of them noise and the first nothing whose output is read.
abbrev pub follows : HistoryEntry → HistoryEntry → Bool
follows a b =
    is_close a b && not (is_noise a.cmd) && not (is_noise b.cmd) && not (is_checkpoint a.cmd)

-- The chains that begin with the first of three commands, the shorter first.
abbrev pub chains_at : HistoryEntry → HistoryEntry → HistoryEntry → List Text
chains_at a b c =
    let three = and_then a.cmd (and_then b.cmd c.cmd) ∷ [] in
    let longer = if follows b c then three else [] in
    if follows a b then and_then a.cmd b.cmd ∷ longer else []

abbrev pub pair_at : HistoryEntry → HistoryEntry → List Text
pair_at a b = if follows a b then and_then a.cmd b.cmd ∷ [] else []

-- Every chain of two or three commands in a history.
abbrev pub chain_commands : List HistoryEntry → List Text
chain_commands [] = []
chain_commands (a ∷ []) = []
chain_commands (a ∷ b ∷ []) = pair_at a b
chain_commands (a ∷ b ∷ c ∷ es) = chains_at a b c ++ chain_commands (b ∷ c ∷ es)

-- The pair that ends a history, if it is a chain.
abbrev pub last_pair : List HistoryEntry → List Text
last_pair [] = []
last_pair (a ∷ []) = []
last_pair (a ∷ b ∷ []) = pair_at a b
last_pair (a ∷ b ∷ c ∷ es) = last_pair (b ∷ c ∷ es)

-- Those of a window of three.
abbrev window_commands : List HistoryEntry → List Text
window_commands [] = []
window_commands (a ∷ []) = []
window_commands (a ∷ b ∷ []) = []
window_commands (a ∷ b ∷ c ∷ es) = chains_at a b c ++ window_commands (b ∷ c ∷ es)

-- The windows have all chains but the pair that ends the history.
window_commands-times :
    (k : Text) (h : List HistoryEntry)
    → times k (chain_commands h) ≡ times k (window_commands h) + times k (last_pair h)
window_commands-times k [] = refl
window_commands-times k (a ∷ []) = refl
window_commands-times k (a ∷ b ∷ []) = omega arith
window_commands-times k (a ∷ b ∷ c ∷ es) = omega (
  arith,
  times-append k (chains_at a b c) (chain_commands (b ∷ c ∷ es)),
  times-append k (chains_at a b c) (window_commands (b ∷ c ∷ es)),
  window_commands-times k (b ∷ c ∷ es),
)

-- The two conditions of the loop's body, in the words of the description.
abbrev skips : HistoryEntry → HistoryEntry → Bool
skips a b = not (is_close a b) || is_noise a.cmd || is_noise b.cmd || is_checkpoint a.cmd

abbrev goes_on : HistoryEntry → HistoryEntry → Bool
goes_on b c = is_close b c && not (is_noise c.cmd) && not (is_checkpoint b.cmd)

skips-follows : (a b : HistoryEntry) → skips a b ≡ true → follows a b ≡ false
skips-follows a b h = ground (arith, h)

follows-goes_on :
    (a b c : HistoryEntry) → skips a b ≡ false → (follows a b ≡ true) × (follows b c ≡ goes_on b c)
follows-goes_on a b c h = (ground (arith, h), ground (arith, h))

count_window-Distinct :
    (a b c : HistoryEntry) (fs : Tally) → Distinct fs → Distinct (count_window a b c fs)
unfolding count_window
count_window-Distinct a b c fs d = elim (Bool-cases (skips a b)) [
  | inl e ↦ rw e d
  | inr e ↦ elim (Bool-cases (goes_on b c)) [
    | inl g ↦ rw (e, g) (count_in-Distinct _ _ (count_in-Distinct _ fs d))
    | inr g ↦ rw (e, g) (count_in-Distinct _ fs d)
  ]
]

count_window-amount :
    (k : Text) (a b c : HistoryEntry) (fs : Tally)
    → amount k (count_window a b c fs) ≡ times k (chains_at a b c) + amount k fs
unfolding count_window
count_window-amount k a b c fs = elim (Bool-cases (skips a b)) [
  | inl e ↦ rw (e, skips-follows a b e) (omega arith)
  | inr e ↦
      let (f, g) = follows-goes_on a b c e in
      let two = and_then a.cmd b.cmd in
      let three = and_then a.cmd (and_then b.cmd c.cmd) in
      elim (Bool-cases (goes_on b c)) [
        | inl i ↦
            rw (e, f, g, i)
              (omega (arith, count_in-amount k three (count_in two fs), count_in-amount k two fs))
        | inr i ↦ rw (e, f, g, i) (omega (arith, count_in-amount k two fs))
      ]
]

count_chains-Distinct :
    (h : List HistoryEntry) (fs : Tally) → Distinct fs → Distinct (count_chains h fs)
unfolding count_chains
count_chains-Distinct [] fs d = d
count_chains-Distinct (a ∷ []) fs d = d
count_chains-Distinct (a ∷ b ∷ []) fs d = d
count_chains-Distinct (a ∷ b ∷ c ∷ es) fs d =
    count_chains-Distinct (b ∷ c ∷ es) (count_window a b c fs) (count_window-Distinct a b c fs d)

count_chains-amount :
    (k : Text) (h : List HistoryEntry) (fs : Tally)
    → amount k (count_chains h fs) ≡ times k (window_commands h) + amount k fs
unfolding count_chains
count_chains-amount k [] fs = omega arith
count_chains-amount k (a ∷ []) fs = omega arith
count_chains-amount k (a ∷ b ∷ []) fs = omega arith
count_chains-amount k (a ∷ b ∷ c ∷ es) fs = omega (
  arith,
  count_chains-amount k (b ∷ c ∷ es) (count_window a b c fs),
  count_window-amount k a b c fs,
  times-append k (chains_at a b c) (window_commands (b ∷ c ∷ es)),
)

count_chains-Counts : (h : List HistoryEntry) → Counts (window_commands h) (count_chains h [])
count_chains-Counts h =
    (count_chains-Distinct h [] tt, λ k. omega (arith, count_chains-amount k h []))

-- An entry's count, and once more where the pair that ends the history is its key.
pub count_chains-times :
    (h : List HistoryEntry) (e : Text × ℕ)
    → At e (count_chains h [])
    → e.1 + times e.0 (last_pair h) ≡ times e.0 (chain_commands h)
count_chains-times h e m = omega (
  arith,
  Counts-At (window_commands h) (count_chains h []) (count_chains-Counts h) m,
  window_commands-times e.0 h,
)
