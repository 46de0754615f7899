-- ===== src/Insights/Mine.antt =====
-- `mine_aliases` of src/insights.rs. The order in which a `HashMap` is walked, and the product of a
-- number of characters with the factor of the month, are arguments.
use fore_ai_assisted_termina.Prelude.{
  ℕ, suc, ◌-◌, ◌*◌, Bool, false, not, ◌&&◌, ◌||◌, none, some, List, [], ◌∷◌, ◌++◌, ltb, leb, ◌==◌,
  if◌then◌else◌, length, take, keep_if, any, reverse, pos, eq_ℤ, ltb_ℤ, ◌+ℤ◌,
}
use fore_ai_assisted_termina.Prelude.Text.{Text, codes, text_eq, contains, utf8_len}
use fore_ai_assisted_termina.Prelude.Sort.{sort_by}
use fore_ai_assisted_termina.Store.{HistoryEntry}
use fore_ai_assisted_termina.Insights.{split_text, is_checkpoint, is_noise, short_name}

pub data AliasKind : Type 0 where
  long : AliasKind
  sequence : AliasKind

pub record AliasProposal : Type 0 where
  pub name : Text
  pub expansion : Text
  pub count : ℕ
  pub chars_saved_per_month : ℕ
  pub kind : AliasKind

-- A map from commands to how often each was seen.
abbrev pub Tally : Type 0
Tally = List (Text × ℕ)

-- `*map.entry(k).or_insert(0) += 1`
unfoldable pub count_in : Text → Tally → Tally
count_in k [] = (k, 1) ∷ []
count_in k ((x, n) ∷ fs) =
    let rest = (x, n) ∷ count_in k fs in if text_eq x k then (x, suc n) ∷ fs else rest

abbrev pub succeeded : HistoryEntry → Bool
succeeded e = elim e.exit_code [ none ↦ false | some code ↦ eq_ℤ code (pos 0) ]

-- Oldest first.
unfoldable pub successes : List HistoryEntry → List HistoryEntry
successes history = reverse (keep_if succeeded history)

abbrev pub is_long : Text → Bool
is_long cmd = leb 16 (utf8_len cmd) && not (is_noise cmd)

unfoldable pub count_long : List HistoryEntry → Tally → Tally
count_long [] freq = freq
count_long (e ∷ es) freq = count_long es (if is_long e.cmd then count_in e.cmd freq else freq)

abbrev pub and_then : Text → Text → Text
and_then a b = a ++ (codes " && " ++ b)

abbrev seq_gap_ms : ℕ
seq_gap_ms = 5 * 60 * 1000

-- `close`, with the difference of the times written as a sum.
unfoldable pub is_close : HistoryEntry → HistoryEntry → Bool
is_close a b =
    ltb_ℤ b.ts_ms (a.ts_ms +ℤ pos seq_gap_ms) && text_eq a.cwd b.cwd && not (text_eq a.cmd b.cmd)

-- The loop's body on a window of three.
unfoldable pub count_window : HistoryEntry → HistoryEntry → HistoryEntry → Tally → Tally
count_window a b c seq =
    let two = count_in (and_then a.cmd b.cmd) seq in
    let three = count_in (and_then a.cmd (and_then b.cmd c.cmd)) two in
    if not (is_close a b) || is_noise a.cmd || is_noise b.cmd || is_checkpoint a.cmd
    then seq
    else if is_close b c && not (is_noise c.cmd) && not (is_checkpoint b.cmd)
    then three
    else two

unfoldable pub count_chains : List HistoryEntry → Tally → Tally
count_chains [] seq = seq
count_chains (a ∷ []) seq = seq
count_chains (a ∷ b ∷ []) seq = seq
count_chains (a ∷ b ∷ c ∷ es) seq = count_chains (b ∷ c ∷ es) (count_window a b c seq)

-- `s.matches("&&").count()`
abbrev pub steps : Text → ℕ
steps s = length (split_text (codes "&&") s) - 1

-- More steps first, then what was seen more often.
abbrev pub longer_chain : Text × ℕ → Text × ℕ → Bool
longer_chain (s, n) (t, m) = ltb (steps t) (steps s) || (steps s == steps t && ltb m n)

-- A chain that is a part of a kept one seen nearly as often, or has two commands in common with it.
unfoldable pub is_covered : Text → ℕ → Tally → Bool
is_covered s n kept =
    let parts = split_text (codes " && ") s in
    any (λ (k : Text × ℕ). contains k.0 s && leb (n * 8) (k.1 * 10)) kept
    || any (λ (k : Text × ℕ). leb 2 (length (keep_if (λ p. contains k.0 p) parts))) kept

unfoldable pub keep_chains : Tally → Tally → Tally
keep_chains kept [] = kept
keep_chains kept ((s, n) ∷ seqs) =
    keep_chains (if is_covered s n kept then kept else kept ++ (s, n) ∷ []) seqs

abbrev pub is_taken : List Text → Text → Bool
is_taken existing name = any (λ a. text_eq a name) existing

module _ (walked : Tally → Tally) (per_month : ℕ → ℕ) (existing : List Text) where
  unfoldable pub proposal : AliasKind → Text → ℕ → AliasProposal
  proposal kind cmd n =
      let name = short_name cmd in
      record {
        name = name;
        expansion = cmd;
        count = n;
        chars_saved_per_month = per_month ((utf8_len cmd - utf8_len name) * n);
        kind = kind;
      }

  -- The two loops that make proposals; `least` is the number below which the first skips a command.
  unfoldable pub proposals : AliasKind → ℕ → Tally → List AliasProposal
  proposals kind least [] = []
  proposals kind least ((cmd, n) ∷ fs) =
      let rest = proposals kind least fs in
      if ltb n least || is_taken existing (short_name cmd) then rest else proposal kind cmd n ∷ rest

  unfoldable pub chains : List HistoryEntry → Tally
  chains h =
      keep_chains []
        (sort_by longer_chain (keep_if (λ (k : Text × ℕ). leb 3 k.1) (walked (count_chains h []))))

  abbrev pub saves_more : AliasProposal → AliasProposal → Bool
  saves_more p q = ltb q.chars_saved_per_month p.chars_saved_per_month

  unfoldable pub mine_aliases : List HistoryEntry → List AliasProposal
  mine_aliases [] = []
  mine_aliases (e ∷ es) =
      let h = successes (e ∷ es) in
      take 10 (
        sort_by saves_more
          (proposals long 4 (walked (count_long h [])) ++ proposals sequence 0 (chains h)))
