-- ===== src/Insights/Mined.antt =====
-- What `mine_aliases` of src/insights.rs proposes.
use fore_ai_assisted_termina.Prelude.{
  ℕ, ◌+◌, ◌≤◌, ◌≡◌, refl, inl, inr, false, ◌||◌, Bool-cases, List, [], ◌∷◌, ◌++◌, ltb, leb, keep_if,
  length, length-take, take-All, arith, All, All-at, All-append, At, At-All,
}
use fore_ai_assisted_termina.Prelude.Text.{Text}
use fore_ai_assisted_termina.Prelude.Sort.{sort_by-All, Falling, sort_by-Falling, take-Falling}
use fore_ai_assisted_termina.Store.{HistoryEntry}
use fore_ai_assisted_termina.Insights.{short_name}
use fore_ai_assisted_termina.Insights.Mine.{
  Tally, AliasKind, long, sequence, AliasProposal, is_taken, successes, count_long, count_chains,
  longer_chain, is_covered, keep_chains, proposal, proposals, chains, mine_aliases,
}
use fore_ai_assisted_termina.Insights.Tallies.{
  times, Counts-At, long_commands, count_long-Counts, chain_commands, count_chains-times, last_pair,
}

-- The commands that a proposal of the kind comes from, and how often one must occur.
abbrev pub seen_for : AliasKind → List HistoryEntry → List Text
seen_for long h = long_commands h
seen_for sequence h = chain_commands h

-- What the loops over the history leave out: the pair that ends it.
abbrev pub missed_for : AliasKind → List HistoryEntry → List Text
missed_for long h = []
missed_for sequence h = last_pair h

abbrev pub least_for : AliasKind → ℕ
least_for long = 4
least_for sequence = 3

-- An entry of a tally that occurs as often as it says, and often enough.
abbrev Frequent : AliasKind → List HistoryEntry → ℕ → Text × ℕ → Type 0
Frequent kind h least e =
    (e.1 + times e.0 (missed_for kind h) ≡ times e.0 (seen_for kind h)) × (least ≤ e.1)

keep_if-Frequent :
    (h : List HistoryEntry) (fs : Tally)
    → All (Frequent sequence h 0) fs
    → All (Frequent sequence h 3) (keep_if (λ (k : Text × ℕ). leb 3 k.1) fs)
keep_if-Frequent h [] a = tt
keep_if-Frequent h (f ∷ fs) a = elim (Bool-cases (leb 3 f.1)) [
  | inl e ↦ rw e ((a.0.0, ground (arith, e)), keep_if-Frequent h fs a.1)
  | inr e ↦ rw e (keep_if-Frequent h fs a.1)
]

keep_chains-All {κ} :
    (P : Text × ℕ → Type κ) (kept seqs : Tally)
    → All P kept
    → All P seqs
    → All P (keep_chains kept seqs)
unfolding keep_chains
keep_chains-All P kept [] k a = k
keep_chains-All P kept (s ∷ seqs) k a = elim (Bool-cases (is_covered s.0 s.1 kept)) [
  | inl e ↦ rw e (keep_chains-All P kept seqs k a.1)
  | inr e ↦
      rw e (keep_chains-All P (kept ++ s ∷ []) seqs (All-append P kept (s ∷ []) k (a.0, tt)) a.1)
]

module _ (walked : Tally → Tally) (per_month : ℕ → ℕ) (existing : List Text) where
  -- A proposal under a name that is free, of what the history has as often as the proposal says,
  -- but for what the loops leave out.
  abbrev pub Earned : List HistoryEntry → AliasProposal → Type 0
  Earned h p =
      (p.name ≡ short_name p.expansion)
      × (is_taken existing p.name ≡ false)
      × (p.count + times p.expansion (missed_for p.kind h) ≡ times p.expansion (seen_for p.kind h))
      × (least_for p.kind ≤ p.count)

  proposals-Earned :
      (h : List HistoryEntry) (kind : AliasKind) (least : ℕ) (fs : Tally)
      → All
          (λ (e : Text × ℕ).
            (e.1 + times e.0 (missed_for kind h) ≡ times e.0 (seen_for kind h))
            × (ltb e.1 least ≡ false → least_for kind ≤ e.1))
          fs
      → All (Earned h) (proposals walked per_month existing kind least fs)
  unfolding proposals proposal
  proposals-Earned h kind least [] a = tt
  proposals-Earned h kind least (e ∷ fs) a =
      elim (Bool-cases (ltb e.1 least || is_taken existing (short_name e.0))) [
        | inl b ↦ rw b (proposals-Earned h kind least fs a.1)
        | inr b ↦ rw b (
          (refl, ground (arith, b), a.0.0, a.0.1 (ground (arith, b))),
          proposals-Earned h kind least fs a.1,
        )
      ]

  -- Whatever the order in which the maps are walked: each proposal's name is the short name of what
  -- it stands for, and no alias that the user has. Its count is at least four for a long command,
  -- that is one of 16 bytes or more that does not begin as noise, and is how often the command
  -- succeeded. It is at least three for a chain of two or three commands, each of which follows the
  -- one before it within five minutes in the same directory, where neither is noise and the first
  -- prints nothing that one reads, and is how often the chain occurs in the commands that succeeded,
  -- less one if the two newest commands are the chain: the loop never counts that pair. There are at
  -- most ten proposals, and none saves more characters than one before it.
  pub mine_aliases-Earned :
      (history : List HistoryEntry)
      → ((fs : Tally) (e : Text × ℕ) → At e (walked fs) → At e fs)
      → All (Earned (successes history)) (mine_aliases walked per_month existing history)
        × Falling
            (λ (p : AliasProposal). p.chars_saved_per_month)
            (mine_aliases walked per_month existing history)
        × (length (mine_aliases walked per_month existing history) ≤ 10)
  unfolding mine_aliases chains
  mine_aliases-Earned [] from_map = (tt, tt, omega arith)
  mine_aliases-Earned (e ∷ es) from_map = (
    take-All (Earned h) 10 _ (sort_by-All _ (Earned h) _ (All-append _ _ _ longs sequences)),
    take-Falling rank 10 _ (sort_by-Falling rank _),
    length-take 10 _,
  )
    where
      h : List HistoryEntry
      h = successes (e ∷ es)

      rank : AliasProposal → ℕ
      rank p = p.chars_saved_per_month

      longs : All (Earned h) (proposals walked per_month existing long 4 (walked (count_long h [])))
      longs = proposals-Earned h long 4 _ (
          At-All _ λ e m. (
            omega (arith, Counts-At _ _ (count_long-Counts h) (from_map _ e m)),
            λ b. ground (arith, b),
          ))

      walked_chains : All (Frequent sequence h 0) (walked (count_chains h []))
      walked_chains = At-All _ λ e m. (count_chains-times h e (from_map _ e m), omega arith)

      frequent : All (Frequent sequence h 3) (chains walked per_month existing h)
      frequent = keep_chains-All _ [] _ tt (
          sort_by-All longer_chain _ _
            (keep_if-Frequent h (walked (count_chains h [])) walked_chains))

      sequences :
          All
            (Earned h)
            (proposals walked per_month existing sequence 0 (chains walked per_month existing h))
      sequences =
          proposals-Earned h sequence 0 _
            (At-All _ λ e m. let f = All-at _ _ frequent m in (f.0, λ b. f.1))
