-- ===== src/Insights/Tests.antt =====
-- The names and the proposals of src/insights.rs on concrete histories.
use fore_ai_assisted_termina.Prelude.{
  ℕ, ◌≤◌, ◌≡◌, refl, some, List, [], ◌∷◌, reverse, map, keep_if, length, All, pos, ◌+ℤ◌,
}
use fore_ai_assisted_termina.Prelude.Text.{
  Text, codes, starts_with, split, begins, contains_char, is_one_of, text_eq, contains, is,
}
use fore_ai_assisted_termina.Prelude.Sort.{sort_by, insert_by, Falling}
use fore_ai_assisted_termina.Store.{HistoryEntry}
use fore_ai_assisted_termina.Insights.{
  short_name, parts_name, split_from, part_name, is_noise, is_checkpoint,
}
use fore_ai_assisted_termina.Insights.Mine.{
  long, sequence, AliasProposal, successes, mine_aliases, chains, proposals, proposal, keep_chains,
  is_covered, count_chains, count_window, count_long, is_close, count_in,
}
use fore_ai_assisted_termina.Insights.Stats.{
  Counters, Runs, Stats, stats, visit_all, add_duration, count_run, raise_in, median,
}
use fore_ai_assisted_termina.Insights.Measured.{commands_of, dirs_of, Exact, Ranked, stats-Ranked}
use fore_ai_assisted_termina.Insights.Mined.{Earned, mine_aliases-Earned}

cargo_name : short_name (codes "cargo build --release") ≡ codes "cbr"
unfolding short_name parts_name split_from starts_with part_name split begins contains_char
    is_one_of
cargo_name = refl

reserved_name : short_name (codes "git commit") ≡ codes "gcx"
unfolding short_name parts_name split_from starts_with part_name split begins contains_char
    is_one_of
reserved_name = refl

abbrev ran : Text → ℕ → HistoryEntry
ran cmd ts = record {
  cmd = cmd;
  cwd = codes "/p";
  exit_code = some (pos 0);
  ts_ms = pos ts;
  duration_ms = some 50;
}

abbrev history : List HistoryEntry
history = reverse (
    ran (codes "git add -A") 0
    ∷ ran (codes "git commit -m wip") 1000
    ∷ ran (codes "git push") 2000
    ∷ ran (codes "git add -A") 600000
    ∷ ran (codes "git commit -m wip") 601000
    ∷ ran (codes "git push") 602000
    ∷ ran (codes "git add -A") 1200000
    ∷ ran (codes "git commit -m wip") 1201000
    ∷ ran (codes "git push") 1202000
    ∷ ran (codes "ls") 2400000
    ∷ [])

abbrev builds : List HistoryEntry
builds =
    ran (codes "docker compose up -d --build") 5
    ∷ ran (codes "docker compose up -d --build") 4
    ∷ ran (codes "docker compose up -d --build") 3
    ∷ ran (codes "docker compose up -d --build") 2
    ∷ []

found_chain :
    mine_aliases (λ fs. fs) (λ n. n) [] history
    ≡ record {
      name = codes "gagcgp";
      expansion = codes "git add -A && git commit -m wip && git push";
      count = 3;
      chars_saved_per_month = 111;
      kind = sequence;
    }
      ∷ []
unfolding mine_aliases chains proposals proposal keep_chains is_covered count_chains count_window
    count_long is_close count_in successes sort_by insert_by text_eq contains is is_noise
    is_checkpoint ◌+ℤ◌ short_name parts_name split_from starts_with part_name split begins
    contains_char is_one_of
found_chain = refl

found_long :
    mine_aliases (λ fs. fs) (λ n. n) [] builds
    ≡ record {
      name = codes "dcud";
      expansion = codes "docker compose up -d --build";
      count = 4;
      chars_saved_per_month = 96;
      kind = long;
    }
      ∷ []
unfolding mine_aliases chains proposals proposal keep_chains is_covered count_chains count_window
    count_long is_close count_in successes sort_by insert_by text_eq contains is is_noise
    is_checkpoint ◌+ℤ◌ short_name parts_name split_from starts_with part_name split begins
    contains_char is_one_of
found_long = refl

taken : mine_aliases (λ fs. fs) (λ n. n) (codes "dcud" ∷ []) builds ≡ []
unfolding mine_aliases chains proposals proposal keep_chains is_covered count_chains count_window
    count_long is_close count_in successes sort_by insert_by text_eq contains is is_noise
    is_checkpoint ◌+ℤ◌ short_name parts_name split_from starts_with part_name split begins
    contains_char is_one_of
taken = refl

-- The pair that ends a history is not counted: four times in a row count as three.
abbrev four_pairs : List HistoryEntry
four_pairs = reverse (
    ran (codes "git add -A") 0
    ∷ ran (codes "git commit -m wip") 1000
    ∷ ran (codes "git add -A") 600000
    ∷ ran (codes "git commit -m wip") 601000
    ∷ ran (codes "git add -A") 1200000
    ∷ ran (codes "git commit -m wip") 1201000
    ∷ ran (codes "git add -A") 1800000
    ∷ ran (codes "git commit -m wip") 1801000
    ∷ [])

counted_pairs :
    map {B = Text × ℕ}
      (λ (p : AliasProposal). (p.expansion, p.count))
      (keep_if
        (λ (p : AliasProposal). text_eq p.name (codes "gagc"))
        (mine_aliases (λ fs. fs) (λ n. n) [] four_pairs))
    ≡ (codes "git add -A && git commit -m wip", 3) ∷ []
unfolding mine_aliases chains proposals proposal keep_chains is_covered count_chains count_window
    count_long is_close count_in successes sort_by insert_by text_eq contains is is_noise
    is_checkpoint ◌+ℤ◌ short_name parts_name split_from starts_with part_name split begins
    contains_char is_one_of
counted_pairs = refl

mine_aliases-Earned_example :
    All
      (Earned (λ fs. fs) (λ n. n) [] (successes history))
      (mine_aliases (λ fs. fs) (λ n. n) [] history)
    × Falling
        (λ (p : AliasProposal). p.chars_saved_per_month)
        (mine_aliases (λ fs. fs) (λ n. n) [] history)
    × (length (mine_aliases (λ fs. fs) (λ n. n) [] history) ≤ 10)
mine_aliases-Earned_example = mine_aliases-Earned (λ fs. fs) (λ n. n) [] history (λ fs e m. m)

abbrev failing : List HistoryEntry
failing =
    record (ran (codes "make") 3) { exit_code = some (pos 2) }
    ∷ ran (codes "ls") 2
    ∷ record (ran (codes "make") 1) { exit_code = some (pos 1); duration_ms = some 5000 }
    ∷ []

abbrev counters : Counters
counters = record {
  suggest_shown = 0;
  suggest_accepted = 0;
  chars_saved = 0;
  fix_requested = 0;
  ask_requested = 0;
  blocks_shown = 0;
}

-- The statistics without fractions.
abbrev measured : Stats Unit
measured =
    stats Unit (λ a b. tt) (λ n x. tt) (λ m n. tt) tt (λ fs. fs) (λ fs. fs) failing 2 (pos 9)
      counters

measured_run :
    (measured.top_commands ≡ (codes "make", 2) ∷ (codes "ls", 1) ∷ [])
    × (measured.most_failing ≡ (codes "make", 2, 2) ∷ [])
    × (measured.slowest ≡ (codes "make", 5000) ∷ (codes "ls", 50) ∷ [])
    × (measured.failures ≡ 2)
    × (measured.median_duration_ms ≡ 50)
    × (measured.time_waiting_ms ≡ 5000)
unfolding stats visit_all add_duration count_run raise_in median count_in text_eq sort_by insert_by
measured_run = (refl, refl, refl, refl, refl, refl)

stats-Ranked_example :
    Ranked 8 (commands_of failing) measured.top_commands
    × Ranked 5 (dirs_of failing) measured.busiest_dirs
    × All (λ (e : Runs). Exact failing (e.0, e.2, e.1) × (2 ≤ e.1)) measured.most_failing
    × Falling (λ (e : Runs). e.1) measured.most_failing
    × (length measured.most_failing ≤ 5)
stats-Ranked_example =
    stats-Ranked Unit (λ a b. tt) (λ n x. tt) (λ m n. tt) tt (λ fs. fs) (λ fs. fs) failing 2 (pos 9)
      counters (λ fs e m. m) (λ fs e m. m)
