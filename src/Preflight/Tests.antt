-- ===== src/Preflight/Tests.antt =====
-- Lines, a disk and an environment for the theorems on src/preflight.rs.
use fore_ai_assisted_termina.Prelude.{
  ℕ, ◌≡◌, ◌↔◌, refl, true, false, Option, none, some, String, List, [], ◌∷◌, map,
}
use fore_ai_assisted_termina.Prelude.Text.{
  Text, codes, text_eq, is, is_one_of, begins, holds, contains, starts_with, contains_char, split,
}
use fore_ai_assisted_termina.Prelude.Text.Decimal.{digits, decimal}
use fore_ai_assisted_termina.Safety.Risk.{bump, bump_all, is_seen}
use fore_ai_assisted_termina.Safety.Command.{
  Node, node, Nodes, nil, cons, words_of, words_in, is_wrapper, takes_value, skip_flags, peel,
  command_name, command_of, has_flag,
}
use fore_ai_assisted_termina.Safety.Classify.{
  classify_command, command_rules, sudo_rules, name_rules,
}
use fore_ai_assisted_termina.Safety.Rules.System.{file_rules, rm_rules}
use fore_ai_assisted_termina.Safety.Assess.{
  walk, truncates, has_truncating_redirect, redirect_rules, line_bumps, assess,
}
use fore_ai_assisted_termina.Preflight.{
  warn, block, Finding, EnvSnapshot, Options, blocks, SimpleCmd, Site, scale, fmt_bytes, fmt_n,
  group,
}
use fore_ai_assisted_termina.Preflight.Commands.{
  skip_options, unwrap, collect, collect_all, split_commands,
}
use fore_ai_assisted_termina.Preflight.Guards.{
  python_guards, node_guards, kube_guards, terraform_guards, aws_guards, git_guards, push_guards,
  is_force, is_protected_branch, system_guards, guards,
}
use fore_ai_assisted_termina.Preflight.Previews.{
  rm_flags, is_recursive, is_glob, is_build_dir, is_inside_repo, tally_found, tally_target,
  tally_all, rm_finding, preview_rm,
}
use fore_ai_assisted_termina.Preflight.GitPreviews.{previews}
use fore_ai_assisted_termina.Preflight.Insights.{
  same_runs, streak, durations, sort_durations, duration_finding, insights,
}
use fore_ai_assisted_termina.Preflight.Glob.{glob_match, Matches, glob_match-Matches}
use fore_ai_assisted_termina.Preflight.Run.{
  ignored_checks, is_noop, is_trashed, is_destructive, check_all, run,
}
use fore_ai_assisted_termina.Preflight.Sorted.{WellShown, run-WellShown}
use fore_ai_assisted_termina.Preflight.Blocks.{said, run-blocks}

glob_match-Matches_example :
    (glob_match (codes "a*.log") (codes "app.log") ≡ true)
    ↔ Matches (codes "a*.log") (codes "app.log")
glob_match-Matches_example = glob_match-Matches (codes "a*.log") (codes "app.log")

glob_run :
    (glob_match (codes "a*.log") (codes "app.log") ≡ true)
    × (glob_match (codes "?.txt") (codes "ab.txt") ≡ false)
unfolding glob_match
glob_run = (refl, refl)

abbrev word : String → Node
word t = node (codes "word") true (codes t) nil

abbrev words : List String → Nodes
words [] = nil
words (w ∷ ws) = cons (word w) (words ws)

abbrev line : List String → Node
line ws = node (codes "program") true [] (cons (node (codes "command") true [] (words ws)) nil)

abbrev parse : Text → Option Node
parse cmd = some (line ("sudo" ∷ "rm" ∷ "-rf" ∷ "build" ∷ []))

-- A directory with five files, outside every repository.
abbrev pub site : Site
site = record {
  here = λ name. false;
  levels = (none, false) ∷ [];
  stat = λ t. some (true, 4096);
  size = λ t. none;
  walk = λ t. (5, 2048, false);
  walk_glob = λ t. (0, 0, false);
  walk_glob_recursive = λ t pat. (0, 0, false);
  has_git = λ t. false;
  git_status = [];
  git_merged = none;
}

abbrev env : EnvSnapshot
env = record {
  virtual_env = none;
  conda_env = none;
  kube_context = none;
  aws_profile = none;
  git_branch = some (codes "main");
  git_dirty = some false;
  ignored = none;
}

abbrev pub opts : Options
opts = record {
  protected_branches = codes "main" ∷ [];
  prod_markers = codes "prod" ∷ [];
  block_files = 100;
  block_bytes = 1000000;
  safe_rm = false;
}

abbrev pub show : ℕ → ℕ → Text
show n d = decimal n

abbrev rm_build : Text
rm_build = codes "sudo rm -rf build"

run-WellShown_example :
    WellShown env (run show site env opts rm_build (codes "/w") [] parse 2).findings
run-WellShown_example = run-WellShown show site env opts rm_build (codes "/w") [] parse 2

rm_destructive : is_destructive (assess parse 2 rm_build).risk ≡ true
unfolding assess bump bump_all is_seen line_bumps walk redirect_rules has_truncating_redirect
    truncates words_of words_in is is_one_of begins contains_char holds contains starts_with
    command_of command_name peel is_wrapper takes_value skip_flags classify_command command_rules
    sudo_rules name_rules file_rules rm_rules has_flag
rm_destructive = refl

rm_said :
    said show site env opts rm_build (codes "/w") [] (parse rm_build)
    ≡ record {
      severity = warn;
      text = codes "rm will delete 5 files (2048 KB)";
      check = codes "preview";
    }
      ∷ []
unfolding check_all split_commands collect collect_all unwrap skip_options guards python_guards
    node_guards kube_guards terraform_guards aws_guards git_guards system_guards previews preview_rm
    rm_flags is_recursive is_glob is_build_dir is_inside_repo tally_found tally_target tally_all
    rm_finding insights same_runs streak durations sort_durations duration_finding scale fmt_bytes
    fmt_n group digits decimal words_of words_in is_wrapper takes_value is is_one_of begins
    contains_char holds contains starts_with text_eq
rm_said = refl

rm_no_noop : is_noop (said show site env opts rm_build (codes "/w") [] (parse rm_build)) ≡ false
unfolding is_noop holds is contains
rm_no_noop = rw rm_said refl

rm_not_trashed :
    is_trashed opts (said show site env opts rm_build (codes "/w") [] (parse rm_build)) ≡ false
unfolding is_trashed
rm_not_trashed = refl

nothing_ignored : ignored_checks env ≡ []
unfolding ignored_checks split
nothing_ignored = refl

run-blocks_example : blocks (run show site env opts rm_build (codes "/w") [] parse 2) ≡ true
run-blocks_example =
    run-blocks show site env opts rm_build (codes "/w") [] parse 2 rm_destructive rm_no_noop
      rm_not_trashed nothing_ignored

-- `git push --force-with-lease` on `main` is refused like `--force`.
abbrev lease : SimpleCmd
lease = record {
  name = codes "git";
  args = codes "push" ∷ codes "--force-with-lease" ∷ [];
  sudo = false;
}

lease_run : map (λ (f : Finding). f.severity) (guards site env opts lease) ≡ block ∷ []
unfolding guards python_guards node_guards kube_guards terraform_guards aws_guards git_guards
    push_guards is_force is_protected_branch system_guards is is_one_of begins contains_char holds
    contains starts_with text_eq
lease_run = refl
