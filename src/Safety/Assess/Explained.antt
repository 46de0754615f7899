-- ===== src/Safety/Assess/Explained.antt =====
-- In `classify_command` of src/safety.rs each call of `bump` has a risk above read-only, so a verdict has
-- reasons exactly when it is above read-only.
pub mod Rules
use fore_ai_assisted_termina.Prelude.{
  ℕ, zero, suc, ◌<◌, ◌≡◌, ◌↔◌, refl, ap, length, position, inl, inr, Bool, true, false, not, ◌&&◌,
  ◌||◌, Bool-cases, Option-cases, Option, none, some, List, [], ◌∷◌, ◌++◌, arith, if◌then◌else◌,
  All, All-append,
}
use fore_ai_assisted_termina.Prelude.Text.{Text, codes, is}
use fore_ai_assisted_termina.Safety.Risk.{Risk, read_only, rank, Assessment, Bump, start, bump_all}
use fore_ai_assisted_termina.Safety.Risk.Bumps.{Speaks, Explained, bump_all-Explained}
use fore_ai_assisted_termina.Safety.Command.{
  Node, node, Nodes, nil, cons, is_named, words_of, Command, command_of,
}
use fore_ai_assisted_termina.Safety.Assess.{
  walk, walk_stages, walk_all, pipe_rules, fetches, redirect_rules, line_bumps, result, assess,
}
use fore_ai_assisted_termina.Safety.Rules.System.{
  rm_rules, disk_rules, chmod_rules, in_place_rules, file_rules, kill_rules, is_shutdown,
  shutdown_rules, service_rules, package_rules, config_rules, account_rules,
}
use fore_ai_assisted_termina.Safety.Rules.Git.{push_rules, git_other_rules, git_rules}
use fore_ai_assisted_termina.Safety.Rules.Infra.{
  docker_rules, kubectl_sub_rules, kubectl_rules, terraform_rules, cloud_rules,
}
use fore_ai_assisted_termina.Safety.Rules.Dev.{
  local_package_rules, database_rules, http_rules, ssh_rules, gh_rules, interpreter_rules,
  build_rules,
}
use fore_ai_assisted_termina.Safety.Rules.Payload.{
  pass_on, exec_bumps, exec_line, delete_rules, find_rules, xargs_bumps, xargs_line, xargs_rules,
  ends_exec, is_exec, inner_words,
}
use fore_ai_assisted_termina.Safety.Classify.{
  later_rules, tool_rules, name_rules, sudo_rules, command_rules, classify_command,
}
use fore_ai_assisted_termina.Safety.Rules.Unknown.{unknown_rules}
use fore_ai_assisted_termina.Safety.Assess.Explained.Rules.{
  Speak, rm_rules-Speak, disk_rules-Speak, chmod_rules-Speak, in_place_rules-Speak,
  file_rules-Speak, kill_rules-Speak, shutdown_rules-Speak, service_rules-Speak,
  package_rules-Speak, config_rules-Speak, account_rules-Speak, push_rules-Speak,
  git_other_rules-Speak, docker_rules-Speak, kubectl_sub_rules-Speak, terraform_rules-Speak,
  database_rules-Speak, ssh_rules-Speak, gh_rules-Speak, interpreter_rules-Speak, build_rules-Speak,
  unknown_rules-Speak, kubectl_rules-Speak, cloud_rules-Speak, local_package_rules-Speak,
  http_rules-Speak, git_rules-Speak,
}

later_rules-Speak : (c : Command) → Speak (later_rules c)
unfolding later_rules
later_rules-Speak c = ground (
  arith,
  interpreter_rules-Speak c,
  account_rules-Speak c,
  build_rules-Speak c,
  unknown_rules-Speak c,
)

tool_rules-Speak : (c : Command) → Speak (tool_rules c)
unfolding tool_rules
tool_rules-Speak c = ground (
  arith,
  git_rules-Speak c,
  docker_rules-Speak c,
  kubectl_rules-Speak c,
  terraform_rules-Speak c,
  cloud_rules-Speak c,
  local_package_rules-Speak c,
  database_rules-Speak c,
  http_rules-Speak c,
  ssh_rules-Speak c,
  gh_rules-Speak c,
  later_rules-Speak c,
)

name_rules-Speak : (c : Command) → Speak (name_rules c)
unfolding name_rules
name_rules-Speak c = ground (
  arith,
  rm_rules-Speak c,
  disk_rules-Speak c,
  chmod_rules-Speak c,
  in_place_rules-Speak c,
  file_rules-Speak c,
  kill_rules-Speak c,
  shutdown_rules-Speak c,
  service_rules-Speak c,
  package_rules-Speak c,
  config_rules-Speak c,
  tool_rules-Speak c,
)

pass_on-Speak :
    (r : Risk) (before : Text) (whys : List Text) → 0 < rank r → Speak (pass_on r before whys)
unfolding pass_on
pass_on-Speak r before [] h = tt
pass_on-Speak r before (w ∷ ws) h = (h, pass_on-Speak r before ws h)

abbrev IsExplained : Assessment → Type 0
IsExplained a = Explained a.risk a.reasons

exec_bumps-Speak :
    (name line : Text) (r : Risk) (whys : List Text)
    → Explained r whys
    → Speak (exec_bumps name line (record { risk = r; reasons = whys }))
unfolding exec_bumps
exec_bumps-Speak name line r [] h = ground arith
exec_bumps-Speak name line r (w ∷ ws) h = pass_on-Speak r _ (w ∷ ws) h

xargs_bumps-Speak :
    (name : Text) (r : Risk) (whys : List Text)
    → Explained r whys
    → Speak (xargs_bumps name (record { risk = r; reasons = whys }))
unfolding xargs_bumps
xargs_bumps-Speak name r [] h = unfold pass_on in tt
xargs_bumps-Speak name r (w ∷ ws) h = pass_on-Speak r _ (w ∷ ws) h

module _ (sub : Text → Assessment) (explains : (line : Text) → IsExplained (sub line)) where
  exec_line-Speak : (ws : List Text) (name : Text) → Speak (exec_line ws name sub)
  unfolding exec_line
  exec_line-Speak [] name = tt
  exec_line-Speak (w ∷ ws) name = exec_bumps-Speak name _ _ _ (explains _)

  xargs_line-Speak : (ws : List Text) (name : Text) → Speak (xargs_line ws name sub)
  unfolding xargs_line
  xargs_line-Speak [] name = tt
  xargs_line-Speak (w ∷ ws) name = xargs_bumps-Speak name _ _ (explains _)

  delete_rules-Speak : (c : Command) → Speak (delete_rules c)
  unfolding delete_rules
  delete_rules-Speak c = ground arith

  find_rules-Speak : (c : Command) → Speak (find_rules sub c)
  unfolding find_rules
  find_rules-Speak c = elim (Option-cases (position is_exec c.args)) [
    | inl e ↦ rw (e, find_rules) (All-append Speaks (delete_rules c) [] (delete_rules-Speak c) tt)
    | inr (i, e) ↦
        rw (e, find_rules)
          (All-append Speaks (delete_rules c) _ (delete_rules-Speak c) (exec_line-Speak _ c.name))
  ]

  sudo_rules-Speak : (c : Command) → Speak (sudo_rules c)
  unfolding sudo_rules
  sudo_rules-Speak c = ground arith

  command_rules-Speak : (c : Command) → Speak (command_rules sub c)
  unfolding command_rules xargs_rules
  command_rules-Speak c = All-append Speaks (sudo_rules c) _ (sudo_rules-Speak c) (
      ground
        (arith, find_rules-Speak c, xargs_line-Speak (inner_words c) c.name, name_rules-Speak c))

  classify_command-Speak : (ws : List Text) → Speak (classify_command sub ws)
  unfolding classify_command
  classify_command-Speak [] = tt
  classify_command-Speak (w ∷ ws) = command_rules-Speak (command_of (w ∷ ws))

  pipe_rules-Speak : (prev : Bool) (m : Node) → Speak (pipe_rules prev m)
  unfolding pipe_rules
  pipe_rules-Speak prev m = ground arith

  mutual
    unfolding walk

    walk-Speak : (m : Node) → Speak (walk sub m)
    walk-Speak (node k named t cs) = elim (Bool-cases (is k "pipeline")) [
      | inl e ↦ rw (e, walk) (walk_stages-Speak false cs)
      | inr e ↦ elim (Bool-cases (is k "command")) [
        | inl c ↦
            rw (e, c, walk)
              (All-append Speaks (classify_command sub (words_of (node k named t cs))) _
                (classify_command-Speak _) (walk_all-Speak cs))
        | inr c ↦ rw (e, c, walk) (walk_all-Speak cs)
      ]
    ]

    walk_stages-Speak : (prev : Bool) (ns : Nodes) → Speak (walk_stages sub prev ns)
    walk_stages-Speak prev nil = tt
    walk_stages-Speak prev (cons c cs) = elim (Bool-cases (is_named c)) [
      | inl e ↦
          rw (e, walk_stages)
            (All-append Speaks (pipe_rules prev c) _ (pipe_rules-Speak prev c) (
              All-append Speaks (walk sub c) _ (walk-Speak c)
                (walk_stages-Speak (fetches prev c) cs)))
      | inr e ↦ rw (e, walk_stages) (walk_stages-Speak prev cs)
    ]

    walk_all-Speak : (ns : Nodes) → Speak (walk_all sub ns)
    walk_all-Speak nil = tt
    walk_all-Speak (cons c cs) = All-append Speaks (walk sub c) _ (walk-Speak c) (walk_all-Speak cs)

  line_bumps-Speak : (root : Node) → Speak (line_bumps sub root)
  unfolding line_bumps redirect_rules
  line_bumps-Speak root = All-append Speaks (walk sub root) _ (walk-Speak root) (ground arith)

assess-IsExplained :
    (parse : Text → Option Node) (depth : ℕ) (line : Text) → IsExplained (assess parse depth line)
unfolding assess
assess-IsExplained parse zero line = omega arith
assess-IsExplained parse (suc depth) line = elim (Option-cases (parse line)) [
  | inl e ↦ rw (e, assess) (omega arith)
  | inr (root, e) ↦
      rw (e, assess)
        (bump_all-Explained _
          (line_bumps-Speak (assess parse depth) (assess-IsExplained parse depth) root))
]

silent_iff : (r : Risk) (whys : List Text) → Explained r whys → (r ≡ read_only) ↔ (whys ≡ [])
silent_iff r [] h = (λ e. refl, λ e. h)
silent_iff r (w ∷ ws) h =
    (λ e. absurd (omega (arith, ap rank e, h)), λ e. absurd (omega (arith, ap length e)))

-- Whatever the parser gives for whatever line, the verdict lists a reason exactly when its risk is above
-- read-only: no danger is without an explanation, and a line graded read-only has no warning.
pub assess-Explained :
    (parse : Text → Option Node) (depth : ℕ) (line : Text)
    → ((assess parse depth line).risk ≡ read_only) ↔ ((assess parse depth line).reasons ≡ [])
assess-Explained parse depth line = silent_iff _ _ (assess-IsExplained parse depth line)
