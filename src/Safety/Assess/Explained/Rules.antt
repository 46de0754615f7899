-- ===== src/Safety/Assess/Explained/Rules.antt =====
-- The arms of `classify_command` of src/safety.rs: each call of `bump` in them has a risk above read-only.
use fore_ai_assisted_termina.Prelude.{List, arith, All, All-append}
use fore_ai_assisted_termina.Safety.Risk.{Bump}
use fore_ai_assisted_termina.Safety.Risk.Bumps.{Speaks}
use fore_ai_assisted_termina.Safety.Command.{Command}
use fore_ai_assisted_termina.Safety.Rules.System.{
  rm_rules, disk_rules, chmod_rules, in_place_rules, file_rules, kill_rules, shutdown_rules,
  service_rules, package_rules, config_rules, account_rules,
}
use fore_ai_assisted_termina.Safety.Rules.Git.{push_rules, git_other_rules, git_rules}
use fore_ai_assisted_termina.Safety.Rules.Infra.{
  docker_rules, kubectl_sub_rules, kubectl_rules, terraform_rules, cloud_rules,
}
use fore_ai_assisted_termina.Safety.Rules.Dev.{
  local_package_rules, database_rules, http_rules, ssh_rules, gh_rules, interpreter_rules,
  build_rules,
}
use fore_ai_assisted_termina.Safety.Rules.Unknown.{unknown_rules}

abbrev pub Speak : List Bump → Type 0
Speak bs = All Speaks bs

pub rm_rules-Speak : (c : Command) → Speak (rm_rules c)
unfolding rm_rules
rm_rules-Speak c = ground arith

pub disk_rules-Speak : (c : Command) → Speak (disk_rules c)
unfolding disk_rules
disk_rules-Speak c = ground arith

pub chmod_rules-Speak : (c : Command) → Speak (chmod_rules c)
unfolding chmod_rules
chmod_rules-Speak c = ground arith

pub in_place_rules-Speak : (c : Command) → Speak (in_place_rules c)
unfolding in_place_rules
in_place_rules-Speak c = ground arith

pub file_rules-Speak : (c : Command) → Speak (file_rules c)
unfolding file_rules
file_rules-Speak c = ground arith

pub kill_rules-Speak : (c : Command) → Speak (kill_rules c)
unfolding kill_rules
kill_rules-Speak c = ground arith

pub shutdown_rules-Speak : (c : Command) → Speak (shutdown_rules c)
unfolding shutdown_rules
shutdown_rules-Speak c = ground arith

pub service_rules-Speak : (c : Command) → Speak (service_rules c)
unfolding service_rules
service_rules-Speak c = ground arith

pub package_rules-Speak : (c : Command) → Speak (package_rules c)
unfolding package_rules
package_rules-Speak c = ground arith

pub config_rules-Speak : (c : Command) → Speak (config_rules c)
unfolding config_rules
config_rules-Speak c = ground arith

pub account_rules-Speak : (c : Command) → Speak (account_rules c)
unfolding account_rules
account_rules-Speak c = ground arith

pub push_rules-Speak : (c : Command) → Speak (push_rules c)
unfolding push_rules
push_rules-Speak c = ground arith

pub git_other_rules-Speak : (c : Command) → Speak (git_other_rules c)
unfolding git_other_rules
git_other_rules-Speak c = ground arith

pub docker_rules-Speak : (c : Command) → Speak (docker_rules c)
unfolding docker_rules
docker_rules-Speak c = ground arith

pub kubectl_sub_rules-Speak : (c : Command) → Speak (kubectl_sub_rules c)
unfolding kubectl_sub_rules
kubectl_sub_rules-Speak c = ground arith

pub terraform_rules-Speak : (c : Command) → Speak (terraform_rules c)
unfolding terraform_rules
terraform_rules-Speak c = ground arith

pub database_rules-Speak : (c : Command) → Speak (database_rules c)
unfolding database_rules
database_rules-Speak c = ground arith

pub ssh_rules-Speak : (c : Command) → Speak (ssh_rules c)
unfolding ssh_rules
ssh_rules-Speak c = ground arith

pub gh_rules-Speak : (c : Command) → Speak (gh_rules c)
unfolding gh_rules
gh_rules-Speak c = ground arith

pub interpreter_rules-Speak : (c : Command) → Speak (interpreter_rules c)
unfolding interpreter_rules
interpreter_rules-Speak c = ground arith

pub build_rules-Speak : (c : Command) → Speak (build_rules c)
unfolding build_rules
build_rules-Speak c = ground arith

pub unknown_rules-Speak : (c : Command) → Speak (unknown_rules c)
unfolding unknown_rules
unknown_rules-Speak c = ground arith

pub kubectl_rules-Speak : (c : Command) → Speak (kubectl_rules c)
unfolding kubectl_rules
kubectl_rules-Speak c =
    All-append Speaks (kubectl_sub_rules c) _ (kubectl_sub_rules-Speak c) (ground arith)

pub cloud_rules-Speak : (c : Command) → Speak (cloud_rules c)
unfolding cloud_rules
cloud_rules-Speak c = ground arith

pub local_package_rules-Speak : (c : Command) → Speak (local_package_rules c)
unfolding local_package_rules
local_package_rules-Speak c = ground arith

pub http_rules-Speak : (c : Command) → Speak (http_rules c)
unfolding http_rules
http_rules-Speak c = ground arith

pub git_rules-Speak : (c : Command) → Speak (git_rules c)
unfolding git_rules
git_rules-Speak c = ground (arith, push_rules-Speak c, git_other_rules-Speak c)
