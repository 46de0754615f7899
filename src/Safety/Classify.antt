-- ===== src/Safety/Classify.antt =====
-- `classify_command` of src/safety.rs: the calls of `bump` that it makes for the words of a command,
-- in their order. The arms of its `match` are the functions of `Rules`.
use fore_ai_assisted_termina.Prelude.{◌&&◌, List, [], ◌∷◌, ◌++◌, if◌then◌else◌}
use fore_ai_assisted_termina.Prelude.Text.{Text, is, is_one_of}
use fore_ai_assisted_termina.Safety.Risk.{privileged, Assessment, Bump, says}
use fore_ai_assisted_termina.Safety.Command.{Command, command_of, has_flag}
use fore_ai_assisted_termina.Safety.Rules.Payload.{find_rules, xargs_rules}
use fore_ai_assisted_termina.Safety.Rules.System.{
  rm_rules, disk_rules, chmod_rules, in_place_rules, file_rules, kill_rules, is_shutdown,
  shutdown_rules, service_rules, package_rules, config_rules, account_rules,
}
use fore_ai_assisted_termina.Safety.Rules.Git.{git_rules}
use fore_ai_assisted_termina.Safety.Rules.Infra.{
  docker_rules, kubectl_rules, terraform_rules, cloud_rules,
}
use fore_ai_assisted_termina.Safety.Rules.Dev.{
  local_package_rules, database_rules, http_rules, ssh_rules, gh_rules, interpreter_rules,
  build_rules,
}
use fore_ai_assisted_termina.Safety.Rules.Unknown.{unknown_rules}

-- The arms from the interpreters on.
unfoldable pub later_rules : Command → List Bump
later_rules c =
    let n = c.name in
    if is_one_of n (
      "python" ∷ "python3" ∷ "node" ∷ "ruby" ∷ "perl" ∷ "sh" ∷ "bash" ∷ "zsh" ∷ "eval" ∷ "source"
      ∷ "." ∷ [])
    then interpreter_rules c
    else if is_one_of n
        ("chattr" ∷ "setfacl" ∷ "passwd" ∷ "useradd" ∷ "userdel" ∷ "usermod" ∷ "visudo" ∷ [])
    then account_rules c
    else if is_one_of n ("make" ∷ "just" ∷ "task" ∷ "rake" ∷ "gradle" ∷ "gradlew" ∷ "mvn" ∷ [])
    then build_rules c
    else if is_one_of n
        ("export" ∷ "unset" ∷ "alias" ∷ "unalias" ∷ "set" ∷ "cd" ∷ "pushd" ∷ "popd" ∷ [])
    then []
    else unknown_rules c

-- The arms from `git` on.
unfoldable pub tool_rules : Command → List Bump
tool_rules c =
    let n = c.name in
    if is n "git"
    then git_rules c
    else if is_one_of n ("docker" ∷ "podman" ∷ "docker-compose" ∷ [])
    then docker_rules c
    else if is_one_of n ("kubectl" ∷ "helm" ∷ "k" ∷ [])
    then kubectl_rules c
    else if is_one_of n ("terraform" ∷ "tofu" ∷ "pulumi" ∷ [])
    then terraform_rules c
    else if is_one_of n ("aws" ∷ "gcloud" ∷ "az" ∷ [])
    then cloud_rules c
    else if is_one_of n (
        "npm" ∷ "pnpm" ∷ "yarn" ∷ "pip" ∷ "pip3" ∷ "cargo" ∷ "gem" ∷ "composer" ∷ "uv" ∷ "poetry"
        ∷ "bun" ∷ [])
    then local_package_rules c
    else if is_one_of n ("psql" ∷ "mysql" ∷ "sqlite3" ∷ "mongo" ∷ "mongosh" ∷ "redis-cli" ∷ [])
    then database_rules c
    else if is_one_of n ("curl" ∷ "wget" ∷ "http" ∷ "httpie" ∷ [])
    then http_rules c
    else if is_one_of n ("ssh" ∷ "scp" ∷ "rsync" ∷ "sftp" ∷ [])
    then ssh_rules c
    else if is_one_of n ("gh" ∷ "glab" ∷ [])
    then gh_rules c
    else later_rules c

unfoldable pub name_rules : Command → List Bump
name_rules c =
    let n = c.name in
    if is n "rm"
    then rm_rules c
    else if is_one_of n ("dd" ∷ "mkfs" ∷ "fdisk" ∷ "parted" ∷ "wipefs" ∷ "shred" ∷ [])
    then disk_rules c
    else if is_one_of n ("chmod" ∷ "chown" ∷ "chgrp" ∷ [])
    then chmod_rules c
    else if is_one_of n ("sed" ∷ "perl" ∷ []) && has_flag c b'i' "--in-place"
    then in_place_rules c
    else if is_one_of n (
        "mv" ∷ "cp" ∷ "ln" ∷ "mkdir" ∷ "touch" ∷ "tee" ∷ "truncate" ∷ "tar" ∷ "unzip" ∷ "zip"
        ∷ "gzip" ∷ "gunzip" ∷ "install" ∷ "rmdir" ∷ [])
    then file_rules c
    else if is_one_of n ("kill" ∷ "killall" ∷ "pkill" ∷ [])
    then kill_rules c
    else if is_shutdown c
    then shutdown_rules c
    else if is_one_of n ("systemctl" ∷ "service" ∷ "launchctl" ∷ [])
    then service_rules c
    else if is_one_of n ("apt" ∷ "apt-get" ∷ "yum" ∷ "dnf" ∷ "pacman" ∷ "brew" ∷ "snap" ∷ [])
    then package_rules c
    else if is_one_of n (
        "chroot" ∷ "mount" ∷ "umount" ∷ "modprobe" ∷ "insmod" ∷ "sysctl" ∷ "iptables" ∷ "nft"
        ∷ "ufw" ∷ "setenforce" ∷ "crontab" ∷ [])
    then config_rules c
    else tool_rules c

unfoldable pub sudo_rules : Command → List Bump
sudo_rules c = if c.has_sudo then says privileged "runs as root (sudo)" else []

unfoldable pub command_rules : (Text → Assessment) → Command → List Bump
command_rules sub c =
    sudo_rules c
    ++ (if is_one_of c.name ("find" ∷ "fd" ∷ "fdfind" ∷ [])
        then find_rules sub c
        else if is_one_of c.name ("xargs" ∷ "parallel" ∷ [])
        then xargs_rules sub c
        else name_rules c)

unfoldable pub classify_command : (Text → Assessment) → List Text → List Bump
classify_command sub [] = []
classify_command sub (w ∷ ws) = command_rules sub (command_of (w ∷ ws))
