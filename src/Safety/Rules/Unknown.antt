-- ===== src/Safety/Rules/Unknown.antt =====
-- The allowlists of src/safety.rs, and the last arm of `classify_command`, for every other name.
use fore_ai_assisted_termina.Prelude.{
  String, Bool, true, not, ◌&&◌, ◌||◌, List, [], ◌∷◌, ◌++◌, if◌then◌else◌, any,
}
use fore_ai_assisted_termina.Prelude.Text.{is_empty, Text, codes, is, is_one_of, begins}
use fore_ai_assisted_termina.Safety.Risk.{mutating, remote, destructive, Bump, tells}
use fore_ai_assisted_termina.Safety.Command.{Command, arg_str, flags}
use fore_ai_assisted_termina.Safety.Rules.System.{named}

abbrev read_only_commands : List String
read_only_commands =
    "ls" ∷ "cat" ∷ "less" ∷ "more" ∷ "head" ∷ "tail" ∷ "grep" ∷ "rg" ∷ "find" ∷ "fd" ∷ "pwd"
    ∷ "echo" ∷ "printf" ∷ "which" ∷ "whereis" ∷ "type" ∷ "file" ∷ "stat" ∷ "du" ∷ "df" ∷ "wc"
    ∷ "sort" ∷ "uniq" ∷ "cut" ∷ "awk" ∷ "sed" ∷ "tr" ∷ "diff" ∷ "cmp" ∷ "man" ∷ "help" ∷ "env"
    ∷ "printenv" ∷ "date" ∷ "cal" ∷ "uptime" ∷ "whoami" ∷ "id" ∷ "hostname" ∷ "uname" ∷ "ps" ∷ "top"
    ∷ "htop" ∷ "jq" ∷ "yq" ∷ "bat" ∷ "tree" ∷ "exa" ∷ "eza" ∷ "lsof" ∷ "netstat" ∷ "ss" ∷ "ping"
    ∷ "dig" ∷ "nslookup" ∷ "history" ∷ "true" ∷ "false" ∷ "test" ∷ "sleep" ∷ "cd" ∷ "pushd" ∷ "popd"
    ∷ "dirs" ∷ "basename" ∷ "dirname" ∷ "realpath" ∷ "readlink" ∷ "md5sum" ∷ "sha256sum" ∷ "xxd"
    ∷ "hexdump" ∷ "strings" ∷ "nproc" ∷ "free" ∷ "arch" ∷ []

-- Subcommands of well-known tools that only read.
abbrev read_only_subs : List (String × List String)
read_only_subs =
    (
      "git",
      "status" ∷ "log" ∷ "diff" ∷ "show" ∷ "branch" ∷ "blame" ∷ "remote" ∷ "stash list" ∷ "ls-files"
          ∷ "rev-parse" ∷ "describe" ∷ "tag" ∷ "reflog" ∷ "grep" ∷ "fetch" ∷ [],
    )
    ∷ (
      "cargo",
      "check" ∷ "build" ∷ "test" ∷ "bench" ∷ "doc" ∷ "clippy" ∷ "fmt" ∷ "tree" ∷ "metadata" ∷ "run"
          ∷ [],
    )
    ∷ ("npm", "test" ∷ "run" ∷ "ls" ∷ "list" ∷ "view" ∷ "outdated" ∷ "audit" ∷ "start" ∷ [])
    ∷ ("pnpm", "test" ∷ "run" ∷ "ls" ∷ "list" ∷ "outdated" ∷ "start" ∷ [])
    ∷ ("yarn", "test" ∷ "run" ∷ "list" ∷ "outdated" ∷ "start" ∷ [])
    ∷ (
      "docker",
      "ps" ∷ "images" ∷ "logs" ∷ "inspect" ∷ "stats" ∷ "top" ∷ "version" ∷ "info" ∷ "port" ∷ "diff"
          ∷ [],
    )
    ∷ (
      "kubectl",
      "get" ∷ "describe" ∷ "logs" ∷ "top" ∷ "explain" ∷ "version" ∷ "config" ∷ "api-resources" ∷ [],
    )
    ∷ ("terraform", "plan" ∷ "show" ∷ "output" ∷ "validate" ∷ "fmt" ∷ "state list" ∷ [])
    ∷ ("aws", "sts" ∷ "s3 ls" ∷ [])
    ∷ (
      "gh",
      "pr view" ∷ "pr list" ∷ "pr status" ∷ "issue list" ∷ "issue view" ∷ "repo view" ∷ "run list"
          ∷ "run view" ∷ [],
    )
    ∷ ("pip", "list" ∷ "show" ∷ "freeze" ∷ "check" ∷ [])
    ∷ ("python", [])
    ∷ ("python3", [])
    ∷ ("node", [])
    ∷ ("go", "build" ∷ "test" ∷ "vet" ∷ "fmt" ∷ "run" ∷ [])
    ∷ ("systemctl", "status" ∷ "list-units" ∷ "is-active" ∷ "show" ∷ [])
    ∷ ("brew", "list" ∷ "info" ∷ "search" ∷ "outdated" ∷ [])
    ∷ ("apt", "list" ∷ "search" ∷ "show" ∷ [])
    ∷ ("apt-get", [])
    ∷ []

abbrev remote_commands : List String
remote_commands =
    "ssh" ∷ "scp" ∷ "rsync" ∷ "sftp" ∷ "ftp" ∷ "telnet" ∷ "nc" ∷ "ncat" ∷ "wget" ∷ "curl" ∷ []

abbrev destructive_commands : List String
destructive_commands =
    "mkfs" ∷ "mkfs.ext4" ∷ "mkfs.xfs" ∷ "fdisk" ∷ "parted" ∷ "wipefs" ∷ "shred" ∷ "dd" ∷ []

abbrev some_begins : Text → List String → Bool
some_begins t [] = true
some_begins t ss = any (begins t) ss

unfoldable pub known_read_only : Command → Bool
known_read_only c =
    is_one_of c.name read_only_commands
    || any (λ (n, subs). is c.name n && some_begins (arg_str c) subs) read_only_subs

abbrev has_flag_among : Command → List String → Bool
has_flag_among c ss = any (λ f. is_one_of f ss) (flags c)

unfoldable pub unknown_rules : Command → List Bump
unknown_rules c =
    if not (known_read_only c) && not (is_empty c.name)
    then (if has_flag_among c ("--delete" ∷ "--purge" ∷ "--hard" ∷ "--no-preserve-root" ∷ [])
        then tells destructive (named c " with a delete/purge flag")
        else if is_one_of c.name remote_commands
        then tells remote (named c " uses the network")
        else if is_one_of c.name destructive_commands
        then tells destructive (named c " is inherently destructive")
        else if has_flag_among c ("--force" ∷ "-f" ∷ [])
        then tells mutating (codes "`" ++ named c "` with a force flag (unknown tool)")
        else tells mutating (codes "`" ++ named c "` is not in the read-only allowlist"))
    else []
