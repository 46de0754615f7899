-- ===== src/Safety/Rules/Dev.antt =====
-- The rules of `classify_command` of src/safety.rs for package managers, databases, the network,
-- interpreters and build tools.
use fore_ai_assisted_termina.Prelude.{◌&&◌, ◌||◌, List, [], ◌∷◌, ◌++◌, if◌then◌else◌, any, ltb}
use fore_ai_assisted_termina.Prelude.Text.{
  Text, codes, is, is_one_of, begins, holds, utf8_len, to_ascii_uppercase,
}
use fore_ai_assisted_termina.Safety.Risk.{
  mutating, remote, privileged, destructive, Bump, says, tells,
}
use fore_ai_assisted_termina.Safety.Command.{Command, arg_str, has_arg}
use fore_ai_assisted_termina.Safety.Rules.System.{named, targets}

unfoldable pub local_package_rules : Command → List Bump
local_package_rules c =
    (if has_arg c ("publish" ∷ [])
      then tells remote (named c " publish uploads a package")
      else if has_arg c (
          "install" ∷ "i" ∷ "add" ∷ "uninstall" ∷ "remove" ∷ "rm" ∷ "update" ∷ "upgrade" ∷ "ci"
          ∷ "sync" ∷ [])
      then tells mutating (named c " changes installed packages")
      else [])
    ++ (if c.has_sudo && is_one_of c.name ("pip" ∷ "pip3" ∷ "npm" ∷ [])
        then tells privileged (codes "sudo " ++ named c " pollutes system packages")
        else [])

unfoldable pub database_rules : Command → List Bump
database_rules c =
    let up = to_ascii_uppercase (arg_str c) in
    if any (holds up) ("DROP " ∷ "TRUNCATE " ∷ "DELETE FROM" ∷ "FLUSHALL" ∷ "FLUSHDB" ∷ [])
    then tells destructive (named c " runs a destructive SQL/command")
    else if any (holds up) ("INSERT " ∷ "UPDATE " ∷ "ALTER " ∷ "CREATE " ∷ [])
    then tells mutating (named c " writes to the database")
    else []

unfoldable pub http_rules : Command → List Bump
http_rules c =
    let writes =
      has_arg c (
        "-X" ∷ "--request" ∷ "-d" ∷ "--data" ∷ "--data-raw" ∷ "--data-binary" ∷ "-F" ∷ "--form"
        ∷ "-T" ∷ "--upload-file" ∷ "--json" ∷ [])
      || any (λ a. begins a "-X" && ltb 2 (utf8_len a)) c.args in
    let post_like =
      holds (arg_str c) "POST"
      || holds (arg_str c) "PUT"
      || holds (arg_str c) "DELETE"
      || holds (arg_str c) "PATCH" in
    (if writes || post_like then tells remote (named c " sends data to a server") else [])
    ++ (if has_arg c ("-o" ∷ "-O" ∷ "--output" ∷ [])
        then tells mutating (named c " writes a downloaded file")
        else [])

unfoldable pub ssh_rules : Command → List Bump
ssh_rules c =
    if is c.name "rsync" && holds (arg_str c) "--delete"
    then says destructive "rsync --delete removes files at the destination"
    else tells remote (named c " connects to a remote host")

unfoldable pub gh_rules : Command → List Bump
gh_rules c =
    if has_arg c ("delete" ∷ "close" ∷ "merge" ∷ [])
    then tells remote (named c " changes remote GitHub state")
    else if has_arg c ("create" ∷ "edit" ∷ "comment" ∷ "release" ∷ [])
    then tells remote (named c " writes to GitHub")
    else []

unfoldable pub interpreter_rules : Command → List Bump
interpreter_rules c =
    if has_arg c ("-c" ∷ "-e" ∷ "-r" ∷ [])
    then tells mutating (named c " runs inline code (unknown effects)")
    else if is c.name "eval" || is c.name "source" || is c.name "."
    then tells mutating (named c " executes arbitrary shell code")
    else []

-- `args.find(|a| !a.starts_with('-')).unwrap_or("")`
abbrev build_target : List Text → Text
build_target [] = []
build_target (t ∷ _) = t

unfoldable pub build_rules : Command → List Bump
build_rules c =
    let target = build_target (targets c) in
    if is_one_of target
      ("test" ∷ "check" ∷ "lint" ∷ "fmt" ∷ "build" ∷ "" ∷ "help" ∷ "list" ∷ "--list" ∷ [])
    then tells mutating (c.name ++ (codes " " ++ (target ++ codes ": build tool writes artifacts")))
    else tells mutating (c.name ++ (codes " " ++ (target ++ codes " runs an arbitrary recipe")))
