-- ===== src/Safety/Rules/System.antt =====
-- The rules of `classify_command` of src/safety.rs for files, processes, services and packages of
-- the system.
use fore_ai_assisted_termina.Prelude.{
  String, Bool, not, ◌&&◌, ◌||◌, List, [], ◌∷◌, ◌++◌, if◌then◌else◌, any, keep_if,
}
use fore_ai_assisted_termina.Prelude.Text.{Text, codes, is, is_one_of, join}
use fore_ai_assisted_termina.Safety.Risk.{mutating, privileged, destructive, Bump, says, tells}
use fore_ai_assisted_termina.Safety.Command.{Command, is_flag, has_flag, has_arg}

-- `format!("{name} …")`
abbrev pub named : Command → String → Text
named c s = c.name ++ codes s

abbrev pub targets : Command → List Text
targets c = keep_if (λ a. not (is_flag a)) c.args

abbrev pub scary_targets : List String
scary_targets =
    "/" ∷ "/*" ∷ "~" ∷ "~/" ∷ "*" ∷ "." ∷ ".." ∷ "$HOME" ∷ "/usr" ∷ "/etc" ∷ "/var" ∷ "/home" ∷ []

unfoldable pub rm_rules : Command → List Bump
rm_rules c =
    let recursive = has_flag c b'r' "--recursive" || has_flag c b'R' "--recursive" in
    let force = has_flag c b'f' "--force" in
    if any (λ t. is_one_of t scary_targets) (targets c)
    then tells destructive (codes "rm targets `" ++ (join (codes " ") (targets c) ++ codes "`"))
    else if recursive
    then says destructive
        (if force then "rm -rf: recursive, forced, no trash" else "rm -r: recursive delete")
    else says mutating "deletes files (not recursive)"

unfoldable pub disk_rules : Command → List Bump
disk_rules c = tells destructive (named c " writes raw disk/partition data")

unfoldable pub chmod_rules : Command → List Bump
chmod_rules c =
    if has_flag c b'R' "--recursive" && has_arg c ("/" ∷ "/*" ∷ "777" ∷ "-R" ∷ [])
    then tells destructive (named c " -R on a broad target")
    else tells mutating (named c " changes permissions/ownership")

unfoldable pub in_place_rules : Command → List Bump
in_place_rules c = tells mutating (named c " -i edits files in place")

unfoldable pub file_rules : Command → List Bump
file_rules c = tells mutating (named c " changes files")

unfoldable pub kill_rules : Command → List Bump
kill_rules c =
    if has_arg c ("-9" ∷ "-KILL" ∷ "1" ∷ [])
    then says privileged "force-kills processes"
    else says mutating "signals processes"

-- The guard of the `shutdown` arm: for `systemctl` an argument decides.
unfoldable pub is_shutdown : Command → Bool
is_shutdown c =
    is_one_of c.name ("shutdown" ∷ "reboot" ∷ "halt" ∷ "poweroff" ∷ "init" ∷ "systemctl" ∷ [])
    && (not (is c.name "systemctl")
        || has_arg c ("stop" ∷ "restart" ∷ "disable" ∷ "mask" ∷ "poweroff" ∷ "reboot" ∷ []))

unfoldable pub shutdown_rules : Command → List Bump
shutdown_rules c = tells privileged (named c " changes system/service state")

unfoldable pub service_rules : Command → List Bump
service_rules c =
    if not (has_arg c ("status" ∷ "list-units" ∷ "is-active" ∷ "show" ∷ "cat" ∷ []))
    then tells privileged (named c " changes service state")
    else []

unfoldable pub package_rules : Command → List Bump
package_rules c =
    if has_arg c (
      "install" ∷ "remove" ∷ "purge" ∷ "upgrade" ∷ "autoremove" ∷ "uninstall" ∷ "-S" ∷ "-R" ∷ "-Rns"
      ∷ "-Syu" ∷ [])
    then tells privileged (named c " installs/removes system packages")
    else []

unfoldable pub config_rules : Command → List Bump
config_rules c = tells privileged (named c " changes system configuration")

unfoldable pub account_rules : Command → List Bump
account_rules c = tells privileged (named c " changes accounts/security settings")
