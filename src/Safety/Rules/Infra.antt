-- ===== src/Safety/Rules/Infra.antt =====
-- The rules of `classify_command` of src/safety.rs for containers, clusters and clouds.
use fore_ai_assisted_termina.Prelude.{String, not, ◌&&◌, ◌||◌, List, [], ◌∷◌, ◌++◌, if◌then◌else◌}
use fore_ai_assisted_termina.Prelude.Text.{Text, codes, is, is_one_of, holds}
use fore_ai_assisted_termina.Safety.Risk.{
  mutating, remote, privileged, destructive, Bump, says, tells,
}
use fore_ai_assisted_termina.Safety.Command.{Command, arg_str, first_arg, second_arg, has_arg}
use fore_ai_assisted_termina.Safety.Rules.System.{named}

-- `format!("{name} {sub}…")`
abbrev with_sub : Command → String → Text
with_sub c s = c.name ++ (codes " " ++ (first_arg c ++ codes s))

unfoldable pub docker_rules : Command → List Bump
docker_rules c =
    let sub = first_arg c in
    if is sub "system" && is (second_arg c) "prune"
    then says destructive "docker system prune deletes images/containers/volumes"
    else if is_one_of sub ("rm" ∷ "rmi" ∷ "volume" ∷ "prune" ∷ "network" ∷ [])
        && (holds (arg_str c) "rm" || holds (arg_str c) "prune")
    then tells destructive (with_sub c " deletes container state")
    else if is_one_of sub (
        "run" ∷ "exec" ∷ "build" ∷ "start" ∷ "stop" ∷ "restart" ∷ "kill" ∷ "up" ∷ "down" ∷ "compose"
        ∷ "pull" ∷ "push" ∷ "tag" ∷ "cp" ∷ "create" ∷ "compose up" ∷ [])
    then tells (if is_one_of sub ("push" ∷ "pull" ∷ []) then remote else mutating) (with_sub c "")
    else []

unfoldable pub kubectl_sub_rules : Command → List Bump
kubectl_sub_rules c =
    if is_one_of (first_arg c) ("delete" ∷ "uninstall" ∷ [])
    then tells destructive (with_sub c " removes cluster resources")
    else if is_one_of (first_arg c) (
        "apply" ∷ "create" ∷ "patch" ∷ "edit" ∷ "scale" ∷ "rollout" ∷ "install" ∷ "upgrade" ∷ "set"
        ∷ "label" ∷ "annotate" ∷ "drain" ∷ "cordon" ∷ "taint" ∷ "exec" ∷ "port-forward" ∷ "run"
        ∷ [])
    then tells remote (with_sub c " changes the cluster")
    else []

unfoldable pub kubectl_rules : Command → List Bump
kubectl_rules c =
    kubectl_sub_rules c
    ++ (if holds (arg_str c) "prod"
          && not (
              is_one_of (first_arg c) (
                "get" ∷ "describe" ∷ "logs" ∷ "top" ∷ "explain" ∷ "version" ∷ "config"
                ∷ "api-resources" ∷ "status" ∷ "list" ∷ "history" ∷ []))
        then says privileged "writes to a production context"
        else [])

unfoldable pub terraform_rules : Command → List Bump
terraform_rules c =
    if is (first_arg c) "destroy"
    then tells destructive (named c " destroy tears down infrastructure")
    else if is_one_of (first_arg c) ("apply" ∷ "import" ∷ "taint" ∷ "up" ∷ [])
    then (if holds (arg_str c) "-auto-approve" || holds (arg_str c) "--yes"
        then tells destructive (with_sub c " with auto-approve — no review step")
        else tells remote (with_sub c " changes infrastructure"))
    else []

unfoldable pub cloud_rules : Command → List Bump
cloud_rules c =
    (if has_arg c (
        "rm" ∷ "rb" ∷ "delete" ∷ "terminate-instances" ∷ "delete-bucket" ∷ "delete-stack"
        ∷ "delete-db-instance" ∷ [])
      then tells destructive (named c " deletes cloud resources")
      else if has_arg c (
          "cp" ∷ "sync" ∷ "mv" ∷ "put-object" ∷ "create" ∷ "run-instances" ∷ "deploy" ∷ "update"
          ∷ [])
      then tells remote (named c " changes cloud resources")
      else [])
    ++ (if holds (arg_str c) "--recursive" && holds (arg_str c) " rm"
        then says destructive "recursive cloud delete"
        else [])
