-- ===== src/Safety/Rules/Git.antt =====
-- The rules of `classify_command` of src/safety.rs for `git`.
use fore_ai_assisted_termina.Prelude.{
  String, not, ◌&&◌, ◌||◌, List, [], ◌∷◌, ◌++◌, if◌then◌else◌, any,
}
use fore_ai_assisted_termina.Prelude.Text.{Text, codes, is, is_one_of, begins, holds}
use fore_ai_assisted_termina.Safety.Risk.{mutating, remote, destructive, Bump, says, tells}
use fore_ai_assisted_termina.Safety.Command.{
  Command, arg_str, first_arg, second_arg, has_flag, has_arg,
}

unfoldable pub push_rules : Command → List Bump
push_rules c =
    if holds (arg_str c) "--force"
      || holds (arg_str c) " -f"
      || has_arg c ("-f" ∷ [])
      || holds (arg_str c) "+"
    then says destructive "git push --force rewrites remote history"
    else if holds (arg_str c) "--delete" || any (λ a. begins a ":") c.args
    then says destructive "git push deletes a remote branch"
    else says remote "git push publishes commits"

abbrev sub_says : Command → String → Text
sub_says c s = codes "git " ++ (first_arg c ++ codes s)

-- The arms from `rebase` on, which no guarded arm above took.
unfoldable pub git_other_rules : Command → List Bump
git_other_rules c =
    let sub = first_arg c in
    if is_one_of sub ("rebase" ∷ "commit" ∷ []) && (holds (arg_str c) "--amend" || is sub "rebase")
    then tells mutating (sub_says c " rewrites local history")
    else if is_one_of sub (
        "add" ∷ "commit" ∷ "stash" ∷ "merge" ∷ "cherry-pick" ∷ "switch" ∷ "checkout" ∷ "tag"
        ∷ "init" ∷ "apply" ∷ "rm" ∷ "mv" ∷ "worktree" ∷ [])
    then tells mutating (sub_says c " changes the repo")
    else if is_one_of sub ("pull" ∷ "clone" ∷ "fetch" ∷ "remote" ∷ "submodule" ∷ [])
    then tells remote (sub_says c " talks to a remote")
    else []

unfoldable pub git_rules : Command → List Bump
git_rules c =
    let sub = first_arg c in
    if is sub "push"
    then push_rules c
    else if is sub "reset" && holds (arg_str c) "--hard"
    then says destructive "git reset --hard discards uncommitted work"
    else if is sub "clean" && has_flag c b'f' "--force"
    then says destructive "git clean -f deletes untracked files"
    else if is sub "checkout" && has_arg c ("--" ∷ "." ∷ [])
    then says destructive "git checkout -- discards local changes"
    else if is sub "restore" && not (holds (arg_str c) "--staged")
    then says destructive "git restore discards local changes"
    else if is sub "branch" && (has_flag c b'D' "--delete" || holds (arg_str c) "--delete --force")
    then says destructive "git branch -D force-deletes a branch"
    else if is sub "stash" && is_one_of (second_arg c) ("drop" ∷ "clear" ∷ [])
    then says destructive "git stash drop/clear loses stashed work"
    else git_other_rules c
