-- ===== src/Preflight/GitPreviews.antt =====
-- `preview_git` and `previews` of src/preflight.rs.
use fore_ai_assisted_termina.Prelude.{
  ℕ, ◌+◌, Bool, true, false, not, ◌&&◌, ◌||◌, Option, none, some, List, [], ◌∷◌, ◌++◌, ltb,
  if◌then◌else◌,
}
use fore_ai_assisted_termina.Prelude.Text.{Text, codes, is, is_one_of, contains_char, holds}
use fore_ai_assisted_termina.Prelude.Text.Decimal.{decimal}
use fore_ai_assisted_termina.Safety.Command.{is_flag}
use fore_ai_assisted_termina.Preflight.{
  info, warn, block, Finding, Options, SimpleCmd, says, tells, Site,
}
use fore_ai_assisted_termina.Preflight.Guards.{first_word, second_word, is_word, argstr, has_word}
use fore_ai_assisted_termina.Preflight.Previews.{
  plain_args, git_status_counts, git_branch_merged, preview_rm, preview_find_delete, preview_rsync,
  preview_truncate,
}

module _ (site : Site) (c : SimpleCmd) where
  abbrev sub : Text
  sub = first_word c.args

  unfoldable pub reset_preview : List Finding
  reset_preview =
      let (staged, unstaged, untracked) = git_status_counts site.git_status in
      if ltb 0 (staged + unstaged)
      then tells block "preview" (
          codes "git reset --hard discards "
          ++ (decimal staged
              ++ (codes " staged + "
                  ++ (decimal unstaged
                      ++ (codes " unstaged changed files (untracked "
                          ++ (decimal untracked ++ codes " kept)"))))))
      else says info "preview" "git reset --hard: working tree is clean, nothing to lose"

  unfoldable pub clean_preview : List Finding
  clean_preview =
      let (_, _, untracked) = git_status_counts site.git_status in
      tells (if ltb 0 untracked then block else info) "preview" (
        codes "git clean will delete "
        ++ (decimal untracked
            ++ (codes " untracked files"
                ++ (if contains_char (argstr c) b'x'
                    then codes " + all ignored files (node_modules, .env, build dirs…)"
                    else []))))

  unfoldable pub discard_preview : List Finding
  discard_preview =
      let (staged, unstaged, _) = git_status_counts site.git_status in
      if ltb 0 (unstaged + staged)
      then tells block "preview" (
          codes "git "
          ++ (sub ++ (codes " discards " ++ (decimal unstaged ++ codes " unstaged changed files"))))
      else []

  -- `c.args.iter().find(|a| !a.starts_with('-') && a != "branch")`
  unfoldable pub branch_word : List Text → Option Text
  branch_word [] = none
  branch_word (a ∷ rest) =
      let later = branch_word rest in
      if not (is_flag a) && not (is a "branch") then some a else later

  abbrev is_unmerged : Option Bool → Bool
  is_unmerged (some false) = true
  is_unmerged _ = false

  unfoldable pub branch_preview : List Finding
  branch_preview = elim (branch_word c.args) [
    | none ↦ []
    | some b ↦
        if is_unmerged (git_branch_merged site.git_merged b)
        then tells block "preview" (
            codes "branch `"
            ++ (b
                ++ codes "` is NOT merged — its commits will only survive in reflog for ~30 days"))
        else []
  ]

  unfoldable pub preview_git : List Finding
  preview_git =
      if is sub "reset" && holds (argstr c) "--hard"
      then reset_preview
      else if is sub "clean" && contains_char (argstr c) b'f'
      then clean_preview
      else if is_one_of sub ("checkout" ∷ "restore" ∷ [])
          && has_word c ("--" ∷ "." ∷ [])
          && not (holds (argstr c) "--staged")
      then discard_preview
      else if is sub "stash"
          && (is_word (second_word c.args) "drop" || is_word (second_word c.args) "clear")
      then says warn "preview" "stash entries are not in reflog by name — `git stash list` first"
      else if is sub "branch" && has_word c ("-D" ∷ [])
      then branch_preview
      else []

unfoldable pub previews : (ℕ → ℕ → Text) → Site → Options → SimpleCmd → List Finding
previews show site opts c =
    if is c.name "rm"
    then preview_rm show site opts c
    else if is c.name "git"
    then preview_git site c
    else if is c.name "find" && has_word c ("-delete" ∷ [])
    then preview_find_delete show site opts c
    else if is c.name "rsync" && has_word c ("--delete" ∷ [])
    then preview_rsync show site opts c
    else if is_one_of c.name ("truncate" ∷ "shred" ∷ [])
    then preview_truncate show site opts c (plain_args c)
    else []
