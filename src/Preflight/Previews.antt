-- ===== src/Preflight/Previews.antt =====
-- `previews` of src/preflight.rs: what a destructive command will touch.
use fore_ai_assisted_termina.Prelude.{
  ℕ, suc, ◌+◌, ◌%◌, ◌^◌, Bool, true, false, not, ◌&&◌, ◌||◌, Option, none, some, List, [], ◌∷◌,
  ◌++◌, ltb, leb, ◌==◌, if◌then◌else◌, any, length, skip_while, keep_if, map, reverse, position,
  get_elem?,
}
use fore_ai_assisted_termina.Prelude.Text.{
  Text, codes, text_eq, is_one_of, begins, contains_char, join, concat, trim,
}
use fore_ai_assisted_termina.Assist.{lines}
use fore_ai_assisted_termina.Safety.Command.{is_flag}
use fore_ai_assisted_termina.Preflight.{
  info, warn, block, Finding, Options, SimpleCmd, tells, Walk, Site, fmt_bytes, fmt_n,
}
use fore_ai_assisted_termina.Preflight.Guards.{has_word}

abbrev pub plain_args : SimpleCmd → List Text
plain_args c = keep_if (λ a. not (is_flag a)) c.args

-- The variables of the loop of `preview_rm`.
pub record Tally : Type 0 where
  pub total_files : ℕ
  pub total_bytes : ℕ
  pub missing : List Text
  pub truncated : Bool
  pub git_tracked : Bool
  pub details : List Text

abbrev pub no_tally : Tally
no_tally = record {
  total_files = 0;
  total_bytes = 0;
  missing = [];
  truncated = false;
  git_tracked = false;
  details = [];
}

unfoldable pub rm_flags : SimpleCmd → Text
rm_flags c =
    concat
      (map (skip_while (λ x. x == b'-')) (keep_if (λ a. is_flag a && not (begins a "--")) c.args))

unfoldable pub is_recursive : SimpleCmd → Bool
is_recursive c =
    contains_char (rm_flags c) b'r'
    || contains_char (rm_flags c) b'R'
    || has_word c ("--recursive" ∷ [])

unfoldable pub is_glob : Text → Bool
is_glob t = contains_char t b'*' || contains_char t b'?'

-- Directories that a build makes.
unfoldable pub is_build_dir : Text → Bool
is_build_dir t =
    is_one_of t (
      "node_modules" ∷ "target" ∷ "dist" ∷ "build" ∷ ".venv" ∷ "__pycache__" ∷ ".next" ∷ "out" ∷ [])

unfoldable pub is_inside_repo : List (Option Text × Bool) → Bool
is_inside_repo levels = any (λ l. l.1) levels

abbrev pub plural : List Text → Bool
plural (_ ∷ _ ∷ _) = true
plural _ = false

abbrev pub is_none_left : List Text → Bool
is_none_left [] = true
is_none_left (_ ∷ _) = false

-- The three counts of `git_status_counts`.
unfoldable pub count_line : Text → ℕ × ℕ × ℕ → ℕ × ℕ × ℕ
count_line (x ∷ y ∷ _) (st, un, ut) =
    if x == b'?' && y == b'?'
    then (st, un, suc ut)
    else ((if x == b' ' then st else suc st), (if y == b' ' then un else suc un), ut)
count_line _ counts = counts

unfoldable pub count_lines : List Text → ℕ × ℕ × ℕ → ℕ × ℕ × ℕ
count_lines [] counts = counts
count_lines (l ∷ ls) counts = count_lines ls (count_line l counts)

unfoldable pub git_status_counts : Text → ℕ × ℕ × ℕ
git_status_counts s = count_lines (lines s) (0, 0, 0)

-- `trim_start_matches("* ")`
unfoldable pub strip_stars : Text → Text
strip_stars (x ∷ y ∷ rest) =
    let more = strip_stars rest in if x == b'*' && y == b' ' then more else x ∷ y ∷ rest
strip_stars t = t

unfoldable pub git_branch_merged : Option Text → Text → Option Bool
git_branch_merged none name = none
git_branch_merged (some s) name = some (any (λ l. text_eq (strip_stars (trim l)) name) (lines s))

module _ (show : ℕ → ℕ → Text) (site : Site) (opts : Options) (c : SimpleCmd) where
  abbrev add_walk : Tally → Walk → Tally
  add_walk s (n, b, tr) = record s {
    total_files = s.total_files + n;
    total_bytes = (s.total_bytes + b) % 2 ^ 64;
    truncated = s.truncated || tr;
  }

  abbrev add_detail : Tally → Text → Tally
  add_detail s t = record s { details = s.details ++ t ∷ [] }

  -- A target on the disk: whether it is a directory, and its length.
  unfoldable pub tally_found : Text → Bool → ℕ → Tally → Tally
  tally_found t false len s = record s {
    total_files = s.total_files + 1;
    total_bytes = (s.total_bytes + len) % 2 ^ 64;
  }
  tally_found t true len s =
      let (n, b, tr) = site.walk t in
      let walked = add_walk s (n, b, tr) in
      if not (is_recursive c)
      then add_detail s (t ++ codes "/ is a directory (rm without -r will refuse)")
      else add_detail (record walked { git_tracked = walked.git_tracked || site.has_git t })
          (t ++ (codes "/: " ++ (fmt_n n ++ (codes " files, " ++ fmt_bytes show b))))

  unfoldable pub tally_target : Text → Tally → Tally
  tally_target t s =
      let (n, b, tr) = site.walk_glob t in
      if is_glob t
      then add_detail (add_walk s (n, b, tr)) (t ++ (codes ": " ++ (fmt_n n ++ codes " files")))
      else elim (site.stat t) [
        | none ↦ record s { missing = s.missing ++ t ∷ [] }
        | some (is_dir, len) ↦ tally_found t is_dir len s
      ]

  unfoldable pub tally_all : List Text → Tally → Tally
  tally_all [] s = s
  tally_all (t ∷ ts) s = tally_all ts (tally_target t s)

  -- What `preview_rm` says of the tally.
  unfoldable pub rm_finding : List Text → Tally → List Finding
  rm_finding targets s =
      let git_tracked =
        s.git_tracked || (is_inside_repo site.levels && any (λ t. not (is_build_dir t)) targets) in
      let size =
        codes "rm will delete "
        ++ ((if s.truncated then codes "≥" else [])
            ++ (fmt_n s.total_files
                ++ (codes " files (" ++ (fmt_bytes show s.total_bytes ++ codes ")")))) in
      let more = if plural s.details then codes " — " ++ join (codes ", ") s.details else [] in
      let absent =
        if is_none_left s.missing
        then []
        else codes "; not found: " ++ join (codes ", ") s.missing in
      let text = size ++ (more ++ absent) in
      let big = leb opts.block_files s.total_files || leb opts.block_bytes s.total_bytes in
      let in_repo =
        if git_tracked
        then codes "; inside a git repo (untracked files are NOT recoverable)"
        else [] in
      if s.total_files == 0 && length s.missing == length targets
      then tells info "preview"
          (codes "rm: nothing matches (" ++ (join (codes ", ") s.missing ++ codes " not found)"))
      else if opts.safe_rm
      then tells (if big then warn else info) "preview"
          (text ++ codes " → trash (`fore undo` restores)")
      else tells (if big || git_tracked then block else warn) "preview" (text ++ in_repo)

  unfoldable pub preview_rm : List Finding
  preview_rm =
      let targets = plain_args c in
      if is_none_left targets then [] else rm_finding targets (tally_all targets no_tally)

  abbrev find_start : List Text → Text
  find_start [] = codes "."
  find_start (a ∷ _) = if is_flag a then codes "." else a

  -- The word behind `-name`.
  abbrev find_name : Option Text
  find_name = elim (position (λ a. is_one_of a ("-name" ∷ "-iname" ∷ [])) c.args) [
    | none ↦ none
    | some i ↦ get_elem? c.args (i + 1)
  ]

  abbrev matching : Option Text → Text
  matching none = []
  matching (some p) = codes " matching " ++ p

  unfoldable pub preview_find_delete : List Finding
  preview_find_delete =
      let walked : Walk = elim find_name [
        | none ↦ site.walk (find_start c.args)
        | some pat ↦ site.walk_glob_recursive (find_start c.args) pat
      ] in
      let (n, b, tr) = walked in
      tells (if leb 50 n then block else warn) "preview" (
        codes "find -delete will remove "
        ++ ((if tr then codes "≥" else [])
            ++ (fmt_n n
                ++ (codes " entries ("
                    ++ (fmt_bytes show b ++ (codes ")" ++ matching find_name))))))

  -- The last argument that is no flag.
  abbrev destination : List Text → Option Text
  destination args = elim (reverse (keep_if (λ a. not (is_flag a)) args)) [
    | [] ↦ none
    | d ∷ _ ↦ some d
  ]

  unfoldable pub preview_rsync : List Finding
  preview_rsync = elim (destination c.args) [
    | none ↦ []
    | some dst ↦
        let (n, b, _) = site.walk dst in
        if ltb 0 n
        then tells warn "preview" (
            codes "rsync --delete: destination `"
            ++ (dst
                ++ (codes "` currently holds "
                    ++ (fmt_n n
                        ++ (codes " files ("
                            ++ (fmt_bytes show b
                                ++ codes "); anything not in the source is removed"))))))
        else []
  ]

  unfoldable pub preview_truncate : List Text → List Finding
  preview_truncate [] = []
  preview_truncate (a ∷ rest) =
      let more = preview_truncate rest in
      elim (site.size a) [
        | none ↦ more
        | some len ↦
            tells block "preview" (
              c.name
              ++ (codes " `"
                  ++ (a ++ (codes "` (" ++ (fmt_bytes show len ++ codes ") — irreversible")))))
            ++ more
      ]
