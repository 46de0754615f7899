-- ===== src/Undo.antt =====
-- The planning half of src/undo.rs: the arguments of `rm`, the paths they name, and what of them may be
-- moved to the trash. A path is absolute, the list of its components; the disk and the home are arguments.
pub mod Args
pub mod Plans
pub mod Files
pub mod Trash
pub mod Tests
use fore_ai_assisted_termina.Prelude.{
  ℕ, zero, suc, ◌+◌, ◌%◌, ◌^◌, Bool, true, false, not, ◌&&◌, ◌||◌, Option, none, some, List, [],
  ◌∷◌, ◌++◌, ltb, ◌==◌, if◌then◌else◌, keep_if, pop, any, String,
}
use fore_ai_assisted_termina.Prelude.Text.{
  Text, codes, text_eq, is, is_one_of, begins, split, concat,
}

pub record RmPlan : Type 0 where
  pub recursive : Bool
  pub force : Bool
  pub targets : List Text
  pub interactive : Bool
  pub verbose : Bool
  pub dir_only : Bool

abbrev pub no_plan : RmPlan
no_plan = record {
  recursive = false;
  force = false;
  targets = [];
  interactive = false;
  verbose = false;
  dir_only = false;
}

-- One letter of a group such as `-rf`.
unfoldable pub set_letter : RmPlan → ℕ → RmPlan
set_letter p c =
    if c == b'r' || c == b'R'
    then record p { recursive = true }
    else if c == b'f'
    then record p { force = true }
    else if c == b'i' || c == b'I'
    then record p { interactive = true }
    else if c == b'v'
    then record p { verbose = true }
    else if c == b'd'
    then record p { dir_only = true }
    else p

unfoldable pub set_letters : RmPlan → Text → RmPlan
set_letters p [] = p
set_letters p (c ∷ cs) = set_letters (set_letter p c) cs

-- `a[1..]`
abbrev pub behind_dash : Text → Text
behind_dash [] = []
behind_dash (_ ∷ cs) = cs

unfoldable pub set_flag : RmPlan → Text → RmPlan
set_flag p a =
    if is a "--recursive"
    then record p { recursive = true }
    else if is a "--force"
    then record p { force = true }
    else if is_one_of a ("--interactive" ∷ "--interactive=always" ∷ [])
    then record p { interactive = true }
    else if is a "--verbose"
    then record p { verbose = true }
    else if is a "--dir"
    then record p { dir_only = true }
    else if begins a "--"
    then p
    else set_letters p (behind_dash a)

abbrev pub is_target : Text → Bool
is_target a = not (begins a "-") || is a "-"

-- The loop of `parse_rm_args`; `no_more_flags` holds behind `--`.
unfoldable pub parse_args : Bool → RmPlan → List Text → RmPlan
parse_args no_more_flags p [] = p
parse_args no_more_flags p (a ∷ rest) =
    let as_target = parse_args no_more_flags (record p { targets = p.targets ++ a ∷ [] }) rest in
    let all_targets = parse_args true p rest in
    let as_flag = parse_args no_more_flags (set_flag p a) rest in
    if no_more_flags || is_target a then as_target else if is a "--" then all_targets else as_flag

unfoldable pub parse_rm_args : List Text → RmPlan
parse_rm_args args = parse_args false no_plan args

-- A path as the components below the root.
abbrev pub AbsPath : Type 0
AbsPath = List Text

-- `Path::components`, without the root, empty ones and `.`
abbrev pub components : Text → List Text
components t = keep_if (λ c. not (is_one_of c ("" ∷ "." ∷ []))) (split b'/' t)

-- `cwd.join(t)`, which is `t` if it is absolute
abbrev pub join_path : AbsPath → Text → List Text
join_path cwd t = if begins t "/" then components t else cwd ++ components t

unfoldable pub normalize_onto : AbsPath → List Text → AbsPath
normalize_onto out [] = out
normalize_onto out (c ∷ cs) =
    let up = normalize_onto (pop out) cs in
    let down = normalize_onto (out ++ c ∷ []) cs in if is c ".." then up else down

unfoldable pub normalize : List Text → AbsPath
normalize p = normalize_onto [] p

abbrev pub show_path : AbsPath → Text
show_path [] = codes "/"
show_path (c ∷ []) = b'/' ∷ c
show_path (c ∷ d ∷ ds) = b'/' ∷ (c ++ show_path (d ∷ ds))

unfoldable pub is_protected : Text → AbsPath → Bool
is_protected home from =
    let s = show_path from in
    text_eq s home || is_one_of s ("/" ∷ "/home" ∷ "/usr" ∷ "/etc" ∷ "/var" ∷ [])

-- What the disk answers: `symlink_metadata`, whether `read_dir` yields nothing, and `measure`.
pub record Meta : Type 0 where
  pub is_directory : Bool
  pub is_symlink : Bool

pub record Disk : Type 0 where
  pub stat : AbsPath → Option Meta
  pub is_empty_dir : AbsPath → Bool
  pub files_in : AbsPath → ℕ
  pub bytes_in : AbsPath → ℕ

pub record Prepared : Type 0 where
  pub from : AbsPath
  pub is_dir : Bool
  pub files : ℕ
  pub bytes : ℕ

pub record Checked : Type 0 where
  pub prepared : List Prepared
  pub messages : List Text
  pub exit_code : ℕ
  pub total_bytes : ℕ

-- A protected target ends the loop at once.
pub data Validation : Type 0 where
  refused : (message : Text) → Validation
  checked : Checked → Validation

abbrev pub nothing_checked : Checked
nothing_checked = record { prepared = []; messages = []; exit_code = 0; total_bytes = 0 }

abbrev pub complain : Checked → Text → String → Checked
complain acc t why = record acc {
  messages = acc.messages ++ (codes "rm: cannot remove '" ++ (t ++ codes why)) ∷ [];
  exit_code = 1;
}

module _ (home : Text) (disk : Disk) (cwd : AbsPath) (plan : RmPlan) where
  -- May a thing on the disk be removed with these flags?
  unfoldable pub may_remove : AbsPath → Bool → Bool
  may_remove from is_dir = not is_dir || plan.recursive || (plan.dir_only && disk.is_empty_dir from)

  unfoldable pub check_found : Checked → Text → AbsPath → Meta → Checked
  check_found acc t from m =
      let is_dir = m.is_directory && not m.is_symlink in
      let found : Prepared = record {
        from = from;
        is_dir = is_dir;
        files = disk.files_in from;
        bytes = disk.bytes_in from;
      } in
      if may_remove from is_dir
      then record acc {
        prepared = acc.prepared ++ found ∷ [];
        total_bytes = (acc.total_bytes + disk.bytes_in from) % 2 ^ 64;
      }
      else complain acc t "': Is a directory"

  unfoldable pub check_target : Checked → Text → AbsPath → Checked
  check_target acc t from = elim (disk.stat from) [
    | none ↦ if plan.force then acc else complain acc t "': No such file or directory"
    | some m ↦ check_found acc t from m
  ]

  -- The loop over the targets.
  unfoldable pub validate : Checked → List Text → Validation
  validate acc [] = checked acc
  validate acc (t ∷ ts) =
      let from = normalize (join_path cwd t) in
      let rest = validate (check_target acc t from) ts in
      if is_protected home from
      then refused (codes "rm: refusing to remove `" ++ (t ++ codes "` (protected path)"))
      else rest
