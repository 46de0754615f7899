-- ===== src/Undo/Trash.antt =====
-- The second half of `safe_rm` of src/undo.rs, which moves what was prepared into the trash and writes
-- the journal; Restore has what comes after it. The operation's id and the clock are arguments.
pub mod Restore
pub mod Moves
pub mod Lookup
pub mod Free
pub mod Rounds
pub mod Safe
pub mod Undone
pub mod Back
pub mod Journals
pub mod Tests
pub mod Across
use fore_ai_assisted_termina.Prelude.{
  ◌⊎◌, inl, inr, ℕ, zero, suc, ◌+◌, ◌-◌, ◌*◌, ◌/◌, ◌%◌, ◌^◌, Bool, true, false, not, ◌&&◌, ◌||◌,
  Option, none, some, List, [], ◌∷◌, ◌++◌, ltb, leb, ◌==◌, if◌then◌else◌, pop, length, keep_if,
}
use fore_ai_assisted_termina.Prelude.Text.{
  Text, codes, text_eq, is_empty, starts_with, join, utf8_len,
}
use fore_ai_assisted_termina.Prelude.Text.Decimal.{decimal}
use fore_ai_assisted_termina.Undo.{
  RmPlan, AbsPath, show_path, Meta, Disk, Prepared, Checked, Validation, refused, checked,
  nothing_checked, validate,
}
use fore_ai_assisted_termina.Undo.Files.{
  FileNode, regular, directory, symlink, Files, Os, path_eq, inside, stat, exists, has_below,
  is_directory, create_dir_all, rename, remove_dir, remove_dir_all, remove_tree, write_file,
  make_link, names_in,
}

pub record Entry : Type 0 where
  pub from : AbsPath
  pub to : AbsPath
  pub is_dir : Bool
  pub bytes : ℕ
  pub files : ℕ

pub record Journal : Type 0 where
  pub id : Text
  pub ts_ms : ℕ
  pub cwd : Text
  pub cmdline : Text
  pub entries : List Entry
  pub total_bytes : ℕ
  pub total_files : ℕ
  pub restored : Bool

-- The files, and the journals of the directories below the trash that have one.
pub record World : Type 0 where
  pub files : Files
  pub journals : List Journal

pub record RmOutcome : Type 0 where
  pub journal : Option Journal
  pub messages : List Text
  pub exit_code : ℕ

-- `m.len()`; a directory's own size is never asked for.
abbrev pub size_of : FileNode → ℕ
size_of (regular bytes) = length bytes
size_of directory = 0
size_of (symlink target) = utf8_len (show_path target)

-- The walk of `measure`: every file below a directory.
unfoldable pub measure_below : AbsPath → Files → ℕ × ℕ
measure_below p [] = (0, 0)
measure_below p ((q, n) ∷ fs) =
    let (count, bytes) = measure_below p fs in
    if inside p q && not (path_eq p q) && not (is_directory (some n))
    then (suc count, size_of n + bytes)
    else (count, bytes)

unfoldable pub measure : Files → AbsPath → ℕ × ℕ
measure fs p = elim (stat fs p) [
  | none ↦ (0, 0)
  | some directory ↦ measure_below p fs
  | some n ↦ (1, size_of n)
]

abbrev pub meta_of : Option FileNode → Option Meta
meta_of none = none
meta_of (some (regular _)) = some (record { is_directory = false; is_symlink = false })
meta_of (some directory) = some (record { is_directory = true; is_symlink = false })
meta_of (some (symlink _)) = some (record { is_directory = false; is_symlink = true })

-- What the first half of `safe_rm` asks of the files.
unfoldable pub disk_of : Files → Disk
disk_of fs = record {
  stat = λ p. meta_of (stat fs p);
  is_empty_dir = λ p. is_directory (stat fs p) && not (has_below fs p);
  files_in = λ p. (measure fs p).0;
  bytes_in = λ p. (measure fs p).1;
}

-- The loop of `copy_recursive` over a directory, with `copy` for what it does to one entry.
unfoldable pub copy_each :
    (Files → AbsPath → AbsPath → Files × Bool)
    → AbsPath
    → AbsPath
    → List Text
    → Files
    → Files × Bool
copy_each copy from to [] fs = (fs, true)
copy_each copy from to (name ∷ names) fs =
    let (out, ok) = copy fs (from ++ name ∷ []) (to ++ name ∷ []) in
    let rest = copy_each copy from to names out in if ok then rest else (out, false)

-- The files, and whether it succeeded; each level of the tree takes one round.
unfoldable pub copy_recursive : ℕ → Os → Files → AbsPath → AbsPath → Files × Bool
copy_recursive zero os fs from to = (fs, false)
copy_recursive (suc levels) os fs from to =
    let (made, ok) = create_dir_all os fs to in
    let (out, all) =
      copy_each (λ out f t. copy_recursive levels os out f t) from to (names_in from made) made in
    elim (stat fs from) [
      | none ↦ (fs, false)
      | some (symlink target) ↦ make_link os fs to target
      | some (regular bytes) ↦ write_file os fs to bytes
      | some directory ↦ if ok then (out, all && os.sets_mode to) else (made, false)
    ]

-- `remove_dir_all` of a directory and `remove_file` of anything else
abbrev pub remove_node : Os → Files → AbsPath → Option FileNode → Files × Bool
remove_node os fs p none = (fs, false)
remove_node os fs p (some _) = remove_tree os fs p

-- The fallback of `move_path` for another file system.
unfoldable pub move_across : Os → Files → AbsPath → AbsPath → Files × Bool
move_across os fs from to =
    let (copied, ok) = copy_recursive (suc (length fs)) os fs from to in
    if ok then remove_node os copied from (stat copied from) else (copied, false)

-- The files where it failed, on the left, or succeeded.
abbrev pub outcome : Files × Bool → Files ⊎ Files
outcome (fs, ok) = if ok then inr fs else inl fs

unfoldable pub move_path : Os → Files → AbsPath → AbsPath → Files ⊎ Files
move_path os fs from to =
    let renamed : Files ⊎ Files = elim (rename os fs from to) [
      | none ↦ inl fs
      | some out ↦ inr out
    ] in
    if os.crosses from to then outcome (move_across os fs from to) else renamed

-- `file_name` with what stands in for a missing one
abbrev pub last_or : Text → AbsPath → Text
last_or name [] = name
last_or name (c ∷ []) = c
last_or name (c ∷ d ∷ ds) = last_or name (d ∷ ds)

-- The variables of the loop that moves.
pub record Trashing : Type 0 where
  pub files : Files
  pub entries : List Entry
  pub messages : List Text
  pub exit_code : ℕ
  pub tf : ℕ
  pub tb : ℕ

abbrev pub slot_of : AbsPath → ℕ → AbsPath
slot_of op_dir i = op_dir ++ decimal i ∷ []

unfoldable pub trash_one : Os → AbsPath → Bool → ℕ → Prepared → Trashing → Trashing
trash_one os op_dir verbose i p s =
    let slot = slot_of op_dir i in
    let made = (create_dir_all os s.files slot).0 in
    let to = slot ++ last_or (codes "item") p.from ∷ [] in
    elim (move_path os made p.from to) [
      | inr fs ↦ record {
        files = fs;
        entries =
            s.entries
            ++ record {
              from = p.from;
              to = to;
              is_dir = p.is_dir;
              bytes = p.bytes;
              files = p.files;
            }
              ∷ [];
        messages =
            if verbose
            then s.messages ++ (codes "removed '" ++ (show_path p.from ++ codes "'")) ∷ []
            else s.messages;
        exit_code = s.exit_code;
        tf = s.tf + p.files;
        tb = (s.tb + p.bytes) % 2 ^ 64;
      }
      | inl fs ↦ record s {
        files = fs;
        messages =
            s.messages
            ++ (codes "rm: cannot remove '"
                ++ (show_path p.from ++ (codes "': " ++ os.error p.from)))
              ∷ [];
        exit_code = 1;
      }
    ]

-- The loop over what was prepared; `i` is its number.
unfoldable pub trash_all : Os → AbsPath → Bool → ℕ → List Prepared → Trashing → Trashing
trash_all os op_dir verbose i [] s = s
trash_all os op_dir verbose i (p ∷ ps) s =
    trash_all os op_dir verbose (suc i) ps (trash_one os op_dir verbose i p s)

-- A journal is written into its operation's directory, over the one that is there.
unfoldable pub put_journal : Journal → List Journal → List Journal
put_journal j [] = j ∷ []
put_journal j (k ∷ ks) =
    let later = k ∷ put_journal j ks in if text_eq k.id j.id then j ∷ ks else later

-- `safe_rm` behind the check of the targets.
module _ (os : Os) (trash cwd : AbsPath) (cmdline : Text) (plan : RmPlan) (id : Text)
    (now : ℕ) where
  unfoldable pub journal_of : Trashing → Journal
  journal_of s = record {
    id = id;
    ts_ms = now;
    cwd = show_path cwd;
    cmdline = cmdline;
    entries = s.entries;
    total_bytes = s.tb;
    total_files = s.tf;
    restored = false;
  }

  unfoldable pub close : World → AbsPath → Trashing → World × RmOutcome
  close w op_dir s =
      let j = journal_of s in
      let lost =
        codes "fore: journal write failed ("
        ++ (os.error op_dir ++ (codes "); files are in " ++ show_path op_dir)) in
      elim s.entries [
        | [] ↦ (
          record w {
            files = elim (remove_dir_all os s.files op_dir) [ none ↦ s.files | some fs ↦ fs ];
          },
          record { journal = none; messages = s.messages; exit_code = s.exit_code },
        )
        | _ ∷ _ ↦
            if os.writes op_dir
            then (
              record { files = s.files; journals = put_journal j w.journals },
              record { journal = some j; messages = s.messages; exit_code = s.exit_code },
            )
            else (
              record w { files = s.files },
              record {
                journal = some j;
                messages = s.messages ++ lost ∷ [];
                exit_code = s.exit_code;
              },
            )
      ]

  unfoldable pub trash_checked : World → Checked → World × RmOutcome
  trash_checked w c =
      let op_dir = trash ++ id ∷ [] in
      let (fs, made) = create_dir_all os w.files op_dir in
      let start : Trashing = record {
        files = fs;
        entries = [];
        messages = c.messages;
        exit_code = c.exit_code;
        tf = 0;
        tb = 0;
      } in
      let done = close w op_dir (trash_all os op_dir plan.verbose 0 c.prepared start) in
      let unmade =
        codes "fore: cannot create trash dir "
        ++ (show_path op_dir ++ (codes ": " ++ os.error op_dir)) in
      if made then done else (
        record w { files = fs },
        record { journal = none; messages = unmade ∷ []; exit_code = 1 },
      )

  abbrev pub refuse : World → List Text → ℕ → World × RmOutcome
  refuse w messages code = (w, record { journal = none; messages = messages; exit_code = code })

  -- What follows the loop over the targets; `fmt_bytes` is the one of src/preflight.rs.
  unfoldable pub rm_prepared : (ℕ → Text) → ℕ → World → Checked → List Prepared → World × RmOutcome
  rm_prepared fmt_bytes max_bytes w c [] = refuse w c.messages c.exit_code
  rm_prepared fmt_bytes max_bytes w c (_ ∷ _) =
      let too_big =
        codes "fore: "
        ++ (fmt_bytes c.total_bytes
            ++ (codes " exceeds undo.max_bytes ("
                ++ (fmt_bytes max_bytes ++ codes "); use `command rm` to delete for real"))) in
      if ltb max_bytes c.total_bytes
      then refuse w (c.messages ++ too_big ∷ []) 3
      else trash_checked w c

  unfoldable pub rm_validated : (ℕ → Text) → ℕ → World → Validation → World × RmOutcome
  rm_validated fmt_bytes max_bytes w (refused why) = refuse w (why ∷ []) 1
  rm_validated fmt_bytes max_bytes w (checked c) = rm_prepared fmt_bytes max_bytes w c c.prepared

  unfoldable pub safe_rm : Text → (ℕ → Text) → ℕ → World → World × RmOutcome
  safe_rm home fmt_bytes max_bytes w = elim plan.targets [
    | [] ↦ refuse w (codes "rm: missing operand" ∷ []) 1
    | _ ∷ _ ↦
        rm_validated fmt_bytes max_bytes w
          (validate home (disk_of w.files) cwd plan nothing_checked plan.targets)
  ]
