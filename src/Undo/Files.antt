-- ===== src/Undo/Files.antt =====
-- The file system that src/undo.rs works on: what stands at which path, in no order that matters.
-- What the operating system permits is an argument. A path is taken as it is written: a link in the
-- middle of it is not followed.
use fore_ai_assisted_termina.Prelude.{
  ℕ, zero, suc, Bool, true, false, not, ◌&&◌, ◌||◌, Option, none, some, List, [], ◌∷◌, ◌++◌,
  if◌then◌else◌, length, take, drop, pop, keep_if,
}
use fore_ai_assisted_termina.Prelude.Text.{Text, text_eq}
use fore_ai_assisted_termina.Undo.{AbsPath}

pub data FileNode : Type 0 where
  regular : (bytes : List ℕ) → FileNode
  directory : FileNode
  symlink : (target : AbsPath) → FileNode

abbrev pub Files : Type 0
Files = List (AbsPath × FileNode)

-- `crosses` says that two paths are on different file systems, and `stops_after` after how many bytes
-- the writing of a file fails, if it does.
pub record Os : Type 0 where
  pub moves : AbsPath → AbsPath → Bool
  pub makes : AbsPath → Bool
  pub writes : AbsPath → Bool
  pub removes : AbsPath → Bool
  pub crosses : AbsPath → AbsPath → Bool
  pub stops_after : AbsPath → Option ℕ
  pub sets_mode : AbsPath → Bool
  pub error : AbsPath → Text

unfoldable pub path_eq : AbsPath → AbsPath → Bool
path_eq [] [] = true
path_eq (a ∷ rest) (c ∷ cs) = text_eq a c && path_eq rest cs
path_eq _ _ = false

-- `Path::starts_with`: is `p` this path or below it?
unfoldable pub inside : AbsPath → AbsPath → Bool
inside [] p = true
inside (a ∷ rest) [] = false
inside (a ∷ rest) (c ∷ cs) = text_eq a c && inside rest cs

unfoldable pub lookup : Files → AbsPath → Option FileNode
lookup [] p = none
lookup ((q, n) ∷ fs) p = let rest = lookup fs p in if path_eq q p then some n else rest

-- `symlink_metadata`; the root is always there.
unfoldable pub stat : Files → AbsPath → Option FileNode
stat fs [] = some directory
stat fs (c ∷ cs) = lookup fs (c ∷ cs)

-- What is found behind links; more than 40 of them are an error.
unfoldable pub follow : ℕ → Files → AbsPath → Option FileNode
follow zero fs p = none
follow (suc n) fs p = elim (stat fs p) [
  | none ↦ none
  | some (regular bytes) ↦ some (regular bytes)
  | some directory ↦ some directory
  | some (symlink target) ↦ follow n fs target
]

abbrev pub is_there : Option FileNode → Bool
is_there none = false
is_there (some _) = true

abbrev pub is_directory : Option FileNode → Bool
is_directory (some directory) = true
is_directory _ = false

-- `Path::exists`
unfoldable pub exists : Files → AbsPath → Bool
exists fs p = is_there (follow 41 fs p)

unfoldable pub has_below : Files → AbsPath → Bool
has_below [] p = false
has_below ((q, _) ∷ fs) p = (inside p q && not (path_eq p q)) || has_below fs p

unfoldable pub without_below : AbsPath → Files → Files
without_below p fs = keep_if (λ e. not (inside p e.0)) fs

-- `create_dir_all`: the files, and whether it succeeded.
unfoldable pub make_dirs : Os → Files → AbsPath → List Text → Files × Bool
make_dirs os fs above [] = (fs, true)
make_dirs os fs above (c ∷ cs) =
    let p = above ++ c ∷ [] in
    if is_there (stat fs p)
    then elim (is_directory (follow 41 fs p)) [ true ↦ make_dirs os fs p cs | false ↦ (fs, false) ]
    else elim (os.makes p) [
      | true ↦ make_dirs os (fs ++ (p, directory) ∷ []) p cs
      | false ↦ (fs, false)
    ]

abbrev pub create_dir_all : Os → Files → AbsPath → Files × Bool
create_dir_all os fs p = make_dirs os fs [] p

-- The entries below `from`, now below `to`.
unfoldable pub relocated : AbsPath → AbsPath → Files → Files
relocated from to [] = []
relocated from to ((p, n) ∷ fs) =
    let rest = relocated from to fs in
    if inside from p then (to ++ drop (length from) p, n) ∷ rest else rest

-- May what stands at the new place be replaced by `n`?
unfoldable pub gives_way : FileNode → Option FileNode → Bool → Bool
gives_way n none empty = true
gives_way n (some directory) empty = is_directory (some n) && empty
gives_way n (some _) empty = not (is_directory (some n))

unfoldable pub moved : AbsPath → AbsPath → Files → Files
moved from to fs =
    keep_if (λ e. not (inside from e.0) && not (path_eq to e.0)) fs ++ relocated from to fs

-- `rename`, with `none` for an error; nothing is moved below itself.
unfoldable pub rename : Os → Files → AbsPath → AbsPath → Option Files
rename os fs from to = elim (stat fs from) [
  | none ↦ none
  | some n ↦
      if os.moves from to
        && is_directory (follow 41 fs (pop to))
        && not (inside from to)
        && gives_way n (stat fs to) (not (has_below fs to))
      then some (moved from to fs)
      else none
]

-- `remove_dir`, which wants an empty directory, and `remove_dir_all`
unfoldable pub remove_dir : Os → Files → AbsPath → Files
remove_dir os fs p =
    if os.removes p && is_directory (stat fs p) && not (has_below fs p)
    then without_below p fs
    else fs

unfoldable pub remove_dir_all : Os → Files → AbsPath → Option Files
remove_dir_all os fs p = if os.removes p then some (without_below p fs) else none

-- `remove_dir_all` and `remove_file` as they leave the files when they fail midway: what may be
-- removed is gone.
unfoldable pub remove_tree : Os → Files → AbsPath → Files × Bool
remove_tree os fs p =
    if os.removes p
    then (without_below p fs, true)
    else (keep_if (λ e. not (inside p e.0 && os.removes e.0)) fs, false)

-- Where a path leads behind links.
unfoldable pub behind_links : ℕ → Files → AbsPath → Option AbsPath
behind_links zero fs p = none
behind_links (suc n) fs p = elim (stat fs p) [
  | none ↦ some p
  | some (regular bytes) ↦ some p
  | some directory ↦ some p
  | some (symlink target) ↦ behind_links n fs target
]

unfoldable pub put_node : Files → AbsPath → FileNode → Files
put_node [] p n = (p, n) ∷ []
put_node ((q, m) ∷ fs) p n =
    let rest = (q, m) ∷ put_node fs p n in if path_eq q p then (q, n) ∷ fs else rest

-- `fs::copy` of these bytes: a file that stands there is written over.
unfoldable pub write_file : Os → Files → AbsPath → List ℕ → Files × Bool
write_file os fs to bytes = elim (behind_links 41 fs to) [
  | none ↦ (fs, false)
  | some p ↦
      if os.makes p && is_directory (follow 41 fs (pop p)) && not (is_directory (stat fs p))
      then elim (os.stops_after p) [
        | none ↦ (put_node fs p (regular bytes), true)
        | some n ↦ (put_node fs p (regular (take n bytes)), false)
      ]
      else (fs, false)
]

unfoldable pub make_link : Os → Files → AbsPath → AbsPath → Files × Bool
make_link os fs to target =
    if os.makes to && is_directory (follow 41 fs (pop to)) && not (is_there (stat fs to))
    then (fs ++ (to, symlink target) ∷ [], true)
    else (fs, false)

-- `read_dir`: the names directly below.
unfoldable pub names_in : AbsPath → Files → List Text
names_in p [] = []
names_in p ((q, _) ∷ fs) =
    let rest = names_in p fs in
    elim (drop (length p) q) [
      | [] ↦ rest
      | name ∷ more ↦ if path_eq (p ++ name ∷ []) q then name ∷ rest else rest
    ]
