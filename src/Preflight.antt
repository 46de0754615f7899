-- ===== src/Preflight.antt =====
-- src/preflight.rs: what is checked between Enter and the run of a command. `Preflight` has the data
-- and the texts of numbers. What the disk and git answer is the argument `Site`; a rounded quotient,
-- `{:.1}` of two numbers, is the argument `show`.
pub mod Commands
pub mod Guards
pub mod Previews
pub mod GitPreviews
pub mod Insights
pub mod Glob
pub mod Run
pub mod Sorted
pub mod Blocks
pub mod Tests
use fore_ai_assisted_termina.Prelude.{
  ℕ, zero, suc, ◌+◌, ◌-◌, ◌*◌, ◌/◌, ◌%◌, ◌^◌, Bool, true, false, not, ◌&&◌, ◌||◌, Option, none,
  some, List, [], ◌∷◌, ◌++◌, String, ltb, leb, ◌==◌, if◌then◌else◌, length, any,
}
use fore_ai_assisted_termina.Prelude.Text.{Text, codes}
use fore_ai_assisted_termina.Prelude.Text.Decimal.{decimal}
use fore_ai_assisted_termina.Safety.Risk.{Risk}

pub data Severity : Type 0 where
  info : Severity
  warn : Severity
  block : Severity

-- The order of `derive(Ord)`.
abbrev pub level : Severity → ℕ
level info = 0
level warn = 1
level block = 2

abbrev pub is_block : Severity → Bool
is_block block = true
is_block _ = false

pub record Finding : Type 0 where
  pub severity : Severity
  pub text : Text
  pub check : Text

pub record EnvSnapshot : Type 0 where
  pub virtual_env : Option Text
  pub conda_env : Option Text
  pub kube_context : Option Text
  pub aws_profile : Option Text
  pub git_branch : Option Text
  pub git_dirty : Option Bool
  pub ignored : Option Text

pub record Options : Type 0 where
  pub protected_branches : List Text
  pub prod_markers : List Text
  pub block_files : ℕ
  pub block_bytes : ℕ
  pub safe_rm : Bool

pub record Preflight : Type 0 where
  pub findings : List Finding
  pub risk : Risk

unfoldable pub blocks : Preflight → Bool
blocks p = any (λ (f : Finding). is_block f.severity) p.findings

pub record SimpleCmd : Type 0 where
  pub name : Text
  pub args : List Text
  pub sudo : Bool

abbrev pub says : Severity → String → String → List Finding
says s check text = record { severity = s; text = codes text; check = codes check } ∷ []

abbrev pub tells : Severity → String → Text → List Finding
tells s check text = record { severity = s; text = text; check = codes check } ∷ []

-- `(entries, bytes, truncated)` of a walk
abbrev pub Walk : Type 0
Walk = ℕ × ℕ × Bool

-- What the disk and git say about the working directory and about paths that are resolved in it:
-- `.exists()`; for each directory from the working directory up, its `.gitignore` and whether it has
-- a `.git`; `symlink_metadata` as whether it is a directory and its length; `metadata`'s length; the
-- walks; whether a `.git` is below; what `git status` and `git branch --merged` print.
pub record Site : Type 0 where
  pub here : Text → Bool
  pub levels : List (Option Text × Bool)
  pub stat : Text → Option (Bool × ℕ)
  pub size : Text → Option ℕ
  pub walk : Text → Walk
  pub walk_glob : Text → Walk
  pub walk_glob_recursive : Text → Text → Walk
  pub has_git : Text → Bool
  pub git_status : Text
  pub git_merged : Option Text

module _ (show : ℕ → ℕ → Text) where
  abbrev unit : ℕ → Text
  unit zero = codes "B"
  unit (suc zero) = codes "KB"
  unit (suc (suc zero)) = codes "MB"
  unit (suc (suc (suc zero))) = codes "GB"
  unit (suc (suc (suc (suc _)))) = codes "TB"

  -- The loop of `fmt_bytes`, `rounds` of which are left.
  unfoldable pub scale : ℕ → ℕ → ℕ → ℕ
  scale zero i b = i
  scale (suc rounds) i b =
      let more = scale rounds (suc i) b in if leb (1024 ^ suc i) b then more else i

  unfoldable pub fmt_bytes : ℕ → Text
  fmt_bytes b =
      let i = scale 4 0 b in
      if i == 0 then decimal b ++ codes " B" else show b (1024 ^ i) ++ (codes " " ++ unit i)

  abbrev two_digits : ℕ → Text
  two_digits n = if ltb n 10 then b'0' ∷ decimal n else decimal n

  unfoldable pub fmt_dur : ℕ → Text
  fmt_dur ms =
      if ltb ms 1000
      then decimal ms ++ codes "ms"
      else if ltb ms 60000
      then show ms 1000 ++ codes "s"
      else decimal (ms / 60000) ++ (codes "m " ++ (two_digits ((ms % 60000) / 1000) ++ codes "s"))

-- `i` is the place of the first character left, `len` the length of the whole.
unfoldable pub group : ℕ → ℕ → Text → Text
group len i [] = []
group len i (c ∷ cs) =
    let rest = group len (suc i) cs in
    if ltb 0 i && (len - i) % 3 == 0 then b',' ∷ c ∷ rest else c ∷ rest

unfoldable pub fmt_n : ℕ → Text
fmt_n n = let s = decimal n in group (length s) 0 s
