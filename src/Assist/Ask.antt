-- ===== src/Assist/Ask.antt =====
-- `fix` and `nl` of src/assist.rs: what is asked of the model, and what is made of its reply. The model
-- is the interface `Llm`; what `{:?}` prints for a text, and the shell parser, are arguments.
use fore_ai_assisted_termina.Prelude.{
  ℕ, suc, Bool, false, ◌||◌, Option, none, some, List, [], ◌∷◌, ◌++◌, String, ◌⊎◌, inl, inr,
  if◌then◌else◌, take, ℤ, pos, negsuc,
}
use fore_ai_assisted_termina.Prelude.Text.{Text, codes, is, concat}
use fore_ai_assisted_termina.Prelude.Text.Decimal.{decimal}
use fore_ai_assisted_termina.Redact.Redactor.{Redactor, Redacted, wrap}
use fore_ai_assisted_termina.Safety.Risk.{Assessment}
use fore_ai_assisted_termina.Safety.Command.{Node}
use fore_ai_assisted_termina.Safety.Assess.{assess}
use fore_ai_assisted_termina.Store.{HistoryEntry}
use fore_ai_assisted_termina.Assist.{parse_two, last_lines}

pub record Proposal : Type 0 where
  pub cmd : Text
  pub note : Text
  pub risk : Assessment
  pub model : Text
  pub cached : Bool

pub record Context : Type 0 where
  pub cwd : Text
  pub git_branch : Option Text
  pub os : Text
  pub shell : Text
  pub project_kind : Text
  pub recent : List HistoryEntry

-- The client of src/llm.rs: it takes `Redacted` texts and no others, and answers with a text or an
-- error, `inl`.
pub record Llm : Type 0 where
  pub complete : Redacted → Redacted → ℕ → Text ⊎ Text
  pub model : Text

abbrev pub system_fix : Text
system_fix =
    codes
      "You are a shell expert embedded in a terminal. The user ran a command that failed.\nReply in EXACTLY this format, nothing else:\n\nWHY: <one sentence: the actual cause>\nFIX: <one shell command that fixes or correctly retries it; no prose, no backticks>\n\nRules: prefer the smallest change. Never invent flags. If a package is missing, use the\npackage manager evident from the context. If no single command can fix it, put the most\nuseful diagnostic command in FIX."

abbrev pub system_nl : Text
system_nl =
    codes
      "You translate natural-language requests into a single shell command for the user's shell.\nReply in EXACTLY this format, nothing else:\n\nCMD: <the command; no prose, no backticks>\nNOTE: <at most 12 words: anything non-obvious the user should know, or '-'>\n\nRules: prefer portable POSIX/GNU tools already visible in the context. Never use\ndestructive flags unless the request clearly asks for deletion. Quote paths."

abbrev pub show_ℤ : ℤ → Text
show_ℤ (pos n) = decimal n
show_ℤ (negsuc n) = b'-' ∷ decimal (suc n)

abbrev pub show_code : Option ℤ → Text
show_code none = codes "?"
show_code (some c) = show_ℤ c

unfoldable pub render_recent : List HistoryEntry → Text
render_recent [] = []
render_recent (e ∷ es) =
    concat (codes "  [" ∷ show_code e.exit_code ∷ codes "] " ∷ e.cmd ∷ codes "\n" ∷ [])
    ++ render_recent es

abbrev pub render_branch : Option Text → Text
render_branch none = []
render_branch (some b) = concat (codes "git branch: " ∷ b ∷ codes "\n" ∷ [])

abbrev pub render_history : ℕ → List HistoryEntry → Text
render_history n [] = []
render_history n (e ∷ es) =
    codes "recent commands (newest first, exit code in brackets):\n"
    ++ render_recent (take n (e ∷ es))

unfoldable pub render : Context → ℕ → Text
render c n_recent = concat (
    codes "os: "
    ∷ c.os
    ∷ codes "\nshell: "
    ∷ c.shell
    ∷ codes "\ncwd: "
    ∷ c.cwd
    ∷ codes "\n"
    ∷ render_branch c.git_branch
    ∷ codes "project: "
    ∷ c.project_kind
    ∷ codes "\n"
    ∷ render_history n_recent c.recent
    ∷ [])

-- With what is in the directory.
unfoldable pub detect_project : (String → Bool) → String
detect_project has =
    if has "Cargo.toml"
    then "rust (cargo)"
    else if has "package.json"
    then (if has "pnpm-lock.yaml"
        then "node (pnpm)"
        else if has "yarn.lock"
        then "node (yarn)"
        else if has "bun.lockb"
        then "node (bun)"
        else "node (npm)")
    else if has "pyproject.toml" || has "requirements.txt" || has "setup.py"
    then (if has "uv.lock"
        then "python (uv)"
        else if has "poetry.lock"
        then "python (poetry)"
        else "python (pip)")
    else if has "go.mod"
    then "go"
    else if has "Gemfile"
    then "ruby (bundler)"
    else if has "pom.xml"
    then "java (maven)"
    else if has "build.gradle" || has "build.gradle.kts"
    then "java/kotlin (gradle)"
    else if has "Makefile"
    then "make"
    else if has "docker-compose.yml" || has "compose.yaml"
    then "docker compose"
    else if has ".git"
    then "git repo"
    else "unknown"

unfoldable pub fix_request : Context → Text → ℤ → Text → Text
fix_request c failed_cmd code stderr_tail = concat (
    render c 10
    ∷ codes "\nfailed command: "
    ∷ failed_cmd
    ∷ codes "\nexit code: "
    ∷ show_ℤ code
    ∷ codes "\nstderr (last lines):\n"
    ∷ last_lines stderr_tail 25
    ∷ codes "\n"
    ∷ [])

unfoldable pub nl_request : Context → Text → Text
nl_request c request = concat (render c 8 ∷ codes "\nrequest: " ∷ request ∷ codes "\n" ∷ [])

module _ (debug : Text → Text) (parse : Text → Option Node) (depth : ℕ) where
  module _ (model : Text) where
    unfoldable pub propose : Text → Text → Proposal
    propose cmd note = record {
      cmd = cmd;
      note = note;
      risk = assess parse depth cmd;
      model = model;
      cached = false;
    }

    abbrev pub unparseable : Text → Text
    unparseable raw = codes "unparseable model reply: " ++ debug raw

    -- From the reply on.
    unfoldable pub read_fix : Text ⊎ Text → Text ⊎ Proposal
    read_fix (inl e) = inl e
    read_fix (inr raw) = elim (parse_two raw (codes "WHY:") (codes "FIX:")) [
      | none ↦ inl (unparseable raw)
      | some (why, cmd) ↦ inr (propose cmd why)
    ]

    unfoldable pub read_nl : Text ⊎ Text → Text ⊎ Proposal
    read_nl (inl e) = inl e
    read_nl (inr raw) = elim (parse_two raw (codes "CMD:") (codes "NOTE:")) [
      | none ↦ inl (unparseable raw)
      | some (cmd, note) ↦ inr (propose cmd (if is note "-" then [] else note))
    ]

  unfoldable pub fix : Llm → Redactor → Context → Text → ℤ → Text → Text ⊎ Proposal
  fix llm r c failed_cmd code stderr_tail =
      read_fix llm.model
        (llm.complete (wrap r system_fix) (wrap r (fix_request c failed_cmd code stderr_tail)) 200)

  unfoldable pub nl : Llm → Redactor → Context → Text → Text ⊎ Proposal
  nl llm r c request =
      read_nl llm.model (llm.complete (wrap r system_nl) (wrap r (nl_request c request)) 160)
