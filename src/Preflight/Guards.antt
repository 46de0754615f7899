-- ===== src/Preflight/Guards.antt =====
-- `guards` of src/preflight.rs: what does not fit between a command and its environment.
use fore_ai_assisted_termina.Prelude.{
  Bool, true, false, not, ◌&&◌, ◌||◌, Option, none, some, List, [], ◌∷◌, ◌++◌, String,
  if◌then◌else◌, any,
}
use fore_ai_assisted_termina.Prelude.Text.{
  Text, codes, text_eq, is, is_one_of, is_empty, begins, ends_with, contains, holds, join,
  to_ascii_lowercase, trim,
}
use fore_ai_assisted_termina.Assist.{lines}
use fore_ai_assisted_termina.Safety.Command.{base_name}
use fore_ai_assisted_termina.Preflight.{
  info, warn, block, Finding, EnvSnapshot, Options, SimpleCmd, says, tells, Site,
}

abbrev pub first_word : List Text → Text
first_word [] = []
first_word (a ∷ _) = a

abbrev pub second_word : List Text → Option Text
second_word (_ ∷ b ∷ _) = some b
second_word _ = none

abbrev pub is_word : Option Text → String → Bool
is_word none s = false
is_word (some t) s = is t s

abbrev pub or_text : String → Option Text → Text
or_text s none = codes s
or_text s (some t) = t

abbrev pub is_missing {ℓ} : {A : Type ℓ} → Option A → Bool
is_missing none = true
is_missing (some _) = false

abbrev pub argstr : SimpleCmd → Text
argstr c = join (codes " ") c.args

abbrev pub has_word : SimpleCmd → List String → Bool
has_word c ss = any (λ a. is_one_of a ss) c.args

unfoldable pub prodish : Options → Text → Bool
prodish opts s = any (λ m. contains (to_ascii_lowercase s) m) opts.prod_markers

unfoldable pub ignores : Text → Text → Bool
ignores name file =
    any
      (λ l.
        text_eq (trim l) name
        || text_eq (trim l) (b'/' ∷ name)
        || text_eq (trim l) (name ++ b'*' ∷ [])
        || (is (trim l) "*.env" && ends_with name (codes ".env")))
      (lines file)

-- The loop over the directories from the working directory up to the root.
unfoldable pub is_gitignored : Text → List (Option Text × Bool) → Bool
is_gitignored name [] = false
is_gitignored name ((none, has_git) ∷ up) =
    let rest = is_gitignored name up in if has_git then false else rest
is_gitignored name ((some file, has_git) ∷ up) =
    let rest = is_gitignored name up in
    if ignores name file then true else if has_git then false else rest

module _ (site : Site) (env : EnvSnapshot) (opts : Options) (c : SimpleCmd) where
  abbrev sub : Text
  sub = first_word c.args

  abbrev line : Text
  line = argstr c

  unfoldable pub is_install : Bool
  is_install =
      (begins c.name "pip" && is_one_of sub ("install" ∷ "uninstall" ∷ []))
      || (begins c.name "python" && holds line "-m pip install")

  unfoldable pub python_hint : String
  python_hint =
      if site.here (codes ".venv")
      then "a .venv exists here — `source .venv/bin/activate` first"
      else if site.here (codes "uv.lock")
      then "this project uses uv — `uv add …` instead"
      else if site.here (codes "poetry.lock")
      then "this project uses poetry — `poetry add …` instead"
      else "no virtualenv active — this installs into the system Python"

  unfoldable pub python_guards : List Finding
  python_guards =
      if is_one_of c.name ("pip" ∷ "pip3" ∷ "python" ∷ "python3" ∷ [])
      then (if is_install
            && is_missing env.virtual_env
            && is_missing env.conda_env
            && not (holds line "--user")
            && not (holds line "--break-system-packages")
          then tells warn "venv" (codes "pip: " ++ codes python_hint)
          else [])
        ++ (if c.sudo && is_install
            then says block "sudo-pip"
                "sudo pip install breaks system Python packages — use a venv or pipx"
            else [])
      else []

  unfoldable pub lockfile : Option String
  lockfile =
      if site.here (codes "pnpm-lock.yaml")
      then some "pnpm"
      else if site.here (codes "yarn.lock")
      then some "yarn"
      else if site.here (codes "bun.lockb") || site.here (codes "bun.lock")
      then some "bun"
      else if site.here (codes "package-lock.json")
      then some "npm"
      else none

  unfoldable pub node_guards : List Finding
  node_guards =
      if is_one_of c.name ("npm" ∷ "yarn" ∷ "pnpm" ∷ "bun" ∷ [])
        && is_one_of sub ("install" ∷ "i" ∷ "add" ∷ "ci" ∷ [])
      then elim lockfile [
        | none ↦ []
        | some l ↦
            if is c.name l
            then []
            else tells warn "pkg-manager" (
                codes "this project uses "
                ++ (codes l
                    ++ (codes " (lockfile present) — mixing with "
                        ++ (c.name ++ codes " will create a second lockfile"))))
      ]
        ++ (if c.sudo
            then says warn "sudo-npm"
                "sudo npm install: fix npm's prefix instead (`npm config set prefix ~/.npm-global`)"
            else [])
      else []

  abbrev kube_writes : Bool
  kube_writes = is_one_of sub (
      "apply" ∷ "delete" ∷ "create" ∷ "patch" ∷ "edit" ∷ "scale" ∷ "rollout" ∷ "drain" ∷ "cordon"
      ∷ "exec" ∷ "install" ∷ "upgrade" ∷ "uninstall" ∷ "set" ∷ "label" ∷ "annotate" ∷ "replace"
      ∷ "run" ∷ [])

  unfoldable pub kube_guards : List Finding
  kube_guards =
      let ctx = or_text "" env.kube_context in
      let which =
        if prodish opts ctx
        then codes "context `" ++ (ctx ++ codes "`")
        else codes "a production namespace" in
      if is_one_of c.name ("kubectl" ∷ "k" ∷ "helm" ∷ "oc" ∷ []) && kube_writes
      then (if prodish opts ctx || prodish opts line
          then tells block "prod" (c.name ++ (codes " " ++ (sub ++ (codes " against " ++ which))))
          else if is_missing env.kube_context
          then says info "kube-ctx"
              "kube context unknown to fore (export KUBE_CONTEXT or set FORE_KUBE_CONTEXT_CMD)"
          else tells info "kube-ctx" (codes "kube context: " ++ ctx))
      else []

  unfoldable pub terraform_guards : List Finding
  terraform_guards =
      let ws = or_text "default" env.aws_profile in
      if is_one_of c.name ("terraform" ∷ "tofu" ∷ []) && is_one_of sub ("apply" ∷ "destroy" ∷ [])
      then tells (if prodish opts ws || is sub "destroy" then block else warn) "terraform" (
          c.name
          ++ (codes " "
              ++ (sub
                  ++ (codes " with AWS profile `"
                      ++ (ws
                          ++ (codes "`"
                              ++ (if holds line "-auto-approve"
                                  then codes " and NO plan review (-auto-approve)"
                                  else [])))))))
      else []

  unfoldable pub aws_guards : List Finding
  aws_guards = elim env.aws_profile [
    | none ↦ []
    | some p ↦
        if is c.name "aws"
          && prodish opts p
          && has_word c (
              "rm" ∷ "rb" ∷ "delete" ∷ "terminate-instances" ∷ "delete-stack" ∷ "delete-bucket"
              ∷ [])
        then tells block "prod" (codes "aws delete with profile `" ++ (p ++ codes "`"))
        else []
  ]

  abbrev branch : Text
  branch = or_text "" env.git_branch

  unfoldable pub is_protected_branch : Bool
  is_protected_branch = not (is_empty branch) && any (λ b. text_eq b branch) opts.protected_branches

  unfoldable pub is_force : Bool
  is_force =
      holds line "--force"
      || has_word c ("-f" ∷ [])
      || (not (holds line "--force-with-lease") && holds line "+")

  unfoldable pub push_guards : List Finding
  push_guards =
      if is_force && is_protected_branch
      then tells block "force-push" (
          codes "force-pushing `"
          ++ (branch
              ++ codes "` rewrites shared history — prefer --force-with-lease on a feature branch"))
      else if is_force
      then says warn "force-push"
          "force push: --force-with-lease is safer (fails if someone else pushed)"
      else []

  unfoldable pub is_secret_file : Text → Bool
  is_secret_file arg =
      let a = base_name arg in
      is_one_of a (".env" ∷ "id_rsa" ∷ "credentials.json" ∷ [])
      || begins a ".env."
      || ends_with a (codes ".pem")
      || ends_with a (codes ".key")

  -- The loop of `git add -A`, which stops at the first file found.
  unfoldable pub staged_by_all : List String → List Finding
  staged_by_all [] = []
  staged_by_all (f ∷ fs) =
      let rest = staged_by_all fs in
      if site.here (codes f) && not (is_gitignored (codes f) site.levels)
      then tells block "secret-file" (
          codes "`git "
          ++ (line ++ (codes "` would stage `" ++ (codes f ++ codes "` (not in .gitignore)"))))
      else rest

  unfoldable pub add_guards : List Finding
  add_guards =
      if any is_secret_file c.args
      then says block "secret-file"
          "staging a secrets file (.env / key / pem) — add it to .gitignore instead"
      else if has_word c ("-A" ∷ "--all" ∷ "." ∷ "*" ∷ [])
      then staged_by_all (".env" ∷ ".env.local" ∷ "id_rsa" ∷ "credentials.json" ∷ [])
      else []

  abbrev is_dirty : Option Bool → Bool
  is_dirty none = false
  is_dirty (some d) = d

  unfoldable pub git_guards : List Finding
  git_guards =
      if not (is c.name "git")
      then []
      else if is sub "commit" && is_protected_branch
      then tells warn "main-commit" (codes "committing directly to `" ++ (branch ++ codes "`"))
      else if is sub "push"
      then push_guards
      else if is_one_of sub ("checkout" ∷ "switch" ∷ "pull" ∷ "rebase" ∷ "merge" ∷ "stash" ∷ [])
          && is_dirty env.git_dirty
          && not (is sub "stash")
      then tells info "dirty"
          (codes "working tree has uncommitted changes (git " ++ (sub ++ codes " may conflict)"))
      else if is sub "add"
      then add_guards
      else []

  unfoldable pub system_guards : List Finding
  system_guards =
      (if is_one_of c.name ("docker" ∷ "podman" ∷ [])
          && is sub "system"
          && is_word (second_word c.args) "prune"
          && (holds line "--volumes" || holds line "-a")
        then says warn "docker-prune"
            "docker system prune -a/--volumes removes ALL unused images and volumes (databases live in volumes)"
        else [])
      ++ ((if is c.name "chmod" && has_word c ("777" ∷ [])
            then says warn "chmod777"
                "chmod 777 makes it world-writable — 755 (dirs) / 644 (files) is almost always what you want"
            else [])
          ++ (if is_one_of c.name ("curl" ∷ "wget" ∷ [])
                && not (any (λ a. begins a "https://") c.args)
                && any (λ a. begins a "http://") c.args
              then says info "http" "plain http:// — no TLS"
              else []))

  unfoldable pub guards : List Finding
  guards =
      python_guards
      ++ (node_guards
          ++ (kube_guards ++ (terraform_guards ++ (aws_guards ++ (git_guards ++ system_guards)))))
