-- ===== src/Safety/Assess/Dangers.antt =====
-- Dangers that `assess` of src/safety.rs cannot miss: a recursive `rm`, `sudo`, and a download that
-- is piped into an interpreter.
use mathlib.Core.Path.{subst}
use fore_ai_assisted_termina.Prelude.{
  ℕ, suc, ◌≤◌, ◌≡◌, ◌≢◌, refl, ap, ◌∙◌, ◌⊎◌, sym, inl, inr, true, false, ◌||◌, Bool-cases, Option,
  some, List, [], ◌∷◌, arith, any, At, here, At-append_right,
}
use fore_ai_assisted_termina.Prelude.Text.{Text, codes, is, is_one_of, text_eq}
use fore_ai_assisted_termina.Safety.Risk.{Risk, privileged, destructive, rank, Assessment, Bump}
use fore_ai_assisted_termina.Safety.Command.{Node, kind, words_of, Command, command_of, has_flag}
use fore_ai_assisted_termina.Safety.Rules.System.{rm_rules, targets, scary_targets}
use fore_ai_assisted_termina.Safety.Classify.{
  sudo_rules, command_rules, name_rules, classify_command,
}
use fore_ai_assisted_termina.Safety.Assess.{assess}
use fore_ai_assisted_termina.Safety.Assess.Removals.{
  Removes, bare, wrapped, AsksRecursive, command_of-Removes, has_flag-AsksRecursive,
}
use fore_ai_assisted_termina.Safety.Assess.Worst.{Walked, assess-command}

abbrev Destroys : List Bump → Type 0
Destroys bs = (why : Text) × At (destructive, why) bs

rm_rules-recursive :
    (c : Command)
    → (has_flag c b'r' "--recursive" || has_flag c b'R' "--recursive") ≡ true
    → Destroys (rm_rules c)
unfolding rm_rules
rm_rules-recursive c h = elim (Bool-cases (any (λ t. is_one_of t scary_targets) (targets c))) [
  | inl e ↦ rw (e, rm_rules) (_, here)
  | inr e ↦ rw (e, h, rm_rules) (_, here)
]

rm_is :
    (is (codes "rm") "rm" ≡ true)
    × (is_one_of (codes "rm") ("find" ∷ "fd" ∷ "fdfind" ∷ []) ≡ false)
    × (is_one_of (codes "rm") ("xargs" ∷ "parallel" ∷ []) ≡ false)
unfolding is_one_of
rm_is = (refl, refl, refl)

command_rules-rm :
    (sub : Text → Assessment) (c : Command) (b : Bump)
    → c.name ≡ codes "rm"
    → At b (rm_rules c)
    → At b (command_rules sub c)
unfolding command_rules name_rules
command_rules-rm sub c b e m =
    let no_find : is_one_of c.name ("find" ∷ "fd" ∷ "fdfind" ∷ []) ≡ false =
      ap (λ x. is_one_of x ("find" ∷ "fd" ∷ "fdfind" ∷ [])) e ∙ rm_is.1 in
    let no_xargs : is_one_of c.name ("xargs" ∷ "parallel" ∷ []) ≡ false =
      ap (λ x. is_one_of x ("xargs" ∷ "parallel" ∷ [])) e ∙ rm_is.2 in
    let is_rm : is c.name "rm" ≡ true = ap (λ x. is x "rm") e ∙ rm_is.0 in
    At-append_right (sudo_rules c) _ (rw (no_find, no_xargs, is_rm) m)

command_rules-sudo :
    (sub : Text → Assessment) (c : Command)
    → c.has_sudo ≡ true
    → At (privileged, codes "runs as root (sudo)") (command_rules sub c)
unfolding command_rules sudo_rules
command_rules-sudo sub c h = rw h here

-- What `classify_command` emits is what `command_rules` emits for the command that was read.
classify-rules :
    (sub : Text → Assessment) (words : List Text) (b : Bump)
    → words ≢ []
    → At b (command_rules sub (command_of words))
    → At b (classify_command sub words)
unfolding classify_command
classify-rules sub [] b h m = absurd (h refl)
classify-rules sub (w ∷ ws) b h m = m

destructive-max : (r : Risk) → rank destructive ≤ rank r → r ≡ destructive
destructive-max r h = ground arith

some_words : (w : Text) (ws : List Text) → w ∷ ws ≢ []
some_words w ws e = cc e

Removes-some : (args ws : List Text) → Removes args ws → ws ≢ []
Removes-some args _ (bare w m) = some_words w args
Removes-some args _ (wrapped w ws m r) = some_words w ws

-- The first word makes the command run as root.
abbrev pub RunsAsRoot : Text → Type 0
RunsAsRoot w = (w ≡ codes "sudo") ⊎ (w ≡ codes "doas")

RunsAsRoot-has_sudo :
    (w : Text) (ws : List Text) → RunsAsRoot w → (command_of (w ∷ ws)).has_sudo ≡ true
unfolding command_of is text_eq
RunsAsRoot-has_sudo w ws (inl e) = rw e refl
RunsAsRoot-has_sudo w ws (inr e) = rw e refl

module _ (parse : Text → Option Node) (depth : ℕ) (line : Text) (root n : Node)
    (parsed : parse line ≡ some root) (walked : Walked n root)
    (is_command : kind n ≡ codes "command") where
  -- Words that run `rm`, behind any number of `sudo`, `doas`, `time`, `nohup`, `nice`, `env`,
  -- `command`, `builtin`, `exec`, `caffeinate`, `stdbuf`, `unbuffer` and `hyperfine`, with
  -- `--recursive` or a short flag with an `r` or `R` among the arguments, wherever the walk meets
  -- them in a parsed line, make the verdict `destructive`.
  pub assess-rm_recursive :
      (args : List Text) (a : Text)
      → Removes args (words_of n)
      → At a args
      → AsksRecursive a
      → (assess parse (suc depth) line).risk ≡ destructive
  assess-rm_recursive args a r m h =
      let (name, has_args) = command_of-Removes args (words_of n) r in
      let c = command_of (words_of n) in
      let asked = has_flag-AsksRecursive c a (subst (At a) (sym has_args) m) h in
      let (why, b) = rm_rules-recursive c asked in
      destructive-max _
        (assess-command parse depth line root parsed n (destructive, why) walked is_command
          (classify-rules _ _ _ (Removes-some args (words_of n) r)
            (command_rules-rm _ _ _ name b))).0

  -- A command whose first word is `sudo` or `doas`, wherever the walk meets it in a parsed line, makes
  -- the verdict at least `privileged`, and says so.
  pub assess-sudo :
      (w : Text) (ws : List Text)
      → words_of n ≡ w ∷ ws
      → RunsAsRoot w
      → (rank privileged ≤ rank (assess parse (suc depth) line).risk)
        × At (codes "runs as root (sudo)") (assess parse (suc depth) line).reasons
  assess-sudo w ws e h =
      let has : (command_of (words_of n)).has_sudo ≡ true = rw e (RunsAsRoot-has_sudo w ws h) in
      let some : words_of n ≢ [] = rw e (some_words w ws) in
      assess-command parse depth line root parsed n (privileged, codes "runs as root (sudo)") walked
        is_command (classify-rules _ _ _ some (command_rules-sudo _ (command_of (words_of n)) has))
