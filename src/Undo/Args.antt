-- ===== src/Undo/Args.antt =====
-- The arguments of `rm` as `parse_rm_args` of src/undo.rs reads them.
use mathlib.Core.List.{append_assoc, append-nil}
use fore_ai_assisted_termina.Prelude.{
  ◌≡◌, refl, sym, ap, ◌∙◌, inl, inr, Bool, true, false, not, ◌&&◌, ◌||◌, Bool-cases, List, [], ◌∷◌,
  ◌++◌, arith, ◌==◌, if◌then◌else◌, any, All, String,
}
use fore_ai_assisted_termina.Prelude.Text.{Text, codes, is, is_one_of, begins, text_eq_iff}
use fore_ai_assisted_termina.Undo.{
  RmPlan, no_plan, set_letter, set_letters, behind_dash, set_flag, is_target, parse_args,
  parse_rm_args,
}

abbrev with_targets : RmPlan → List Text → RmPlan
with_targets p ts = record p { targets = p.targets ++ ts }

parse_args-true : (p : RmPlan) (args : List Text) → parse_args true p args ≡ with_targets p args
unfolding parse_args
parse_args-true p [] = ap (λ ts. record p { targets = ts }) (sym (append-nil p.targets))
parse_args-true p (a ∷ rest) =
    parse_args-true (with_targets p (a ∷ [])) rest
    ∙ ap (λ ts. record p { targets = ts }) (append_assoc p.targets (a ∷ []) rest)

dashes : (is_target (codes "--") ≡ false) × (is (codes "--") "--" ≡ true)
unfolding begins is
dashes = (refl, refl)

parse_args-dashes :
    (p : RmPlan) (before after : List Text)
    → All (λ (a : Text). is a "--" ≡ false) before
    → parse_args false p (before ++ codes "--" ∷ after)
      ≡ parse_args true (parse_args false p before) after
unfolding parse_args
parse_args-dashes p [] after h = rw (dashes.0, dashes.1) refl
parse_args-dashes p (a ∷ rest) after h = elim (Bool-cases (is_target a)) [
  | inl e ↦ rw (e, parse_args) (parse_args-dashes (with_targets p (a ∷ [])) rest after h.1)
  | inr e ↦ rw (e, h.0, parse_args) (parse_args-dashes (set_flag p a) rest after h.1)
]

-- What stands behind the first `--` is a target, whatever it looks like, and changes no flag.
pub parse_rm_args-dashes :
    (before after : List Text)
    → All (λ (a : Text). is a "--" ≡ false) before
    → parse_rm_args (before ++ codes "--" ∷ after)
      ≡ record (parse_rm_args before) { targets = (parse_rm_args before).targets ++ after }
unfolding parse_rm_args
parse_rm_args-dashes before after h =
    parse_args-dashes no_plan before after h
    ∙ parse_args-true (parse_args false no_plan before) after

-- Does an argument that is a flag ask for recursion?
unfoldable pub asks_recursive : Text → Bool
asks_recursive a =
    is a "--recursive" || (not (begins a "--") && any (λ c. c == b'r' || c == b'R') (behind_dash a))

-- The arguments before `--` that are flags.
unfoldable pub flag_args : List Text → List Text
flag_args [] = []
flag_args (a ∷ rest) =
    let more = flag_args rest in if is_target a then more else if is a "--" then [] else a ∷ more

set_letters-recursive :
    (p : RmPlan) (cs : Text)
    → (set_letters p cs).recursive ≡ (p.recursive || any (λ c. c == b'r' || c == b'R') cs)
unfolding set_letters set_letter
set_letters-recursive p [] = ground arith
set_letters-recursive p (c ∷ cs) = ground (arith, set_letters-recursive (set_letter p c) cs)

long_flag :
    (a : Text) (s : String) → begins (codes s) "--" ≡ true → is a s ≡ true → begins a "--" ≡ true
unfolding is
long_flag a s h e = ap (λ t. begins t "--") ((text_eq_iff a (codes s)).0 e) ∙ h

force_long : begins (codes "--force") "--" ≡ true
unfolding begins
force_long = refl

interactive_long : begins (codes "--interactive") "--" ≡ true
unfolding begins
interactive_long = refl

always_long : begins (codes "--interactive=always") "--" ≡ true
unfolding begins
always_long = refl

verbose_long : begins (codes "--verbose") "--" ≡ true
unfolding begins
verbose_long = refl

dir_long : begins (codes "--dir") "--" ≡ true
unfolding begins
dir_long = refl

set_flag-recursive :
    (p : RmPlan) (a : Text) → (set_flag p a).recursive ≡ (p.recursive || asks_recursive a)
unfolding set_flag asks_recursive is_one_of
set_flag-recursive p a = ground (
  arith,
  long_flag a "--force" force_long,
  long_flag a "--interactive" interactive_long,
  long_flag a "--interactive=always" always_long,
  long_flag a "--verbose" verbose_long,
  long_flag a "--dir" dir_long,
  set_letters-recursive p (behind_dash a),
)

parse_args-recursive :
    (p : RmPlan) (args : List Text)
    → (parse_args false p args).recursive ≡ (p.recursive || any asks_recursive (flag_args args))
unfolding parse_args flag_args
parse_args-recursive p [] = ground arith
parse_args-recursive p (a ∷ rest) = elim (Bool-cases (is_target a)) [
  | inl e ↦ rw (e, parse_args) (parse_args-recursive (with_targets p (a ∷ [])) rest)
  | inr e ↦ elim (Bool-cases (is a "--")) [
    | inl d ↦
        rw (e, d, parse_args)
          (ap (λ (q : RmPlan). q.recursive) (parse_args-true p rest) ∙ ground arith)
    | inr d ↦
        rw (e, d, parse_args)
          (ground (arith, set_flag-recursive p a, parse_args-recursive (set_flag p a) rest))
  ]
]

-- `rm` is recursive exactly if a flag before `--` is `--recursive` or a group of letters with `r` or `R`.
parse_rm_args-recursive :
    (args : List Text) → (parse_rm_args args).recursive ≡ any asks_recursive (flag_args args)
unfolding parse_rm_args
parse_rm_args-recursive args = parse_args-recursive no_plan args
