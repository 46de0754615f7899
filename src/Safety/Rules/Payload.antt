-- ===== src/Safety/Rules/Payload.antt =====
-- `find -exec`, `xargs` and `parallel` in `classify_command` of src/safety.rs: the danger is in the
-- command that they run, which `sub` assesses.
use fore_ai_assisted_termina.Prelude.{
  ◌+◌, Bool, not, ◌||◌, none, some, List, [], ◌∷◌, ◌++◌, map, ltb, if◌then◌else◌, drop, all,
  skip_while, take_while, position,
}
use fore_ai_assisted_termina.Prelude.Text.{Text, codes, is, is_one_of, is_digit, join}
use fore_ai_assisted_termina.Safety.Risk.{
  Risk, read_only, destructive, rank, Assessment, Bump, tells,
}
use fore_ai_assisted_termina.Safety.Command.{Command, is_flag, has_arg}

-- Every reason of the inner command, with the outer command before it.
unfoldable pub pass_on : Risk → Text → List Text → List Bump
pass_on r before reasons = map (λ why. (r, before ++ why)) reasons

abbrev pub is_exec : Text → Bool
is_exec a =
    is_one_of a
      ("-exec" ∷ "-execdir" ∷ "-ok" ∷ "-okdir" ∷ "-x" ∷ "--exec" ∷ "-X" ∷ "--exec-batch" ∷ [])

abbrev pub ends_exec : Text → Bool
ends_exec a = is a ";" || is a "+" || is a "\\;"

unfoldable pub exec_bumps : Text → Text → Assessment → List Bump
exec_bumps name inner_line a = elim a.reasons [
  | [] ↦
      if ltb (rank read_only) (rank a.risk)
      then tells a.risk (name ++ (codes " -exec runs `" ++ (inner_line ++ codes "` per file")))
      else []
  | why ∷ whys ↦ pass_on a.risk (name ++ codes " -exec → ") (why ∷ whys)
]

unfoldable pub exec_line : List Text → Text → (Text → Assessment) → List Bump
exec_line [] name sub = []
exec_line (w ∷ ws) name sub =
    let inner_line = join (codes " ") (w ∷ ws) in exec_bumps name inner_line (sub inner_line)

unfoldable pub delete_rules : Command → List Bump
delete_rules c =
    if has_arg c ("-delete" ∷ [])
    then tells destructive (c.name ++ codes " -delete removes every matched file")
    else []

unfoldable pub find_rules : (Text → Assessment) → Command → List Bump
find_rules sub c = delete_rules c ++ elim (position is_exec c.args) [
  | none ↦ []
  | some i ↦ exec_line (take_while (λ a. not (ends_exec a)) (drop (i + 1) c.args)) c.name sub
]

unfoldable pub inner_words : Command → List Text
inner_words c = skip_while (λ a. is_flag a || all is_digit a) c.args

unfoldable pub xargs_bumps : Text → Assessment → List Bump
xargs_bumps name a = pass_on a.risk (name ++ codes " → ") a.reasons

unfoldable pub xargs_line : List Text → Text → (Text → Assessment) → List Bump
xargs_line [] name sub = []
xargs_line (w ∷ ws) name sub = xargs_bumps name (sub (join (codes " ") (w ∷ ws)))

unfoldable pub xargs_rules : (Text → Assessment) → Command → List Bump
xargs_rules sub c = xargs_line (inner_words c) c.name sub
