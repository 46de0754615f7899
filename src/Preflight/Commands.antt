-- ===== src/Preflight/Commands.antt =====
-- `split_commands` of src/preflight.rs: the simple commands of a line, behind their wrappers. The syntax
-- tree, the kinds of words and the lists of wrappers are those of `Safety.Command`.
use fore_ai_assisted_termina.Prelude.{
  ℕ, zero, suc, Bool, false, not, ◌&&◌, ◌||◌, Option, none, some, List, [], ◌∷◌, ◌++◌,
  if◌then◌else◌, length,
}
use fore_ai_assisted_termina.Prelude.Text.{Text, is, is_one_of, contains_char}
use fore_ai_assisted_termina.Safety.Command.{
  Node, node, Nodes, nil, cons, words_of, base_name, is_wrapper, takes_value, is_flag,
  skip_duration,
}
use fore_ai_assisted_termina.Preflight.{SimpleCmd}

abbrev pub is_option : Text → Bool
is_option w = is_flag w || (contains_char w b'=' && not (is_flag w))

-- The inner `while`: flags, those that take a value with it, and assignments.
unfoldable pub skip_options : List Text → List Text
skip_options [] = []
skip_options (w ∷ []) = if is_option w then [] else w ∷ []
skip_options (w ∷ v ∷ ws) =
    let behind_value = skip_options ws in
    let behind = skip_options (v ∷ ws) in
    if is_option w then (if takes_value w then behind_value else behind) else w ∷ v ∷ ws

abbrev pub is_sudo : Text → Bool
is_sudo w = is_one_of w ("sudo" ∷ "doas" ∷ [])

-- The outer `while`, with a round for each word.
unfoldable pub unwrap : ℕ → Bool → List Text → Option SimpleCmd
unwrap zero sudo words = none
unwrap (suc fuel) sudo [] = none
unwrap (suc fuel) sudo (w ∷ ws) =
    let inner =
      unwrap fuel (sudo || is_sudo (base_name w)) (skip_options (skip_duration (base_name w) ws)) in
    if is_wrapper (base_name w)
    then inner
    else some (record { name = base_name w; args = ws; sudo = sudo })

abbrev pub as_list {ℓ} : {A : Type ℓ} → Option A → List A
as_list none = []
as_list (some a) = a ∷ []

unfoldable mutual
  pub collect : Node → List SimpleCmd
  collect (node k named t cs) =
      let inner = collect_all cs in
      let words = words_of (node k named t cs) in
      if is k "command" then as_list (unwrap (length words) false words) else inner

  pub collect_all : Nodes → List SimpleCmd
  collect_all nil = []
  collect_all (cons n ns) = collect n ++ collect_all ns

-- `none` if the parser gives no tree
unfoldable pub split_commands : Option Node → List SimpleCmd
split_commands none = []
split_commands (some root) = collect root
