-- ===== src/Safety/Command.antt =====
-- Reading a `command` node of src/safety.rs: its words, the name behind wrappers such as `sudo`, and
-- the arguments. The syntax tree is tree-sitter's: a node has a kind, whether it is named, the text
-- that it spans and its children.
use fore_ai_assisted_termina.Prelude.{
  ℕ, zero, suc, ◌+◌, String, Bool, not, ◌&&◌, ◌||◌, Option, none, some, List, [], ◌∷◌,
  if◌then◌else◌, length, drop, any, keep_if, skip_while, position,
}
use fore_ai_assisted_termina.Prelude.Text.{
  Text, codes, text_eq, is, is_one_of, begins, contains_char, trim_quotes, after_last, join,
}

mutual
  pub data Node : Type 0 where
    node : (kind : Text) (named : Bool) (text : Text) → Nodes → Node

  pub data Nodes : Type 0 where
    nil : Nodes
    cons : Node → Nodes → Nodes

abbrev pub kind : Node → Text
kind (node k _ _ _) = k

abbrev pub is_named : Node → Bool
is_named (node _ n _ _) = n

abbrev pub text : Node → Text
text (node _ _ t _) = t

abbrev pub children : Node → Nodes
children (node _ _ _ cs) = cs

abbrev is_word_kind : Text → Bool
is_word_kind k =
    is_one_of k
      ("command_name" ∷ "word" ∷ "number" ∷ "string" ∷ "raw_string" ∷ "concatenation" ∷ [])

unfoldable pub words_in : Nodes → List Text
words_in nil = []
words_in (cons n ns) =
    let rest = words_in ns in if is_word_kind (kind n) then trim_quotes (text n) ∷ rest else rest

unfoldable pub words_of : Node → List Text
words_of n = words_in (children n)

-- `w.rsplit('/').next()`
abbrev pub base_name : Text → Text
base_name w = after_last b'/' w

unfoldable pub is_wrapper : Text → Bool
is_wrapper w = is_one_of w (
    "sudo" ∷ "doas" ∷ "time" ∷ "nohup" ∷ "nice" ∷ "env" ∷ "command" ∷ "builtin" ∷ "exec" ∷ "timeout"
    ∷ "caffeinate" ∷ "stdbuf" ∷ "unbuffer" ∷ "hyperfine" ∷ [])

-- Flags of a wrapper that take a value.
unfoldable pub takes_value : Text → Bool
takes_value w =
    is_one_of w ("-u" ∷ "-g" ∷ "-n" ∷ "-I" ∷ "-f" ∷ "-o" ∷ "-a" ∷ "-e" ∷ "-i" ∷ "-s" ∷ "-k" ∷ [])

abbrev pub is_flag : Text → Bool
is_flag w = begins w "-"

unfoldable pub skip_flags : List Text → List Text
skip_flags [] = []
skip_flags (w ∷ []) = if is_flag w then [] else w ∷ []
skip_flags (w ∷ v ∷ ws) =
    let after_value = skip_flags ws in
    let after_flag = skip_flags (v ∷ ws) in
    if is_flag w then (if takes_value w then after_value else after_flag) else w ∷ v ∷ ws

-- `timeout 5 cmd`: the duration.
abbrev pub skip_duration : Text → List Text → List Text
skip_duration wrapper [] = []
skip_duration wrapper (w ∷ ws) = if is wrapper "timeout" && not (is_flag w) then ws else w ∷ ws

abbrev pub is_assignment : Text → Bool
is_assignment w = contains_char w b'=' && not (is_flag w)

-- The words from the index on at which the loop of `command_name` stops, a round for each wrapper.
unfoldable pub peel : ℕ → List Text → List Text
peel zero words = words
peel (suc fuel) [] = []
peel (suc fuel) (w ∷ ws) =
    let inner =
      peel fuel (skip_while is_assignment (skip_flags (skip_duration (base_name w) ws))) in
    if is_wrapper (base_name w) then inner else w ∷ ws

abbrev first_or_empty : List Text → Text
first_or_empty [] = []
first_or_empty (w ∷ _) = w

unfoldable pub command_name : List Text → Text
command_name words = first_or_empty (peel (length words) words)

-- What the rules read: `args` are the words behind the first one that has the name.
pub record Command : Type 0 where
  pub name : Text
  pub args : List Text
  pub has_sudo : Bool

abbrev or_first : Option ℕ → ℕ
or_first none = 0
or_first (some i) = i

unfoldable pub command_of : List Text → Command
command_of words =
    let name = base_name (command_name words) in
    let pos = or_first (position (λ w. text_eq (base_name w) name) words) in
    record {
      name = name;
      args = drop (pos + 1) words;
      has_sudo = is (first_or_empty words) "sudo" || is (first_or_empty words) "doas";
    }

abbrev pub arg_str : Command → Text
arg_str c = join (codes " ") c.args

abbrev pub flags : Command → List Text
flags c = keep_if is_flag c.args

abbrev pub first_arg : Command → Text
first_arg c = first_or_empty c.args

abbrev pub second_arg : Command → Text
second_arg c = first_or_empty (drop 1 c.args)

-- `has_flag(short, long)`
unfoldable pub has_flag : Command → ℕ → String → Bool
has_flag c short long =
    any (λ f. (begins f "--" && is f long) || (not (begins f "--") && contains_char f short))
      (flags c)

-- Some argument is one of the literals.
unfoldable pub has_arg : Command → List String → Bool
has_arg c ss = any (λ a. is_one_of a ss) c.args
