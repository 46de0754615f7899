-- ===== src/Safety/Assess.antt =====
-- `walk`, `has_truncating_redirect` and `assess` of src/safety.rs. The parser is tree-sitter's, and an
-- argument here. `assess` calls itself on the payload of `find -exec` and `xargs`: `depth` bounds how
-- deep, and `none` is a payload nested deeper.
pub mod Worst
pub mod Removals
pub mod Dangers
pub mod Pipes
pub mod Depth
pub mod Explained
pub mod Tests
use fore_ai_assisted_termina.Prelude.{
  ℕ, zero, suc, String, Bool, true, false, not, ◌&&◌, ◌||◌, Option, none, some, List, [], ◌∷◌, ◌++◌,
  if◌then◌else◌,
}
use fore_ai_assisted_termina.Prelude.Text.{Text, codes, is, is_one_of, begins, holds, trim_start}
use fore_ai_assisted_termina.Safety.Risk.{
  mutating, destructive, Assessment, Ctx, start, Bump, bump_all, says,
}
use fore_ai_assisted_termina.Safety.Command.{
  Node, node, Nodes, nil, cons, kind, is_named, text, children, words_of, command_name,
}
use fore_ai_assisted_termina.Safety.Classify.{classify_command}

abbrev is_interpreter : Text → Bool
is_interpreter n =
    is_one_of n ("sh" ∷ "bash" ∷ "zsh" ∷ "python" ∷ "python3" ∷ "perl" ∷ "ruby" ∷ "node" ∷ [])

-- What a stage of a pipeline adds, if the stage before fetched from the network.
unfoldable pub pipe_rules : Bool → Node → List Bump
pipe_rules prev_net c =
    if is (kind c) "command" && prev_net && is_interpreter (command_name (words_of c))
    then says destructive "downloads code from the network and executes it (`curl … | sh`)"
    else []

unfoldable pub fetches : Bool → Node → Bool
fetches prev_net c =
    if is (kind c) "command"
    then is_one_of (command_name (words_of c)) ("curl" ∷ "wget" ∷ [])
    else prev_net

-- The calls of `bump` of a walk, in order.
module _ (sub : Text → Assessment) where
  unfoldable mutual
    pub walk : Node → List Bump
    walk (node k named t cs) =
        let stages = walk_stages false cs in
        let inside = walk_all cs in
        if is k "pipeline"
        then stages
        else if is k "command"
        then classify_command sub (words_of (node k named t cs)) ++ inside
        else inside

    -- The loop over the named children of a pipeline.
    pub walk_stages : Bool → Nodes → List Bump
    walk_stages prev_net nil = []
    walk_stages prev_net (cons c cs) =
        let stage = pipe_rules prev_net c ++ (walk c ++ walk_stages (fetches prev_net c) cs) in
        let rest = walk_stages prev_net cs in if is_named c then stage else rest

    pub walk_all : Nodes → List Bump
    walk_all nil = []
    walk_all (cons c cs) = walk c ++ walk_all cs

-- `>` but not `>>`, and not to /dev/null
unfoldable pub truncates : Node → Bool
truncates n =
    let t = trim_start (text n) in
    is (kind n) "file_redirect" && not (holds t "/dev/null") && begins t ">" && not (begins t ">>")

-- The order of the search does not matter: it answers whether some node truncates.
unfoldable mutual
  pub has_truncating_redirect : Node → Bool
  has_truncating_redirect (node k named t cs) = truncates (node k named t cs) || any_truncating cs

  pub any_truncating : Nodes → Bool
  any_truncating nil = false
  any_truncating (cons c cs) = has_truncating_redirect c || any_truncating cs

unfoldable pub redirect_rules : Node → List Bump
redirect_rules root =
    if has_truncating_redirect root then says mutating "`>` overwrites a file" else []

-- Every call of `bump` for a parsed line.
unfoldable pub line_bumps : (Text → Assessment) → Node → List Bump
line_bumps sub root = walk sub root ++ redirect_rules root

abbrev pub result : Ctx → Assessment
result ctx = record { risk = ctx.risk; reasons = ctx.reasons }

abbrev pub unparsed : Assessment
unparsed = record { risk = mutating; reasons = codes "could not parse; assuming it mutates" ∷ [] }

module _ (parse : Text → Option Node) where
  unfoldable pub assess : ℕ → Text → Assessment
  assess zero cmdline = unparsed
  assess (suc depth) cmdline = elim (parse cmdline) [
    | none ↦ unparsed
    | some root ↦ result (bump_all start (line_bumps (assess depth) root))
  ]
