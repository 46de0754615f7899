-- ===== src/Safety/Assess/Pipes.antt =====
-- A download that is piped into an interpreter, in `walk` of src/safety.rs.
use fore_ai_assisted_termina.Prelude.{
  ℕ, suc, ◌≤◌, ◌≡◌, inl, inr, Bool, true, false, Bool-cases, Option, some, [], ◌∷◌, At, here,
  At-append_left, At-append_right,
}
use fore_ai_assisted_termina.Prelude.Text.{Text, codes, is, is_one_of}
use fore_ai_assisted_termina.Safety.Risk.{destructive, Assessment, Bump, rank}
use fore_ai_assisted_termina.Safety.Command.{
  Node, Nodes, nil, cons, kind, is_named, children, words_of, command_name,
}
use fore_ai_assisted_termina.Safety.Assess.{
  pipe_rules, fetches, walk, walk_stages, line_bumps, assess, is_interpreter,
}
use fore_ai_assisted_termina.Safety.Assess.Worst.{Walked, walk-stages, walk-At, verdict-shows}

-- `b` is the first named node of the list.
pub data Leads (b : Node) : Nodes → Type 0 where
  next : {ns : Nodes} → is_named b ≡ true → Leads b (cons b ns)
  skip : {m : Node} {ns : Nodes} → is_named m ≡ false → Leads b ns → Leads b (cons m ns)

-- `b` is the named node behind the named node `a`, so that `a` is piped into `b`.
pub data Feeds (a b : Node) : Nodes → Type 0 where
  now : {ns : Nodes} → is_named a ≡ true → Leads b ns → Feeds a b (cons a ns)
  later : {m : Node} {ns : Nodes} → Feeds a b ns → Feeds a b (cons m ns)

abbrev download : Bump
download = (destructive, codes "downloads code from the network and executes it (`curl … | sh`)")

abbrev pub IsFetch : Node → Type 0
IsFetch a =
    (is (kind a) "command" ≡ true)
    × (is_one_of (command_name (words_of a)) ("curl" ∷ "wget" ∷ []) ≡ true)

abbrev pub IsInterpreter : Node → Type 0
IsInterpreter b =
    (is (kind b) "command" ≡ true) × (is_interpreter (command_name (words_of b)) ≡ true)

interpreter-At : (b : Node) → IsInterpreter b → At download (pipe_rules true b)
unfolding pipe_rules
interpreter-At b i = rw (i.0, i.1) here

module _ (sub : Text → Assessment) where
  lead-At :
      (b : Node) (ns : Nodes) → IsInterpreter b → Leads b ns → At download (walk_stages sub true ns)
  unfolding walk pipe_rules
  lead-At b nil i l = elim l [ ]
  lead-At b (cons m ns) i (next h) =
      rw (h, walk_stages) (At-append_left (pipe_rules true b) _ (interpreter-At b i))
  lead-At b (cons m ns) i (skip h l) = rw (h, walk_stages) (lead-At b ns i l)

  feed-At :
      (a b : Node) (prev : Bool) (ns : Nodes)
      → IsFetch a
      → IsInterpreter b
      → Feeds a b ns
      → At download (walk_stages sub prev ns)
  unfolding walk fetches
  feed-At a b prev nil f i x = elim x [ ]
  feed-At a b prev (cons m ns) f i (now h l) =
      let on : fetches prev m ≡ true = rw (f.0, fetches) f.1 in
      rw (h, on, walk_stages)
        (At-append_right (pipe_rules prev m) _ (At-append_right (walk sub m) _ (lead-At b ns i l)))
  feed-At a b prev (cons m ns) f i (later x) = elim (Bool-cases (is_named m)) [
    | inl e ↦
        rw (e, walk_stages)
          (At-append_right (pipe_rules prev m) _
            (At-append_right (walk sub m) _ (feed-At a b (fetches prev m) ns f i x)))
    | inr e ↦ rw (e, walk_stages) (feed-At a b prev ns f i x)
  ]

-- A pipeline in which a stage named `curl` or `wget` feeds a stage named like an interpreter, without
-- a directory before either name, makes the verdict `destructive`, wherever the walk meets it in a
-- parsed line.
pub assess-download :
    (parse : Text → Option Node) (depth : ℕ) (line : Text) (root pipe a b : Node)
    → parse line ≡ some root
    → Walked pipe root
    → is (kind pipe) "pipeline" ≡ true
    → Feeds a b (children pipe)
    → IsFetch a
    → IsInterpreter b
    → rank destructive ≤ rank (assess parse (suc depth) line).risk
unfolding line_bumps
assess-download parse depth line root pipe a b parsed w p x f i =
    (verdict-shows parse depth line root parsed download (
      At-append_left _ _ (
        walk-At _ pipe download root w
          (walk-stages _ download pipe p (feed-At _ a b false (children pipe) f i x))))).0
