-- ===== src/Safety/Assess/Worst.antt =====
-- The verdict of `assess` of src/safety.rs on a parsed line: the worst of its commands wins, and each
-- danger that was found is listed.
use fore_ai_assisted_termina.Prelude.{
  ℕ, suc, ◌≤◌, ◌≡◌, refl, ap, ◌∙◌, inl, inr, Bool, true, false, Bool-cases, Option, some, arith,
  All, At, At-append_left, At-append_right,
}
use fore_ai_assisted_termina.Prelude.Text.{Text, codes, is}
use fore_ai_assisted_termina.Safety.Risk.{read_only, rank, Assessment, Bump}
use fore_ai_assisted_termina.Safety.Risk.Bumps.{
  bump_all-worst, worst-ge, worst-le, bump_all-reasons, IsDistinct, bump_all-IsDistinct,
}
use fore_ai_assisted_termina.Safety.Command.{
  Node, node, Nodes, nil, cons, kind, is_named, children, words_of,
}
use fore_ai_assisted_termina.Safety.Classify.{classify_command}
use fore_ai_assisted_termina.Safety.Assess.{
  pipe_rules, fetches, walk, walk_stages, walk_all, line_bumps, assess,
}

pub data Among (n : Node) : Nodes → Type 0 where
  first : {ns : Nodes} → Among n (cons n ns)
  later : {m : Node} {ns : Nodes} → Among n ns → Among n (cons m ns)

-- `n` is visited in the walk from a node: a pipeline is left through its named children alone.
pub data Walked (n : Node) : Node → Type 0 where
  self : Walked n n
  stage :
      {m c : Node}
      → is (kind m) "pipeline" ≡ true
      → Among c (children m)
      → is_named c ≡ true
      → Walked n c
      → Walked n m
  child :
      {m c : Node} → is (kind m) "pipeline" ≡ false → Among c (children m) → Walked n c → Walked n m

command_is : (is (codes "command") "command" ≡ true) × (is (codes "command") "pipeline" ≡ false)
unfolding is
command_is = (refl, refl)

module _ (sub : Text → Assessment) where
  walk_stages-At :
      (c : Node) (b : Bump) (prev : Bool) (ns : Nodes)
      → Among c ns
      → is_named c ≡ true
      → At b (walk sub c)
      → At b (walk_stages sub prev ns)
  unfolding walk
  walk_stages-At c b prev nil a h m = elim a [ ]
  walk_stages-At c b prev (cons c' ns) first h m =
      rw (h, walk_stages) (At-append_right (pipe_rules prev c) _ (At-append_left _ _ m))
  walk_stages-At c b prev (cons d ns) (later k) h m = elim (Bool-cases (is_named d)) [
    | inl e ↦
        rw (e, walk_stages)
          (At-append_right (pipe_rules prev d) _
            (At-append_right (walk sub d) _ (walk_stages-At c b (fetches prev d) ns k h m)))
    | inr e ↦ rw (e, walk_stages) (walk_stages-At c b prev ns k h m)
  ]

  walk_all-At :
      (c : Node) (b : Bump) (ns : Nodes) → Among c ns → At b (walk sub c) → At b (walk_all sub ns)
  unfolding walk
  walk_all-At c b nil a m = elim a [ ]
  walk_all-At c b (cons c' ns) first m = At-append_left _ _ m
  walk_all-At c b (cons d ns) (later k) m = At-append_right (walk sub d) _ (walk_all-At c b ns k m)

  -- Beside a pipeline, a node passes on what its children give.
  walk-children :
      (b : Bump) (m : Node)
      → is (kind m) "pipeline" ≡ false
      → At b (walk_all sub (children m))
      → At b (walk sub m)
  unfolding walk
  walk-children b (node k named t cs) p a = elim (Bool-cases (is k "command")) [
    | inl e ↦
        rw (p, e, walk) (At-append_right (classify_command sub (words_of (node k named t cs))) _ a)
    | inr e ↦ rw (p, e, walk) a
  ]

  pub walk-stages :
      (b : Bump) (m : Node)
      → is (kind m) "pipeline" ≡ true
      → At b (walk_stages sub false (children m))
      → At b (walk sub m)
  unfolding walk
  walk-stages b (node k named t cs) p a = rw (p, walk) a

  pub walk-At :
      (n : Node) (b : Bump) (root : Node) → Walked n root → At b (walk sub n) → At b (walk sub root)
  walk-At n b root self m = m
  walk-At n b root (stage {c = c} p a h w) m =
      walk-stages b root p (walk_stages-At c b false (children root) a h (walk-At n b c w m))
  walk-At n b root (child {c = c} p a w) m =
      walk-children b root p (walk_all-At c b (children root) a (walk-At n b c w m))

  walk-command :
      (n : Node) (b : Bump)
      → kind n ≡ codes "command"
      → At b (classify_command sub (words_of n))
      → At b (walk sub n)
  unfolding walk
  walk-command (node k named t cs) b e m =
      let no_pipe : is k "pipeline" ≡ false = ap (λ x. is x "pipeline") e ∙ command_is.1 in
      let is_command : is k "command" ≡ true = ap (λ x. is x "command") e ∙ command_is.0 in
      rw (no_pipe, is_command, walk) (At-append_left _ _ m)

module _ (parse : Text → Option Node) (depth : ℕ) (line : Text) (root : Node)
    (parsed : parse line ≡ some root) where
  -- What the walk emits shows in the verdict.
  pub verdict-shows :
      (b : Bump)
      → At b (line_bumps (assess parse depth) root)
      → (rank b.0 ≤ rank (assess parse (suc depth) line).risk)
        × At b.1 (assess parse (suc depth) line).reasons
  unfolding assess
  verdict-shows b m =
      rw (parsed, assess) (rw bump_all-worst (worst-ge read_only b _ m), bump_all-reasons b _ m)

  -- Every danger that a command of a parsed line gives shows in the verdict: the risk is at least
  -- as high, and the reason is listed. A command counts wherever the walk meets it: in a list, a
  -- pipeline, a substitution.
  pub assess-command :
      (n : Node) (b : Bump)
      → Walked n root
      → kind n ≡ codes "command"
      → At b (classify_command (assess parse depth) (words_of n))
      → (rank b.0 ≤ rank (assess parse (suc depth) line).risk)
        × At b.1 (assess parse (suc depth) line).reasons
  unfolding line_bumps
  assess-command n b w k m =
      verdict-shows b (At-append_left _ _ (walk-At _ n b root w (walk-command _ n b k m)))

  -- On a parsed line the verdict exceeds no bound on the risks of the calls of `bump`, and it
  -- lists no reason twice.
  pub assess-exact :
      (n : ℕ)
      → All (λ b. rank b.0 ≤ n) (line_bumps (assess parse depth) root)
      → (rank (assess parse (suc depth) line).risk ≤ n)
        × IsDistinct (assess parse (suc depth) line).reasons
  unfolding assess
  assess-exact n h =
      rw (parsed, assess)
        (
          rw bump_all-worst (worst-le n read_only _ (omega arith) h),
          bump_all-IsDistinct (line_bumps (assess parse depth) root),
        )
