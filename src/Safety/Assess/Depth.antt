-- ===== src/Safety/Assess/Depth.antt =====
-- `assess` of src/safety.rs calls itself on payloads that are shorter than the line, so that a depth
-- above the line's length never runs out.
pub mod Tests
use mathlib.Core.Path.{ap₂}
use fore_ai_assisted_termina.Prelude.{
  ℕ, zero, suc, ◌+◌, ◌≤◌, ◌<◌, ◌≡◌, refl, ap, ◌∙◌, inl, inr, Bool, true, false, not, ◌||◌, all,
  Bool-cases, Option-cases, Option, none, some, List, [], ◌∷◌, ◌++◌, arith, if◌then◌else◌, length,
  length-append, drop, take_while, skip_while, position,
}
use fore_ai_assisted_termina.Prelude.Text.{Text, codes, is, is_one_of, is_digit, join}
use fore_ai_assisted_termina.Safety.Risk.{Assessment, Bump, bump_all, start}
use fore_ai_assisted_termina.Safety.Command.{
  Node, node, Nodes, nil, cons, kind, is_named, words_of, Command, command_of, is_flag,
}
use fore_ai_assisted_termina.Safety.Rules.Payload.{
  exec_bumps, exec_line, delete_rules, xargs_bumps, xargs_line, find_rules, inner_words,
  xargs_rules, ends_exec, is_exec,
}
use fore_ai_assisted_termina.Safety.Classify.{command_rules, classify_command}
use fore_ai_assisted_termina.Safety.Assess.{
  walk, walk_stages, walk_all, pipe_rules, fetches, redirect_rules, line_bumps, assess, result,
}

-- The characters of the words, each with a blank behind it.
weight : List Text → ℕ
weight [] = 0
weight (w ∷ ws) = suc (length w) + weight ws

length-join_lem :
    (w : Text) (ws : List Text) → suc (length (join (codes " ") (w ∷ ws))) ≡ weight (w ∷ ws)
unfolding weight
length-join_lem w [] = omega arith
length-join_lem w (v ∷ ws) =
    omega (arith, length-join_lem v ws, length-append w (codes " " ++ join (codes " ") (v ∷ ws)))

drop-weight : (n : ℕ) (ws : List Text) → weight (drop n ws) ≤ weight ws
unfolding weight
drop-weight zero ws = omega arith
drop-weight (suc n) [] = omega arith
drop-weight (suc n) (w ∷ ws) = omega (arith, drop-weight n ws)

drop_next-weight : (n : ℕ) (w : Text) (ws : List Text) → weight (drop (n + 1) (w ∷ ws)) ≤ weight ws
drop_next-weight n w ws = let next : n + 1 ≡ suc n = omega arith in rw next (drop-weight n ws)

take_while-weight : (p : Text → Bool) (ws : List Text) → weight (take_while p ws) ≤ weight ws
unfolding weight
take_while-weight p [] = omega arith
take_while-weight p (w ∷ ws) = ground (arith, take_while-weight p ws)

skip_while-weight : (p : Text → Bool) (ws : List Text) → weight (skip_while p ws) ≤ weight ws
unfolding weight
skip_while-weight p [] = omega arith
skip_while-weight p (w ∷ ws) = ground (arith, skip_while-weight p ws)

args-weight : (w : Text) (ws : List Text) → weight (command_of (w ∷ ws)).args ≤ weight ws
unfolding command_of
args-weight w ws = drop_next-weight _ w ws

-- The two assess every shorter line alike.
abbrev Agree : ℕ → (Text → Assessment) → (Text → Assessment) → Type 0
Agree n f g = (line : Text) → length line < n → f line ≡ g line

module _ (f g : Text → Assessment) where
  exec_line-Agree :
      (n : ℕ) (ws : List Text) (name : Text)
      → Agree n f g
      → weight ws ≤ n
      → exec_line ws name f ≡ exec_line ws name g
  unfolding exec_line
  exec_line-Agree n [] name h k = refl
  exec_line-Agree n (w ∷ ws) name h k =
      ap (exec_bumps name _) (h _ (omega (arith, length-join_lem w ws, k)))

  xargs_line-Agree :
      (n : ℕ) (ws : List Text) (name : Text)
      → Agree n f g
      → weight ws ≤ n
      → xargs_line ws name f ≡ xargs_line ws name g
  unfolding xargs_line
  xargs_line-Agree n [] name h k = refl
  xargs_line-Agree n (w ∷ ws) name h k =
      ap (xargs_bumps name) (h _ (omega (arith, length-join_lem w ws, k)))

  find_rules-Agree :
      (n : ℕ) (c : Command) → Agree n f g → weight c.args ≤ n → find_rules f c ≡ find_rules g c
  unfolding find_rules
  find_rules-Agree n c h k = elim (Option-cases (position is_exec c.args)) [
    | inl e ↦ rw (e, find_rules) refl
    | inr (i, e) ↦
        let shorter : weight (take_while (λ a. not (ends_exec a)) (drop (i + 1) c.args)) ≤ n =
          omega (
            arith,
            take_while-weight (λ a. not (ends_exec a)) (drop (i + 1) c.args),
            drop-weight (i + 1) c.args,
            k,
          ) in
        rw (e, find_rules) (ap (λ bs. delete_rules c ++ bs) (exec_line-Agree n _ c.name h shorter))
  ]

  xargs_rules-Agree :
      (n : ℕ) (c : Command) → Agree n f g → weight c.args ≤ n → xargs_rules f c ≡ xargs_rules g c
  unfolding xargs_rules inner_words
  xargs_rules-Agree n c h k =
      xargs_line-Agree n (inner_words c) c.name h
        (omega (arith, k, skip_while-weight (λ a. is_flag a || all is_digit a) c.args))

  command_rules-Agree :
      (n : ℕ) (c : Command)
      → Agree n f g
      → weight c.args ≤ n
      → command_rules f c ≡ command_rules g c
  unfolding command_rules
  command_rules-Agree n c h k = rw (find_rules-Agree n c h k, xargs_rules-Agree n c h k) refl

  classify_command-Agree :
      (n : ℕ) (ws : List Text)
      → Agree n f g
      → length (join (codes " ") ws) ≤ n
      → classify_command f ws ≡ classify_command g ws
  unfolding classify_command
  classify_command-Agree n [] h k = refl
  classify_command-Agree n (w ∷ ws) h k =
      command_rules-Agree n (command_of (w ∷ ws)) h
        (unfold weight in omega (arith, args-weight w ws, length-join_lem w ws, k))

-- Every command of the tree spans at most `n` characters, its words joined by blanks.
unfoldable mutual
  pub Fits : ℕ → Node → Type 0
  Fits n (node k named t cs) =
      (is k "command" ≡ true → length (join (codes " ") (words_of (node k named t cs))) ≤ n)
      × FitsAll n cs

  pub FitsAll : ℕ → Nodes → Type 0
  FitsAll n nil = Unit {0}
  FitsAll n (cons c cs) = Fits n c × FitsAll n cs

module _ (f g : Text → Assessment) (n : ℕ) (agree : Agree n f g) where
  mutual
    unfolding walk Fits

    walk-Agree : (m : Node) → Fits n m → walk f m ≡ walk g m
    walk-Agree (node k named t cs) h = elim (Bool-cases (is k "pipeline")) [
      | inl e ↦ rw (e, walk) (walk_stages-Agree false cs h.1)
      | inr e ↦ elim (Bool-cases (is k "command")) [
        | inl c ↦
            rw (e, c, walk)
              (ap₂ (λ xs ys. xs ++ ys)
                (classify_command-Agree f g n (words_of (node k named t cs)) agree (h.0 c))
                (walk_all-Agree cs h.1))
        | inr c ↦ rw (e, c, walk) (walk_all-Agree cs h.1)
      ]
    ]

    walk_stages-Agree :
        (prev : Bool) (ns : Nodes) → FitsAll n ns → walk_stages f prev ns ≡ walk_stages g prev ns
    walk_stages-Agree prev nil h = refl
    walk_stages-Agree prev (cons c cs) h = elim (Bool-cases (is_named c)) [
      | inl e ↦
          rw (e, walk_stages)
            (ap₂ (λ xs ys. pipe_rules prev c ++ (xs ++ ys)) (walk-Agree c h.0)
              (walk_stages-Agree (fetches prev c) cs h.1))
      | inr e ↦ rw (e, walk_stages) (walk_stages-Agree prev cs h.1)
    ]

    walk_all-Agree : (ns : Nodes) → FitsAll n ns → walk_all f ns ≡ walk_all g ns
    walk_all-Agree nil h = refl
    walk_all-Agree (cons c cs) h =
        ap₂ (λ xs ys. xs ++ ys) (walk-Agree c h.0) (walk_all-Agree cs h.1)

  line_bumps-Agree : (root : Node) → Fits n root → line_bumps f root ≡ line_bumps g root
  unfolding line_bumps
  line_bumps-Agree root h = ap (λ bs. bs ++ redirect_rules root) (walk-Agree root h)

-- The commands that the parser finds in a line are no longer than the line.
abbrev pub FitsLines : (Text → Option Node) → Type 0
FitsLines parse = (line : Text) (root : Node) → parse line ≡ some root → Fits (length line) root

-- If the commands that the parser finds in a line are no longer than the line, then with a depth
-- above the length of the line the verdict does not depend on the depth: the payloads of `find
-- -exec` and `xargs` never run out of it.
pub assess-depth :
    (parse : Text → Option Node)
    → FitsLines parse
    → (d e : ℕ) (line : Text) → length line < d
    → length line < e
    → assess parse d line ≡ assess parse e line
unfolding assess
assess-depth parse fits zero e line h k = absurd (omega (arith, h))
assess-depth parse fits (suc d) zero line h k = absurd (omega (arith, k))
assess-depth parse fits (suc d) (suc e) line h k = elim (Option-cases (parse line)) [
  | inl p ↦ rw (p, assess) refl
  | inr (root, p) ↦
      let agree : Agree (length line) (assess parse d) (assess parse e) =
        λ l s. assess-depth parse fits d e l (omega (arith, h, s)) (omega (arith, k, s)) in
      rw (p, assess)
        (ap (λ bs. result (bump_all start bs))
          (line_bumps-Agree (assess parse d) (assess parse e) (length line) agree root
            (fits line root p)))
]
