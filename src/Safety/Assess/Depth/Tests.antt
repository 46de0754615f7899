-- ===== src/Safety/Assess/Depth/Tests.antt =====
-- A parser that knows `xargs rm -rf` and `rm -rf`, for the depth of `assess` of src/safety.rs.
use fore_ai_assisted_termina.Prelude.{
  ℕ, ◌≡◌, sym, true, inl, inr, Bool-cases, Option, none, some, String, List, [], ◌∷◌, arith,
  if◌then◌else◌,
}
use fore_ai_assisted_termina.Prelude.Text.{Text, codes, text_eq, text_eq_iff, is, is_one_of}
use fore_ai_assisted_termina.Safety.Command.{Node, node, Nodes, nil, cons, words_of, words_in}
use fore_ai_assisted_termina.Safety.Assess.{assess}
use fore_ai_assisted_termina.Safety.Assess.Depth.{Fits, FitsAll, FitsLines, assess-depth}

abbrev word_nodes : List String → Nodes
word_nodes [] = nil
word_nodes (w ∷ ws) = cons (node (codes "word") true (codes w) nil) (word_nodes ws)

abbrev program : String → List String → Node
program t ws =
    node (codes "program") true (codes t)
      (cons (node (codes "command") true (codes t) (word_nodes ws)) nil)

abbrev outer : Node
outer = program "xargs rm -rf" ("xargs" ∷ "rm" ∷ "-rf" ∷ [])

abbrev inner : Node
inner = program "rm -rf" ("rm" ∷ "-rf" ∷ [])

abbrev parse : Text → Option Node
parse line =
    if text_eq line (codes "xargs rm -rf")
    then some outer
    else if text_eq line (codes "rm -rf")
    then some inner
    else none

some_injective : (a b : Node) → some a ≡ some b → a ≡ b
some_injective a b h = cc h

none-some : (a : Node) → (none ≡ some a) → ⊥
none-some a h = cc h

word_nodes-Fits : (n : ℕ) (ws : List String) → FitsAll n (word_nodes ws)
unfolding Fits words_of words_in
word_nodes-Fits n [] = tt
word_nodes-Fits n (w ∷ ws) = ((λ h. omega arith, tt), word_nodes-Fits n ws)

outer-Fits : Fits 12 outer
unfolding Fits is words_of words_in is_one_of
outer-Fits =
    (λ h. omega arith, ((λ h. omega arith, word_nodes-Fits 12 ("xargs" ∷ "rm" ∷ "-rf" ∷ [])), tt))

inner-Fits : Fits 6 inner
unfolding Fits is words_of words_in is_one_of
inner-Fits = (λ h. omega arith, ((λ h. omega arith, word_nodes-Fits 6 ("rm" ∷ "-rf" ∷ [])), tt))

parse-FitsLines : FitsLines parse
parse-FitsLines line root p = elim (Bool-cases (text_eq line (codes "xargs rm -rf"))) [
  | inl e ↦
      let same : outer ≡ root = some_injective outer root (rw e at p) in
      let known : line ≡ codes "xargs rm -rf" = (text_eq_iff line _).0 e in
      rw (known, sym same) outer-Fits
  | inr e ↦ elim (Bool-cases (text_eq line (codes "rm -rf"))) [
    | inl e2 ↦
        let same : inner ≡ root = some_injective inner root (rw (e, e2) at p) in
        let known : line ≡ codes "rm -rf" = (text_eq_iff line _).0 e2 in
        rw (known, sym same) inner-Fits
    | inr e2 ↦ absurd (none-some root (rw (e, e2) at p))
  ]
]

assess-depth_example :
    assess parse 13 (codes "xargs rm -rf") ≡ assess parse 20 (codes "xargs rm -rf")
assess-depth_example =
    assess-depth parse parse-FitsLines 13 20 (codes "xargs rm -rf") (omega arith) (omega arith)
