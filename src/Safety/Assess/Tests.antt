-- ===== src/Safety/Assess/Tests.antt =====
-- Concrete lines for the theorems on `assess` of src/safety.rs, with the tree that the parser gives.
use fore_ai_assisted_termina.Prelude.{
  ℕ, ◌≤◌, ◌≡◌, ◌≢◌, ◌↔◌, refl, inl, true, false, Option, some, String, List, [], ◌∷◌, arith, All,
  At, here,
}
use fore_ai_assisted_termina.Prelude.Text.{
  Text, codes, is, is_one_of, begins, holds, contains, starts_with, contains_char,
}
use fore_ai_assisted_termina.Safety.Risk.{
  read_only, mutating, privileged, destructive, rank, Assessment,
}
use fore_ai_assisted_termina.Safety.Risk.Bumps.{IsDistinct}
use fore_ai_assisted_termina.Safety.Command.{
  Node, node, Nodes, nil, cons, words_of, words_in, is_wrapper, skip_flags, peel, command_name,
  command_of,
}
use fore_ai_assisted_termina.Safety.Classify.{
  classify_command, command_rules, sudo_rules, name_rules,
}
use fore_ai_assisted_termina.Safety.Rules.System.{file_rules}
use fore_ai_assisted_termina.Safety.Assess.{
  walk, truncates, has_truncating_redirect, redirect_rules, line_bumps, assess,
}
use fore_ai_assisted_termina.Safety.Assess.Worst.{
  Walked, self, child, first, assess-command, assess-exact,
}
use fore_ai_assisted_termina.Safety.Assess.Pipes.{
  Feeds, now, next, skip, IsFetch, IsInterpreter, assess-download,
}
use fore_ai_assisted_termina.Safety.Assess.Explained.{assess-Explained}
use fore_ai_assisted_termina.Safety.Assess.Removals.{Removes, bare, wrapped, letters}
use fore_ai_assisted_termina.Safety.Assess.Dangers.{assess-rm_recursive, assess-sudo}

abbrev leaf : String → String → Node
leaf k t = node (codes k) true (codes t) nil

abbrev command : List String → Nodes
command [] = nil
command (w ∷ ws) = cons (leaf "word" w) (command ws)

abbrev simple : String → List String → Node
simple t ws = node (codes "command") true (codes t) (command ws)

-- `sudo rm -rf build` in a program.
abbrev rm_build : Node
rm_build = simple "sudo rm -rf build" ("sudo" ∷ "rm" ∷ "-rf" ∷ "build" ∷ [])

abbrev program : Node → Node
program n = node (codes "program") true [] (cons n nil)

abbrev parse_rm : Text → Option Node
parse_rm line = some (program rm_build)

rm-Walked : Walked rm_build (program rm_build)
unfolding is
rm-Walked = child refl first self

rm_words : words_of rm_build ≡ codes "sudo" ∷ codes "rm" ∷ codes "-rf" ∷ codes "build" ∷ []
unfolding words_of words_in is_one_of
rm_words = refl

rm-Removes : Removes (codes "-rf" ∷ codes "build" ∷ []) (words_of rm_build)
rm-Removes = rw rm_words (wrapped (codes "sudo") _ here (bare (codes "rm") here))

assess-rm_recursive_example : (assess parse_rm 1 (codes "sudo rm -rf build")).risk ≡ destructive
assess-rm_recursive_example =
    assess-rm_recursive parse_rm 0 (codes "sudo rm -rf build") (program rm_build) rm_build refl
      rm-Walked refl (codes "-rf" ∷ codes "build" ∷ []) (codes "-rf") rm-Removes here
      (letters b'r' (codes "f") not_dash (inl here))
  where
    not_dash : ◌≢◌ {A = ℕ} b'r' b'-'
    not_dash e = omega (arith, e)

assess-sudo_example :
    (rank privileged ≤ rank (assess parse_rm 1 (codes "sudo rm -rf build")).risk)
    × At (codes "runs as root (sudo)") (assess parse_rm 1 (codes "sudo rm -rf build")).reasons
assess-sudo_example =
    assess-sudo parse_rm 0 (codes "sudo rm -rf build") (program rm_build) rm_build refl rm-Walked
      refl (codes "sudo") (codes "rm" ∷ codes "-rf" ∷ codes "build" ∷ []) rm_words (inl refl)

-- `curl u | sh`
abbrev curl_u : Node
curl_u = simple "curl u" ("curl" ∷ "u" ∷ [])

abbrev just_sh : Node
just_sh = simple "sh" ("sh" ∷ [])

abbrev bar : Node
bar = node (codes "|") false (codes "|") nil

abbrev curl_sh : Node
curl_sh =
    node (codes "pipeline") true (codes "curl u | sh") (cons curl_u (cons bar (cons just_sh nil)))

abbrev parse_curl : Text → Option Node
parse_curl line = some (program curl_sh)

curl-Walked : Walked curl_sh (program curl_sh)
unfolding is
curl-Walked = child refl first self

curl-Feeds : Feeds curl_u just_sh (cons curl_u (cons bar (cons just_sh nil)))
curl-Feeds = now refl (skip refl (next refl))

curl_fetches : IsFetch curl_u
unfolding is words_of words_in is_one_of command_name peel is_wrapper
curl_fetches = (refl, refl)

sh_interprets : IsInterpreter just_sh
unfolding is words_of words_in is_one_of command_name peel is_wrapper
sh_interprets = (refl, refl)

curl_pipeline : is (codes "pipeline") "pipeline" ≡ true
unfolding is
curl_pipeline = refl

assess-download_example : rank destructive ≤ rank (assess parse_curl 1 (codes "curl u | sh")).risk
assess-download_example =
    assess-download parse_curl 0 (codes "curl u | sh") (program curl_sh) curl_sh curl_u just_sh refl
      curl-Walked curl_pipeline curl-Feeds curl_fetches sh_interprets

-- `mv a b`
abbrev mv_a : Node
mv_a = simple "mv a b" ("mv" ∷ "a" ∷ "b" ∷ [])

abbrev parse_mv : Text → Option Node
parse_mv line = some (program mv_a)

mv_words : words_of mv_a ≡ codes "mv" ∷ codes "a" ∷ codes "b" ∷ []
unfolding words_of words_in is_one_of
mv_words = refl

mv_bumps :
    (sub : Text → Assessment)
    → line_bumps sub (program mv_a) ≡ (mutating, codes "mv changes files") ∷ []
unfolding line_bumps walk redirect_rules has_truncating_redirect truncates words_of words_in is
    is_one_of begins contains_char holds contains starts_with command_of command_name peel
    is_wrapper skip_flags classify_command command_rules sudo_rules name_rules file_rules
mv_bumps sub = refl

mv_classified :
    (sub : Text → Assessment)
    → At (mutating, codes "mv changes files") (classify_command sub (words_of mv_a))
unfolding words_of words_in is is_one_of begins contains_char command_of command_name peel
    is_wrapper skip_flags classify_command command_rules sudo_rules name_rules file_rules
mv_classified sub = here

mv-Walked : Walked mv_a (program mv_a)
unfolding is
mv-Walked = child refl first self

assess-command_example :
    (rank mutating ≤ rank (assess parse_mv 1 (codes "mv a b")).risk)
    × At (codes "mv changes files") (assess parse_mv 1 (codes "mv a b")).reasons
assess-command_example =
    assess-command parse_mv 0 (codes "mv a b") (program mv_a) refl mv_a
      (mutating, codes "mv changes files") mv-Walked refl (mv_classified _)

mv_bounded : All (λ b. rank b.0 ≤ 1) (line_bumps (assess parse_mv 0) (program mv_a))
mv_bounded = rw (mv_bumps (assess parse_mv 0)) (omega arith, tt)

assess-exact_example :
    (rank (assess parse_mv 1 (codes "mv a b")).risk ≤ 1)
    × IsDistinct (assess parse_mv 1 (codes "mv a b")).reasons
assess-exact_example = assess-exact parse_mv 0 (codes "mv a b") (program mv_a) refl 1 mv_bounded

assess-Explained_example :
    ((assess parse_mv 1 (codes "mv a b")).risk ≡ read_only)
    ↔ ((assess parse_mv 1 (codes "mv a b")).reasons ≡ [])
assess-Explained_example = assess-Explained parse_mv 1 (codes "mv a b")
