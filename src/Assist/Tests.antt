-- ===== src/Assist/Tests.antt =====
-- Replies of a model, as in the tests of src/assist.rs.
use fore_ai_assisted_termina.Prelude.{◌≡◌, refl, some, [], ◌∷◌, ◌++◌}
use fore_ai_assisted_termina.Prelude.Text.{
  Text, codes, begins, ends_with, contains_char, strip_prefix, replace, replace_from, starts_with,
  split,
}
use fore_ai_assisted_termina.Assist.{
  lines, clean_reply, unwrap_backticks, labelled, read_line, read_lines, both, parse_two,
}
use fore_ai_assisted_termina.Assist.Replies.{Said, parse_two-Said}

abbrev reply : Text
reply =
    codes "**WHY:** typo in subcommand" ++ (10 ∷ 10 ∷ codes "**FIX:** `cargo test`") ++ (10 ∷ [])

reply_parts :
    parse_two reply (codes "WHY:") (codes "FIX:")
    ≡ some (codes "typo in subcommand", codes "cargo test")
unfolding parse_two both read_lines read_line labelled unwrap_backticks clean_reply lines begins
    ends_with contains_char strip_prefix replace replace_from starts_with split
reply_parts = refl

parse_two-Said_example :
    Said (lines (clean_reply reply)) (codes "WHY:") (codes "typo in subcommand")
    × Said (lines (clean_reply reply)) (codes "FIX:") (codes "cargo test")
parse_two-Said_example =
    parse_two-Said reply (codes "WHY:") (codes "FIX:") (codes "typo in subcommand")
      (codes "cargo test") reply_parts
