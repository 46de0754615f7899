-- ===== src/Providers/Tests.antt =====
-- The edits that the tests of src/providers.rs make, and one of a header with a comment.
use fore_ai_assisted_termina.Prelude.{◌≡◌, refl, List, [], ◌∷◌}
use fore_ai_assisted_termina.Prelude.Text.{
  Text, codes, text_eq, is, begins, starts_with, find, split, ends_with,
}
use fore_ai_assisted_termina.Assist.{lines}
use fore_ai_assisted_termina.Providers.{
  llm_span, key_of, is_commented, before_blanks, set_lines, set_llm, unset_lines, unset_llm,
}

replaced :
    set_llm
      (codes "[llm]\nbase_url = \"http://a\"   # local\nmodel = \"m\"\n\n[ui]\nx = 1\n")
      (codes "base_url")
      (codes "\"http://b\"")
    ≡ codes "[llm]\nbase_url = \"http://b\"  # local\nmodel = \"m\"\n\n[ui]\nx = 1\n"
unfolding set_llm set_lines llm_span key_of is_commented before_blanks lines text_eq is begins
    starts_with find split ends_with
replaced = refl

appended :
    set_llm (codes "[llm]\nmodel = \"m\"\n\n[ui]\nx = 1\n") (codes "new") (codes "1")
    ≡ codes "[llm]\nmodel = \"m\"\nnew = 1\n\n[ui]\nx = 1\n"
unfolding set_llm set_lines llm_span key_of is_commented before_blanks lines text_eq is begins
    starts_with find split ends_with
appended = refl

created :
    set_llm (codes "[ui]\nx = 1\n") (codes "model") (codes "\"x\"")
    ≡ codes "[llm]\nmodel = \"x\"\n\n[ui]\nx = 1\n"
unfolding set_llm set_lines llm_span key_of is_commented before_blanks lines text_eq is begins
    starts_with find split ends_with
created = refl

commented_out :
    unset_llm (codes "[llm]\napi_key = \"sk\"\nmodel = \"m\"\n") (codes "api_key")
    ≡ codes "[llm]\n# api_key = \"sk\"\nmodel = \"m\"\n"
unfolding unset_llm unset_lines llm_span key_of lines text_eq is begins starts_with find split
    ends_with
commented_out = refl

-- A header with a comment behind it is not found, and a second one is written above it.
second_header :
    set_llm (codes "[llm] # mine\nmodel = \"m\"\n") (codes "model") (codes "\"x\"")
    ≡ codes "[llm]\nmodel = \"x\"\n\n[llm] # mine\nmodel = \"m\"\n"
unfolding set_llm set_lines llm_span key_of is_commented before_blanks lines text_eq is begins
    starts_with find split ends_with
second_header = refl

abbrev config : List Text
config = codes "[ui]" ∷ codes "[llm]" ∷ codes "# model = \"m\"" ∷ [] ∷ codes "[undo]" ∷ []
