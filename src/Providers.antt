-- ===== src/Providers.antt =====
-- src/providers.rs: how the table `[llm]` of the configuration file is edited, line by line, so that
-- all else stays as it is.
pub mod Edits
pub mod Tests
use fore_ai_assisted_termina.Prelude.{
  ℕ, zero, suc, ◌+◌, ◌-◌, Bool, true, false, not, ◌&&◌, Option, none, some, List, [], ◌∷◌, ◌++◌,
  ltb, ◌==◌, if◌then◌else◌, length, take, drop, get_elem?, position, skip_while,
}
use fore_ai_assisted_termina.Prelude.Text.{
  Text, codes, text_eq, is, is_empty, begins, starts_with, contains_char, find, trim, trim_start,
  join,
}
use fore_ai_assisted_termina.Assist.{lines}

abbrev pub is_llm_header : Text → Bool
is_llm_header l = is (trim l) "[llm]"

abbrev pub is_header : Text → Bool
is_header l = begins (trim_start l) "[" && not (begins (trim_start l) "[[")

-- The index of the header of `[llm]`, and that of the next header or of the end.
unfoldable pub llm_span : List Text → Option (ℕ × ℕ)
llm_span ls = elim (position is_llm_header ls) [
  | none ↦ none
  | some start ↦ elim (position is_header (drop (suc start) ls)) [
    | some i ↦ some (start, suc start + i)
    | none ↦ some (start, length ls)
  ]
]

-- `s.split_once(p)`
abbrev pub split_once : Text → Text → Option (Text × Text)
split_once s p = elim (find s p) [ none ↦ none | some i ↦ some (take i s, drop (i + length p) s) ]

unfoldable pub key_of : Text → Option Text
key_of line =
    let t = trim_start line in
    let k : Option Text = elim (split_once t (codes "=")) [
      | none ↦ none
      | some (k, v) ↦ some (trim k)
    ] in
    if begins t "#" then none else k

abbrev pub has_key : Text → Text → Bool
has_key key line = elim (key_of line) [ none ↦ false | some k ↦ text_eq k key ]

-- `(start..end).find(…)` on the lines at those indices
abbrev pub find_between : (Text → Bool) → ℕ → ℕ → List Text → Option ℕ
find_between p start end ls = elim (position p (take (end - start) (drop start ls))) [
  | none ↦ none
  | some i ↦ some (start + i)
]

-- A line of the template that is commented out.
unfoldable pub is_commented : Text → Text → Bool
is_commented key line =
    let t = trim_start line in
    begins t "#" && starts_with (trim_start (skip_while (λ c. c == b'#') t)) (key ++ codes " ")

abbrev pub set_at : ℕ → Text → List Text → List Text
set_at i l ls = take i ls ++ l ∷ drop (suc i) ls

abbrev pub insert_at : ℕ → Text → List Text → List Text
insert_at i l ls = take i ls ++ l ∷ drop i ls

abbrev pub line_at : ℕ → List Text → Text
line_at i ls = elim (get_elem? ls i) [ none ↦ [] | some l ↦ l ]

-- The loop that steps back over blank lines, from `at` on.
unfoldable pub before_blanks : ℕ → List Text → ℕ → ℕ
before_blanks start ls zero = zero
before_blanks start ls (suc at) =
    let back = before_blanks start ls at in
    if ltb start at && is_empty (trim (line_at at ls)) then back else suc at

abbrev pub setting : Text → Text → Text
setting key value = key ++ (codes " = " ++ value)

abbrev pub trailing_comment : Text → Text
trailing_comment line = elim (split_once line (codes " #")) [
  | none ↦ []
  | some (v, c) ↦ codes "  #" ++ c
]

unfoldable pub set_lines : Text → Text → List Text → ℕ → ℕ → List Text
set_lines key value ls start end = elim (find_between (has_key key) (suc start) end ls) [
  | some i ↦ set_at i (setting key value ++ trailing_comment (line_at i ls)) ls
  | none ↦ elim (find_between (is_commented key) (suc start) end ls) [
    | some i ↦ set_at i (setting key value) ls
    | none ↦ insert_at (before_blanks start ls end) (setting key value) ls
  ]
]

unfoldable pub set_llm : Text → Text → Text → Text
set_llm doc key value =
    let edited : List Text = elim (llm_span (lines doc)) [
      | some (start, end) ↦ set_lines key value (lines doc) start end
      | none ↦ set_lines key value (codes "[llm]" ∷ [] ∷ lines doc) 0 2
    ] in
    join (codes "\n") edited ++ codes "\n"

unfoldable pub unset_lines : Text → List Text → List Text
unset_lines key ls = elim (llm_span ls) [
  | none ↦ ls
  | some (start, end) ↦ elim (find_between (has_key key) (suc start) end ls) [
    | none ↦ ls
    | some i ↦ set_at i (codes "# " ++ line_at i ls) ls
  ]
]

unfoldable pub unset_llm : Text → Text → Text
unset_llm doc key = join (codes "\n") (unset_lines key (lines doc)) ++ codes "\n"
