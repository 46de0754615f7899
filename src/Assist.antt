-- ===== src/Assist.antt =====
-- The reading of a model's reply in src/assist.rs.
pub mod Replies
pub mod Ask
pub mod Sent
pub mod Tests
use fore_ai_assisted_termina.Prelude.{
  ℕ, suc, ◌+◌, ◌-◌, Bool, true, false, not, ◌&&◌, ◌||◌, Option, none, some, List, [], ◌∷◌, leb,
  ◌==◌, if◌then◌else◌, length, drop, pop, map,
}
use fore_ai_assisted_termina.Prelude.Text.{
  is_empty, Text, codes, text_eq, begins, ends_with, contains_char, strip_prefix, replace, trim,
  split, join, utf8_len,
}

-- The line without the `\r` before its `\n`
abbrev without_return : Text → Text
without_return l = if ends_with l (13 ∷ []) then pop l else l

-- The last piece has no `\n` behind it, and is a line if it is not empty.
abbrev ended_lines : List Text → List Text
ended_lines [] = []
ended_lines (l ∷ []) = if is_empty l then [] else l ∷ []
ended_lines (l ∷ m ∷ ls) = without_return l ∷ ended_lines (m ∷ ls)

-- `str::lines`
unfoldable pub lines : Text → List Text
lines s = ended_lines (split b'\n' s)

abbrev inside : Text → Text
inside v = pop (drop 1 v)

unfoldable pub unwrap_backticks : Text → Text
unwrap_backticks v =
    if leb 2 (utf8_len v)
      && begins v "`"
      && ends_with v (codes "`")
      && not (contains_char (inside v) b'`')
    then inside v
    else v

unfoldable pub clean_reply : Text → Text
clean_reply raw =
    replace
      (replace (replace (replace raw (codes "**") []) (codes "```sh") []) (codes "```bash") [])
      (codes "```") []

-- What a line says under a label.
unfoldable pub labelled : Text → Text → Option Text
labelled label line = elim (strip_prefix (trim line) label) [
  | none ↦ none
  | some rest ↦ some (unwrap_backticks (trim rest))
]

abbrev pub Found : Type 0
Found = Option Text × Option Text

-- A round of the loop over the lines, and the loop.
unfoldable pub read_line : Text → Text → Found → Text → Found
read_line a b (va, vb) line = elim (labelled a line) [
  | some x ↦ (some x, vb)
  | none ↦ elim (labelled b line) [ some y ↦ (va, some y) | none ↦ (va, vb) ]
]

unfoldable pub read_lines : Text → Text → Found → List Text → Found
read_lines a b found [] = found
read_lines a b found (l ∷ ls) = read_lines a b (read_line a b found l) ls

unfoldable pub both : Found → Option (Text × Text)
both (some x, some y) = if not (is_empty y) || not (is_empty x) then some (x, y) else none
both (none, vb) = none
both (some x, none) = none

unfoldable pub parse_two : Text → Text → Text → Option (Text × Text)
parse_two raw a b = both (read_lines a b (none, none) (lines (clean_reply raw)))

unfoldable pub last_lines : Text → ℕ → Text
last_lines s n = let ls = lines s in join (codes "\n") (drop (length ls - n) ls)
