-- ===== src/Redact/Assign.antt =====
-- Layer 2 of src/redact.rs: `key=value`, `--key value`, `Key: value`, line by line.
pub mod Cuts
pub mod Lines
pub mod Cover
use fore_ai_assisted_termina.Prelude.{
  ℕ, zero, suc, ◌+◌, ◌-◌, String, Bool, true, false, not, ◌&&◌, ◌||◌, Option, none, some, List, [],
  ◌∷◌, ◌++◌, map, reverse, ltb, ◌==◌, if◌then◌else◌, length, take, drop, position,
}
use fore_ai_assisted_termina.Prelude.Text.{
  Text, codes, is_alnum, is_whitespace, to_ascii_lowercase, text_eq, is, begins, find, ends_with,
  strip_prefix, trim_start, split, join,
}
use fore_ai_assisted_termina.Redact.Known.{mask}

abbrev pub assign_keys : List String
assign_keys =
    "password" ∷ "passwd" ∷ "pwd" ∷ "secret" ∷ "token" ∷ "api_key" ∷ "apikey" ∷ "api-key"
    ∷ "access_key" ∷ "private_key" ∷ "client_secret" ∷ "auth" ∷ "authorization" ∷ "bearer" ∷ []

abbrev pub schemes : List String
schemes = "Bearer " ∷ "bearer " ∷ "Basic " ∷ "Token " ∷ "token " ∷ []

-- Not inside a longer word: the character before is none or no letter or digit.
abbrev starts_word : Text → Bool
starts_word [] = true
starts_word (c ∷ _) = not (is_alnum c)

-- How far behind the key its value begins, if a separator introduces one.
unfoldable pub separator : Text → Text → Text → ℕ → ℕ → Option ℕ
unfolding begins text_eq ends_with is
separator line lower key kstart kend =
    let after = drop kend line in
    let trimmed = trim_start after in
    let sep_len = length after - length trimmed in
    if begins trimmed "=" || begins trimmed ":"
    then some (sep_len + 1)
    else if ltb 0 sep_len && text_eq (take (kend - kstart) (drop kstart lower)) key
    then (if is key "bearer"
          || ends_with (take kstart line) (codes "--")
          || ends_with (take kstart line) (codes "-")
        then some sep_len
        else none)
    else none

-- The opening quote to skip, and where the value ends.
abbrev opening : Text → ℕ
opening [] = 0
opening (c ∷ _) = if c == 34 || c == 39 then 1 else 0

abbrev ends_bare : ℕ → Bool
ends_bare c = is_whitespace c || c == b'&' || c == b';' || c == b'|' || c == 34 || c == 39

abbrev terminator : Text → ℕ → Bool
terminator [] = ends_bare
terminator (q ∷ _) = if q == 34 || q == 39 then (λ c. c == q) else ends_bare

-- `Authorization: Bearer <tok>` keeps the scheme word: what is left of the value.
unfoldable pub strip_scheme : List String → Text → Text
unfolding strip_prefix
strip_scheme [] body = body
strip_scheme (s ∷ ss) body =
    let later = strip_scheme ss body in
    elim (strip_prefix body (codes s)) [ some rest ↦ trim_start rest | none ↦ later ]

abbrev or_else : ℕ → Option ℕ → ℕ
or_else d none = d
or_else d (some n) = n

-- The range of a value whose text, from its first character on, is `vslice`.
unfoldable pub value_range : Text → ℕ → Text → Option (ℕ × ℕ)
unfolding strip_scheme
value_range line value_from [] = none
value_range line value_from (q ∷ v) =
    let vstart = value_from + (length (drop value_from line) - length (q ∷ v)) in
    let skip = opening (q ∷ v) in
    let quoted = drop skip (q ∷ v) in
    let body = strip_scheme schemes quoted in
    let start = vstart + (length quoted - length body) in
    let vlen = or_else (length body) (position (terminator (q ∷ v)) body) in
    if vlen == 0 then none else some (start + skip, start + skip + vlen)

unfoldable pub value_cut : Text → ℕ → Option (ℕ × ℕ)
unfolding value_range
value_cut line value_from = value_range line value_from (trim_start (drop value_from line))

unfoldable pub cut_at : Text → Text → Text → ℕ → ℕ → Option (ℕ × ℕ)
unfolding separator value_cut
cut_at line lower key kstart kend =
    if starts_word (reverse (take kstart line))
    then elim (separator line lower key kstart kend) [
      | none ↦ none
      | some vstart_rel ↦ value_cut line (kend + vstart_rel)
    ]
    else none

abbrev pub push_cut : Option (ℕ × ℕ) → List (ℕ × ℕ) → List (ℕ × ℕ)
push_cut none cuts = cuts
push_cut (some c) cuts = c ∷ cuts

-- The `while let` loop over the occurrences of one key, a round for each.
unfoldable pub key_cuts : ℕ → Text → Text → Text → ℕ → List (ℕ × ℕ)
unfolding cut_at find
key_cuts zero line lower key from = []
key_cuts (suc fuel) line lower key from = elim (find (drop from lower) key) [
  | none ↦ []
  | some pos ↦
      let kstart = from + pos in
      let kend = kstart + length key in
      push_cut (cut_at line lower key kstart kend) (key_cuts fuel line lower key kend)
]

unfoldable pub all_cuts : List String → Text → List (ℕ × ℕ)
unfolding key_cuts
all_cuts [] line = []
all_cuts (key ∷ keys) line =
    key_cuts (suc (length line)) line (to_ascii_lowercase line) (codes key) 0 ++ all_cuts keys line

-- `cuts.sort()`, by the start and then by the end.
abbrev pub before : ℕ × ℕ → ℕ × ℕ → Bool
before (a, b) (c, d) = ltb a c || (a == c && not (ltb d b))

unfoldable pub insert_cut : ℕ × ℕ → List (ℕ × ℕ) → List (ℕ × ℕ)
insert_cut c [] = c ∷ []
insert_cut c (d ∷ ds) = let later = d ∷ insert_cut c ds in if before c d then c ∷ d ∷ ds else later

unfoldable pub sort_cuts : List (ℕ × ℕ) → List (ℕ × ℕ)
unfolding insert_cut
sort_cuts [] = []
sort_cuts (c ∷ cs) = insert_cut c (sort_cuts cs)

-- The loop that writes the line with its cuts masked; a cut that starts in an earlier one is
-- skipped. `i` is where the text not yet written begins.
unfoldable pub render : Text → ℕ → List (ℕ × ℕ) → Text
render line i [] = drop i line
render line i ((a, b) ∷ cuts) =
    let skipped = render line i cuts in
    let masked = take (a - i) (drop i line) ++ (mask ++ render line b cuts) in
    if ltb a i then skipped else masked

unfoldable pub redact_assignments_line : Text → Text
unfolding all_cuts sort_cuts render
redact_assignments_line line = elim (all_cuts assign_keys line) [
  | [] ↦ line
  | c ∷ cs ↦ render line 0 (sort_cuts (c ∷ cs))
]

unfoldable pub redact_assignments : Text → Text
unfolding redact_assignments_line split
redact_assignments s = join (codes "\n") (map redact_assignments_line (split 10 s))
