-- ===== src/Insights.antt =====
-- src/insights.rs: the words of a command that decide whether it may be part of an alias, and the short
-- name that is proposed for it. Mine has the miner.
pub mod Mine
pub mod Tallies
pub mod Mined
pub mod Stats
pub mod Measured
pub mod Tests
use fore_ai_assisted_termina.Prelude.{
  ℕ, zero, suc, ◌-◌, Bool, true, false, not, ◌&&◌, ◌||◌, Option, none, some, List, [], ◌∷◌, ◌++◌,
  ltb, ◌==◌, if◌then◌else◌, length, take, keep_if, skip_while, map, String,
}
use fore_ai_assisted_termina.Prelude.Text.{
  Text, codes, is, is_one_of, is_empty, starts_with, begins, contains_char, is_whitespace, is_alnum,
  split, after_last, to_ascii_lowercase, utf8_len,
}

-- `str::split_whitespace`
abbrev pub split_whitespace : Text → List Text
split_whitespace s =
    keep_if (λ w. not (is_empty w)) (split b' ' (map (λ c. if is_whitespace c then b' ' else c) s))

abbrev push_front : ℕ → List Text → List Text
push_front x [] = (x ∷ []) ∷ []
push_front x (t ∷ ts) = (x ∷ t) ∷ ts

-- `s.split(sep)` for a separator that is not empty. `skip` counts the code points of an occurrence
-- that are still to be passed over.
unfoldable pub split_from : ℕ → Text → Text → List Text
split_from skip sep [] = [] ∷ []
split_from (suc skip) sep (x ∷ s) = split_from skip sep s
split_from zero sep (x ∷ s) = elim (starts_with (x ∷ s) sep) [
  | true ↦ [] ∷ split_from (length sep - 1) sep s
  | false ↦ push_front x (split_from 0 sep s)
]

abbrev pub split_text : Text → Text → List Text
split_text sep s = split_from 0 sep s

-- `it.next().unwrap_or("")`
abbrev pub next_word : List Text → Text
next_word [] = []
next_word (w ∷ _) = w

abbrev pub rest_words : List Text → List Text
rest_words [] = []
rest_words (_ ∷ ws) = ws

abbrev read_programs : List String
read_programs =
    "cargo" ∷ "npm" ∷ "pnpm" ∷ "yarn" ∷ "bun" ∷ "make" ∷ "just" ∷ "go" ∷ "pytest" ∷ "jest" ∷ "mvn"
    ∷ "gradle" ∷ "docker" ∷ "kubectl" ∷ "terraform" ∷ "curl" ∷ "wget" ∷ "ssh" ∷ "grep" ∷ "rg"
    ∷ "find" ∷ "diff" ∷ []

abbrev read_git : List String
read_git = "status" ∷ "log" ∷ "diff" ∷ "show" ∷ "blame" ∷ "pull" ∷ "push" ∷ "fetch" ∷ "clone" ∷ []

unfoldable pub is_checkpoint : Text → Bool
is_checkpoint cmd =
    let first = next_word (split_whitespace cmd) in
    let second = next_word (rest_words (split_whitespace cmd)) in
    (is_one_of first read_programs
      && not (is_one_of second ("install" ∷ "add" ∷ "i" ∷ "ci" ∷ "fmt" ∷ "login" ∷ [])))
    || (is first "git" && is_one_of second read_git)

unfoldable pub is_noise : Text → Bool
is_noise cmd =
    is_one_of (next_word (split_whitespace cmd)) (
      "cd" ∷ "ls" ∷ "ll" ∷ "la" ∷ "pwd" ∷ "clear" ∷ "exit" ∷ "history" ∷ "fore" ∷ "echo" ∷ "cat"
      ∷ "vim" ∷ "vi" ∷ "nvim" ∷ "nano" ∷ "man" ∷ [])
    || begins cmd "#"

abbrev first_or : ℕ → Text → ℕ
first_or d [] = d
first_or d (c ∷ _) = c

-- The letter of a word behind the program, if it is to have one.
abbrev pub initial : Text → Text
initial word =
    let w = skip_while (λ c. c == b'-') word in
    let c = first_or b'-' w in
    if is_alnum c
      && not (contains_char w b'=')
      && not (contains_char w b'/')
      && not (contains_char w b'.')
    then c ∷ []
    else []

abbrev pub initials : List Text → Text
initials [] = []
initials (w ∷ ws) = initial w ++ initials ws

-- What one step of a sequence adds to the name.
unfoldable pub part_name : ℕ → List Text → Text
part_name per_part [] = []
part_name per_part (prog ∷ ws) = first_or b'x' (after_last b'/' prog) ∷ initials (take per_part ws)

unfoldable pub parts_name : ℕ → List Text → Text
parts_name per_part [] = []
parts_name per_part (part ∷ parts) =
    part_name per_part
      (keep_if (λ w. not (begins w "\"") && not (begins w "'")) (split_whitespace part))
    ++ parts_name per_part parts

abbrev reserved : List String
reserved =
    "cd" ∷ "ls" ∷ "rm" ∷ "mv" ∷ "cp" ∷ "dd" ∷ "sh" ∷ "ps" ∷ "du" ∷ "df" ∷ "bg" ∷ "fg" ∷ "cc" ∷ "gc"
    ∷ "go" ∷ "vi" ∷ "ln" ∷ "nc" ∷ "od" ∷ "tr" ∷ "wc" ∷ "ar" ∷ "as" ∷ "ld" ∷ "nl" ∷ "pr" ∷ "ul"
    ∷ "ex" ∷ "ed" ∷ "id" ∷ "w" ∷ "ip" ∷ []

unfoldable pub short_name : Text → Text
short_name cmd =
    let parts = split_text (codes "&&") cmd in
    let per_part = if ltb 1 (length parts) then 1 else 3 in
    let name = to_ascii_lowercase (keep_if is_alnum (parts_name per_part parts)) in
    if ltb (utf8_len name) 2 || is_one_of name reserved then name ++ codes "x" else name
