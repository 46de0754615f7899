-- ===== src/Import.antt =====
-- src/import.rs: reading the history file of a shell. Bytes are numbers; the decoder of UTF-8 is an
-- argument. Times are taken to be small enough that no sum or product of two of them overflows,
-- except where a line of the file names a time.
pub mod Bytes
pub mod Kept
pub mod Times
pub mod Tests
use fore_ai_assisted_termina.Prelude.{
  ℕ, zero, suc, ◌+◌, ◌-◌, ◌*◌, ◌/◌, ◌%◌, ◌^◌, Bool, true, false, not, ◌&&◌, ◌||◌, Option, none,
  some, List, [], ◌∷◌, ◌++◌, ltb, leb, ◌==◌, if◌then◌else◌, pop, take_while, skip_while, ℤ, pos,
  negsuc, ltb_ℤ, excess, as_i64, ◌+ℤ◌,
}
use fore_ai_assisted_termina.Prelude.Text.{
  Text, codes, is, is_empty, is_digit, utf8_len, starts_with, strip_prefix, ends_with,
  contains_char, begins, trim,
}
use fore_ai_assisted_termina.Assist.{lines}

-- `b ^ 0x20`
abbrev pub flip : ℕ → ℕ
flip b = if (b / 32) % 2 == 0 then b + 32 else b - 32

unfoldable pub unmetafy : List ℕ → List ℕ
unmetafy [] = []
unmetafy (b ∷ []) = b ∷ []
unmetafy (b ∷ c ∷ cs) =
    let escaped = flip c ∷ unmetafy cs in
    let plain = b ∷ unmetafy (c ∷ cs) in if b == 0x83 then escaped else plain

-- `str::parse::<i64>`
unfoldable pub read_digits : ℕ → Text → Option ℕ
read_digits n [] = some n
read_digits n (c ∷ cs) =
    let rest = read_digits (n * 10 + (c - b'0')) cs in if is_digit c then rest else none

abbrev pub in_range : ℕ → Option ℕ → Option ℕ
in_range top none = none
in_range top (some n) = if leb n top then some n else none

abbrev pub positive : Option ℕ → Option ℤ
positive none = none
positive (some n) = some (pos n)

abbrev pub negative : Option ℕ → Option ℤ
negative none = none
negative (some zero) = some (pos 0)
negative (some (suc n)) = some (negsuc n)

unfoldable pub parse_i64 : Text → Option ℤ
parse_i64 [] = none
parse_i64 (c ∷ cs) =
    let unsigned = positive (in_range (2 ^ 63 - 1) (read_digits 0 (c ∷ cs))) in
    let plus = positive (in_range (2 ^ 63 - 1) (read_digits 0 cs)) in
    let minus = negative (in_range (2 ^ 63) (read_digits 0 cs)) in
    if (c == b'+' || c == b'-') && is_empty cs
    then none
    else if c == b'+'
    then plus
    else if c == b'-'
    then minus
    else unsigned

-- `t * 1000` on `i64`, as a build without overflow checks computes it.
abbrev pub to_ms : ℤ → ℤ
to_ms (pos n) = as_i64 ((n * 1000) % 2 ^ 64)
to_ms (negsuc n) = as_i64 ((2 ^ 64 - (suc n * 1000) % 2 ^ 64) % 2 ^ 64)

-- An element of `raw`.
abbrev pub Raw : Type 0
Raw = Text × Option ℤ

-- `line.strip_prefix('#')…parse().ok()`, if it is a time
unfoldable pub bash_time : Text → Option ℤ
bash_time line = elim (strip_prefix line (codes "#")) [
  | none ↦ none
  | some s ↦ elim (parse_i64 (trim s)) [
    | none ↦ none
    | some ts ↦ if ltb_ℤ (pos 1000000000) ts then some (to_ms ts) else none
  ]
]

-- The loop of the branch for bash.
unfoldable pub bash_entries : Option ℤ → List Text → List Raw
bash_entries pending_ts [] = []
bash_entries pending_ts (line ∷ ls) =
    let skipped = bash_entries pending_ts ls in
    let taken = bash_entries none ls in
    elim (bash_time line) [
      | some ts ↦ bash_entries (some ts) ls
      | none ↦ if is_empty (trim line) then skipped else (line, pending_ts) ∷ taken
    ]

-- `meta.split(':').next()…map(|t| t * 1000)`
unfoldable pub zsh_time : Text → Option ℤ
zsh_time meta = elim (parse_i64 (trim (take_while (λ c. not (c == b':')) meta))) [
  | none ↦ none
  | some t ↦ some (to_ms t)
]

-- `(body, ts, is_new)`; `more` says whether an entry is open.
unfoldable pub zsh_line : Bool → Text → Text × Option ℤ × Bool
zsh_line more line =
    let plain : Text × Option ℤ × Bool = (line, none, not more) in
    elim (strip_prefix line (codes ": ")) [
      | none ↦ plain
      | some rest ↦
          if contains_char rest b';'
          then (
            behind (skip_while (λ c. not (c == b';')) rest),
            zsh_time (take_while (λ c. not (c == b';')) rest),
            true,
          )
          else plain
    ]
  where
    behind : Text → Text
    behind [] = []
    behind (_ ∷ cs) = cs

unfoldable pub continues : Text → Bool
continues body = ends_with body (codes "\\") && not (ends_with body (codes "\\\\"))

-- `cur.take()` pushed to `raw`
abbrev pub flush : Option Raw → List Raw
flush none = []
flush (some c) = c ∷ []

-- The entry that is open behind a line, and what the line has pushed.
unfoldable pub zsh_step : Option Raw → Text → Option Raw × List Raw
zsh_step cur line =
    let is_open : Bool = elim cur [ none ↦ false | some _ ↦ true ] in
    let (line_body, ts, is_new) = zsh_line is_open line in
    let more = continues line_body in
    let body = if more then pop line_body ++ b'\n' ∷ [] else line_body in
    let pushed = if is_new then flush cur else [] in
    let appended : Option Raw = elim cur [
      | none ↦ none
      | some (text, t) ↦ some (text ++ body, t)
    ] in
    let opened = if is_new then some (body, ts) else appended in
    if more then (opened, pushed) else (none, pushed ++ flush opened)

unfoldable pub zsh_entries : Option Raw → List Text → List Raw
zsh_entries cur [] = flush cur
zsh_entries cur (line ∷ ls) =
    let (next, pushed) = zsh_step cur line in pushed ++ zsh_entries next ls

abbrev pub span : ℕ
span = 2592000000

abbrev pub anchor_end : ℕ → ℕ
anchor_end now = now - now % 3600000

-- `a - n`
abbrev pub minus : ℤ → ℕ → ℤ
minus a zero = a
minus a (suc n) = a +ℤ negsuc n

-- `lo + (hi - lo) * step / gap`
unfoldable pub between : ℤ → ℤ → ℕ → ℕ → ℤ
between lo hi step gap =
    if ltb_ℤ hi lo
    then minus lo ((excess lo hi * step) / gap)
    else lo +ℤ pos ((excess hi lo * step) / gap)

-- `j - i` and `ts[j]` at a position without a time
unfoldable pub unknown : List (Option ℤ) → ℕ
unknown [] = 0
unknown (none ∷ ts) = suc (unknown ts)
unknown (some t ∷ ts) = 0

unfoldable pub next_known : List (Option ℤ) → Option ℤ
next_known [] = none
next_known (none ∷ ts) = next_known ts
next_known (some t ∷ ts) = some t

unfoldable pub low : ℕ → Option ℤ → Option ℤ → ℤ
low now (some t) next = t
low now none (some t) = minus t span
low now none none = minus (pos (anchor_end now)) span

unfoldable pub high : ℕ → Option ℤ → ℤ
high now (some t) = t
high now none = pos (anchor_end now)

-- A run of entries without a time: `lo`, `hi`, `gap` and the entries of the run behind us.
pub record Run : Type 0 where
  pub lo : ℤ
  pub hi : ℤ
  pub step : ℕ
  pub gap : ℕ

unfoldable pub start_run : ℕ → Option ℤ → List (Option ℤ) → Run
start_run now last ts = record {
  lo = low now last (next_known ts);
  hi = high now (next_known ts);
  step = 0;
  gap = unknown ts + 1;
}

abbrev pub next_in : Run → Run
next_in r = record r { step = suc r.step }

-- The loop over `i`, with the time before it and the run it is in.
unfoldable pub fill : ℕ → Option ℤ → Option Run → List (Option ℤ) → List ℤ
fill now last run [] = []
fill now last run (some t ∷ ts) = t ∷ fill now (some t) none ts
fill now last (some r) (none ∷ ts) =
    between r.lo r.hi (suc r.step) r.gap ∷ fill now last (some (next_in r)) ts
fill now last none (none ∷ ts) =
    let r = start_run now last (none ∷ ts) in
    between r.lo r.hi (suc r.step) r.gap ∷ fill now last (some (next_in r)) ts

unfoldable pub is_kept : Text → Bool
is_kept cmd =
    not (is_empty cmd || ltb 2000 (utf8_len cmd))
    && not (begins cmd "fore " || is cmd "exit" || is cmd "logout")

pub record Imported : Type 0 where
  pub cmd : Text
  pub ts_ms : ℤ

unfoldable pub keep : List Raw → List ℤ → List Imported
keep [] ts = []
keep (r ∷ raw) [] = []
keep ((cmd, _) ∷ raw) (t ∷ ts) =
    let rest = keep raw ts in
    if is_kept (trim cmd) then record { cmd = trim cmd; ts_ms = t } ∷ rest else rest

abbrev pub times : List Raw → List (Option ℤ)
times [] = []
times ((_, t) ∷ raw) = t ∷ times raw

unfoldable pub read_raw : Text → Text → List Raw
read_raw text shell =
    if is shell "bash" then bash_entries none (lines text) else zsh_entries none (lines text)

unfoldable pub parse : (List ℕ → Text) → List ℕ → Text → ℕ → List Imported
parse from_utf8_lossy bytes shell now =
    let raw = read_raw (from_utf8_lossy (unmetafy bytes)) shell in
    keep raw (fill now none none (times raw))
