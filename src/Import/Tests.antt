-- ===== src/Import/Tests.antt =====
-- A history file for the theorems on src/import.rs.
use fore_ai_assisted_termina.Prelude.{
  ℕ, ◌≡◌, refl, ◌||◌, none, some, List, [], ◌∷◌, ◌==◌, All, pos, arith, ◌+ℤ◌,
}
use fore_ai_assisted_termina.Prelude.Text.{
  Text, codes, is, begins, split, strip_prefix, ends_with, contains_char, text_eq, starts_with,
}
use fore_ai_assisted_termina.Assist.{lines}
use fore_ai_assisted_termina.Import.{
  unmetafy, read_digits, parse_i64, bash_time, bash_entries, zsh_time, zsh_line, zsh_step,
  zsh_entries, continues, between, unknown, next_known, low, high, start_run, fill, is_kept, keep,
  times, read_raw, parse, anchor_end,
}
use fore_ai_assisted_termina.Import.Bytes.{metafy, unmetafy-metafy}
use fore_ai_assisted_termina.Import.Times.{Ascending, Known}
use fore_ai_assisted_termina.Import.Kept.{Importable, stamps, parse-Importable, parse-Ascending}

-- The bytes of `é¤`, two of which zsh escapes.
unmetafy-metafy_example :
    unmetafy (metafy (λ b. b == 0x83 || b == 0xa4) (0xc3 ∷ 0xa9 ∷ 0x83 ∷ 0xa4 ∷ []))
    ≡ 0xc3 ∷ 0xa9 ∷ 0x83 ∷ 0xa4 ∷ []
unmetafy-metafy_example =
    unmetafy-metafy (λ b. b == 0x83 || b == 0xa4) (0xc3 ∷ 0xa9 ∷ 0x83 ∷ 0xa4 ∷ []) refl

-- Bytes of ASCII are their own code points.
abbrev ascii : List ℕ → Text
ascii bytes = bytes

abbrev zsh_file : List ℕ
zsh_file =
    codes
      ": 1700000000:0;git status\n: 1700000100:5;cargo build \\\n  --release\nplain\n: 1700000200:0;ls\nexit\n"

abbrev now : ℕ
now = 1800000000000

zsh_run :
    parse ascii zsh_file (codes "zsh") now
    ≡ record { cmd = codes "git status"; ts_ms = pos 1700000000000 }
      ∷ record { cmd = codes "cargo build \n  --release"; ts_ms = pos 1700000100000 }
      ∷ record { cmd = codes "plain"; ts_ms = pos 1700000150000 }
      ∷ record { cmd = codes "ls"; ts_ms = pos 1700000200000 }
      ∷ []
unfolding unmetafy read_digits parse_i64 bash_time bash_entries zsh_time zsh_line zsh_step
    zsh_entries continues between unknown next_known low high start_run fill is_kept keep read_raw
    parse lines is begins split strip_prefix ends_with contains_char text_eq starts_with ◌+ℤ◌
zsh_run = refl

bash_run :
    read_raw (codes "ls\n#1700000000\n\nmake\n# note\n") (codes "bash")
    ≡ (codes "ls", none) ∷ (codes "make", some (pos 1700000000000)) ∷ (codes "# note", none) ∷ []
unfolding unmetafy read_digits parse_i64 bash_time bash_entries zsh_time zsh_line zsh_step
    zsh_entries continues between unknown next_known low high start_run fill is_kept keep read_raw
    parse lines is begins split strip_prefix ends_with contains_char text_eq starts_with ◌+ℤ◌
bash_run = refl

parse-Importable_example : All Importable (parse ascii zsh_file (codes "zsh") now)
parse-Importable_example = parse-Importable ascii zsh_file (codes "zsh") now

zsh-Known : Known (pos (anchor_end now)) (times (read_raw (unmetafy zsh_file) (codes "zsh")))
unfolding unmetafy read_digits parse_i64 bash_time bash_entries zsh_time zsh_line zsh_step
    zsh_entries continues between unknown next_known low high start_run fill is_kept keep read_raw
    parse lines is begins split strip_prefix ends_with contains_char text_eq starts_with ◌+ℤ◌
zsh-Known = (omega arith, (omega arith, omega arith, (omega arith, omega arith, tt)))

parse-Ascending_example : Ascending (stamps (parse ascii zsh_file (codes "zsh") now))
parse-Ascending_example = parse-Ascending ascii zsh_file (codes "zsh") now zsh-Known
