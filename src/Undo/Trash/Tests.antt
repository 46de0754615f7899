-- ===== src/Undo/Trash/Tests.antt =====
-- A small file system for the theorems on the trash of src/undo.rs.
use fore_ai_assisted_termina.Prelude.{
  ℕ, ◌≤◌, ◌≡◌, ◌⊎◌, All, here, refl, sym, ap, ◌∙◌, inl, inr, Bool, true, false, none, some, [], ◌∷◌,
  ◌++◌, arith, ltb, length, length-append, pop, At, At-cases,
}
use fore_ai_assisted_termina.Prelude.Text.{
  Text, codes, is, is_one_of, begins, split, text_eq, starts_with,
}
use fore_ai_assisted_termina.Prelude.Text.Decimal.{digits, decimal}
use fore_ai_assisted_termina.Undo.{
  RmPlan, no_plan, AbsPath, normalize, normalize_onto, is_protected, validate, check_target,
  check_found, may_remove,
}
use fore_ai_assisted_termina.Undo.Files.{
  regular, directory, Os, path_eq, inside, lookup, stat, follow, exists, has_below, without_below,
  make_dirs, relocated, gives_way, moved, rename, remove_dir, remove_dir_all,
}
use fore_ai_assisted_termina.Undo.Trash.{
  Entry, Journal, World, RmOutcome, measure, measure_below, disk_of, move_path, trash_one,
  trash_all, put_journal, journal_of, close, trash_checked, rm_prepared, rm_validated, safe_rm,
  last_or,
}
use fore_ai_assisted_termina.Undo.Trash.Restore.{
  insert_journal, list, is_wanted, find_journal, nothing_to_undo, late_name, free_name, alt_name,
  restore_beside, restore_back, restore_all, remove_slots, finish_undo, undo, is_old, purge_all,
  purge,
}
use fore_ai_assisted_termina.Undo.Trash.Moves.{IsLocal}
use fore_ai_assisted_termina.Undo.Trash.Lookup.{path_eq-apart}
use fore_ai_assisted_termina.Undo.Trash.Safe.{Recorded, safe_rm-Recorded}
use fore_ai_assisted_termina.Undo.Trash.Undone.{undo-stat}
use fore_ai_assisted_termina.Undo.Trash.Rounds.{Held}
use fore_ai_assisted_termina.Undo.Trash.Back.{Ready, complains, undo-Held}
use fore_ai_assisted_termina.Undo.Trash.Journals.{Keeps, list-newest, purge-Keeps}

-- A system that permits everything.
abbrev pub os : Os
os = record {
  moves = λ from to. true;
  makes = λ p. true;
  writes = λ p. true;
  removes = λ p. true;
  crosses = λ from to. false;
  stops_after = λ p. none;
  sets_mode = λ p. true;
  error = λ p. codes "denied";
}

os-IsLocal : IsLocal os
os-IsLocal from to = refl

abbrev pub work : AbsPath
work = codes "work" ∷ []

abbrev pub trash : AbsPath
trash = codes "trash" ∷ []

abbrev pub world : World
world = record {
  files =
      (work, directory)
      ∷ (work ++ codes "a" ∷ [], directory)
      ∷ (work ++ codes "a" ∷ codes "b" ∷ [], regular (codes "text"))
      ∷ (trash, directory)
      ∷ [];
  journals = [];
}

abbrev pub rm_a : RmPlan
rm_a = record no_plan { recursive = true; targets = codes "a" ∷ [] }

abbrev pub no_bytes : ℕ → Text
no_bytes n = []

abbrev removed : World × RmOutcome
removed =
    safe_rm os trash work (codes "rm -r a") rm_a (codes "7") 7 (codes "/root") no_bytes 1000 world

safe_rm-Recorded_example :
    Recorded removed (work ++ codes "a" ∷ codes "b" ∷ []) (regular (codes "text"))
unfolding safe_rm rm_prepared rm_validated trash_checked close journal_of put_journal trash_all
    trash_one move_path disk_of measure measure_below validate check_target check_found may_remove
    normalize normalize_onto is_protected is is_one_of begins split text_eq path_eq inside lookup
    stat follow exists has_below without_below make_dirs relocated gives_way moved rename remove_dir
    remove_dir_all insert_journal list is_wanted find_journal free_name alt_name restore_beside
    restore_back restore_all remove_slots finish_undo undo digits decimal starts_with
safe_rm-Recorded_example =
    safe_rm-Recorded os os-IsLocal trash work (codes "rm -r a") rm_a (codes "7") 7 (codes "/root")
      no_bytes 1000 world (work ++ codes "a" ∷ codes "b" ∷ []) (regular (codes "text"))
      (refl, (refl, (refl, (refl, tt)))) refl

-- The run: the text is in slot 0, and `undo` brings it back.
removed_run :
    (stat removed.0.files (work ++ codes "a" ∷ []) ≡ none)
    × (stat removed.0.files (trash ++ codes "7" ∷ codes "0" ∷ codes "a" ∷ codes "b" ∷ [])
        ≡ some (regular (codes "text")))
unfolding safe_rm rm_prepared rm_validated trash_checked close journal_of put_journal trash_all
    trash_one move_path disk_of measure measure_below validate check_target check_found may_remove
    normalize normalize_onto is_protected is is_one_of begins split text_eq path_eq inside lookup
    stat follow exists has_below without_below make_dirs relocated gives_way moved rename remove_dir
    remove_dir_all insert_journal list is_wanted find_journal free_name alt_name restore_beside
    restore_back restore_all remove_slots finish_undo undo digits decimal starts_with
removed_run = (refl, refl)

abbrev back : World
back = (undo os trash 8 none removed.0).0

undone_run :
    (stat back.files (work ++ codes "a" ∷ codes "b" ∷ []) ≡ some (regular (codes "text")))
    × (stat back.files (trash ++ codes "7" ∷ codes "0" ∷ []) ≡ none)
    × ((undo os trash 9 none back).1 ≡ nothing_to_undo)
unfolding safe_rm rm_prepared rm_validated trash_checked close journal_of put_journal trash_all
    trash_one move_path disk_of measure measure_below validate check_target check_found may_remove
    normalize normalize_onto is_protected is is_one_of begins split text_eq path_eq inside lookup
    stat follow exists has_below without_below make_dirs relocated gives_way moved rename remove_dir
    remove_dir_all insert_journal list is_wanted find_journal free_name alt_name restore_beside
    restore_back restore_all remove_slots finish_undo undo digits decimal starts_with
undone_run = (refl, refl, refl)

abbrev entry_a : Entry
entry_a = record {
  from = work ++ codes "a" ∷ [];
  to = trash ++ codes "7" ∷ codes "0" ∷ codes "a" ∷ [];
  is_dir = true;
  bytes = 4;
  files = 1;
}

abbrev journal_a : Journal
journal_a = record {
  id = codes "7";
  ts_ms = 7;
  cwd = codes "/work";
  cmdline = codes "rm -r a";
  entries = entry_a ∷ [];
  total_bytes = 4;
  total_files = 1;
  restored = false;
}

found_a : find_journal none (list removed.0.journals) ≡ some journal_a
unfolding safe_rm rm_prepared rm_validated trash_checked close journal_of put_journal trash_all
    trash_one move_path disk_of measure measure_below validate check_target check_found may_remove
    normalize normalize_onto is_protected is is_one_of begins split text_eq path_eq inside lookup
    stat follow exists has_below without_below make_dirs relocated gives_way moved rename remove_dir
    remove_dir_all insert_journal list is_wanted find_journal free_name alt_name restore_beside
    restore_back restore_all remove_slots finish_undo undo digits decimal starts_with
found_a = refl

Ready-a : All (Ready trash removed.0.files) (entry_a ∷ [])
unfolding safe_rm rm_prepared rm_validated trash_checked close journal_of put_journal trash_all
    trash_one move_path disk_of measure measure_below validate check_target check_found may_remove
    normalize normalize_onto is_protected is is_one_of begins split text_eq path_eq inside lookup
    stat follow exists has_below without_below make_dirs relocated gives_way moved rename remove_dir
    remove_dir_all insert_journal list is_wanted find_journal free_name alt_name restore_beside
    restore_back restore_all remove_slots finish_undo undo digits decimal starts_with
Ready-a = ((refl, refl, refl, (refl, (refl, (refl, (refl, (refl, (refl, tt))))))), tt)

Held-a :
    Held removed.0.files
      (entry_a ∷ [])
      (work ++ codes "a" ∷ codes "b" ∷ [])
      (regular (codes "text"))
unfolding safe_rm rm_prepared rm_validated trash_checked close journal_of put_journal trash_all
    trash_one move_path disk_of measure measure_below validate check_target check_found may_remove
    normalize normalize_onto is_protected is is_one_of begins split text_eq path_eq inside lookup
    stat follow exists has_below without_below make_dirs relocated gives_way moved rename remove_dir
    remove_dir_all insert_journal list is_wanted find_journal free_name alt_name restore_beside
    restore_back restore_all remove_slots finish_undo undo digits decimal starts_with
Held-a = inr (entry_a, here, codes "b" ∷ [], refl, refl)

b_outside : inside trash (work ++ codes "a" ∷ codes "b" ∷ []) ≡ false
unfolding inside text_eq
b_outside = refl

undo-Held_example :
    (stat (undo os trash 8 none removed.0).0.files (work ++ codes "a" ∷ codes "b" ∷ [])
      ≡ some (regular (codes "text")))
    ⊎ (complains (undo os trash 8 none removed.0).1 ≡ true)
undo-Held_example =
    undo-Held os trash 8 none removed.0 journal_a (work ++ codes "a" ∷ codes "b" ∷ [])
      (regular (codes "text")) os-IsLocal found_a Ready-a (tt, tt) b_outside Held-a

-- `rm -r a/b a`: `undo` makes `a` for `a/b`, and then finds it in the way of `a`.
abbrev rm_both : RmPlan
rm_both = record no_plan { recursive = true; targets = codes "a/b" ∷ codes "a" ∷ [] }

abbrev both : World × RmOutcome
both =
    safe_rm os trash work (codes "rm -r a/b a") rm_both (codes "7") 7 (codes "/root") no_bytes 1000
      world

both_run :
    stat (undo os trash 8 none both.0).0.files (work ++ codes "a.restored" ∷ []) ≡ some directory
unfolding safe_rm rm_prepared rm_validated trash_checked close journal_of put_journal trash_all
    trash_one move_path disk_of measure measure_below validate check_target check_found may_remove
    normalize normalize_onto is_protected is is_one_of begins split text_eq path_eq inside lookup
    stat follow exists has_below without_below make_dirs relocated gives_way moved rename remove_dir
    remove_dir_all insert_journal list is_wanted find_journal free_name alt_name restore_beside
    restore_back restore_all remove_slots finish_undo undo digits decimal starts_with
both_run = refl

last_or-append : (name c : Text) (p : AbsPath) → last_or name (p ++ c ∷ []) ≡ c
last_or-append name c [] = refl
last_or-append name c (d ∷ []) = refl
last_or-append name c (d ∷ e ∷ p) = last_or-append name c (e ∷ p)

has_short_name : AbsPath → Bool
has_short_name p = ltb (length (last_or [] p)) 10

late_name-long : (now : ℕ) (q : AbsPath) → has_short_name (late_name now q) ≡ false
unfolding has_short_name
late_name-long now q =
    let stem = last_or (codes "restored") q in
    let name = stem ++ (codes ".restored-" ++ decimal now) in
    ap (λ t. ltb (length t) 10) (last_or-append [] name (pop q))
    ∙ ground (
      arith,
      length-append stem (codes ".restored-" ++ decimal now),
      length-append (codes ".restored-") (decimal now),
    )

work_not_late : (q : AbsPath) → path_eq (late_name 8 q) work ≡ false
unfolding has_short_name
work_not_late q =
    path_eq-apart (λ x. has_short_name x) work (late_name 8 q) refl (late_name-long 8 q)

undo-stat_example : stat (undo os trash 8 none both.0).0.files work ≡ some directory
unfolding safe_rm rm_prepared rm_validated trash_checked close journal_of put_journal trash_all
    trash_one move_path disk_of measure measure_below validate check_target check_found may_remove
    normalize normalize_onto is_protected is is_one_of begins split text_eq path_eq inside lookup
    stat follow exists has_below without_below make_dirs relocated gives_way moved rename remove_dir
    remove_dir_all insert_journal list is_wanted find_journal free_name alt_name restore_beside
    restore_back restore_all remove_slots finish_undo undo digits decimal starts_with
undo-stat_example =
    undo-stat os trash 8 none both.0 work directory os-IsLocal ((refl, (refl, tt)), tt) refl refl
      work_not_late refl

abbrev journal : ℕ → Journal
journal ts = record {
  id = decimal ts;
  ts_ms = ts;
  cwd = codes "/work";
  cmdline = codes "rm a";
  entries = [];
  total_bytes = 4;
  total_files = 1;
  restored = false;
}

newest_run : find_journal none (list (journal 5 ∷ journal 9 ∷ [])) ≡ some (journal 9)
unfolding list insert_journal find_journal is_wanted
newest_run = refl

list-newest_example :
    (is_wanted none (journal 9) ≡ true)
    × ((i : Journal) → At i (journal 5 ∷ journal 9 ∷ []) → is_wanted none i ≡ true → i.ts_ms ≤ 9)
list-newest_example = list-newest none (journal 5 ∷ journal 9 ∷ []) (journal 9) newest_run

-- One operation that is two days old, and one of this day.
abbrev aged : World
aged = record {
  files =
      (trash, directory)
      ∷ (trash ++ decimal 200000000 ∷ [], directory)
      ∷ (trash ++ decimal 5 ∷ [], directory)
      ∷ [];
  journals = journal 200000000 ∷ journal 5 ∷ [];
}

unlike : text_eq (decimal 5) (decimal 200000000) ≡ false
unfolding text_eq decimal digits
unlike = refl

young : is_old 200000001 1 (journal 200000000) ≡ true → ⊥
unfolding is_old
young h = cc h

old_is_other :
    (j : Journal)
    → is_old 200000001 1 j ≡ true
    → At j aged.journals
    → text_eq j.id (decimal 200000000) ≡ false
old_is_other j o m = elim (At-cases m) [
  | inl e ↦ absurd (young (ap (is_old 200000001 1) (sym e) ∙ o))
  | inr n ↦ elim (At-cases n) [
    | inl e ↦ ap (λ (x : Journal). text_eq x.id (decimal 200000000)) e ∙ unlike
    | inr z ↦ elim z [ ]
  ]
]

purge-Keeps_example : Keeps trash (journal 200000000) aged (purge os trash 200000001 1 false aged).0
purge-Keeps_example = purge-Keeps os trash 200000001 1 (journal 200000000) aged old_is_other

purged_run :
    ((purge os trash 200000001 1 false aged).1 ≡ 1)
    × ((purge os trash 200000001 1 false aged).2 ≡ 4)
unfolding purge purge_all is_old list insert_journal remove_dir_all
purged_run = (refl, refl)
