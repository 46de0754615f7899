-- ===== src/Undo/Trash/Across.antt =====
-- Moves of src/undo.rs to another file system.
use fore_ai_assisted_termina.Prelude.{◌≡◌, refl, none, some, [], ◌∷◌, not, ◌&&◌, ◌++◌}
use fore_ai_assisted_termina.Prelude.Text.{
  codes, is, is_one_of, begins, split, text_eq, starts_with,
}
use fore_ai_assisted_termina.Prelude.Text.Decimal.{digits, decimal}
use fore_ai_assisted_termina.Undo.{
  normalize, normalize_onto, is_protected, validate, check_target, check_found, may_remove,
}
use fore_ai_assisted_termina.Undo.Files.{
  regular, directory, Os, path_eq, inside, lookup, stat, follow, exists, has_below, without_below,
  make_dirs, relocated, gives_way, moved, rename, remove_dir, remove_dir_all,
}
use fore_ai_assisted_termina.Undo.Trash.{
  World, RmOutcome, measure, measure_below, disk_of, move_path, trash_one, trash_all, put_journal,
  journal_of, close, trash_checked, rm_prepared, rm_validated, safe_rm,
}
use fore_ai_assisted_termina.Undo.Trash.Restore.{
  insert_journal, list, is_wanted, find_journal, free_name, alt_name, restore_beside, restore_back,
  restore_all, remove_slots, finish_undo, undo,
}
use fore_ai_assisted_termina.Undo.Trash.Tests.{os, work, trash, world, rm_a, no_bytes}
use fore_ai_assisted_termina.Undo.Trash.{move_across, copy_recursive, copy_each}
use fore_ai_assisted_termina.Undo.Files.{
  write_file, make_link, behind_links, put_node, names_in, remove_tree,
}

abbrev elsewhere : Os
elsewhere = record os { crosses = λ from to. not (inside trash from && inside trash to) }

abbrev copied : World × RmOutcome
copied =
    safe_rm elsewhere trash work (codes "rm -r a") rm_a (codes "7") 7 (codes "/root") no_bytes 1000
      world

copied_run :
    (stat copied.0.files (work ++ codes "a" ∷ []) ≡ none)
    × (stat copied.0.files (trash ++ codes "7" ∷ codes "0" ∷ codes "a" ∷ codes "b" ∷ [])
        ≡ some (regular (codes "text")))
unfolding safe_rm rm_prepared rm_validated trash_checked close journal_of put_journal trash_all
    trash_one move_path disk_of measure measure_below validate check_target check_found may_remove
    normalize normalize_onto is_protected is is_one_of begins split text_eq path_eq inside lookup
    stat follow exists has_below without_below make_dirs relocated gives_way moved rename remove_dir
    remove_dir_all insert_journal list is_wanted find_journal free_name alt_name restore_beside
    restore_back restore_all remove_slots finish_undo undo digits decimal starts_with move_across
    copy_recursive copy_each write_file make_link behind_links put_node names_in remove_tree
copied_run = (refl, refl)

-- The directory itself may not be removed: its file is copied and removed, and since the move then
-- counts as failed, the copy is thrown away with the operation's directory.
abbrev stubborn : Os
stubborn = record elsewhere { removes = λ p. not (path_eq (work ++ codes "a" ∷ []) p) }

abbrev lost : World × RmOutcome
lost =
    safe_rm stubborn trash work (codes "rm -r a") rm_a (codes "7") 7 (codes "/root") no_bytes 1000
      world

lost_run :
    (stat lost.0.files (work ++ codes "a" ∷ []) ≡ some directory)
    × (stat lost.0.files (work ++ codes "a" ∷ codes "b" ∷ []) ≡ none)
    × (stat lost.0.files (trash ++ codes "7" ∷ codes "0" ∷ codes "a" ∷ codes "b" ∷ []) ≡ none)
unfolding safe_rm rm_prepared rm_validated trash_checked close journal_of put_journal trash_all
    trash_one move_path disk_of measure measure_below validate check_target check_found may_remove
    normalize normalize_onto is_protected is is_one_of begins split text_eq path_eq inside lookup
    stat follow exists has_below without_below make_dirs relocated gives_way moved rename remove_dir
    remove_dir_all insert_journal list is_wanted find_journal free_name alt_name restore_beside
    restore_back restore_all remove_slots finish_undo undo digits decimal starts_with move_across
    copy_recursive copy_each write_file make_link behind_links put_node names_in remove_tree
lost_run = (refl, refl, refl)
