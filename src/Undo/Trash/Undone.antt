-- ===== src/Undo/Trash/Undone.antt =====
-- `undo` of src/undo.rs overwrites nothing.
use mathlib.Core.List.{append_assoc}
use fore_ai_assisted_termina.Prelude.{
  ℕ, zero, suc, ◌≡◌, refl, ap, ◌∙◌, inl, inr, Bool, true, false, not, ◌&&◌, Bool-cases,
  Option-cases, Option, some, List, [], ◌∷◌, ◌++◌, pop, All,
}
use fore_ai_assisted_termina.Prelude.Text.{Text}
use fore_ai_assisted_termina.Prelude.Text.Decimal.{decimal}
use fore_ai_assisted_termina.Undo.{AbsPath}
use fore_ai_assisted_termina.Undo.Files.{
  FileNode, regular, directory, symlink, Files, Os, path_eq, inside, stat, follow, exists,
  is_directory, has_below, create_dir_all, remove_dir,
}
use fore_ai_assisted_termina.Undo.Trash.{Entry, Journal, World, slot_of, move_path}
use fore_ai_assisted_termina.Undo.Trash.Restore.{
  list, find_journal, alt_at, late_name, free_name, alt_name, Restoring, restore_beside,
  restore_back, restore_all, remove_slots, no_conflicts, finish_undo, undo,
}
use fore_ai_assisted_termina.Undo.Trash.Moves.{
  IsLocal, outcome-cases, move_path-failed, move_path-moved,
}
use fore_ai_assisted_termina.Undo.Trash.Lookup.{
  path_eq-apart, inside-append, outside_of, stat-make_dirs, stat-moved, stat-without_below,
  rename-some,
}
use fore_ai_assisted_termina.Undo.Trash.Journals.{list-All, find_journal-All}

-- Not a link.
abbrev pub is_solid : FileNode → Bool
is_solid (symlink _) = false
is_solid _ = true

stat-exists :
    (fs : Files) (p : AbsPath) (n : FileNode)
    → is_solid n ≡ true
    → stat fs p ≡ some n
    → exists fs p ≡ true
unfolding exists follow
stat-exists fs p (regular b) h e = rw (e, follow) refl
stat-exists fs p directory h e = rw (e, follow) refl
stat-exists fs p (symlink t) h e = cc h

module _ (os : Os) (one : IsLocal os) (trash : AbsPath) (now : ℕ) (p : AbsPath) (n : FileNode) where
  -- Whatever is put at a path where nothing is, or at a name with the clock in it, does not
  -- replace what is at `p`.
  abbrev InTrash : Entry → Type 0
  InTrash e = inside trash e.to ≡ true

  abbrev NotLate : Type 0
  NotLate = (q : AbsPath) → path_eq (late_name now q) p ≡ false

  nothing_there :
      (fs : Files) (q : AbsPath)
      → is_solid n ≡ true
      → stat fs p ≡ some n
      → exists fs q ≡ false
      → path_eq q p ≡ false
  nothing_there fs q h e k = path_eq-apart (exists fs) p q (stat-exists fs p n h e) k

  free_name-apart :
      (fs : Files) (from : AbsPath) (tries i : ℕ)
      → is_solid n ≡ true
      → stat fs p ≡ some n
      → NotLate
      → path_eq (free_name fs now from i tries) p ≡ false
  unfolding free_name
  free_name-apart fs from zero i h e l = l from
  free_name-apart fs from (suc tries) i h e l = elim (Bool-cases (exists fs (alt_at from i))) [
    | inl k ↦ rw (k, free_name) (free_name-apart fs from tries (suc i) h e l)
    | inr k ↦ rw (k, free_name) (nothing_there fs (alt_at from i) h e k)
  ]

  stat-move_path :
      (fs out : Files) (from to : AbsPath)
      → inside trash from ≡ true
      → inside trash p ≡ false
      → path_eq to p ≡ false
      → move_path os fs from to ≡ inr out
      → stat fs p ≡ some n
      → stat out p ≡ some n
  stat-move_path fs out from to t o k m e =
      ap (λ x. stat x p) (rename-some os fs out from to (move_path-moved os one fs out from to m)).1
      ∙ stat-moved fs from to p n (outside_of trash from p t o) k e

  pub remove_slots-stat :
      (es : List Entry) (id : Text) (i : ℕ) (fs : Files)
      → inside trash p ≡ false
      → stat fs p ≡ some n
      → stat (remove_slots os (trash ++ id ∷ []) i es fs) p ≡ some n
  unfolding remove_slots remove_dir
  remove_slots-stat [] id i fs o h = h
  remove_slots-stat (e ∷ es) id i fs o h = remove_slots-stat es id (suc i) _ o (removed fs h)
    where
      slot : AbsPath
      slot = slot_of (trash ++ id ∷ []) i

      below : inside trash (slot_of (trash ++ id ∷ []) i) ≡ true
      below =
          ap (inside trash) (append_assoc trash (id ∷ []) (decimal i ∷ [])) ∙ inside-append trash _

      removed :
          (fs : Files)
          → stat fs p ≡ some n
          → stat (remove_dir os fs (slot_of (trash ++ id ∷ []) i)) p ≡ some n
      removed fs h =
          elim (Bool-cases
            (os.removes slot && is_directory (stat fs slot) && not (has_below fs slot))) [
              | inl k ↦
                  rw (remove_dir, k)
                    (stat-without_below fs slot p n (outside_of trash slot p below o) h)
              | inr k ↦ rw (remove_dir, k) h
            ]

  module _ (solid : is_solid n ≡ true) (outside : inside trash p ≡ false) (not_late : NotLate) where
    restore_beside-stat :
        (e : Entry) (s : Restoring)
        → InTrash e
        → stat s.files p ≡ some n
        → stat (restore_beside os now e s).files p ≡ some n
    unfolding restore_beside alt_name
    restore_beside-stat e s t h =
        let alt = alt_name s.files now e.from in
        elim (outcome-cases (move_path os s.files e.to alt)) [
          | inl (fs, m) ↦
              let same = move_path-failed os one s.files fs e.to alt m in
              rw (m, restore_beside) (ap (λ x. stat x p) same ∙ h)
          | inr (fs, m) ↦
              rw (m, restore_beside)
                (stat-move_path s.files fs e.to _ t outside
                  (free_name-apart s.files e.from 999 1 solid h not_late) m h)
        ]

    restore_back-stat :
        (e : Entry) (s : Restoring)
        → InTrash e
        → exists s.files e.from ≡ false
        → stat s.files p ≡ some n
        → stat (restore_back os e s).files p ≡ some n
    unfolding restore_back
    restore_back-stat e s t k h =
        let made = stat-make_dirs os (pop e.from) s.files [] p n h in
        let dirs = (create_dir_all os s.files (pop e.from)).0 in
        elim (outcome-cases (move_path os dirs e.to e.from)) [
          | inl (fs, m) ↦
              let same = move_path-failed os one dirs fs e.to e.from m in
              rw (m, restore_back) (ap (λ x. stat x p) same ∙ made)
          | inr (fs, m) ↦
              rw (m, restore_back)
                (stat-move_path _ fs e.to e.from t outside (nothing_there s.files e.from solid h k)
                  m made)
        ]

    restore_all-stat :
        (es : List Entry) (s : Restoring)
        → All InTrash es
        → stat s.files p ≡ some n
        → stat (restore_all os now es s).files p ≡ some n
    unfolding restore_all
    restore_all-stat [] s t h = h
    restore_all-stat (e ∷ es) s t h = elim (Bool-cases (exists s.files e.from)) [
      | inl k ↦
          rw (restore_all, k)
            (restore_all-stat es (restore_beside os now e s) t.1 (restore_beside-stat e s t.0 h))
      | inr k ↦
          rw (restore_all, k)
            (restore_all-stat es (restore_back os e s) t.1 (restore_back-stat e s t.0 k h))
    ]

    finish_undo-stat :
        (w : World) (j : Journal) (s : Restoring)
        → stat s.files p ≡ some n
        → stat (finish_undo os trash w j s).0.files p ≡ some n
    unfolding finish_undo
    finish_undo-stat w j s h =
        elim (Bool-cases (not s.restored_any && not (no_conflicts s.conflicts))) [
          | inl k ↦ rw (finish_undo, k) h
          | inr k ↦ rw (finish_undo, k) (remove_slots-stat j.entries j.id 0 s.files outside h)
        ]

-- Whatever is restored, and whatever the system permits, where the trash is on the file system of
-- what is restored: `undo` leaves every file and directory outside the trash as it was, if the
-- journals' places are in the trash. Only a symbolic link may be replaced, or a path that is one of
-- the names with the clock that `alt_name` ends with.
pub undo-stat :
    (os : Os) (trash : AbsPath) (now : ℕ) (id : Option Text) (w : World) (p : AbsPath)
    (n : FileNode)
    → IsLocal os
    → All (λ (j : Journal). All (λ (e : Entry). inside trash e.to ≡ true) j.entries) w.journals
    → is_solid n ≡ true
    → inside trash p ≡ false
    → ((q : AbsPath) → path_eq (late_name now q) p ≡ false)
    → stat w.files p ≡ some n
    → stat (undo os trash now id w).0.files p ≡ some n
unfolding undo
undo-stat os trash now id w p n one t solid outside not_late h =
    elim (Option-cases (find_journal id (list w.journals))) [
      | inl e ↦ rw (e, undo) h
      | inr (j, e) ↦
          let places = find_journal-All _ id (list w.journals) j (list-All _ w.journals t) e in
          let start : Restoring = record {
            files = w.files;
            conflicts = [];
            restored_any = false;
          } in
          let back =
            restore_all-stat os one trash now p n solid outside not_late j.entries start places h in
          rw (e, undo) (finish_undo-stat os one trash now p n solid outside not_late w j _ back)
    ]
