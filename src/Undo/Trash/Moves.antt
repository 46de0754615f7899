-- ===== src/Undo/Trash/Moves.antt =====
-- `move_path` of src/undo.rs within one file system.
use fore_ai_assisted_termina.Prelude.{◌≡◌, refl, ap, ◌∙◌, ◌⊎◌, inl, inr, false, Option-cases, some}
use fore_ai_assisted_termina.Undo.{AbsPath}
use fore_ai_assisted_termina.Undo.Files.{Files, Os, rename}
use fore_ai_assisted_termina.Undo.Trash.{move_path}

-- All paths are on one file system.
abbrev pub IsLocal : Os → Type 0
IsLocal os = (from to : AbsPath) → os.crosses from to ≡ false

pub outcome-cases :
    (o : Files ⊎ Files) → ((fs : Files) × (o ≡ inl fs)) ⊎ ((fs : Files) × (o ≡ inr fs))
outcome-cases (inl fs) = inl (fs, refl)
outcome-cases (inr fs) = inr (fs, refl)

module _ (os : Os) (one : IsLocal os) (fs out : Files) (from to : AbsPath) where
  pub move_path-failed : move_path os fs from to ≡ inl out → out ≡ fs
  unfolding move_path
  move_path-failed h = elim (Option-cases (rename os fs from to)) [
    | inl e ↦ left (rw (move_path, one from to, e) at h)
    | inr (moved, e) ↦ absurd (mixed (rw (move_path, one from to, e) at h))
  ]
    where
      left : {a b : Files} → ◌≡◌ {A = Files ⊎ Files} (inl a) (inl b) → b ≡ a
      left e = cc e

      mixed : {a b : Files} → ◌≡◌ {A = Files ⊎ Files} (inr a) (inl b) → ⊥
      mixed e = cc e

  pub move_path-moved : move_path os fs from to ≡ inr out → rename os fs from to ≡ some out
  unfolding move_path
  move_path-moved h = elim (Option-cases (rename os fs from to)) [
    | inl e ↦ absurd (mixed (rw (move_path, one from to, e) at h))
    | inr (moved, e) ↦ e ∙ ap some (right (rw (move_path, one from to, e) at h))
  ]
    where
      right : {a b : Files} → ◌≡◌ {A = Files ⊎ Files} (inr a) (inr b) → a ≡ b
      right e = cc e

      mixed : {a b : Files} → ◌≡◌ {A = Files ⊎ Files} (inl a) (inr b) → ⊥
      mixed e = cc e
