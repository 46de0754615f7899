-- ===== src/Undo/Trash/Restore.antt =====
-- `list`, `undo`, `purge` and `trash_size` of src/undo.rs: what is in the trash, what comes back out
-- of it and what is thrown away.
use fore_ai_assisted_termina.Prelude.{
  inl, inr, ℕ, zero, suc, ◌+◌, ◌*◌, Bool, true, false, not, ◌&&◌, ◌||◌, Option, none, some, List,
  [], ◌∷◌, ◌++◌, ltb, ◌==◌, if◌then◌else◌, pop, length, keep_if,
}
use fore_ai_assisted_termina.Prelude.Text.{Text, codes, text_eq, starts_with, join}
use fore_ai_assisted_termina.Prelude.Text.Decimal.{decimal}
use fore_ai_assisted_termina.Undo.{AbsPath, show_path}
use fore_ai_assisted_termina.Undo.Files.{
  Files, Os, exists, create_dir_all, remove_dir, remove_dir_all,
}
use fore_ai_assisted_termina.Undo.Trash.{
  Entry, Journal, World, last_or, move_path, put_journal, slot_of,
}

-- `sort_by_key(Reverse(ts_ms))`, which is stable
unfoldable pub insert_journal : Journal → List Journal → List Journal
insert_journal j [] = j ∷ []
insert_journal j (k ∷ ks) =
    let later = k ∷ insert_journal j ks in if ltb j.ts_ms k.ts_ms then later else j ∷ k ∷ ks

unfoldable pub list : List Journal → List Journal
list [] = []
list (j ∷ js) = insert_journal j (list js)

unfoldable pub is_wanted : Option Text → Journal → Bool
is_wanted none j = not j.restored
is_wanted (some i) j = not j.restored && (text_eq j.id i || starts_with j.id i)

unfoldable pub find_journal : Option Text → List Journal → Option Journal
find_journal id [] = none
find_journal id (j ∷ js) = let rest = find_journal id js in if is_wanted id j then some j else rest

pub data UndoResult : Type 0 where
  restored_as : (journal : Journal) (conflicts : List Text) → UndoResult
  nothing_to_undo : UndoResult
  failed : (why : Text) → UndoResult

-- The name that `alt_name` tries in round `i`.
abbrev pub alt_at : AbsPath → ℕ → AbsPath
alt_at p i =
    pop p
    ++ (last_or (codes "restored") p
        ++ (codes ".restored" ++ (if i == 1 then [] else codes "-" ++ decimal i)))
      ∷ []

abbrev pub late_name : ℕ → AbsPath → AbsPath
late_name now p =
    pop p ++ (last_or (codes "restored") p ++ (codes ".restored-" ++ decimal now)) ∷ []

-- `tries` more rounds from `i` on
unfoldable pub free_name : Files → ℕ → AbsPath → ℕ → ℕ → AbsPath
free_name fs now p i zero = late_name now p
free_name fs now p i (suc tries) = elim (exists fs (alt_at p i)) [
  | false ↦ alt_at p i
  | true ↦ free_name fs now p (suc i) tries
]

unfoldable pub alt_name : Files → ℕ → AbsPath → AbsPath
alt_name fs now p = free_name fs now p 1 999

pub record Restoring : Type 0 where
  pub files : Files
  pub conflicts : List Text
  pub restored_any : Bool

abbrev pub not_restored : Os → Entry → Text
not_restored os e =
    codes "could not restore " ++ (show_path e.from ++ (codes ": " ++ os.error e.from))

unfoldable pub restore_beside : Os → ℕ → Entry → Restoring → Restoring
restore_beside os now e s =
    let alt = alt_name s.files now e.from in
    elim (move_path os s.files e.to alt) [
      | inr fs ↦ record {
        files = fs;
        conflicts =
            s.conflicts
            ++ (show_path e.from ++ (codes " already existed — restored as " ++ show_path alt))
              ∷ [];
        restored_any = true;
      }
      | inl fs ↦ record s { files = fs; conflicts = s.conflicts ++ not_restored os e ∷ [] }
    ]

unfoldable pub restore_back : Os → Entry → Restoring → Restoring
restore_back os e s =
    let made = (create_dir_all os s.files (pop e.from)).0 in
    elim (move_path os made e.to e.from) [
      | inr fs ↦ record s { files = fs; restored_any = true }
      | inl fs ↦ record s { files = fs; conflicts = s.conflicts ++ not_restored os e ∷ [] }
    ]

-- The loop of `undo` over the entries.
unfoldable pub restore_all : Os → ℕ → List Entry → Restoring → Restoring
restore_all os now [] s = s
restore_all os now (e ∷ es) s =
    restore_all os now es
      (if exists s.files e.from then restore_beside os now e s else restore_back os e s)

-- The slots from `i` on, one for each entry.
unfoldable pub remove_slots : Os → AbsPath → ℕ → List Entry → Files → Files
remove_slots os op_dir i [] fs = fs
remove_slots os op_dir i (_ ∷ es) fs =
    remove_slots os op_dir (suc i) es (remove_dir os fs (slot_of op_dir i))

abbrev pub no_conflicts : List Text → Bool
no_conflicts [] = true
no_conflicts (_ ∷ _) = false

-- What follows the loop over the entries.
unfoldable pub finish_undo : Os → AbsPath → World → Journal → Restoring → World × UndoResult
finish_undo os trash w j s =
    let op_dir = trash ++ j.id ∷ [] in
    let k : Journal = record j { restored = true } in
    if not s.restored_any && not (no_conflicts s.conflicts)
    then (record w { files = s.files }, failed (join (codes "\n") s.conflicts))
    else (
      record {
        files = remove_slots os op_dir 0 j.entries s.files;
        journals = if os.writes op_dir then put_journal k w.journals else w.journals;
      },
      restored_as k s.conflicts,
    )

unfoldable pub undo : Os → AbsPath → ℕ → Option Text → World → World × UndoResult
undo os trash now id w = elim (find_journal id (list w.journals)) [
  | none ↦ (w, nothing_to_undo)
  | some j ↦ finish_undo os trash w j (
      restore_all os now j.entries
        (record { files = w.files; conflicts = []; restored_any = false }))
]

abbrev pub day : ℕ
day = 86400000

-- Compared as sums, so that a time before 1970 needs no sign.
unfoldable pub is_old : ℕ → ℕ → Journal → Bool
is_old now keep_days j =
    ltb (j.ts_ms + keep_days * day) now || (j.restored && ltb (j.ts_ms + day) now)

unfoldable pub drop_journal : Text → List Journal → List Journal
drop_journal id js = keep_if (λ (j : Journal). not (text_eq j.id id)) js

-- The loop of `purge`: what is left, and the operations and bytes that are gone.
unfoldable pub purge_all : Os → AbsPath → ℕ → ℕ → Bool → List Journal → World → World × ℕ × ℕ
purge_all os trash now keep_days all [] w = (w, 0, 0)
purge_all os trash now keep_days all (j ∷ js) w =
    let kept = purge_all os trash now keep_days all js w in
    if all || is_old now keep_days j
    then elim (remove_dir_all os w.files (trash ++ j.id ∷ [])) [
      | none ↦ kept
      | some fs ↦
          let (out, n, b) =
            purge_all os trash now keep_days all js
              (record { files = fs; journals = drop_journal j.id w.journals }) in
          (out, suc n, (if j.restored then 0 else j.total_bytes) + b)
    ]
    else kept

unfoldable pub purge : Os → AbsPath → ℕ → ℕ → Bool → World → World × ℕ × ℕ
purge os trash now keep_days all w = purge_all os trash now keep_days all (list w.journals) w

unfoldable pub live_bytes : List Journal → ℕ
live_bytes [] = 0
live_bytes (j ∷ js) = j.total_bytes + live_bytes js

unfoldable pub trash_size : World → ℕ × ℕ
trash_size w =
    let live = keep_if (λ (j : Journal). not j.restored) (list w.journals) in
    (length live, live_bytes live)
