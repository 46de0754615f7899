-- ===== src/Undo/Trash/Back.antt =====
-- `undo` of src/undo.rs gives back what `safe_rm` took, or says that it does not.
use fore_ai_assisted_termina.Prelude.{
  ℕ, ◌≡◌, refl, sym, ap, ◌∙◌, ◌⊎◌, inl, inr, Bool, true, false, not, ◌&&◌, Bool-cases, Option-cases,
  Option, none, some, List, [], ◌∷◌, ◌++◌, pop, All, All-at, At-cases,
}
use fore_ai_assisted_termina.Prelude.Text.{Text, text_eq_iff}
use fore_ai_assisted_termina.Undo.{AbsPath}
use fore_ai_assisted_termina.Undo.Files.{
  FileNode, Files, Os, path_eq, inside, stat, follow, exists, create_dir_all, moved,
}
use fore_ai_assisted_termina.Undo.Trash.{Entry, Journal, World, move_path}
use fore_ai_assisted_termina.Undo.Trash.Restore.{
  list, find_journal, Restoring, restore_beside, restore_back, restore_all, alt_name, remove_slots,
  no_conflicts, finish_undo, UndoResult, restored_as, nothing_to_undo, failed, undo,
}
use fore_ai_assisted_termina.Undo.Trash.Moves.{IsLocal, outcome-cases, move_path-moved}
use fore_ai_assisted_termina.Undo.Trash.Lookup.{
  differ, path_eq-apart, inside-append, inside_trans, inside-comparable, outside_of, stat-make_dirs,
  stat-moved, rename-some,
}
use fore_ai_assisted_termina.Undo.Trash.Free.{
  Free, lookup-Free, moved-Free, make_dirs-Free, stat-goes, above-outside,
}
use fore_ai_assisted_termina.Undo.Trash.Rounds.{Held}
use fore_ai_assisted_termina.Undo.Trash.Undone.{remove_slots-stat}

-- Neither path is at or below the other.
abbrev pub Disjoint : AbsPath → AbsPath → Type 0
Disjoint a b = (inside a b ≡ false) × (inside b a ≡ false)

-- The entries' places in the trash are disjoint, and so are their original places.
abbrev pub Apart : List Entry → Type 0
Apart [] = Unit
Apart (e ∷ es) = All (λ (d : Entry). Disjoint e.to d.to × Disjoint e.from d.from) es × Apart es

-- An entry that can be put back: from the trash to a place outside of it, other than the root, where
-- nothing stands.
abbrev pub Ready : AbsPath → Files → Entry → Type 0
Ready trash fs e =
    (inside trash e.to ≡ true)
    × (inside trash e.from ≡ false)
    × (inside e.from [] ≡ false)
    × Free (inside e.from) fs

-- Does the result tell of a file that was not put back in its place?
unfoldable pub complains : UndoResult → Bool
complains (restored_as j conflicts) = not (no_conflicts conflicts)
complains nothing_to_undo = false
complains (failed why) = true

Disjoint-outside : (a b c : AbsPath) → Disjoint a b → inside b c ≡ true → inside a c ≡ false
Disjoint-outside a b c h k = elim (Bool-cases (inside a c)) [
  | inr e ↦ e
  | inl e ↦ elim (inside-comparable a b c e k) [
    | inl f ↦ absurd (differ (sym h.0 ∙ f))
    | inr f ↦ absurd (differ (sym h.1 ∙ f))
  ]
]

stat-Free :
    (a : AbsPath) (fs : Files) (p : AbsPath) (n : FileNode)
    → inside a [] ≡ false
    → Free (inside a) fs
    → stat fs p ≡ some n
    → inside a p ≡ false
unfolding stat
stat-Free a fs [] n r h e = r
stat-Free a fs (c ∷ p) n r h e = elim (Bool-cases (inside a (c ∷ p))) [
  | inr k ↦ k
  | inl k ↦ absurd (nothing (sym (lookup-Free (inside a) fs (c ∷ p) h k) ∙ e))
]
  where
    nothing : {n : FileNode} → none ≡ some n → ⊥
    nothing h = cc h

inside_refl : (a : AbsPath) → inside a a ≡ true
unfolding inside
inside_refl [] = refl
inside_refl (c ∷ a) = rw ((text_eq_iff c c).1 refl) (inside_refl a)

not_at : (a p : AbsPath) → inside a p ≡ false → path_eq a p ≡ false
not_at a p h = path_eq-apart (λ x. not (inside a x)) p a (ap not h) (ap not (inside_refl a))

Free-exists :
    (a : AbsPath) (fs : Files) → inside a [] ≡ false → Free (inside a) fs → exists fs a ≡ false
unfolding exists follow
Free-exists a fs r h = elim (Option-cases (stat fs a)) [
  | inl e ↦ rw (e, follow) refl
  | inr (n, e) ↦ absurd (differ (sym (stat-Free a fs a n r h e) ∙ inside_refl a))
]

inside-pop : (a : AbsPath) → inside (pop a) a ≡ true
unfolding inside
inside-pop [] = refl
inside-pop (c ∷ []) = refl
inside-pop (c ∷ d ∷ a) = rw ((text_eq_iff c c).1 refl) (inside-pop (d ∷ a))

pop-outside : (a : AbsPath) → inside a [] ≡ false → inside a (pop a) ≡ false
unfolding inside
pop-outside [] h = h
pop-outside (c ∷ []) h = refl
pop-outside (c ∷ d ∷ a) h = rw ((text_eq_iff c c).1 refl) (pop-outside (d ∷ a) refl)

module _ (os : Os) (one : IsLocal os) (trash : AbsPath) (now : ℕ) where
  abbrev parents : Files → Entry → Files
  parents fs e = (create_dir_all os fs (pop e.from)).0

  -- Making the parents of one entry puts nothing where another, or itself, belongs.
  parents-Free :
      (fs : Files) (e d : Entry)
      → inside d.from (pop e.from) ≡ false
      → Free (inside d.from) fs
      → Free (inside d.from) (parents fs e)
  parents-Free fs e d h k =
      make_dirs-Free (inside d.from) os (pop e.from) fs [] k
        (λ q m. above-outside d.from q (pop e.from) m h)

  Ready-All :
      (fs : Files) (e : Entry) (es : List Entry)
      → All (λ (d : Entry). Disjoint e.to d.to × Disjoint e.from d.from) es
      → All (Ready trash fs) es
      → All (Ready trash (moved e.to e.from (parents fs e))) es
  Ready-All fs e [] a h = tt
  Ready-All fs e (d ∷ es) a h = (
    (
      h.0.0,
      h.0.1,
      h.0.2,
      moved-Free (inside d.from) e.to e.from (parents fs e)
          (parents-Free fs e d
            (above-outside d.from (pop e.from) e.from (inside-pop e.from) a.0.1.1) h.0.3)
          (λ r.
            Disjoint-outside d.from e.from (e.from ++ r) (a.0.1.1, a.0.1.0)
              (inside-append e.from r)),
    ),
    Ready-All fs e es a.1 h.1,
  )

  Held-moved :
      (fs : Files) (e : Entry) (es : List Entry) (p : AbsPath) (n : FileNode)
      → Ready trash fs e
      → All (Ready trash fs) es
      → All (λ (d : Entry). Disjoint e.to d.to × Disjoint e.from d.from) es
      → inside trash p ≡ false
      → inside e.to e.from ≡ false
      → Held fs (e ∷ es) p n
      → Held (moved e.to e.from (parents fs e)) es p n
  Held-moved fs e es p n ready later apart o m (inl v) =
      let made = stat-make_dirs os (pop e.from) fs [] p n v in
      let free = parents-Free fs e e (pop-outside e.from ready.2) ready.3 in
      inl (
        stat-moved (parents fs e) e.to e.from p n (outside_of trash e.to p ready.0 o)
          (not_at e.from p (stat-Free e.from (parents fs e) p n ready.2 free made)) made)
  Held-moved fs e es p n ready later apart o m (inr (d, a, r, q, v)) =
      let made = stat-make_dirs os (pop e.from) fs [] (d.to ++ r) n v in
      elim (At-cases a) [
        | inl same ↦ inl (
            ap (stat (moved e.to e.from (parents fs e))) (q ∙ ap (λ (x : Entry). x.from ++ r) same)
            ∙ stat-goes (parents fs e) e.to e.from r n m ready.2
                (parents-Free fs e e (pop-outside e.from ready.2) ready.3)
                (ap (λ (x : Entry). stat (parents fs e) (x.to ++ r)) (sym same) ∙ made))
        | inr b ↦
            let (in_trash, _, _, _) = All-at (Ready trash fs) es later b in
            let (tos, _) =
              All-at (λ (x : Entry). Disjoint e.to x.to × Disjoint e.from x.from) es apart b in
            inr (
              d,
              b,
              r,
              q,
              stat-moved (parents fs e) e.to e.from (d.to ++ r) n
                  (Disjoint-outside e.to d.to (d.to ++ r) tos (inside-append d.to r))
                  (path_eq-apart (inside trash) (d.to ++ r) e.from
                    (inside_trans trash d.to (d.to ++ r) in_trash (inside-append d.to r)) ready.1)
                  made,
            )
      ]

  told : (cs : List Text) (t : Text) → no_conflicts (cs ++ t ∷ []) ≡ false
  told [] t = refl
  told (c ∷ cs) t = refl

  restore_beside-told :
      (e : Entry) (s : Restoring) → no_conflicts (restore_beside os now e s).conflicts ≡ false
  unfolding restore_beside
  restore_beside-told e s =
      elim (outcome-cases (move_path os s.files e.to (alt_name s.files now e.from))) [
        | inl (_, m) ↦ rw (m, restore_beside) (told s.conflicts _)
        | inr (fs, m) ↦ rw (m, restore_beside) (told s.conflicts _)
      ]

  restore_back-told :
      (e : Entry) (s : Restoring)
      → no_conflicts s.conflicts ≡ false
      → no_conflicts (restore_back os e s).conflicts ≡ false
  unfolding restore_back
  restore_back-told e s h = elim (outcome-cases (move_path os (parents s.files e) e.to e.from)) [
    | inl (_, m) ↦ rw (m, restore_back) (told s.conflicts _)
    | inr (fs, m) ↦ rw (m, restore_back) h
  ]

  restore_all-told :
      (es : List Entry) (s : Restoring)
      → no_conflicts s.conflicts ≡ false
      → no_conflicts (restore_all os now es s).conflicts ≡ false
  unfolding restore_all
  restore_all-told [] s h = h
  restore_all-told (e ∷ es) s h = elim (Bool-cases (exists s.files e.from)) [
    | inl k ↦ rw (restore_all, k) (restore_all-told es _ (restore_beside-told e s))
    | inr k ↦ rw (restore_all, k) (restore_all-told es _ (restore_back-told e s h))
  ]

  move_path-some :
      (fs out : Files) (from to : AbsPath)
      → move_path os fs from to ≡ inr out
      → (inside from to ≡ false) × (out ≡ moved from to fs)
  move_path-some fs out from to h =
      rename-some os fs out from to (move_path-moved os one fs out from to h)

  restore_all-Held :
      (es : List Entry) (s : Restoring) (p : AbsPath) (n : FileNode)
      → All (Ready trash s.files) es
      → Apart es
      → inside trash p ≡ false
      → Held s.files es p n
      → (stat (restore_all os now es s).files p ≡ some n)
        ⊎ (no_conflicts (restore_all os now es s).conflicts ≡ false)
  unfolding restore_all restore_back
  restore_all-Held [] s p n ready apart o (inl v) = inl v
  restore_all-Held [] s p n ready apart o (inr (d, a, _, _, _)) = absurd (elim a [ ])
  restore_all-Held (e ∷ es) s p n ready apart o v =
      elim (outcome-cases (move_path os (parents s.files e) e.to e.from)) [
        | inl (_, m) ↦
            rw (restore_all, Free-exists e.from s.files ready.0.2 ready.0.3, restore_back, m)
              (inr (restore_all-told es _ (told s.conflicts _)))
        | inr (fs, m) ↦
            let (below, made) = move_path-some (parents s.files e) fs e.to e.from m in
            rw (restore_all, Free-exists e.from s.files ready.0.2 ready.0.3, restore_back, m, made)
              (restore_all-Held es
                (record s { files = moved e.to e.from (parents s.files e); restored_any = true }) p
                n (Ready-All s.files e es apart.0 ready.1) apart.1 o
                (Held-moved s.files e es p n ready.0 ready.1 apart.0 o below v))
      ]

  finish_undo-back :
      (w : World) (j : Journal) (s : Restoring) (p : AbsPath) (n : FileNode)
      → inside trash p ≡ false
      → (stat s.files p ≡ some n) ⊎ (no_conflicts s.conflicts ≡ false)
      → (stat (finish_undo os trash w j s).0.files p ≡ some n)
        ⊎ (complains (finish_undo os trash w j s).1 ≡ true)
  unfolding finish_undo complains
  finish_undo-back w j s p n o v =
      elim (Bool-cases (not s.restored_any && not (no_conflicts s.conflicts))) [
        | inl k ↦ rw (finish_undo, k) (inr refl)
        | inr k ↦ elim v [
          | inl h ↦ rw (finish_undo, k) (inl (removed h))
          | inr h ↦ rw (finish_undo, k) (inr (ap not h))
        ]
      ]
    where
      removed :
          stat s.files p ≡ some n
          → stat (remove_slots os (trash ++ j.id ∷ []) 0 j.entries s.files) p ≡ some n
      removed h = remove_slots-stat os one trash now p n j.entries j.id 0 s.files o h

-- `undo` undoes `safe_rm`, where the trash is on the file system of what is restored. Take a path outside the trash that reads as it did before the removal or
-- whose place in the trash, as an entry of the journal that `undo` takes up says, does. If the
-- entries' places are disjoint and can be put back, since nothing has come to stand there, then
-- after `undo` the path reads as it did before the removal, or the result tells of a file that was
-- not put back.
pub undo-Held :
    (os : Os) (trash : AbsPath) (now : ℕ) (id : Option Text) (w : World) (j : Journal) (p : AbsPath)
    (n : FileNode)
    → IsLocal os
    → find_journal id (list w.journals) ≡ some j
    → All (Ready trash w.files) j.entries
    → Apart j.entries
    → inside trash p ≡ false
    → Held w.files j.entries p n
    → (stat (undo os trash now id w).0.files p ≡ some n)
      ⊎ (complains (undo os trash now id w).1 ≡ true)
unfolding undo
undo-Held os trash now id w j p n one found ready apart o v =
    rw (found, undo)
      (finish_undo-back os one trash now w j _ p n o (
        restore_all-Held os one trash now j.entries
          (record { files = w.files; conflicts = []; restored_any = false }) p n ready apart o v))
