-- ===== src/Undo/Trash/Safe.antt =====
-- `safe_rm` of src/undo.rs loses nothing: what it takes away stands in the trash, where its journal says.
use mathlib.Core.Path.{subst}
use fore_ai_assisted_termina.Prelude.{
  ℕ, ◌≤◌, ◌≡◌, refl, sym, ap, ◌∙◌, ◌⊎◌, inl, inr, false, Bool-cases, Option-cases, none, some, List,
  [], ◌∷◌, ◌++◌, ltb, All, At,
}
use fore_ai_assisted_termina.Prelude.Text.{Text}
use fore_ai_assisted_termina.Prelude.Text.Decimal.{decimal}
use fore_ai_assisted_termina.Undo.{
  RmPlan, AbsPath, Meta, Prepared, Checked, Validation, refused, checked,
}
use fore_ai_assisted_termina.Undo.Plans.{Allowed, validate-Allowed}
use fore_ai_assisted_termina.Undo.Files.{FileNode, Files, Os, inside, stat, create_dir_all}
use fore_ai_assisted_termina.Undo.Trash.{
  Entry, Trashing, slot_of, meta_of, disk_of, Journal, World, RmOutcome, close, journal_of,
  trash_checked, safe_rm, rm_prepared, rm_validated,
}
use fore_ai_assisted_termina.Undo.Trash.Moves.{IsLocal}
use fore_ai_assisted_termina.Undo.Trash.Lookup.{
  inside-append, outside_of, stat-make_dirs, stat-remove_dir_all,
}
use fore_ai_assisted_termina.Undo.Trash.Free.{
  Free, lookup-Free, make_dirs-Free, Free-map, inside-longer, inside-root, above-outside,
}
use fore_ai_assisted_termina.Undo.Trash.Rounds.{Held, trash_all-Held}

stat-outside :
    (op : AbsPath) (c : Text) (fs : Files) (p : AbsPath) (n : FileNode)
    → Free (inside (op ++ c ∷ [])) fs
    → stat fs p ≡ some n
    → inside (op ++ c ∷ []) p ≡ false
unfolding stat
stat-outside op c fs [] n h e = inside-root op [] c
stat-outside op c fs (d ∷ p) n h e = elim (Bool-cases (inside (op ++ c ∷ []) (d ∷ p))) [
  | inr k ↦ k
  | inl k ↦ absurd (nothing (sym (lookup-Free (inside (op ++ c ∷ [])) fs (d ∷ p) h k) ∙ e))
]
  where
    nothing : {n : FileNode} → none ≡ some n → ⊥
    nothing h = cc h

prepared-outside :
    (home : Text) (fs : Files) (cwd : AbsPath) (plan : RmPlan) (op : AbsPath) (c : Text)
    (xs : List Prepared)
    → Free (inside (op ++ c ∷ [])) fs
    → All (Allowed home (disk_of fs) cwd plan) xs
    → All (λ (x : Prepared). inside (op ++ c ∷ []) x.from ≡ false) xs
unfolding disk_of
prepared-outside home fs cwd plan op c [] h a = tt
prepared-outside home fs cwd plan op c (x ∷ xs) h a = (
  elim (Option-cases (stat fs x.from)) [
    | inl e ↦ absurd (nothing (sym (ap meta_of e) ∙ a.0.1.1))
    | inr (n, e) ↦ stat-outside op c fs x.from n h e
  ],
  prepared-outside home fs cwd plan op c xs h a.1,
)
  where
    nothing : {m : Meta} → none ≡ some m → ⊥
    nothing h = cc h

-- Where a path is after `safe_rm`: where it was, or in the trash, as the journal that is returned says.
abbrev pub Recorded : World × RmOutcome → AbsPath → FileNode → Type 0
Recorded r p n =
    (stat r.0.files p ≡ some n)
    ⊎ ((j : Journal) × (r.1.journal ≡ some j)
        × (e : Entry) × At e j.entries
        × (below : AbsPath) × (p ≡ e.from ++ below)
        × (stat r.0.files (e.to ++ below) ≡ some n))

module _ (os : Os) (one : IsLocal os) (trash cwd : AbsPath) (cmdline : Text) (plan : RmPlan)
    (id : Text) (now : ℕ) where
  abbrev op : AbsPath
  op = trash ++ id ∷ []

  close-Recorded :
      (w : World) (s : Trashing) (p : AbsPath) (n : FileNode)
      → inside op p ≡ false
      → Held s.files s.entries p n
      → Recorded (close os trash cwd cmdline plan id now w op s) p n
  unfolding close journal_of
  close-Recorded w s p n o v = go s.entries refl
    where
      empty : {e : Entry} → At e [] → ⊥
      empty a = elim a [ ]

      in_journal :
          Recorded
            (
              record { files = s.files; journals = [] },
              record {
                journal = some (journal_of os trash cwd cmdline plan id now s);
                messages = [];
                exit_code = 0;
              },
            )
            p
            n
      in_journal = elim v [ inl h ↦ inl h | inr (e, a, r, q, h) ↦ inr (_, refl, e, a, r, q, h) ]

      go :
          (es : List Entry)
          → s.entries ≡ es
          → Recorded (close os trash cwd cmdline plan id now w op s) p n
      go [] e = elim v [
        | inl h ↦ inl (rw (e, close) (stat-remove_dir_all os s.files op p n o h))
        | inr (d, a, _, _, _) ↦ absurd (empty (subst (At d) e a))
      ]
      go (d ∷ es) e = elim (Bool-cases (os.writes op)) [
        | inl k ↦ rw (close, e, k) in_journal
        | inr k ↦ rw (close, e, k) in_journal
      ]

  trash_checked-Recorded :
      (home : Text) (w : World) (c : Checked) (p : AbsPath) (n : FileNode)
      → Free (inside op) w.files
      → All (Allowed home (disk_of w.files) cwd plan) c.prepared
      → stat w.files p ≡ some n
      → Recorded (trash_checked os trash cwd cmdline plan id now w c) p n
  unfolding trash_checked
  trash_checked-Recorded home w c p n f a e =
      let made = stat-make_dirs os op w.files [] p n e in
      let start : Trashing = record {
        files = (create_dir_all os w.files op).0;
        entries = [];
        messages = c.messages;
        exit_code = c.exit_code;
        tf = 0;
        tb = 0;
      } in
      elim (Bool-cases (create_dir_all os w.files op).1) [
        | inr k ↦ rw (trash_checked, k) (inl made)
        | inl k ↦
            rw (trash_checked, k)
              (close-Recorded w _ p n (stat-outside trash id w.files p n f e) (
                trash_all-Held os one op plan.verbose c.prepared 0 start p n unused tt
                  (prepared-outside home w.files cwd plan trash id c.prepared f a)
                  (stat-outside trash id w.files p n f e) (inl made)))
      ]
    where
      unused : (k : ℕ) → 0 ≤ k → Free (inside (slot_of op k)) (create_dir_all os w.files op).0
      unused k _ =
          make_dirs-Free (inside (slot_of op k)) os op w.files []
            (Free-map (inside op) (inside (slot_of op k)) w.files
              (λ q. outside_of op (slot_of op k) q (inside-append op _)) f)
            (λ q h. above-outside (slot_of op k) q op h (inside-longer op [] (decimal k)))

  module _ (home : Text) (fmt_bytes : ℕ → Text) (max_bytes : ℕ) where
    rm_prepared-Recorded :
        (w : World) (c : Checked) (xs : List Prepared) (p : AbsPath) (n : FileNode)
        → Free (inside op) w.files
        → All (Allowed home (disk_of w.files) cwd plan) c.prepared
        → stat w.files p ≡ some n
        → Recorded (rm_prepared os trash cwd cmdline plan id now fmt_bytes max_bytes w c xs) p n
    unfolding rm_prepared
    rm_prepared-Recorded w c [] p n f a e = inl e
    rm_prepared-Recorded w c (x ∷ xs) p n f a e = elim (Bool-cases (ltb max_bytes c.total_bytes)) [
      | inl k ↦ rw (rm_prepared, k) (inl e)
      | inr k ↦ rw (rm_prepared, k) (trash_checked-Recorded home w c p n f a e)
    ]

    rm_validated-Recorded :
        (w : World) (v : Validation) (p : AbsPath) (n : FileNode)
        → Free (inside op) w.files
        → ((c : Checked) → v ≡ checked c → All (Allowed home (disk_of w.files) cwd plan) c.prepared)
        → stat w.files p ≡ some n
        → Recorded (rm_validated os trash cwd cmdline plan id now fmt_bytes max_bytes w v) p n
    unfolding rm_validated
    rm_validated-Recorded w (refused why) p n f a e = inl e
    rm_validated-Recorded w (checked c) p n f a e =
        rm_prepared-Recorded w c c.prepared p n f (a c refl) e

  -- `safe_rm` loses nothing where the trash is on the file system of the targets, whatever the flags,
  -- the targets and what else the system permits: if the operation's directory is new in the trash,
  -- then what stood at any path stands there still, or stands in the trash, at the place that an
  -- entry of the returned journal gives for it.
  pub safe_rm-Recorded :
      (home : Text) (fmt_bytes : ℕ → Text) (max_bytes : ℕ) (w : World) (p : AbsPath) (n : FileNode)
      → Free (inside (trash ++ id ∷ [])) w.files
      → stat w.files p ≡ some n
      → Recorded (safe_rm os trash cwd cmdline plan id now home fmt_bytes max_bytes w) p n
  unfolding safe_rm
  safe_rm-Recorded home fmt_bytes max_bytes w p n f e = targets plan.targets refl
    where
      targets :
          (ts : List Text)
          → plan.targets ≡ ts
          → Recorded (safe_rm os trash cwd cmdline plan id now home fmt_bytes max_bytes w) p n
      targets [] t = rw (safe_rm, t) (inl e)
      targets (u ∷ us) t =
          rw (safe_rm, t)
            (rm_validated-Recorded home fmt_bytes max_bytes w _ p n f
              (validate-Allowed home (disk_of w.files) cwd plan) e)
