-- ===== src/Undo/Trash/Rounds.antt =====
-- The rounds of the loop of `safe_rm` of src/undo.rs, each with a slot of its own.
use mathlib.Core.List.{append_assoc, append-nil}
use mathlib.Core.Path.{subst}
use fore_ai_assisted_termina.Prelude.{
  ℕ, suc, ◌≤◌, ◌<◌, ◌≡◌, refl, sym, ap, ◌∙◌, ◌⊎◌, inl, inr, Bool, true, false, not, ◌&&◌,
  Bool-cases, some, List, [], ◌∷◌, ◌++◌, arith, length, drop, All, All-append, All-at, At,
  At-append_left, At-append_right, here,
}
use fore_ai_assisted_termina.Prelude.Text.{Text, codes, text_eq, text_eq_iff}
use fore_ai_assisted_termina.Prelude.Text.Decimal.{decimal, decimal_injective}
use fore_ai_assisted_termina.Undo.{AbsPath, Prepared}
use fore_ai_assisted_termina.Undo.Files.{
  FileNode, Files, Os, path_eq, inside, stat, create_dir_all, moved,
}
use fore_ai_assisted_termina.Undo.Trash.{
  Entry, Trashing, slot_of, last_or, move_path, trash_one, trash_all,
}
use fore_ai_assisted_termina.Undo.Trash.Moves.{
  IsLocal, outcome-cases, move_path-failed, move_path-moved,
}
use fore_ai_assisted_termina.Undo.Trash.Lookup.{
  differ, path_eq-apart, inside-append, inside-split, inside_trans, outside_of, inside-comparable,
  stat-make_dirs, stat-moved, rename-some,
}
use fore_ai_assisted_termina.Undo.Trash.Free.{
  Free, moved-Free, make_dirs-Free, inside-same, stat-goes, Free-map, inside-longer, inside-root,
  above-outside,
}

-- A path reads as before, or its place in the trash does, as an entry says.
abbrev pub Held : Files → List Entry → AbsPath → FileNode → Type 0
Held fs es p n =
    (stat fs p ≡ some n)
    ⊎ ((e : Entry) × At e es × (r : AbsPath) × (p ≡ e.from ++ r) × (stat fs (e.to ++ r) ≡ some n))

module _ (os : Os) (one : IsLocal os) (op_dir : AbsPath) where
  -- The slots from `i` on are not in use.
  abbrev pub Unused : ℕ → Files → Type 0
  Unused i fs = (k : ℕ) → i ≤ k → Free (inside (slot_of op_dir k)) fs

  -- The entry's place is in a slot before `i`.
  abbrev pub InSlot : ℕ → Entry → Type 0
  InSlot i e = (k : ℕ) × (k < i) × (name : Text) × (e.to ≡ slot_of op_dir k ++ name ∷ [])

  slots_apart :
      (k i : ℕ) (r : AbsPath)
      → (k ≡ i → ⊥)
      → inside (slot_of op_dir k) (slot_of op_dir i ++ r) ≡ false
  unfolding inside
  slots_apart k i r h =
      ap (inside (slot_of op_dir k)) (append_assoc op_dir (decimal i ∷ []) r)
      ∙ inside-same op_dir (decimal k ∷ []) (decimal i ∷ r)
      ∙ unlike (text_eq (decimal k) (decimal i))
          (λ e. h (decimal_injective k i ((text_eq_iff _ _).0 e)))
    where
      unlike : (b : Bool) → (b ≡ true → ⊥) → b && true ≡ false
      unlike true h = absurd (h refl)
      unlike false h = refl

  slot-op_dir : (i : ℕ) (r : AbsPath) → inside op_dir (slot_of op_dir i ++ r) ≡ true
  slot-op_dir i r =
      ap (inside op_dir) (append_assoc op_dir (decimal i ∷ []) r) ∙ inside-append op_dir _

  -- What one round does: nothing but a directory, or a move.
  abbrev Round : ℕ → Prepared → Trashing → Trashing → Type 0
  Round i x s t =
      let made = (create_dir_all os s.files (slot_of op_dir i)).0 in
      let to = slot_of op_dir i ++ last_or (codes "item") x.from ∷ [] in
      ((t.files ≡ made) × (t.entries ≡ s.entries))
      ⊎ ((inside x.from to ≡ false)
          × (t.files ≡ moved x.from to made)
          × (e : Entry) × (t.entries ≡ s.entries ++ e ∷ [])
          × (e.from ≡ x.from)
          × (e.to ≡ to))

  trash_one-Round :
      (verbose : Bool) (i : ℕ) (x : Prepared) (s : Trashing)
      → Round i x s (trash_one os op_dir verbose i x s)
  unfolding trash_one
  trash_one-Round verbose i x s =
      let made = (create_dir_all os s.files (slot_of op_dir i)).0 in
      let to = slot_of op_dir i ++ last_or (codes "item") x.from ∷ [] in
      elim (outcome-cases (move_path os made x.from to)) [
        | inl (fs, e) ↦ rw (e, trash_one) (inl (move_path-failed os one made fs x.from to e, refl))
        | inr (fs, e) ↦
            let (apart, away) =
              rename-some os made fs x.from to (move_path-moved os one made fs x.from to e) in
            rw (e, trash_one) (inr (apart, away, _, refl, refl, refl))
      ]

  abbrev made_for : ℕ → Files → Files
  made_for i fs = (create_dir_all os fs (slot_of op_dir i)).0

  abbrev place : ℕ → Text → AbsPath
  place i name = slot_of op_dir i ++ name ∷ []

  made-Free :
      (i : ℕ) (fs : Files) (name : Text)
      → Unused i fs
      → Free (inside (place i name)) (made_for i fs)
  made-Free i fs name u =
      make_dirs-Free (inside (place i name)) os (slot_of op_dir i) fs []
        (Free-map (inside (slot_of op_dir i)) (inside (place i name)) fs
          (λ q. outside_of (slot_of op_dir i) (place i name) q (inside-append _ _))
          (u i (omega arith)))
        (λ q h. above-outside (place i name) q (slot_of op_dir i) h (inside-longer _ [] name))

  unlike_next : {k i : ℕ} → suc i ≤ k → k ≡ i → ⊥
  unlike_next h e = omega (arith, h, e)

  unlike_last : {k i : ℕ} → k < i → k ≡ i → ⊥
  unlike_last h e = omega (arith, h, e)

  made-Unused : (i : ℕ) (fs : Files) → Unused i fs → Unused (suc i) (made_for i fs)
  made-Unused i fs u k h =
      make_dirs-Free (inside (slot_of op_dir k)) os (slot_of op_dir i) fs []
        (u k (omega (arith, h)))
        (λ q e. above-outside (slot_of op_dir k) q (slot_of op_dir i) e (
          ap (inside (slot_of op_dir k)) (sym (append-nil (slot_of op_dir i)))
          ∙ slots_apart k i [] (unlike_next h)))

  Unused-Round :
      (i : ℕ) (x : Prepared) (s t : Trashing)
      → Round i x s t
      → Unused i s.files
      → Unused (suc i) t.files
  Unused-Round i x s t (inl (f, _)) u k h =
      subst (Free (inside (slot_of op_dir k))) (sym f) (made-Unused i s.files u k h)
  Unused-Round i x s t (inr (_, f, _, _, _, _)) u k h =
      subst (Free (inside (slot_of op_dir k))) (sym f) (
        moved-Free (inside (slot_of op_dir k)) x.from _ (made_for i s.files)
          (made-Unused i s.files u k h)
          (λ r.
            ap (inside (slot_of op_dir k)) (append_assoc (slot_of op_dir i) _ r)
            ∙ slots_apart k i _ (unlike_next h)))

  later_slot : (i : ℕ) (es : List Entry) → All (InSlot i) es → All (InSlot (suc i)) es
  later_slot i [] h = tt
  later_slot i (e ∷ es) ((k, l, name, r), h) = ((k, omega (arith, l), name, r), later_slot i es h)

  slots-Round :
      (i : ℕ) (x : Prepared) (s t : Trashing)
      → Round i x s t
      → All (InSlot i) s.entries
      → All (InSlot (suc i)) t.entries
  slots-Round i x s t (inl (_, g)) h =
      subst (All (InSlot (suc i))) (sym g) (later_slot i s.entries h)
  slots-Round i x s t (inr (_, _, e, g, _, p)) h = subst (All (InSlot (suc i))) (sym g) (
      All-append (InSlot (suc i)) s.entries (e ∷ []) (later_slot i s.entries h)
        ((i, omega arith, last_or (codes "item") x.from, p), tt))

  trashed_apart :
      (i : ℕ) (x : Prepared) (e : Entry) (r : AbsPath)
      → InSlot i e
      → inside op_dir x.from ≡ false
      → inside x.from (place i (last_or (codes "item") x.from)) ≡ false
      → (inside x.from (e.to ++ r) ≡ false)
        × (path_eq (place i (last_or (codes "item") x.from)) (e.to ++ r) ≡ false)
  trashed_apart i x e r (k, l, name, p) h m =
      let below : inside op_dir (e.to ++ r) ≡ true =
        ap (λ q. inside op_dir (q ++ r)) p
        ∙ ap (inside op_dir) (append_assoc (slot_of op_dir k) (name ∷ []) r)
        ∙ slot-op_dir k (name ∷ r) in
      (
        elim (Bool-cases (inside x.from (e.to ++ r))) [
          | inr f ↦ f
          | inl f ↦ elim (inside-comparable x.from op_dir (e.to ++ r) f below) [
            | inl g ↦ absurd (differ (sym m ∙ inside_trans x.from op_dir _ g (slot-op_dir i _)))
            | inr g ↦ absurd (differ (sym h ∙ g))
          ]
        ],
        path_eq-apart (inside (slot_of op_dir k)) (e.to ++ r)
            (place i (last_or (codes "item") x.from))
            (ap (λ q. inside (slot_of op_dir k) (q ++ r)) p
              ∙ ap (inside (slot_of op_dir k)) (append_assoc (slot_of op_dir k) (name ∷ []) r)
              ∙ inside-append (slot_of op_dir k) (name ∷ r))
            (slots_apart k i _ (unlike_last l)),
      )

  Held-Round :
      (i : ℕ) (x : Prepared) (s t : Trashing) (p : AbsPath) (n : FileNode)
      → Round i x s t
      → Unused i s.files
      → All (InSlot i) s.entries
      → inside op_dir x.from ≡ false
      → inside op_dir p ≡ false
      → Held s.files s.entries p n
      → Held t.files t.entries p n
  Held-Round i x s t p n (inl (f, g)) u l h o (inl e) =
      inl (ap (λ fs. stat fs p) f ∙ stat-make_dirs os (slot_of op_dir i) s.files [] p n e)
  Held-Round i x s t p n (inl (f, g)) u l h o (inr (e, a, r, q, v)) = inr (
    e,
    subst (At e) (sym g) a,
    r,
    q,
    ap (λ fs. stat fs (e.to ++ r)) f
        ∙ stat-make_dirs os (slot_of op_dir i) s.files [] (e.to ++ r) n v,
  )
  Held-Round i x s t p n (inr (m, f, e, g, b, c)) u l h o (inl v) =
      let to = place i (last_or (codes "item") x.from) in
      let made = stat-make_dirs os (slot_of op_dir i) s.files [] p n v in
      elim (Bool-cases (inside x.from p)) [
        | inl k ↦
            let r = drop (length x.from) p in
            let whole = inside-split x.from p k in
            inr (
              e,
              subst (At e) (sym g) (At-append_right s.entries (e ∷ []) here),
              r,
              whole ∙ ap (λ a. a ++ r) (sym b),
              ap (λ fs. stat fs (e.to ++ r)) f
                  ∙ ap (λ a. stat (moved x.from to (made_for i s.files)) (a ++ r)) c
                  ∙ stat-goes (made_for i s.files) x.from to r n m
                      (inside-root (slot_of op_dir i) [] _) (made-Free i s.files _ u)
                      (ap (stat (made_for i s.files)) (sym whole) ∙ made),
            )
        | inr k ↦ inl (
            ap (λ fs. stat fs p) f
            ∙ stat-moved (made_for i s.files) x.from to p n k
                (path_eq-apart (λ q. not (inside op_dir q)) p to (ap not o)
                  (ap not (slot-op_dir i _)))
                made)
      ]
  Held-Round i x s t p n (inr (m, f, e, g, b, c)) u l h o (inr (d, a, r, q, v)) =
      let (apart, unequal) = trashed_apart i x d r (All-at (InSlot i) s.entries l a) h m in
      inr (
        d,
        subst (At d) (sym g) (At-append_left s.entries (e ∷ []) a),
        r,
        q,
        ap (λ fs. stat fs (d.to ++ r)) f
            ∙ stat-moved (made_for i s.files) x.from _ (d.to ++ r) n apart unequal
                (stat-make_dirs os (slot_of op_dir i) s.files [] (d.to ++ r) n v),
      )

  pub trash_all-Held :
      (verbose : Bool) (xs : List Prepared) (i : ℕ) (s : Trashing) (p : AbsPath) (n : FileNode)
      → Unused i s.files
      → All (InSlot i) s.entries
      → All (λ (x : Prepared). inside op_dir x.from ≡ false) xs
      → inside op_dir p ≡ false
      → Held s.files s.entries p n
      → Held
          (trash_all os op_dir verbose i xs s).files
          (trash_all os op_dir verbose i xs s).entries
          p
          n
  unfolding trash_all
  trash_all-Held verbose [] i s p n u l h o v = v
  trash_all-Held verbose (x ∷ xs) i s p n u l h o v =
      let round = trash_one-Round verbose i x s in
      let next = trash_one os op_dir verbose i x s in
      trash_all-Held verbose xs (suc i) next p n (Unused-Round i x s next round u)
        (slots-Round i x s next round l) h.1 o (Held-Round i x s next p n round u l h.0 o v)
