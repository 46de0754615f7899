-- ===== src/Undo/Plans.antt =====
-- What `safe_rm` of src/undo.rs prepares for the trash.
use mathlib.Core.Path.{subst}
use fore_ai_assisted_termina.Prelude.{
  ◌≡◌, ◌≢◌, ◌⊎◌, ◌||◌, Bool, arith, refl, sym, ap, ◌∙◌, inl, inr, true, false, not, ◌&&◌,
  Bool-cases, Option-cases, some, List, [], ◌∷◌, ◌++◌, All, All-append, At-All, At, At-cases,
}
use fore_ai_assisted_termina.Prelude.Text.{Text, codes, text_eq, text_eq_iff, is, is_one_of}
use fore_ai_assisted_termina.Undo.{
  RmPlan, AbsPath, show_path, join_path, normalize, is_protected, Meta, Disk, Prepared, Checked,
  refused, checked, nothing_checked, may_remove, check_found, check_target, validate,
}

same_checked : {a b : Checked} → checked a ≡ checked b → a ≡ b
same_checked h = cc h

refused_checked : {t : Text} {a : Checked} → refused t ≡ checked a → ⊥
refused_checked h = cc h

differ : false ≡ true → ⊥
differ h = cc h

-- The directories that are never removed, besides the home directory.
abbrev pub system_dirs : List Text
system_dirs = codes "/" ∷ codes "/home" ∷ codes "/usr" ∷ codes "/etc" ∷ codes "/var" ∷ []

unprotected :
    (home : Text) (from : AbsPath)
    → is_protected home from ≡ false
    → (show_path from ≢ home) × (At (show_path from) system_dirs → ⊥)
unfolding is_protected is_one_of is
unprotected home from h = (
  λ e. differ (sym (ground (arith, h)) ∙ (text_eq_iff (show_path from) home).1 e),
  λ m.
      let none_of : among system_dirs ≡ false = ground (arith, h) in
      differ (sym none_of ∙ any_dir system_dirs m),
)
  where
    among : List Text → Bool
    among [] = false
    among (d ∷ ds) = text_eq (show_path from) d || among ds

    any_dir : (ds : List Text) → At (show_path from) ds → among ds ≡ true
    any_dir [] m = elim m [ ]
    any_dir (d ∷ ds) m = elim (At-cases m) [
      | inl e ↦ ground (arith, (text_eq_iff (show_path from) d).1 e)
      | inr n ↦ ground (arith, any_dir ds n)
    ]

module _ (home : Text) (disk : Disk) (cwd : AbsPath) (plan : RmPlan) where
  -- A path prepared for the trash: it is neither the home directory nor one of the system's, is on the
  -- disk, is a directory only with a recursive flag, or empty with `-d`, and was named as a target.
  abbrev pub Allowed : Prepared → Type 0
  Allowed x =
      ((show_path x.from ≢ home) × (At (show_path x.from) system_dirs → ⊥))
      × ((m : Meta) × (disk.stat x.from ≡ some m)
          × (x.is_dir ≡ (m.is_directory && not m.is_symlink)))
      × (x.is_dir ≡ true
          → (plan.recursive ≡ true) ⊎ ((plan.dir_only ≡ true) × (disk.is_empty_dir x.from ≡ true)))
      × ((t : Text) × At t plan.targets × (x.from ≡ normalize (join_path cwd t)))

  may_remove-dir :
      (from : AbsPath) (is_dir : Bool)
      → may_remove home disk cwd plan from is_dir ≡ true
      → is_dir ≡ true
      → (plan.recursive ≡ true) ⊎ ((plan.dir_only ≡ true) × (disk.is_empty_dir from ≡ true))
  unfolding may_remove
  may_remove-dir from is_dir h e = elim (Bool-cases plan.recursive) [
    | inl r ↦ inl r
    | inr r ↦ inr (ground (arith, h, e, r), ground (arith, h, e, r))
  ]

  -- The path is what a target names.
  abbrev Named : AbsPath → Type 0
  Named from = (t : Text) × At t plan.targets × (from ≡ normalize (join_path cwd t))

  check_found-Allowed :
      (acc : Checked) (t : Text) (from : AbsPath) (m : Meta)
      → Named from
      → disk.stat from ≡ some m
      → is_protected home from ≡ false
      → All Allowed acc.prepared
      → All Allowed (check_found home disk cwd plan acc t from m).prepared
  unfolding check_found
  check_found-Allowed acc t from m named e h k =
      elim (Bool-cases (may_remove home disk cwd plan from (m.is_directory && not m.is_symlink))) [
        | inl may ↦
            rw (may, check_found)
              (All-append Allowed acc.prepared _ k
                ((unprotected home from h, (m, e, refl), may_remove-dir from _ may, named), tt))
        | inr denied ↦ rw (denied, check_found) k
      ]

  check_target-Allowed :
      (acc : Checked) (t : Text) (from : AbsPath)
      → Named from
      → is_protected home from ≡ false
      → All Allowed acc.prepared
      → All Allowed (check_target home disk cwd plan acc t from).prepared
  unfolding check_target may_remove
  check_target-Allowed acc t from named h k = elim (Option-cases (disk.stat from)) [
    | inl e ↦ elim (Bool-cases plan.force) [
      | inl f ↦ rw (e, f, check_target) k
      | inr f ↦ rw (e, f, check_target) k
    ]
    | inr (m, e) ↦ rw (e, check_target) (check_found-Allowed acc t from m named e h k)
  ]

  validate_from-Allowed :
      (out : Checked) (ts : List Text) (acc : Checked)
      → All (λ t. At t plan.targets) ts
      → All Allowed acc.prepared
      → validate home disk cwd plan acc ts ≡ checked out
      → All Allowed out.prepared
  unfolding validate
  validate_from-Allowed out [] acc a k h =
      subst (λ (a : Checked). All Allowed a.prepared) (same_checked h) k
  validate_from-Allowed out (t ∷ ts) acc a k h =
      elim (Bool-cases (is_protected home (normalize (join_path cwd t)))) [
        | inl e ↦ absurd (refused_checked (rw e at h))
        | inr e ↦
            validate_from-Allowed out ts
              (check_target home disk cwd plan acc t (normalize (join_path cwd t))) a.1
              (check_target-Allowed acc t (normalize (join_path cwd t)) (t, a.0, refl) e k)
              (rw e at h)
      ]

  -- What passes the check of the targets is named by a target, is on the disk, and is neither the home
  -- directory nor `/`, `/home`, `/usr`, `/etc` or `/var`, in whatever spelling; and a directory is
  -- among it only with a recursive flag, or empty with `-d`.
  pub validate-Allowed :
      (out : Checked)
      → validate home disk cwd plan nothing_checked plan.targets ≡ checked out
      → All Allowed out.prepared
  validate-Allowed out h =
      validate_from-Allowed out plan.targets nothing_checked (At-All plan.targets (λ t m. m)) tt h

  not_first :
      {t u : Text} {us : List Text}
      → is_protected home (normalize (join_path cwd u)) ≡ false
      → is_protected home (normalize (join_path cwd t)) ≡ true
      → At t (u ∷ us)
      → At t us
  not_first e h m = elim (At-cases m) [
    | inl same ↦
        absurd (
          differ (sym e ∙ sym (ap (λ x. is_protected home (normalize (join_path cwd x))) same) ∙ h))
    | inr later ↦ later
  ]

  validate_from-refuses :
      (t : Text) (ts : List Text) (acc : Checked)
      → At t ts
      → is_protected home (normalize (join_path cwd t)) ≡ true
      → (message : Text) × (validate home disk cwd plan acc ts ≡ refused message)
  unfolding validate
  validate_from-refuses t [] acc m h = elim m [ ]
  validate_from-refuses t (u ∷ us) acc m h =
      elim (Bool-cases (is_protected home (normalize (join_path cwd u)))) [
        | inl e ↦ (
          codes "rm: refusing to remove `" ++ (u ++ codes "` (protected path)"),
          rw (e, validate) refl,
        )
        | inr e ↦
            let later =
              validate_from-refuses t us
                (check_target home disk cwd plan acc u (normalize (join_path cwd u)))
                (not_first e h m) h in
            (later.0, rw (e, validate) later.1)
      ]

  -- One protected path among the targets, in whatever spelling, and whatever stands on the disk,
  -- makes the whole `rm` refuse: nothing is prepared.
  pub validate-refuses :
      (t : Text)
      → At t plan.targets
      → is_protected home (normalize (join_path cwd t)) ≡ true
      → (message : Text) × (validate home disk cwd plan nothing_checked plan.targets
          ≡ refused message)
  validate-refuses t m h = validate_from-refuses t plan.targets nothing_checked m h
