-- ===== src/Undo/Trash/Lookup.antt =====
-- What stands where after the calls of src/undo.rs on the file system.
use mathlib.Core.List.{append_assoc}
use fore_ai_assisted_termina.Prelude.{
  ◌≡◌, refl, sym, ap, ◌∙◌, ◌⊎◌, inl, inr, Bool, true, false, not, ◌&&◌, Bool-cases, Option-cases,
  none, some, List, [], ◌∷◌, ◌++◌, arith, if◌then◌else◌, length, drop, pop, keep_if,
}
use fore_ai_assisted_termina.Prelude.Text.{Text, text_eq_iff, text_eq_refl}
use fore_ai_assisted_termina.Undo.{AbsPath}
use fore_ai_assisted_termina.Undo.Files.{
  FileNode, directory, Files, Os, path_eq, inside, lookup, stat, follow, is_there, is_directory,
  has_below, without_below, remove_dir_all, make_dirs, relocated, gives_way, moved, rename,
}

pub path_eq_refl : (p : AbsPath) → path_eq p p ≡ true
unfolding path_eq
path_eq_refl [] = refl
path_eq_refl (c ∷ cs) = ground (arith, text_eq_refl c, path_eq_refl cs)

pub path_eq→eq : (p q : AbsPath) → path_eq p q ≡ true → p ≡ q
unfolding path_eq
path_eq→eq [] [] h = refl
path_eq→eq (a ∷ p) (c ∷ q) h =
    both (a) c p q (ground (arith, h, (text_eq_iff a c).0)) (ground (arith, h, path_eq→eq p q))
  where
    both : (a c : Text) (p q : AbsPath) → a ≡ c → p ≡ q → a ∷ p ≡ c ∷ q
    both a c p q e f = cc (e, f)
path_eq→eq [] (c ∷ q) h = cc h
path_eq→eq (a ∷ p) [] h = cc h

pub differ : false ≡ true → ⊥
differ h = cc h

-- Two paths of which only one satisfies a test are not the same.
pub path_eq-apart :
    (f : AbsPath → Bool) (p q : AbsPath) → f p ≡ true → f q ≡ false → path_eq q p ≡ false
path_eq-apart f p q h k = elim (Bool-cases (path_eq q p)) [
  | inl e ↦ absurd (differ (sym k ∙ ap f (path_eq→eq q p e) ∙ h))
  | inr e ↦ e
]

pub inside-append : (a r : AbsPath) → inside a (a ++ r) ≡ true
unfolding inside
inside-append [] r = refl
inside-append (c ∷ a) r = ground (arith, text_eq_refl c, inside-append a r)

pub inside-split : (a p : AbsPath) → inside a p ≡ true → p ≡ a ++ drop (length a) p
unfolding inside
inside-split [] p h = refl
inside-split (a ∷ b) [] h = cc h
inside-split (a ∷ b) (c ∷ p) h =
    both a c (ground (arith, h, (text_eq_iff a c).0)) (inside-split b p (ground (arith, h)))
  where
    both : {r : AbsPath} (a c : Text) → a ≡ c → p ≡ r → c ∷ p ≡ a ∷ r
    both a c e f = cc (e, f)

pub drop-length : (a r : AbsPath) → drop (length a) (a ++ r) ≡ r
drop-length [] r = refl
drop-length (c ∷ a) r = drop-length a r

pub inside_trans : (a b c : AbsPath) → inside a b ≡ true → inside b c ≡ true → inside a c ≡ true
inside_trans a b c h k =
    ap (inside a) (
      inside-split b c k
      ∙ ap (λ x. x ++ drop (length b) c) (inside-split a b h)
      ∙ append_assoc a (drop (length a) b) (drop (length b) c))
    ∙ inside-append a _

pub outside_of : (a b c : AbsPath) → inside a b ≡ true → inside a c ≡ false → inside b c ≡ false
outside_of a b c h k = elim (Bool-cases (inside b c)) [
  | inl e ↦ absurd (differ (sym k ∙ inside_trans a b c h e))
  | inr e ↦ e
]

-- Of two paths above a third, one is above the other.
pub inside-comparable :
    (a b c : AbsPath)
    → inside a c ≡ true
    → inside b c ≡ true
    → (inside a b ≡ true) ⊎ (inside b a ≡ true)
unfolding inside
inside-comparable [] b c h k = inl refl
inside-comparable (x ∷ a) [] c h k = inr refl
inside-comparable (x ∷ a) (y ∷ b) [] h k = cc h
inside-comparable (x ∷ a) (y ∷ b) (z ∷ c) h k =
    let same = (text_eq_iff x y).1 (
      same_as x y z (ground (arith, h, (text_eq_iff x z).0))
        (ground (arith, k, (text_eq_iff y z).0))) in
    let back = (text_eq_iff y x).1 (sym ((text_eq_iff x y).0 same)) in
    elim (inside-comparable a b c (ground (arith, h)) (ground (arith, k))) [
      | inl e ↦ inl (ground (arith, same, e))
      | inr e ↦ inr (ground (arith, back, e))
    ]
  where
    same_as : (x y z : Text) → x ≡ z → y ≡ z → x ≡ y
    same_as x y z e f = e ∙ sym f

lookup-append :
    (fs gs : Files) (p : AbsPath) (n : FileNode)
    → lookup fs p ≡ some n
    → lookup (fs ++ gs) p ≡ some n
unfolding lookup
lookup-append [] gs p n h = cc h
lookup-append ((q, m) ∷ fs) gs p n h = ground (arith, h, lookup-append fs gs p n)

pub lookup-append_none :
    (fs gs : Files) (p : AbsPath) → lookup fs p ≡ none → lookup (fs ++ gs) p ≡ lookup gs p
unfolding lookup
lookup-append_none [] gs p h = refl
lookup-append_none ((q, m) ∷ fs) gs p h = elim (Bool-cases (path_eq q p)) [
  | inl e ↦ absurd (nothing (rw e at h))
  | inr e ↦ rw (e, lookup) (lookup-append_none fs gs p (rw e at h))
]
  where
    nothing : {m : FileNode} → some m ≡ none → ⊥
    nothing h = cc h

pub lookup-keep_if :
    (keep : AbsPath → Bool) (fs : Files) (p : AbsPath)
    → keep p ≡ true
    → lookup (keep_if (λ e. keep e.0) fs) p ≡ lookup fs p
unfolding lookup
lookup-keep_if keep [] p h = refl
lookup-keep_if keep ((q, m) ∷ fs) p h = elim (Bool-cases (path_eq q p)) [
  | inl e ↦ rw (ap keep (path_eq→eq q p e) ∙ h, lookup, e) refl
  | inr e ↦ elim (Bool-cases (keep q)) [
    | inl k ↦ rw (k, lookup, e) (lookup-keep_if keep fs p h)
    | inr k ↦ rw (k, lookup, e) (lookup-keep_if keep fs p h)
  ]
]

pub lookup-dropped :
    (keep : AbsPath → Bool) (fs : Files) (p : AbsPath)
    → keep p ≡ false
    → lookup (keep_if (λ e. keep e.0) fs) p ≡ none
unfolding lookup
lookup-dropped keep [] p h = refl
lookup-dropped keep ((q, m) ∷ fs) p h = elim (Bool-cases (keep q)) [
  | inl k ↦ rw (k, lookup, apart h k) (lookup-dropped keep fs p h)
  | inr k ↦ rw (k, lookup) (lookup-dropped keep fs p h)
]
  where
    apart : {p q : AbsPath} → keep p ≡ false → keep q ≡ true → path_eq q p ≡ false
    apart {p} {q} h k = path_eq-apart (λ x. not (keep x)) p q (ap not h) (ap not k)

pub stat-append :
    (fs gs : Files) (p : AbsPath) (n : FileNode) → stat fs p ≡ some n → stat (fs ++ gs) p ≡ some n
unfolding stat
stat-append fs gs [] n h = h
stat-append fs gs (c ∷ cs) n h = lookup-append fs gs (c ∷ cs) n h

-- Making directories changes nothing that is there.
pub stat-make_dirs :
    (os : Os) (cs : List Text) (fs : Files) (above p : AbsPath) (n : FileNode)
    → stat fs p ≡ some n
    → stat (make_dirs os fs above cs).0 p ≡ some n
unfolding make_dirs
stat-make_dirs os [] fs above p n h = h
stat-make_dirs os (c ∷ cs) fs above p n h =
    elim (Bool-cases (is_there (stat fs (above ++ c ∷ [])))) [
      | inl e ↦ elim (Bool-cases (is_directory (follow 41 fs (above ++ c ∷ [])))) [
        | inl d ↦ rw (e, d, make_dirs) (stat-make_dirs os cs fs (above ++ c ∷ []) p n h)
        | inr d ↦ rw (e, d, make_dirs) h
      ]
      | inr e ↦ elim (Bool-cases (os.makes (above ++ c ∷ []))) [
        | inl d ↦
            rw (e, d, make_dirs)
              (stat-make_dirs os cs (fs ++ (above ++ c ∷ [], directory) ∷ []) (above ++ c ∷ []) p n
                (stat-append fs _ p n h))
        | inr d ↦ rw (e, d, make_dirs) h
      ]
    ]

-- A successful move is not below itself.
pub rename-some :
    (os : Os) (fs out : Files) (from to : AbsPath)
    → rename os fs from to ≡ some out
    → (inside from to ≡ false) × (out ≡ moved from to fs)
unfolding rename
rename-some os fs out from to h = elim (Option-cases (stat fs from)) [
  | inl e ↦ absurd (nothing (rw (e, rename) at h))
  | inr (n, e) ↦
      moves (os.moves from to) (is_directory (follow 41 fs (pop to)))
        (gives_way n (stat fs to) (not (has_below fs to))) (rw (e, rename) at h)
]
  where
    nothing : {out : Files} → none ≡ some out → ⊥
    nothing h = cc h

    same : {a b : Files} → some a ≡ some b → a ≡ b
    same h = cc h

    moves :
        (a b c : Bool)
        → (if a && b && not (inside from to) && c then some (moved from to fs) else none) ≡ some out
        → (inside from to ≡ false) × (out ≡ moved from to fs)
    moves a b c h = elim (Bool-cases (a && b && not (inside from to) && c)) [
      | inl t ↦ (ground (arith, t), sym (same (rw t at h)))
      | inr t ↦ absurd (nothing (rw t at h))
    ]

-- What is neither moved nor replaced stays where it is.
pub stat-moved :
    (fs : Files) (from to p : AbsPath) (n : FileNode)
    → inside from p ≡ false
    → path_eq to p ≡ false
    → stat fs p ≡ some n
    → stat (moved from to fs) p ≡ some n
unfolding stat moved
stat-moved fs from to [] n h k e = e
stat-moved fs from to (c ∷ cs) n h k e = lookup-append _ _ (c ∷ cs) n (
    lookup-keep_if (λ q. not (inside from q) && not (path_eq to q)) fs (c ∷ cs)
      (ground (arith, h, k))
    ∙ e)

pub lookup-relocated :
    (fs : Files) (from to r : AbsPath) (n : FileNode)
    → lookup fs (from ++ r) ≡ some n
    → lookup (relocated from to fs) (to ++ r) ≡ some n
unfolding lookup relocated
lookup-relocated [] from to r n h = cc h
lookup-relocated ((q, m) ∷ fs) from to r n h = elim (Bool-cases (path_eq q (from ++ r))) [
  | inl e ↦
      rw
        (
          ap (inside from) (path_eq→eq q _ e) ∙ inside-append from r,
          lookup,
          ap (λ x. path_eq (to ++ drop (length from) x) (to ++ r)) (path_eq→eq q _ e)
              ∙ ap (λ x. path_eq (to ++ x) (to ++ r)) (drop-length from r)
              ∙ path_eq_refl (to ++ r),
        )
        (rw e at h)
  | inr e ↦ elim (Bool-cases (inside from q)) [
    | inl k ↦ rw (k, lookup, elsewhere q k e) (lookup-relocated fs from to r n (rw e at h))
    | inr k ↦ rw (k, relocated) (lookup-relocated fs from to r n (rw e at h))
  ]
]
  where
    elsewhere :
        (q : AbsPath)
        → inside from q ≡ true
        → path_eq q (from ++ r) ≡ false
        → path_eq (to ++ drop (length from) q) (to ++ r) ≡ false
    elsewhere q k e = elim (Bool-cases (path_eq (to ++ drop (length from) q) (to ++ r))) [
      | inr f ↦ f
      | inl f ↦ absurd (
          differ (
            sym e
            ∙ ap (λ x. path_eq x (from ++ r))
                (inside-split from q k
                  ∙ ap (λ x. from ++ x)
                      (sym (drop-length to _)
                        ∙ ap (drop (length to)) (path_eq→eq _ _ f)
                        ∙ drop-length to r))
            ∙ path_eq_refl (from ++ r)))
    ]

pub stat-without_below :
    (fs : Files) (op p : AbsPath) (n : FileNode)
    → inside op p ≡ false
    → stat fs p ≡ some n
    → stat (without_below op fs) p ≡ some n
unfolding stat without_below
stat-without_below fs op [] n h e = e
stat-without_below fs op (c ∷ p) n h e =
    lookup-keep_if (λ q. not (inside op q)) fs (c ∷ p) (ap not h) ∙ e

pub stat-remove_dir_all :
    (os : Os) (fs : Files) (op p : AbsPath) (n : FileNode)
    → inside op p ≡ false
    → stat fs p ≡ some n
    → stat (elim (remove_dir_all os fs op) [ none ↦ fs | some out ↦ out ]) p ≡ some n
unfolding remove_dir_all
stat-remove_dir_all os fs op p n h e = elim (Bool-cases (os.removes op)) [
  | inl k ↦ rw (k, remove_dir_all) (stat-without_below fs op p n h e)
  | inr k ↦ rw (k, remove_dir_all) e
]
