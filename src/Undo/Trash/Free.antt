-- ===== src/Undo/Trash/Free.antt =====
-- Places of the file system of src/undo.rs where nothing stands.
use mathlib.Core.List.{append_assoc}
use fore_ai_assisted_termina.Prelude.{
  ◌≡◌, refl, sym, ap, ◌∙◌, inl, inr, Bool, true, false, Bool-cases, none, some, List, [], ◌∷◌, ◌++◌,
  length, drop, keep_if, All, All-append,
}
use fore_ai_assisted_termina.Prelude.Text.{Text, text_eq_iff}
use fore_ai_assisted_termina.Undo.{AbsPath}
use fore_ai_assisted_termina.Undo.Files.{
  FileNode, directory, Files, Os, inside, lookup, stat, follow, is_there, is_directory, make_dirs,
  relocated, moved,
}
use fore_ai_assisted_termina.Undo.Trash.Lookup.{
  differ, path_eq-apart, inside-append, inside_trans, lookup-append_none, lookup-keep_if,
  lookup-dropped, lookup-relocated,
}

-- No file satisfies the test.
abbrev pub Free : (AbsPath → Bool) → Files → Type 0
Free f fs = All (λ (e : AbsPath × FileNode). f e.0 ≡ false) fs

pub lookup-Free :
    (f : AbsPath → Bool) (fs : Files) (p : AbsPath) → Free f fs → f p ≡ true → lookup fs p ≡ none
unfolding lookup
lookup-Free f [] p h k = refl
lookup-Free f ((q, m) ∷ fs) p h k =
    rw (lookup, path_eq-apart f p q k h.0) (lookup-Free f fs p h.1 k)

keep_if-Free :
    (f : AbsPath → Bool) (keep : AbsPath × FileNode → Bool) (fs : Files)
    → Free f fs
    → Free f (keep_if keep fs)
keep_if-Free f keep [] h = tt
keep_if-Free f keep (e ∷ fs) h = elim (Bool-cases (keep e)) [
  | inl k ↦ rw k (h.0, keep_if-Free f keep fs h.1)
  | inr k ↦ rw k (keep_if-Free f keep fs h.1)
]

relocated-Free :
    (f : AbsPath → Bool) (from to : AbsPath) (fs : Files)
    → ((r : AbsPath) → f (to ++ r) ≡ false)
    → Free f (relocated from to fs)
unfolding relocated
relocated-Free f from to [] h = tt
relocated-Free f from to ((p, n) ∷ fs) h = elim (Bool-cases (inside from p)) [
  | inl e ↦ rw (e, relocated) (h (drop (length from) p), relocated-Free f from to fs h)
  | inr e ↦ rw (e, relocated) (relocated-Free f from to fs h)
]

pub moved-Free :
    (f : AbsPath → Bool) (from to : AbsPath) (fs : Files)
    → Free f fs
    → ((r : AbsPath) → f (to ++ r) ≡ false)
    → Free f (moved from to fs)
unfolding moved
moved-Free f from to fs h k =
    All-append _ _ _ (keep_if-Free f _ fs h) (relocated-Free f from to fs k)

pub make_dirs-Free :
    (f : AbsPath → Bool) (os : Os) (cs : List Text) (fs : Files) (above : AbsPath)
    → Free f fs
    → ((q : AbsPath) → inside q (above ++ cs) ≡ true → f q ≡ false)
    → Free f (make_dirs os fs above cs).0
unfolding make_dirs
make_dirs-Free f os [] fs above h k = h
make_dirs-Free f os (c ∷ cs) fs above h k =
    let p = above ++ c ∷ [] in
    let later : (q : AbsPath) → inside q ((above ++ c ∷ []) ++ cs) ≡ true → f q ≡ false =
      λ q e. k q (ap (inside q) (sym (append_assoc above (c ∷ []) cs)) ∙ e) in
    elim (Bool-cases (is_there (stat fs (above ++ c ∷ [])))) [
      | inl e ↦ elim (Bool-cases (is_directory (follow 41 fs (above ++ c ∷ [])))) [
        | inl d ↦ rw (e, d, make_dirs) (make_dirs-Free f os cs fs (above ++ c ∷ []) h later)
        | inr d ↦ rw (e, d, make_dirs) h
      ]
      | inr e ↦ elim (Bool-cases (os.makes (above ++ c ∷ []))) [
        | inl d ↦
            rw (e, d, make_dirs)
              (make_dirs-Free f os cs (fs ++ (p, directory) ∷ []) p
                (All-append _ fs _ h (later p (inside-append p cs), tt)) later)
        | inr d ↦ rw (e, d, make_dirs) h
      ]
    ]

pub inside-same : (a b c : AbsPath) → inside (a ++ b) (a ++ c) ≡ inside b c
unfolding inside
inside-same [] b c = refl
inside-same (x ∷ a) b c = rw ((text_eq_iff x x).1 refl) (inside-same a b c)

-- What is below a moved path is found below its new place, where nothing was.
pub stat-goes :
    (fs : Files) (from to r : AbsPath) (n : FileNode)
    → inside from to ≡ false
    → inside to [] ≡ false
    → Free (inside to) fs
    → stat fs (from ++ r) ≡ some n
    → stat (moved from to fs) (to ++ r) ≡ some n
unfolding stat moved inside
stat-goes fs [] to r n i o h e = absurd (differ (sym i))
stat-goes fs (c ∷ from) [] r n i o h e = absurd (differ (sym o))
stat-goes fs (c ∷ from) (d ∷ to) r n i o h e =
    lookup-append_none _ _ _ (gone _) ∙ lookup-relocated fs (c ∷ from) (d ∷ to) r n e
  where
    gone : (keep : AbsPath → Bool) → lookup (keep_if (λ e. keep e.0) fs) (d ∷ to ++ r) ≡ none
    gone keep = elim (Bool-cases (keep (d ∷ to ++ r))) [
      | inl k ↦
          lookup-keep_if keep fs _ k
          ∙ lookup-Free (inside (d ∷ to)) fs _ h (inside-append (d ∷ to) r)
      | inr k ↦ lookup-dropped keep fs _ k
    ]

pub Free-map :
    (f g : AbsPath → Bool) (fs : Files)
    → ((q : AbsPath) → f q ≡ false → g q ≡ false)
    → Free f fs
    → Free g fs
Free-map f g [] h k = tt
Free-map f g (e ∷ fs) h k = (h e.0 k.0, Free-map f g fs h k.1)

pub inside-longer : (a r : AbsPath) (c : Text) → inside (a ++ c ∷ r) a ≡ false
unfolding inside
inside-longer [] r c = refl
inside-longer (x ∷ a) r c = rw ((text_eq_iff x x).1 refl) (inside-longer a r c)

pub inside-root : (a r : AbsPath) (c : Text) → inside (a ++ c ∷ r) [] ≡ false
unfolding inside
inside-root [] r c = refl
inside-root (x ∷ a) r c = refl

-- Not below `b`, hence not what is above something not below `b`.
pub above-outside : (a q b : AbsPath) → inside q b ≡ true → inside a b ≡ false → inside a q ≡ false
above-outside a q b h k = elim (Bool-cases (inside a q)) [
  | inl e ↦ absurd (differ (sym k ∙ inside_trans a q b e h))
  | inr e ↦ e
]
