-- ===== src/Undo/Trash/Journals.antt =====
-- `list`, `undo`'s choice, `purge` and `trash_size` of src/undo.rs on the journals.
use mathlib.Core.Path.{subst}
use fore_ai_assisted_termina.Prelude.{
  ℕ, ◌≤◌, ◌≡◌, sym, ap, ◌∙◌, inl, inr, true, false, Bool-cases, Option, some, List, [], ◌∷◌, ◌++◌,
  arith, ltb, All, All-at, ◌⊎◌, At, At-All, At-cases, here, there,
}
use fore_ai_assisted_termina.Prelude.Text.{Text, text_eq, text_eq_iff}
use fore_ai_assisted_termina.Undo.{AbsPath}
use fore_ai_assisted_termina.Undo.Trash.Lookup.{differ, stat-without_below}
use fore_ai_assisted_termina.Undo.Files.{Os, FileNode, inside, stat, without_below, remove_dir_all}
use fore_ai_assisted_termina.Undo.Trash.Free.{inside-same}
use fore_ai_assisted_termina.Undo.Trash.{Journal, World}
use fore_ai_assisted_termina.Undo.Trash.Restore.{
  insert_journal, list, is_wanted, find_journal, is_old, drop_journal, purge_all, purge,
}

insert_journal-All {ℓ} :
    (P : Journal → Type ℓ) (j : Journal) (js : List Journal)
    → P j
    → All P js
    → All P (insert_journal j js)
unfolding insert_journal
insert_journal-All P j [] h k = (h, tt)
insert_journal-All P j (i ∷ js) h k = elim (Bool-cases (ltb j.ts_ms i.ts_ms)) [
  | inl e ↦ rw (e, insert_journal) (k.0, insert_journal-All P j js h k.1)
  | inr e ↦ rw (e, insert_journal) (h, k)
]

pub list-All {ℓ} : (P : Journal → Type ℓ) (js : List Journal) → All P js → All P (list js)
unfolding list
list-All P [] h = tt
list-All P (j ∷ js) h = insert_journal-All P j (list js) h.0 (list-All P js h.1)

pub find_journal-All {ℓ} :
    (P : Journal → Type ℓ) (id : Option Text) (js : List Journal) (j : Journal)
    → All P js
    → find_journal id js ≡ some j
    → P j
unfolding find_journal
find_journal-All P id [] j h e = cc e
find_journal-All P id (i ∷ js) j h e = elim (Bool-cases (is_wanted id i)) [
  | inl w ↦ subst P (same (rw w at e)) h.0
  | inr w ↦ find_journal-All P id js j h.1 (rw w at e)
]
  where
    same : {i j : Journal} → some i ≡ some j → i ≡ j
    same h = cc h

-- No journal of the list is newer than the time.
abbrev NotAfter : ℕ → List Journal → Type 0
NotAfter t js = All (λ (j : Journal). j.ts_ms ≤ t) js

abbrev Newest : List Journal → Type 0
Newest [] = Unit
Newest (j ∷ js) = NotAfter j.ts_ms js × Newest js

not_after : (s t : ℕ) (js : List Journal) → s ≤ t → NotAfter s js → NotAfter t js
not_after s t [] h k = tt
not_after s t (j ∷ js) h k = (omega (arith, h, k.0), not_after s t js h k.1)

insert_journal-Newest : (j : Journal) (js : List Journal) → Newest js → Newest (insert_journal j js)
unfolding insert_journal
insert_journal-Newest j [] h = (tt, tt)
insert_journal-Newest j (i ∷ js) h = elim (Bool-cases (ltb j.ts_ms i.ts_ms)) [
  | inl e ↦
      rw (e, insert_journal)
        (
          insert_journal-All (λ (k : Journal). k.ts_ms ≤ i.ts_ms) j js (ground (arith, e)) h.0,
          insert_journal-Newest j js h.1,
        )
  | inr e ↦
      let up : i.ts_ms ≤ j.ts_ms = ground (arith, e) in
      rw (e, insert_journal) ((up, not_after i.ts_ms j.ts_ms js up h.0), h)
]

list-Newest : (js : List Journal) → Newest (list js)
unfolding list
list-Newest [] = tt
list-Newest (j ∷ js) = insert_journal-Newest j (list js) (list-Newest js)

insert_journal-At : (i j : Journal) (js : List Journal) → At i (j ∷ js) → At i (insert_journal j js)
unfolding insert_journal
insert_journal-At i j [] m = m
insert_journal-At i j (k ∷ js) m = elim (Bool-cases (ltb j.ts_ms k.ts_ms)) [
  | inr e ↦ rw (e, insert_journal) m
  | inl e ↦ rw (e, insert_journal) (later (λ n. insert_journal-At i j js n) (At-cases m))
]
  where
    later :
        ((n : At i (j ∷ js)) → At i (insert_journal j js))
        → (i ≡ j) ⊎ At i (k ∷ js)
        → At i (k ∷ insert_journal j js)
    later inner (inl f) = there (inner (subst (λ x. At x (j ∷ js)) (sym f) here))
    later inner (inr n) = elim (At-cases n) [
      | inl f ↦ subst (λ x. At x (k ∷ insert_journal j js)) (sym f) here
      | inr o ↦ there (inner (there o))
    ]

list-At : (i : Journal) (js : List Journal) → At i js → At i (list js)
unfolding list
list-At i [] m = elim m [ ]
list-At i (j ∷ js) m = insert_journal-At i j (list js) (elim (At-cases m) [
  | inl e ↦ subst (λ x. At x (j ∷ list js)) (sym e) here
  | inr n ↦ there (list-At i js n)
])

find_journal-Newest :
    (id : Option Text) (js : List Journal) (i j : Journal)
    → Newest js
    → find_journal id js ≡ some j
    → At i js
    → is_wanted id i ≡ true
    → i.ts_ms ≤ j.ts_ms
unfolding find_journal
find_journal-Newest id [] i j n e m w = elim m [ ]
find_journal-Newest id (k ∷ js) i j n e m w = elim (Bool-cases (is_wanted id k)) [
  | inl f ↦
      let same : k.ts_ms ≡ j.ts_ms = stamp (rw f at e) in
      omega (arith, same, All-at (λ (x : Journal). x.ts_ms ≤ k.ts_ms) (k ∷ js) (omega arith, n.0) m)
  | inr f ↦ elim (At-cases m) [
    | inl g ↦ absurd (differ (sym f ∙ ap (is_wanted id) (sym g) ∙ w))
    | inr g ↦ find_journal-Newest id js i j n.1 (rw f at e) g w
  ]
]
  where
    stamp : {k j : Journal} → some k ≡ some j → k.ts_ms ≡ j.ts_ms
    stamp h = ap (λ (x : Journal). x.ts_ms) (same h)
      where
        same : {k j : Journal} → some k ≡ some j → k ≡ j
        same h = cc h

find_journal-wanted :
    (id : Option Text) (js : List Journal) (j : Journal)
    → find_journal id js ≡ some j
    → is_wanted id j ≡ true
unfolding find_journal
find_journal-wanted id [] j e = cc e
find_journal-wanted id (i ∷ js) j e = elim (Bool-cases (is_wanted id i)) [
  | inl w ↦ subst (λ k. is_wanted id k ≡ true) (same (rw w at e)) w
  | inr w ↦ find_journal-wanted id js j (rw w at e)
]
  where
    same : {i j : Journal} → some i ≡ some j → i ≡ j
    same h = cc h

-- The operation that `undo` takes up is wanted: it has not been restored and, if an id is given, its
-- id is this or begins with it; and none of the others that are wanted is newer.
pub list-newest :
    (id : Option Text) (js : List Journal) (j : Journal)
    → find_journal id (list js) ≡ some j
    → (is_wanted id j ≡ true)
      × ((i : Journal) → At i js → is_wanted id i ≡ true → i.ts_ms ≤ j.ts_ms)
list-newest id js j e = (
  find_journal-wanted id (list js) j e,
  λ i m w. find_journal-Newest id (list js) i j (list-Newest js) e (list-At i js m) w,
)

drop_journal-At :
    (i : Journal) (id : Text) (js : List Journal)
    → text_eq i.id id ≡ false
    → At i js
    → At i (drop_journal id js)
unfolding drop_journal
drop_journal-At i id [] h m = elim m [ ]
drop_journal-At i id (j ∷ js) h m = elim (Bool-cases (text_eq j.id id)) [
  | inl e ↦ elim (At-cases m) [
    | inl f ↦ absurd (differ (sym h ∙ ap (λ (x : Journal). text_eq x.id id) f ∙ e))
    | inr n ↦ rw (drop_journal, e) (drop_journal-At i id js h n)
  ]
  | inr e ↦ elim (At-cases m) [
    | inl f ↦ rw (drop_journal, e) (subst (λ x. At x (j ∷ drop_journal id js)) (sym f) here)
    | inr n ↦ rw (drop_journal, e) (there (drop_journal-At i id js h n))
  ]
]

-- What a `purge` leaves alone: the journal, and what stands in its directory.
abbrev pub Keeps : AbsPath → Journal → World → World → Type 0
Keeps trash i w v =
    (At i w.journals → At i v.journals)
    × ((r : AbsPath) (n : FileNode)
        → stat w.files (trash ++ i.id ∷ r) ≡ some n
        → stat v.files (trash ++ i.id ∷ r) ≡ some n)

module _ (os : Os) (trash : AbsPath) (now keep_days : ℕ) (i : Journal) where
  -- An operation that is old has another id.
  abbrev pub OldIsOther : List Journal → Type 0
  OldIsOther js =
      All (λ (j : Journal). is_old now keep_days j ≡ true → text_eq j.id i.id ≡ false) js

  other_dir :
      (j : Journal) (r : AbsPath)
      → text_eq j.id i.id ≡ false
      → inside (trash ++ j.id ∷ []) (trash ++ i.id ∷ r) ≡ false
  unfolding inside
  other_dir j r h = inside-same trash (j.id ∷ []) (i.id ∷ r) ∙ ground (arith, h)

  purge_all-Keeps :
      (js : List Journal) (w : World)
      → OldIsOther js
      → Keeps trash i w (purge_all os trash now keep_days false js w).0
  unfolding purge_all remove_dir_all
  purge_all-Keeps [] w h = (λ m. m, λ r n e. e)
  purge_all-Keeps (j ∷ js) w h = elim (Bool-cases (is_old now keep_days j)) [
    | inr o ↦ rw (purge_all, o) (purge_all-Keeps js w h.1)
    | inl o ↦ elim (Bool-cases (os.removes (trash ++ j.id ∷ []))) [
      | inr k ↦ rw (purge_all, o, k) (purge_all-Keeps js w h.1)
      | inl k ↦
          let other = h.0 o in
          let next =
            purge_all-Keeps js
              (record {
                files = without_below (trash ++ j.id ∷ []) w.files;
                journals = drop_journal j.id w.journals;
              })
              h.1 in
          rw (purge_all, o, k)
            (
              λ m. next.0 (drop_journal-At i j.id w.journals (swap j.id i.id other) m),
              λ r n e. next.1 r n (stat-without_below w.files _ _ n (other_dir j r other) e),
            )
    ]
  ]
    where
      swap : (a b : Text) → text_eq a b ≡ false → text_eq b a ≡ false
      swap a b h = elim (Bool-cases (text_eq b a)) [
        | inr e ↦ e
        | inl e ↦ absurd (differ (sym h ∙ (text_eq_iff a b).1 (sym ((text_eq_iff b a).0 e))))
      ]

  -- `purge` without `all` keeps every operation that is not old, where no old one has its id: its
  -- journal stays, and so does everything in its directory. An operation is old if it is older
  -- than `keep_days` days, or restored and older than one day.
  pub purge-Keeps :
      (w : World)
      → ((j : Journal)
          → is_old now keep_days j ≡ true
          → At j w.journals
          → text_eq j.id i.id ≡ false)
      → Keeps trash i w (purge os trash now keep_days false w).0
  unfolding purge
  purge-Keeps w h =
      purge_all-Keeps (list w.journals) w
        (list-All _ w.journals (At-All w.journals (λ j m o. h j o m)))
