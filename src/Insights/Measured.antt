-- ===== src/Insights/Measured.antt =====
-- What the lists of `stats` of src/insights.rs say of the history.
use mathlib.Core.Path.{subst}
use fore_ai_assisted_termina.Prelude.{
  ℕ, ◌+◌, ◌≤◌, ◌≡◌, refl, sym, ap, ◌∙◌, inl, inr, ◌&&◌, Bool-cases, Option, none, some, List, [],
  ◌∷◌, leb, if◌then◌else◌, keep_if, map, length, length-take, take-All, arith, ℤ, All, All-at, At,
  At-All, here, there,
}
use fore_ai_assisted_termina.Prelude.Text.{Text, text_eq, text_eq_iff}
use fore_ai_assisted_termina.Prelude.Sort.{sort_by-All, Falling, sort_by-Falling, take-Falling}
use fore_ai_assisted_termina.Store.{HistoryEntry}
use fore_ai_assisted_termina.Insights.Mine.{Tally, count_in}
use fore_ai_assisted_termina.Insights.Tallies.{
  times, amount, Absent, Distinct, Counts, Counts-At, tally_all, tally_all-Counts,
}
use fore_ai_assisted_termina.Insights.Stats.{
  Counters, Runs, is_failure, count_run, Sums, add_duration, visit_all, highest, stats,
}

abbrev ran : Runs → Text × ℕ
ran e = (e.0, e.1)

abbrev broke : Runs → Text × ℕ
broke e = (e.0, e.2)

count_run-ran :
    (e : HistoryEntry) (fs : List Runs) → map ran (count_run e fs) ≡ count_in e.cmd (map ran fs)
unfolding count_run count_in
count_run-ran e [] = refl
count_run-ran e (f ∷ fs) = elim (Bool-cases (text_eq f.0 e.cmd)) [
  | inl h ↦ rw (h, count_run, count_in) refl
  | inr h ↦ rw (h, count_run, count_in) (ap (λ t. ran f ∷ t) (count_run-ran e fs))
]

abbrev broken : HistoryEntry → Text → ℕ
broken e k = if is_failure e then (if text_eq e.cmd k then 1 else 0) else 0

count_run-broke :
    (k : Text) (e : HistoryEntry) (fs : List Runs)
    → amount k (map broke (count_run e fs)) ≡ broken e k + amount k (map broke fs)
unfolding count_run
count_run-broke k e [] = ground arith
count_run-broke k e (f ∷ fs) = elim (Bool-cases (text_eq f.0 e.cmd)) [
  | inl h ↦ rw (h, count_run, sym ((text_eq_iff f.0 e.cmd).0 h)) (ground arith)
  | inr h ↦ rw (h, count_run) (omega (arith, count_run-broke k e fs))
]

ran-Absent : (k : Text) (fs : List Runs) → Absent k (map ran fs) → Absent k (map broke fs)
ran-Absent k [] a = tt
ran-Absent k (f ∷ fs) a = (a.0, ran-Absent k fs a.1)

ran-Distinct : (fs : List Runs) → Distinct (map ran fs) → Distinct (map broke fs)
ran-Distinct [] d = tt
ran-Distinct (f ∷ fs) d = (ran-Absent f.0 fs d.0, ran-Distinct fs d.1)

abbrev pub commands_of : List HistoryEntry → List Text
commands_of h = map (λ (e : HistoryEntry). e.cmd) h

abbrev pub dirs_of : List HistoryEntry → List Text
dirs_of h = map (λ (e : HistoryEntry). e.cwd) h

abbrev pub failed_of : List HistoryEntry → List Text
failed_of h = commands_of (keep_if is_failure h)

abbrev runs_all : List HistoryEntry → List Runs → List Runs
runs_all [] fs = fs
runs_all (e ∷ es) fs = runs_all es (count_run e fs)

runs_all-ran :
    (h : List HistoryEntry) (fs : List Runs)
    → map ran (runs_all h fs) ≡ tally_all (commands_of h) (map ran fs)
runs_all-ran [] fs = refl
runs_all-ran (e ∷ es) fs =
    runs_all-ran es (count_run e fs) ∙ ap (λ t. tally_all (commands_of es) t) (count_run-ran e fs)

runs_all-broke :
    (k : Text) (h : List HistoryEntry) (fs : List Runs)
    → amount k (map broke (runs_all h fs)) ≡ times k (failed_of h) + amount k (map broke fs)
runs_all-broke k [] fs = omega arith
runs_all-broke k (e ∷ es) fs = elim (Bool-cases (is_failure e)) [
  | inl b ↦ rw b (
      omega (
        arith,
        runs_all-broke k es (count_run e fs),
        count_run-broke k e fs,
        ap {B = ℕ} (λ t. if t then (if text_eq e.cmd k then 1 else 0) else 0) b,
      ))
  | inr b ↦ rw b (
      omega (
        arith,
        runs_all-broke k es (count_run e fs),
        count_run-broke k e fs,
        ap {B = ℕ} (λ t. if t then (if text_eq e.cmd k then 1 else 0) else 0) b,
      ))
]

-- The loop over the history fills two of its maps as two loops of their own would.
visit_all-freq :
    (h : List HistoryEntry) (s : Sums)
    → ((visit_all h s).freq ≡ runs_all h s.freq)
      × ((visit_all h s).dirs ≡ tally_all (dirs_of h) s.dirs)
unfolding visit_all add_duration
visit_all-freq [] s = (refl, refl)
visit_all-freq (e ∷ es) s =
    let next =
      add_duration e.cmd e.duration_ms
        (record s { freq = count_run e s.freq; dirs = count_in e.cwd s.dirs }) in
    let (f, d) = visit_all-freq es next in
    (
      f ∙ ap (runs_all es) (kept e.duration_ms).0,
      d ∙ ap (tally_all (dirs_of es)) (kept e.duration_ms).1,
    )
  where
    same : Sums
    same = record s { freq = count_run e s.freq; dirs = count_in e.cwd s.dirs }

    kept :
        (d : Option ℕ)
        → ((add_duration e.cmd d same).freq ≡ same.freq)
          × ((add_duration e.cmd d same).dirs ≡ same.dirs)
    kept none = (refl, refl)
    kept (some d) = (refl, refl)

module _ {A B : Type 0} (f : A → B) where
  At-map : {a : A} (xs : List A) → At a xs → At (f a) (map f xs)
  At-map [] m = elim m [ ]
  At-map (x ∷ xs) here = here
  At-map (x ∷ xs) (there m) = there (At-map xs m)

  map-All : (P : B → Type 0) (xs : List A) → All (λ a. P (f a)) xs → All P (map f xs)
  map-All P [] h = tt
  map-All P (x ∷ xs) h = (h.0, map-All P xs h.1)

-- A command with as many runs and failures as the history has.
abbrev pub Exact : List HistoryEntry → Runs → Type 0
Exact h e = (e.1 ≡ times e.0 (commands_of h)) × (e.2 ≡ times e.0 (failed_of h))

runs_all-Exact : (h : List HistoryEntry) (e : Runs) → At e (runs_all h []) → Exact h e
runs_all-Exact h e m = (
  Counts-At _ _ ran_counts (At-map ran _ m),
  Counts-At _ _ (ran-Distinct _ ran_counts.0, λ k. omega (arith, runs_all-broke k h []))
      (At-map broke _ m),
)
  where
    ran_counts : Counts (commands_of h) (map ran (runs_all h []))
    ran_counts = rw (runs_all-ran h []) (tally_all-Counts (commands_of h))

failing-All :
    (h : List HistoryEntry) (fs : List Runs)
    → All (Exact h) fs
    → All (λ (e : Runs). Exact h e × (2 ≤ e.2)) (keep_if (λ (e : Runs). leb 2 e.2 && leb 2 e.1) fs)
failing-All h [] a = tt
failing-All h (f ∷ fs) a = elim (Bool-cases (leb 2 f.2 && leb 2 f.1)) [
  | inl e ↦ rw e ((a.0, ground (arith, e)), failing-All h fs a.1)
  | inr e ↦ rw e (failing-All h fs a.1)
]

-- The entries say how often each stands in the list, none is above one before it, and there are at
-- most as many as the number says.
abbrev pub Ranked : ℕ → List Text → Tally → Type 0
Ranked n seen fs =
    All (λ (e : Text × ℕ). e.1 ≡ times e.0 seen) fs
    × Falling (λ (e : Text × ℕ). e.1) fs
    × (length fs ≤ n)

highest-Ranked :
    (n : ℕ) (seen : List Text) (fs : Tally)
    → All (λ (e : Text × ℕ). e.1 ≡ times e.0 seen) fs
    → Ranked n seen (highest n fs)
highest-Ranked n seen fs a = (
  take-All _ n _ (sort_by-All _ _ _ a),
  take-Falling _ n _ (sort_by-Falling _ _),
  length-take n _,
)

module _ (F : Type 0) (days : ℤ → ℤ → F) (per : ℕ → F → F) (share : ℕ → ℕ → F) (nought : F)
    (walked_runs : List Runs → List Runs) (walked : Tally → Tally) where
  -- Whatever the order in which the maps are walked: of the entries of `top_commands` and of
  -- `busiest_dirs` each says how often its command or directory stands in the history, none is above
  -- one before it, and there are at most eight and five. An entry of `most_failing` says how often
  -- its command failed and ran; each failed twice at least, none failed more often than one before
  -- it, and there are at most five.
  pub stats-Ranked :
      (h : List HistoryEntry) (sessions : ℕ) (now : ℤ) (counters : Counters)
      → ((fs : List Runs) (e : Runs) → At e (walked_runs fs) → At e fs)
      → ((fs : Tally) (e : Text × ℕ) → At e (walked fs) → At e fs)
      → let st = stats F days per share nought walked_runs walked h sessions now counters in
        Ranked 8 (commands_of h) st.top_commands
        × Ranked 5 (dirs_of h) st.busiest_dirs
        × All (λ (e : Runs). Exact h (e.0, e.2, e.1) × (2 ≤ e.1)) st.most_failing
        × Falling (λ (e : Runs). e.1) st.most_failing
        × (length st.most_failing ≤ 5)
  unfolding stats
  stats-Ranked h sessions now counters from_runs from_map = (
    highest-Ranked 8 _ _ (
        map-All ran (λ e. e.1 ≡ times e.0 (commands_of h)) _
          (At-All _ λ e m. (All-at _ _ runs m).0)),
    highest-Ranked 5 _ _ dirs,
    take-All _ 5 _
        (sort_by-All _ _ _ (map-All (λ (e : Runs). (e.0, e.2, e.1)) _ _ (failing-All h _ runs))),
    take-Falling _ 5 _ (sort_by-Falling _ _),
    length-take 5 _,
  )
    where
      none_yet : Sums
      none_yet = record { freq = []; dirs = []; durs = []; waiting = 0; slowest = [] }

      runs : All (Exact h) (walked_runs (visit_all h none_yet).freq)
      runs = At-All _ λ e m.
          runs_all-Exact h e (subst (λ fs. At e fs) (visit_all-freq h none_yet).0 (from_runs _ e m))

      dirs :
          All (λ (e : Text × ℕ). e.1 ≡ times e.0 (dirs_of h)) (walked (visit_all h none_yet).dirs)
      dirs = At-All _ λ e m.
          Counts-At _ _ (tally_all-Counts (dirs_of h))
            (subst (λ fs. At e fs) (visit_all-freq h none_yet).1 (from_map _ e m))
