-- ===== src/Safety/Assess/Removals.antt =====
-- How `command_of` of src/safety.rs reads an `rm`, behind wrappers and with a recursive flag.
use mathlib.Core.Path.{subst}
use fore_ai_assisted_termina.Prelude.{
  ℕ, suc, ◌+◌, ◌≡◌, ◌≢◌, refl, sym, ap, ◌∙◌, ◌⊎◌, inl, inr, Bool, true, false, not, ◌&&◌, ◌||◌,
  Bool-cases, some, List, [], ◌∷◌, arith, length, drop, any, keep_if, skip_while, position, All,
  All-at, At, At-cases, here, there,
}
use fore_ai_assisted_termina.Prelude.Text.{
  Text, codes, text_eq, is, is_one_of, begins, starts_with, contains_char, text_eq_iff,
}
use fore_ai_assisted_termina.Safety.Command.{
  base_name, is_wrapper, is_flag, skip_flags, skip_duration, is_assignment, peel, command_name,
  Command, command_of, flags, has_flag,
}

-- Programs that run the words behind them.
abbrev pub wrappers : List Text
wrappers =
    codes "sudo"
    ∷ codes "doas"
    ∷ codes "time"
    ∷ codes "nohup"
    ∷ codes "nice"
    ∷ codes "env"
    ∷ codes "command"
    ∷ codes "builtin"
    ∷ codes "exec"
    ∷ codes "caffeinate"
    ∷ codes "stdbuf"
    ∷ codes "unbuffer"
    ∷ codes "hyperfine"
    ∷ []

abbrev pub spellings : List Text
spellings = codes "rm" ∷ codes "/bin/rm" ∷ codes "/usr/bin/rm" ∷ []

-- Words that run `rm` with these arguments, behind any number of wrappers.
pub data Removes (args : List Text) : List Text → Type 0 where
  bare : (w : Text) → At w spellings → Removes args (w ∷ args)
  wrapped : (w : Text) (ws : List Text) → At w wrappers → Removes args ws → Removes args (w ∷ ws)

-- A flag that asks for a recursive removal: the long one, or letters with `r` or `R` among them.
pub data AsksRecursive : Text → Type 0 where
  long : AsksRecursive (codes "--recursive")
  letters :
      (c : ℕ) (cs : Text)
      → c ≢ b'-'
      → At b'r' (c ∷ cs) ⊎ At b'R' (c ∷ cs)
      → AsksRecursive (b'-' ∷ c ∷ cs)

-- A word that the loop of `command_name` stops at.
abbrev Plain : Text → Type 0
Plain w = (is_flag w ≡ false) × (is_assignment w ≡ false)

abbrev Peeled : Text → Type 0
Peeled w =
    Plain w
    × (is_wrapper (base_name w) ≡ true)
    × (is (base_name w) "timeout" ≡ false)
    × (text_eq (base_name w) (codes "rm") ≡ false)

abbrev Names : Text → Type 0
Names w = Plain w × (is_wrapper (base_name w) ≡ false) × (base_name w ≡ codes "rm")

wrappers-Peeled : All Peeled wrappers
unfolding is_wrapper is_one_of is text_eq begins starts_with contains_char
wrappers-Peeled = (
  ((refl, refl), refl, refl, refl),
  (
    ((refl, refl), refl, refl, refl),
    (
      ((refl, refl), refl, refl, refl),
      (
        ((refl, refl), refl, refl, refl),
        (
          ((refl, refl), refl, refl, refl),
          (
            ((refl, refl), refl, refl, refl),
            (
              ((refl, refl), refl, refl, refl),
              (
                ((refl, refl), refl, refl, refl),
                (
                  ((refl, refl), refl, refl, refl),
                  (
                    ((refl, refl), refl, refl, refl),
                    (
                      ((refl, refl), refl, refl, refl),
                      (((refl, refl), refl, refl, refl), (((refl, refl), refl, refl, refl), tt)),
                    ),
                  ),
                ),
              ),
            ),
          ),
        ),
      ),
    ),
  ),
)

spellings-Names : All Names spellings
unfolding is_wrapper is_one_of is text_eq begins starts_with contains_char
spellings-Names =
    (((refl, refl), refl, refl), (((refl, refl), refl, refl), (((refl, refl), refl, refl), tt)))

peeled : (w : Text) → At w wrappers → Peeled w
peeled w m = All-at Peeled wrappers wrappers-Peeled m

names : (w : Text) → At w spellings → Names w
names w m = All-at Names spellings spellings-Names m

Removes-Plain :
    (args ws : List Text)
    → Removes args ws
    → (w : Text) × (vs : List Text) × (ws ≡ w ∷ vs) × Plain w
Removes-Plain args _ (bare w m) = (w, args, refl, (names w m).0)
Removes-Plain args _ (wrapped w ws m r) = (w, ws, refl, (peeled w m).0)

skip_flags-Plain : (w : Text) (vs : List Text) → is_flag w ≡ false → skip_flags (w ∷ vs) ≡ w ∷ vs
unfolding skip_flags
skip_flags-Plain w [] h = rw h refl
skip_flags-Plain w (v ∷ vs) h = rw h refl

peel-wrapped :
    (w : Text) (args ws : List Text)
    → At w wrappers
    → Removes args ws
    → peel (suc (length ws)) (w ∷ ws) ≡ peel (length ws) ws
unfolding peel
peel-wrapped w args ws m r =
    let (u, vs, e, plain) = Removes-Plain args ws r in
    let (_, wraps, no_timeout, _) = peeled w m in
    let skipped : skip_while is_assignment (skip_flags (skip_duration (base_name w) ws)) ≡ ws =
      rw (e, no_timeout, skip_flags-Plain u vs plain.0, plain.1) refl in
    rw (wraps, peel) (ap (peel (length ws)) skipped)

Removes-name : (args ws : List Text) → Removes args ws → base_name (command_name ws) ≡ codes "rm"
unfolding command_name peel
Removes-name args _ (bare w m) = bare_name w args (names w m)
  where
    bare_name :
        (w : Text) (args : List Text) → Names w → base_name (command_name (w ∷ args)) ≡ codes "rm"
    bare_name w args (_, no_wrapper, name) = rw (no_wrapper, peel) name
Removes-name args _ (wrapped w ws m r) = rw (peel-wrapped w args ws m r) (Removes-name args ws r)

Removes-position :
    (args ws : List Text)
    → Removes args ws
    → (i : ℕ) × (position (λ w. text_eq (base_name w) (codes "rm")) ws ≡ some i)
      × (drop (i + 1) ws ≡ args)
Removes-position args _ (bare w m) =
    let (_, _, name) = names w m in
    let same : text_eq (base_name w) (codes "rm") ≡ true = (text_eq_iff _ _).1 name in
    (0, rw same refl, refl)
Removes-position args _ (wrapped w ws m r) =
    let (i, e, d) = Removes-position args ws r in
    let (_, _, _, other) = peeled w m in
    let later : drop (suc i + 1) (w ∷ ws) ≡ args = ap (λ k. drop k (w ∷ ws)) (next i) ∙ d in
    (suc i, rw (other, e) refl, later)
  where
    next : (i : ℕ) → suc i + 1 ≡ suc (i + 1)
    next i = omega arith

pub command_of-Removes :
    (args ws : List Text)
    → Removes args ws
    → ((command_of ws).name ≡ codes "rm") × ((command_of ws).args ≡ args)
unfolding command_of
command_of-Removes args ws r =
    let (i, e, d) = Removes-position args ws r in
    (Removes-name args ws r, rw (Removes-name args ws r, e) d)

AsksRecursive-is_flag : (a : Text) → AsksRecursive a → is_flag a ≡ true
unfolding begins starts_with
AsksRecursive-is_flag _ long = refl
AsksRecursive-is_flag _ (letters c cs h m) = refl

contains_char-At : (c : ℕ) (s : Text) → At c s → contains_char s c ≡ true
unfolding contains_char
contains_char-At c [] m = elim m [ ]
contains_char-At c (d ∷ s) m = elim (At-cases m) [
  | inl same ↦ ground (arith, same)
  | inr n ↦ ground (arith, contains_char-At c s n)
]

keep_if-At :
    (p : Text → Bool) (a : Text) (xs : List Text) → p a ≡ true → At a xs → At a (keep_if p xs)
keep_if-At p a [] h m = elim m [ ]
keep_if-At p a (x ∷ xs) h m = elim (Bool-cases (p x)) [
  | inl e ↦ elim (At-cases m) [
    | inl same ↦ rw e (subst (λ y. At y (x ∷ keep_if p xs)) (sym same) here)
    | inr n ↦ rw e (there (keep_if-At p a xs h n))
  ]
  | inr e ↦ elim (At-cases m) [
    | inl same ↦ absurd (differ (sym e ∙ ap p (sym same) ∙ h))
    | inr n ↦ rw e (keep_if-At p a xs h n)
  ]
]
  where
    differ : false ≡ true → ⊥
    differ x = cc x

any-At : (p : Text → Bool) (a : Text) (xs : List Text) → p a ≡ true → At a xs → any p xs ≡ true
any-At p a [] h m = elim m [ ]
any-At p a (x ∷ xs) h m = elim (At-cases m) [
  | inl same ↦ ground (arith, ap p same, h)
  | inr n ↦ ground (arith, any-At p a xs h n)
]

abbrev asks : ℕ → Text → Bool
asks short f =
    (begins f "--" && is f "--recursive") || (not (begins f "--") && contains_char f short)

AsksRecursive-asks : (a : Text) → AsksRecursive a → (asks b'r' a ≡ true) ⊎ (asks b'R' a ≡ true)
unfolding begins starts_with is text_eq contains_char
AsksRecursive-asks _ long = inl refl
AsksRecursive-asks _ (letters c cs h (inl m)) =
    let found = contains_char-At b'r' (c ∷ cs) m in inl (ground (arith, h, found))
AsksRecursive-asks _ (letters c cs h (inr m)) =
    let found = contains_char-At b'R' (c ∷ cs) m in inr (ground (arith, h, found))

pub has_flag-AsksRecursive :
    (c : Command) (a : Text)
    → At a c.args
    → AsksRecursive a
    → (has_flag c b'r' "--recursive" || has_flag c b'R' "--recursive") ≡ true
unfolding has_flag
has_flag-AsksRecursive c a m h =
    let flagged = keep_if-At is_flag a c.args (AsksRecursive-is_flag a h) m in
    elim (AsksRecursive-asks a h) [
      | inl e ↦ let found = any-At (asks b'r') a (flags c) e flagged in rw found refl
      | inr e ↦ let found = any-At (asks b'R') a (flags c) e flagged in ground (arith, found)
    ]
