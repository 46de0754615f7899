-- ===== src/Safety/Risk/Bumps.antt =====
-- What a row of `bump` calls of src/safety.rs leaves in the context.
use fore_ai_assisted_termina.Prelude.{
  ℕ, ◌≤◌, ◌<◌, ◌≡◌, refl, sym, ap, ◌∙◌, inl, inr, true, false, Bool-cases, List, [], ◌∷◌, ◌++◌,
  arith, All, At, here, there, At-append_left, At-append_right,
}
use fore_ai_assisted_termina.Prelude.Text.{Text, text_eq, text_eq_iff}
use fore_ai_assisted_termina.Safety.Risk.{
  Risk, read_only, rank, Ctx, start, Bump, is_seen, worse, bump, bump_all,
}

-- The worst risk of a row of bumps, none counted as `read_only`.
pub worst : Risk → List Bump → Risk
worst r [] = r
worst r (b ∷ bs) = worst (worse b.0 r) bs

pub bump_all-worst : (ctx : Ctx) (bs : List Bump) → (bump_all ctx bs).risk ≡ worst ctx.risk bs
unfolding bump_all worst bump
bump_all-worst ctx [] = refl
bump_all-worst ctx ((r, why) ∷ bs) =
    bump_all-worst (bump ctx (r, why)) bs ∙ ap (λ k. worst k bs) (ground arith)

worst-ge-start : (r : Risk) (bs : List Bump) → rank r ≤ rank (worst r bs)
unfolding worst
worst-ge-start r [] = omega arith
worst-ge-start r (b ∷ bs) = ground (arith, worst-ge-start (worse b.0 r) bs)

pub worst-ge : (r : Risk) (b : Bump) (bs : List Bump) → At b bs → rank b.0 ≤ rank (worst r bs)
unfolding worst
worst-ge r b [] m = elim m [ ]
worst-ge r b (b' ∷ bs) here = ground (arith, worst-ge-start (worse b.0 r) bs)
worst-ge r b (c ∷ bs) (there m) = worst-ge (worse c.0 r) b bs m

pub worst-le :
    (n : ℕ) (r : Risk) (bs : List Bump)
    → rank r ≤ n
    → All (λ b. rank b.0 ≤ n) bs
    → rank (worst r bs) ≤ n
unfolding worst
worst-le n r [] h k = h
worst-le n r (b ∷ bs) h k = worst-le n (worse b.0 r) bs (ground (arith, k.0)) k.1

-- The set of reasons seen is the list of reasons.
abbrev Agree : Ctx → Type 0
Agree ctx = (why : Text) → is_seen ctx.seen why ≡ is_seen ctx.reasons why

is_seen-append : (xs : List Text) (x why : Text) → is_seen (xs ++ x ∷ []) why ≡ is_seen (x ∷ xs) why
unfolding is_seen
is_seen-append [] x why = refl
is_seen-append (y ∷ xs) x why = ground (arith, is_seen-append xs x why)

bump-Agree : (ctx : Ctx) (b : Bump) → Agree ctx → Agree (bump ctx b)
unfolding bump
bump-Agree ctx (r, x) h why = elim (Bool-cases (is_seen ctx.seen x)) [
  | inl e ↦ rw (e, bump) (h why)
  | inr e ↦ rw (e, bump) (unfold is_seen in ground (arith, h why, is_seen-append ctx.reasons x why))
]

At-of_is_seen : (xs : List Text) (why : Text) → is_seen xs why ≡ true → At why xs
unfolding is_seen
At-of_is_seen [] why h = absurd (ground arith)
At-of_is_seen (x ∷ xs) why h = elim (Bool-cases (text_eq why x)) [
  | inl e ↦ let same : why ≡ x = (text_eq_iff why x).0 e in rw same here
  | inr e ↦ there (At-of_is_seen xs why (ground arith))
]

bump-reasons : (ctx : Ctx) (b : Bump) → Agree ctx → At b.1 (bump ctx b).reasons
unfolding bump
bump-reasons ctx (r, why) h = elim (Bool-cases (is_seen ctx.seen why)) [
  | inl e ↦ rw (e, bump) (At-of_is_seen ctx.reasons why (sym (h why) ∙ e))
  | inr e ↦ rw (e, bump) (At-append_right ctx.reasons (why ∷ []) here)
]

bump-keeps : (ctx : Ctx) (b : Bump) (why : Text) → At why ctx.reasons → At why (bump ctx b).reasons
unfolding bump
bump-keeps ctx (r, x) why m = elim (Bool-cases (is_seen ctx.seen x)) [
  | inl e ↦ rw (e, bump) m
  | inr e ↦ rw (e, bump) (At-append_left ctx.reasons (x ∷ []) m)
]

bump_all-keeps :
    (ctx : Ctx) (bs : List Bump) (why : Text)
    → At why ctx.reasons
    → At why (bump_all ctx bs).reasons
unfolding bump_all
bump_all-keeps ctx [] why m = m
bump_all-keeps ctx (b ∷ bs) why m = bump_all-keeps (bump ctx b) bs why (bump-keeps ctx b why m)

reasons_from :
    (ctx : Ctx) (b : Bump) (bs : List Bump) → Agree ctx → At b bs → At b.1 (bump_all ctx bs).reasons
unfolding bump_all
reasons_from ctx b [] h m = elim m [ ]
reasons_from ctx b (b' ∷ bs) h here = bump_all-keeps (bump ctx b) bs b.1 (bump-reasons ctx b h)
reasons_from ctx b (c ∷ bs) h (there m) = reasons_from (bump ctx c) b bs (bump-Agree ctx c h) m

-- The reason of each bump is listed.
pub bump_all-reasons : (b : Bump) (bs : List Bump) → At b bs → At b.1 (bump_all start bs).reasons
bump_all-reasons b bs m = reasons_from start b bs (λ why. refl) m

-- No reason is listed twice.
abbrev pub IsDistinct : List Text → Type 0
IsDistinct [] = Unit {0}
IsDistinct (x ∷ xs) = (is_seen xs x ≡ false) × IsDistinct xs

append-IsDistinct :
    (xs : List Text) (x : Text) → is_seen xs x ≡ false → IsDistinct xs → IsDistinct (xs ++ x ∷ [])
unfolding is_seen
append-IsDistinct [] x h d = (refl, tt)
append-IsDistinct (y ∷ xs) x h d = (
  ground (arith, is_seen-append xs x y, text_eq_iff x y, text_eq_iff y x),
  append-IsDistinct xs x (ground arith) d.1,
)

bump-IsDistinct :
    (ctx : Ctx) (b : Bump) → Agree ctx → IsDistinct ctx.reasons → IsDistinct (bump ctx b).reasons
unfolding bump
bump-IsDistinct ctx (r, x) h d = elim (Bool-cases (is_seen ctx.seen x)) [
  | inl e ↦ rw (e, bump) d
  | inr e ↦ rw (e, bump) (append-IsDistinct ctx.reasons x (sym (h x) ∙ e) d)
]

IsDistinct-from :
    (ctx : Ctx) (bs : List Bump)
    → Agree ctx
    → IsDistinct ctx.reasons
    → IsDistinct (bump_all ctx bs).reasons
unfolding bump_all
IsDistinct-from ctx [] h d = d
IsDistinct-from ctx (b ∷ bs) h d =
    IsDistinct-from (bump ctx b) bs (bump-Agree ctx b h) (bump-IsDistinct ctx b h d)

pub bump_all-IsDistinct : (bs : List Bump) → IsDistinct (bump_all start bs).reasons
bump_all-IsDistinct bs = IsDistinct-from start bs (λ why. refl) tt

-- A bump that says something.
abbrev pub Speaks : Bump → Type 0
Speaks b = 0 < rank b.0

abbrev pub Explained : Risk → List Text → Type 0
Explained r [] = r ≡ read_only
Explained r (why ∷ whys) = 0 < rank r

Explained-append : (r : Risk) (xs : List Text) (x : Text) → 0 < rank r → Explained r (xs ++ x ∷ [])
Explained-append r [] x h = h
Explained-append r (y ∷ xs) x h = h

Explained-mono :
    (r s : Risk) (xs : List Text) (x : Text)
    → is_seen xs x ≡ true
    → rank r ≤ rank s
    → Explained r xs
    → Explained s xs
unfolding is_seen
Explained-mono r s [] x e h k = absurd (ground arith)
Explained-mono r s (y ∷ xs) x e h k = omega arith

worse-pos : (r s : Risk) → 0 < rank r → 0 < rank (worse r s)
worse-pos r s h = ground arith

worse-ge : (r s : Risk) → rank s ≤ rank (worse r s)
worse-ge r s = ground arith

bump-Explained :
    (ctx : Ctx) (r : Risk) (x : Text)
    → Agree ctx
    → Explained ctx.risk ctx.reasons
    → 0 < rank r
    → Explained (bump ctx (r, x)).risk (bump ctx (r, x)).reasons
unfolding bump
bump-Explained ctx r x h k s = elim (Bool-cases (is_seen ctx.seen x)) [
  | inl e ↦
      rw (e, bump)
        (Explained-mono ctx.risk (worse r ctx.risk) ctx.reasons x (sym (h x) ∙ e)
          (worse-ge r ctx.risk) k)
  | inr e ↦ rw (e, bump) (Explained-append _ ctx.reasons x (worse-pos r ctx.risk s))
]

Explained-from :
    (ctx : Ctx) (bs : List Bump)
    → Agree ctx
    → Explained ctx.risk ctx.reasons
    → All Speaks bs
    → Explained (bump_all ctx bs).risk (bump_all ctx bs).reasons
unfolding bump_all
Explained-from ctx [] h k s = k
Explained-from ctx ((r, x) ∷ bs) h k s =
    Explained-from (bump ctx (r, x)) bs (bump-Agree ctx (r, x) h) (bump-Explained ctx r x h k s.0)
      s.1

-- There are reasons exactly when the risk is above `read_only`, if each bump is.
pub bump_all-Explained :
    (bs : List Bump)
    → All Speaks bs
    → Explained (bump_all start bs).risk (bump_all start bs).reasons
bump_all-Explained bs s = Explained-from start bs (λ why. refl) refl s
