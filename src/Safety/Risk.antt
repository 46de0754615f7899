-- ===== src/Safety/Risk.antt =====
-- `Risk`, `Assessment` and the classifier's context `Ctx` of src/safety.rs.
pub mod Bumps
use fore_ai_assisted_termina.Prelude.{
  ℕ, String, Bool, ◌||◌, List, [], ◌∷◌, ◌++◌, ltb, if◌then◌else◌, any,
}
use fore_ai_assisted_termina.Prelude.Text.{Text, codes, text_eq}

pub data Risk : Type 0 where
  read_only mutating remote privileged destructive : Risk

-- The derived order goes by the place in the declaration.
abbrev pub rank : Risk → ℕ
rank read_only = 0
rank mutating = 1
rank remote = 2
rank privileged = 3
rank destructive = 4

unfoldable pub label : Risk → String
label read_only = "read-only"
label mutating = "mutating"
label remote = "remote"
label privileged = "privileged"
label destructive = "DESTRUCTIVE"

pub record Assessment : Type 0 where
  pub risk : Risk
  pub reasons : List Text

-- `seen` is a set of which only membership is asked.
pub record Ctx : Type 0 where
  pub risk : Risk
  pub reasons : List Text
  pub seen : List Text

abbrev pub start : Ctx
start = record { risk = read_only; reasons = []; seen = [] }

-- The arguments of one call of `bump`.
abbrev pub Bump : Type 0
Bump = Risk × Text

unfoldable pub is_seen : List Text → Text → Bool
is_seen seen why = any (text_eq why) seen

abbrev pub worse : Risk → Risk → Risk
worse r s = if ltb (rank s) (rank r) then r else s

unfoldable pub bump : Ctx → Bump → Ctx
bump ctx (r, why) =
    if is_seen ctx.seen why then record ctx { risk = worse r ctx.risk } else record ctx {
      risk = worse r ctx.risk;
      reasons = ctx.reasons ++ why ∷ [];
      seen = why ∷ ctx.seen;
    }

-- The calls of `bump` that a piece of code makes, in order, made on a context.
unfoldable pub bump_all : Ctx → List Bump → Ctx
bump_all ctx [] = ctx
bump_all ctx (b ∷ bs) = bump_all (bump ctx b) bs

-- A single call, with a literal or with a text put together by `format!`.
abbrev pub says : Risk → String → List Bump
says r s = (r, codes s) ∷ []

abbrev pub tells : Risk → Text → List Bump
tells r t = (r, t) ∷ []
