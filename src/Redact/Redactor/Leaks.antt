-- ===== src/Redact/Redactor/Leaks.antt =====
-- What `redact` promises of the values of the environment, whatever text they stand in.
use fore_ai_assisted_termina.Prelude.{
  ℕ, zero, suc, ◌-◌, ◌≡◌, false, Bool-cases, inl, inr, List, [], ◌∷◌, arith, At, here, there,
  length,
}
use fore_ai_assisted_termina.Prelude.Text.{
  Text, codes, contains, starts_with, replace, replace_from,
}
use fore_ai_assisted_termina.Prelude.Text.Laws.{contains_append_right}
use fore_ai_assisted_termina.Redact.Known.{mask, redact_known_formats}
use fore_ai_assisted_termina.Redact.Masked.{
  Masked, keep, IsForeign, mask-contains, Masked-starts_with, Masked-contains,
}
use fore_ai_assisted_termina.Redact.Layers.{
  replace-Masked, replace_from-Masked, redact_known_formats-Masked, redact_assignments-Masked,
}
use fore_ai_assisted_termina.Redact.Redactor.{Redactor, redact_env, redact}

empty-contains : (v : Text) → IsForeign v → contains [] v ≡ false
empty-contains v f = ground (arith, contains_append_right (codes "REDACTED") [] v)

miss :
    (x : ℕ) (s t v : Text)
    → IsForeign v
    → starts_with (x ∷ s) v ≡ false
    → Masked (x ∷ s) (x ∷ t)
    → contains t v ≡ false
    → contains (x ∷ t) v ≡ false
unfolding contains
miss x s t v f e m h = ground (arith, Masked-starts_with (x ∷ s) (x ∷ t) v f.no_open m)

-- No occurrence of the value is left by replacing it.
replace_from-contains :
    (v : Text)
    → IsForeign v
    → (skip : ℕ) (s : Text) → contains (replace_from skip v mask s) v ≡ false
unfolding replace_from
replace_from-contains v f zero [] = empty-contains v f
replace_from-contains v f (suc skip) [] = empty-contains v f
replace_from-contains v f (suc skip) (x ∷ s) = replace_from-contains v f skip s
replace_from-contains v f zero (x ∷ s) = elim (Bool-cases (starts_with (x ∷ s) v)) [
  | inl e ↦ rw (e, replace_from) (mask-contains _ v f (replace_from-contains v f (length v - 1) s))
  | inr e ↦
      rw (e, replace_from)
        (miss x s _ v f e (keep x (replace_from-Masked 0 v s)) (replace_from-contains v f 0 s))
]

redact_env-contains :
    (vs : List Text) (s v : Text)
    → IsForeign v
    → contains s v ≡ false
    → contains (redact_env vs s) v ≡ false
unfolding redact_env
redact_env-contains [] s v f h = h
redact_env-contains (w ∷ ws) s v f h =
    redact_env-contains ws _ v f
      (ground (arith, Masked-contains s (replace s w mask) v f (replace-Masked w s)))

redact_env-At :
    (vs : List Text) (s v : Text) → IsForeign v → At v vs → contains (redact_env vs s) v ≡ false
unfolding redact_env replace
redact_env-At [] s v f m = elim m [ ]
redact_env-At (v ∷ vs) s w f here =
    redact_env-contains vs _ w f (ground (arith, replace_from-contains w f 0 s))
redact_env-At (v ∷ vs) s w f (there m) = redact_env-At vs _ w f m

-- Whatever the input, no value that the redactor holds occurs in what `redact` returns, if the value
-- has no `<` and no `>` and is no part of the word `REDACTED`.
pub redact-contains :
    (r : Redactor) (input v : Text)
    → At v r.env_values
    → IsForeign v
    → contains (redact r input) v ≡ false
unfolding redact
redact-contains r input v m f =
    let s = redact_env r.env_values input in
    Masked-contains (redact_known_formats s) _ v f
      (redact_assignments-Masked (redact_known_formats s))
      (Masked-contains s _ v f (redact_known_formats-Masked s)
        (redact_env-At r.env_values input v f m))
