-- ===== src/Assist/Sent.antt =====
-- What src/assist.rs lets the model see.
use fore_ai_assisted_termina.Prelude.{ℕ, ◌≡◌, ap, false, Option, ◌⊎◌, At, ℤ}
use fore_ai_assisted_termina.Prelude.Text.{Text, contains}
use fore_ai_assisted_termina.Redact.Masked.{IsForeign}
use fore_ai_assisted_termina.Redact.Redactor.{Redactor, Redacted, as_str, wrap}
use fore_ai_assisted_termina.Redact.Redactor.Leaks.{redact-contains}
use fore_ai_assisted_termina.Safety.Command.{Node}
use fore_ai_assisted_termina.Assist.Ask.{
  Context, Llm, system_fix, system_nl, fix, read_fix, nl, read_nl,
}

-- The model with other answers.
abbrev pub answering : Llm → (Redacted → Redacted → ℕ → Text ⊎ Text) → Llm
answering llm other = record llm { complete = other }

-- Two models that answer alike to all texts that do not contain `v`.
abbrev pub Alike :
    Text
    → (Redacted → Redacted → ℕ → Text ⊎ Text)
    → (Redacted → Redacted → ℕ → Text ⊎ Text)
    → Type 0
Alike v one other =
    (system user : Redacted) (max_tokens : ℕ)
    → contains (as_str system) v ≡ false
    → contains (as_str user) v ≡ false
    → one system user max_tokens ≡ other system user max_tokens

module _ (debug : Text → Text) (parse : Text → Option Node) (depth : ℕ) (llm : Llm) (r : Redactor)
    (v : Text) (other : Redacted → Redacted → ℕ → Text ⊎ Text) where
  wrapped-contains :
      (t : Text) → At v r.env_values → IsForeign v → contains (as_str (wrap r t)) v ≡ false
  unfolding wrap as_str
  wrapped-contains t m f = redact-contains r t v m f

  -- A value that the redactor holds, without `<` and `>` and no part of the word `REDACTED`, is kept
  -- from the model: with any context, command, output and request, the results of `fix` and of `nl`
  -- stay the same if the model is replaced by one that answers alike to texts without the value,
  -- whatever it would do with a text that has it.
  pub fix-nl-Alike :
      (c : Context) (failed_cmd stderr_tail request : Text) (code : ℤ)
      → At v r.env_values
      → IsForeign v
      → Alike v llm.complete other
      → (fix debug parse depth llm r c failed_cmd code stderr_tail
          ≡ fix debug parse depth (answering llm other) r c failed_cmd code stderr_tail)
        × (nl debug parse depth llm r c request
            ≡ nl debug parse depth (answering llm other) r c request)
  unfolding fix nl
  fix-nl-Alike c failed_cmd stderr_tail request code m f alike = (
    ap (read_fix debug parse depth llm.model)
        (alike _ _ 200 (wrapped-contains system_fix m f) (wrapped-contains _ m f)),
    ap (read_nl debug parse depth llm.model)
        (alike _ _ 160 (wrapped-contains system_nl m f) (wrapped-contains _ m f)),
  )
