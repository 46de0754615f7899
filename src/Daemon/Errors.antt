-- ===== src/Daemon/Errors.antt =====
-- `friendly_llm_error` and `model_unavailable` of src/daemon.rs.
use fore_ai_assisted_termina.Prelude.{
  ℕ, ◌/◌, ◌&&◌, ◌||◌, Option, none, some, [], ◌∷◌, if◌then◌else◌, ℤ, excess,
}
use fore_ai_assisted_termina.Prelude.Text.{Text, codes, holds, concat, to_ascii_lowercase}
use fore_ai_assisted_termina.Prelude.Text.Decimal.{decimal}
use fore_ai_assisted_termina.Daemon.{Circuit, is_open}

-- The part of the configuration about the model.
pub record LlmSection : Type 0 where
  pub base_url : Text
  pub model : Text
  pub timeout_s : ℕ

unfoldable pub unreachable_error : LlmSection → Text
unreachable_error cfg =
    if holds cfg.base_url "11434"
    then concat (
        codes "no model server at "
        ∷ cfg.base_url
        ∷ codes " — start Ollama (`ollama serve`) and `ollama pull "
        ∷ cfg.model
        ∷ codes "`, or set [llm] in `fore config edit`"
        ∷ [])
    else concat (
        codes "cannot reach model server at "
        ∷ cfg.base_url
        ∷ codes " — check [llm].base_url in `fore config edit`"
        ∷ [])

unfoldable pub friendly_llm_error : LlmSection → Text → Text
friendly_llm_error cfg e =
    let low = to_ascii_lowercase e in
    if holds low "connection refused" || holds low "error trying to connect" || holds low "dns"
    then unreachable_error cfg
    else if (holds low "404" && holds low "model") || holds low "not found"
    then concat (
        codes "model `"
        ∷ cfg.model
        ∷ codes "` not found on the server — `ollama pull "
        ∷ cfg.model
        ∷ codes "` or change [llm].model"
        ∷ [])
    else if holds low "401" || holds low "403" || holds low "api key" || holds low "unauthorized"
    then codes "model server rejected the API key — set FORE_LLM_API_KEY or [llm].api_key_file"
    else if holds low "timed out" || holds low "timeout"
    then concat (
        codes "model took longer than "
        ∷ decimal cfg.timeout_s
        ∷ codes "s — a smaller model or a higher [llm].timeout_s helps"
        ∷ [])
    else if holds low "unparseable"
    then codes
        "model replied in an unexpected format — try again, or use a code-tuned model (qwen2.5-coder, codellama)"
    else e

unfoldable pub model_unavailable : LlmSection → ℤ → ℤ → Circuit → Option Text
model_unavailable cfg now later c =
    if is_open now c
    then some (
        concat (
          codes "model at "
          ∷ cfg.base_url
          ∷ codes " unreachable — AI paused for "
          ∷ decimal (excess c.open_until_ms later / 1000)
          ∷ codes "s (ghost text & pre-flight still work). `fore doctor` to diagnose."
          ∷ []))
    else none
