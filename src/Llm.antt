-- ===== src/Llm.antt =====
-- src/llm.rs: the request that goes to the server of the model, and what its answer is taken for. The
-- network, with the errors in its words, and the JSON of the answer are arguments.
pub mod Requests
pub mod Tests
use fore_ai_assisted_termina.Prelude.{
  ℕ, Bool, ◌&&◌, ◌||◌, Option, none, some, List, [], ◌∷◌, ◌++◌, ltb, leb, ◌==◌, if◌then◌else◌, take,
  any, skip_while, reverse, ◌⊎◌, inl, inr,
}
use fore_ai_assisted_termina.Prelude.Text.{
  Text, codes, text_eq, holds, starts_with, ends_with, to_ascii_lowercase,
}
use fore_ai_assisted_termina.Redact.Redactor.{Redacted, as_str}

pub record LlmConfig : Type 0 where
  pub base_url : Text
  pub model : Text
  pub api_key : Option Text

pub record Message : Type 0 where
  pub role : Text
  pub content : Text

-- The temperature in tenths.
pub record ChatRequest : Type 0 where
  pub model : Text
  pub messages : List Message
  pub temperature : Option ℕ
  pub max_tokens : Option ℕ
  pub max_completion_tokens : Option ℕ

unfoldable pub wants_new_openai_shape : Text → Bool
wants_new_openai_shape body =
    let b = to_ascii_lowercase body in
    holds b "max_completion_tokens" || (holds b "temperature" && holds b "unsupported")

-- The headers that `apply_auth` adds.
unfoldable pub apply_auth : Text → Option Text → List (Text × Text)
apply_auth base_url none = []
apply_auth base_url (some k) =
    let bearer : List (Text × Text) = (codes "authorization", codes "Bearer " ++ k) ∷ [] in
    if holds base_url "api.anthropic.com"
    then bearer ++ (codes "x-api-key", k) ∷ (codes "anthropic-version", codes "2023-06-01") ∷ []
    else bearer

abbrev pub trim_slashes : Text → Text
trim_slashes s = reverse (skip_while (λ c. c == b'/') (reverse s))

abbrev pub is_success : ℕ → Bool
is_success status = leb 200 status && ltb status 300

abbrev pub chat_url : LlmConfig → Text
chat_url cfg = trim_slashes cfg.base_url ++ codes "/chat/completions"

abbrev pub first_request : LlmConfig → Redacted → Redacted → ℕ → ChatRequest
first_request cfg system user max_tokens = record {
  model = cfg.model;
  messages =
      record { role = codes "system"; content = as_str system }
      ∷ record { role = codes "user"; content = as_str user }
      ∷ [];
  temperature = some 1;
  max_tokens = some max_tokens;
  max_completion_tokens = none;
}

-- `send` is `post` behind the headers: an error, or the status and the body. `show_status` prints a
-- status, and `contents` reads the messages of the choices from a body.
module _ (send : Text → List (Text × Text) → ChatRequest → Text ⊎ (ℕ × Text)) where
  unfoldable pub post : LlmConfig → Text → ChatRequest → Text ⊎ (ℕ × Text)
  post cfg url body = send url (apply_auth cfg.base_url cfg.api_key) body

  abbrev pub retried : LlmConfig → Text → ChatRequest → ℕ → ℕ × Text → Text ⊎ (ℕ × Text)
  retried cfg url body max_tokens (status, text) =
      let again : ChatRequest = record body {
        max_tokens = none;
        max_completion_tokens = some max_tokens;
        temperature = none;
      } in
      if status == 400 && wants_new_openai_shape text
      then post cfg url again
      else inr (status, text)

  -- Up to the answer that counts: the first, or the second where the server wants another shape.
  unfoldable pub exchange : LlmConfig → Redacted → Redacted → ℕ → Text ⊎ (ℕ × Text)
  exchange cfg system user max_tokens =
      let url = chat_url cfg in
      let body = first_request cfg system user max_tokens in
      elim (post cfg url body) [
        | inl e ↦ inl e
        | inr answer ↦ retried cfg url body max_tokens answer
      ]

module _ (show_status : ℕ → Text) (contents : Text → Text ⊎ List Text) where
  abbrev pub first_choice : Text ⊎ List Text → Text ⊎ Text
  first_choice (inl e) = inl (codes "llm parse: " ++ e)
  first_choice (inr []) = inl (codes "llm: empty response")
  first_choice (inr (c ∷ _)) = inr c

  unfoldable pub read_answer : Text ⊎ (ℕ × Text) → Text ⊎ Text
  read_answer (inl e) = inl e
  read_answer (inr (status, text)) =
      let refused = codes "llm " ++ (show_status status ++ (codes ": " ++ take 300 text)) in
      if is_success status then first_choice (contents text) else inl refused

  unfoldable pub complete :
      (Text → List (Text × Text) → ChatRequest → Text ⊎ (ℕ × Text))
      → LlmConfig
      → Redacted
      → Redacted
      → ℕ
      → Text ⊎ Text
  complete send cfg system user max_tokens = read_answer (exchange send cfg system user max_tokens)

unfoldable pub model_listed : List Text → Text → Bool
model_listed models model =
    any
      (λ m.
        text_eq m model || starts_with m (model ++ codes ":") || ends_with m (codes "/" ++ model))
      models

unfoldable pub short_err : Text → Text
short_err e =
    let low = to_ascii_lowercase e in
    if holds low "connection refused"
    then codes "connection refused"
    else if holds low "dns" || holds low "resolve"
    then codes "DNS lookup failed"
    else if holds low "timed out" || holds low "timeout"
    then codes "timed out"
    else if holds low "certificate" || holds low "tls"
    then codes "TLS error"
    else take 80 e
