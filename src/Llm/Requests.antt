-- ===== src/Llm/Requests.antt =====
-- What the requests of src/llm.rs carry when src/assist.rs asks the model.
use fore_ai_assisted_termina.Prelude.{
  ℕ, ◌≡◌, refl, ap, inl, inr, Bool-cases, false, ◌&&◌, Option, List, ◌⊎◌, ◌==◌, At, All, ℤ,
}
use fore_ai_assisted_termina.Prelude.Text.{Text, contains}
use fore_ai_assisted_termina.Redact.Masked.{IsForeign}
use fore_ai_assisted_termina.Redact.Redactor.{Redactor, Redacted, as_str}
use fore_ai_assisted_termina.Safety.Command.{Node}
use fore_ai_assisted_termina.Assist.Ask.{Context, Llm, fix, nl}
use fore_ai_assisted_termina.Assist.Sent.{Alike, fix-nl-Alike}
use fore_ai_assisted_termina.Llm.{
  LlmConfig, Message, ChatRequest, wants_new_openai_shape, post, chat_url, apply_auth,
  first_request, retried, exchange, read_answer, complete,
}

abbrev Send : Type 0
Send = Text → List (Text × Text) → ChatRequest → Text ⊎ (ℕ × Text)

-- The address, the headers and the name of the model are those of the configuration, and no message
-- of the request contains `v`.
abbrev pub IsFree : LlmConfig → Text → Text → List (Text × Text) → ChatRequest → Type 0
IsFree cfg v url headers body =
    (url ≡ chat_url cfg)
    × (headers ≡ apply_auth cfg.base_url cfg.api_key)
    × (body.model ≡ cfg.model)
    × All (λ (m : Message). contains m.content v ≡ false) body.messages

-- Two networks that answer alike to all requests that are the configuration's but for the messages,
-- and whose messages do not contain `v`.
abbrev pub Agree : LlmConfig → Text → Send → Send → Type 0
Agree cfg v send other =
    (url : Text) (headers : List (Text × Text)) (body : ChatRequest)
    → IsFree cfg v url headers body
    → send url headers body ≡ other url headers body

module _ (v : Text) (send other : Send) (cfg : LlmConfig) (agree : Agree cfg v send other) where
  retried-Agree :
      (url : Text) (body : ChatRequest) (max_tokens : ℕ) (o : Text ⊎ (ℕ × Text))
      → IsFree cfg v url (apply_auth cfg.base_url cfg.api_key) body
      → ◌≡◌ {A = Text ⊎ (ℕ × Text)}
          (elim o [ inl e ↦ inl e | inr answer ↦ retried send cfg url body max_tokens answer ])
          (elim o [ inl e ↦ inl e | inr answer ↦ retried other cfg url body max_tokens answer ])
  unfolding post
  retried-Agree url body max_tokens (inl e) free = refl
  retried-Agree url body max_tokens (inr (status, text)) free =
      elim (Bool-cases (status == 400 && wants_new_openai_shape text)) [
        | inl e ↦ rw e (agree _ _ _ free)
        | inr e ↦ rw e refl
      ]

  asked-Agree :
      (url : Text) (body : ChatRequest) (max_tokens : ℕ)
      → IsFree cfg v url (apply_auth cfg.base_url cfg.api_key) body
      → ◌≡◌ {A = Text ⊎ (ℕ × Text)}
          (elim (send url (apply_auth cfg.base_url cfg.api_key) body) [
            | inl e ↦ inl e
            | inr answer ↦ retried send cfg url body max_tokens answer
          ])
          (elim (other url (apply_auth cfg.base_url cfg.api_key) body) [
            | inl e ↦ inl e
            | inr answer ↦ retried other cfg url body max_tokens answer
          ])
  asked-Agree url body max_tokens free = rw (agree url _ body free) (
      retried-Agree url body max_tokens (other url (apply_auth cfg.base_url cfg.api_key) body) free)

  exchange-Agree :
      (system user : Redacted) (max_tokens : ℕ)
      → contains (as_str system) v ≡ false
      → contains (as_str user) v ≡ false
      → exchange send cfg system user max_tokens ≡ exchange other cfg system user max_tokens
  unfolding exchange post
  exchange-Agree system user max_tokens s u =
      asked-Agree (chat_url cfg) (first_request cfg system user max_tokens) max_tokens
        (refl, refl, refl, (s, (u, tt)))

  complete-Alike :
      (show_status : ℕ → Text) (contents : Text → Text ⊎ List Text)
      → Alike v (complete show_status contents send cfg) (complete show_status contents other cfg)
  unfolding complete
  complete-Alike show_status contents system user max_tokens s u =
      ap (read_answer show_status contents) (exchange-Agree system user max_tokens s u)

-- The client of the server that a configuration names.
abbrev pub client : (ℕ → Text) → (Text → Text ⊎ List Text) → Send → LlmConfig → Llm
client show_status contents send cfg = record {
  complete = complete show_status contents send cfg;
  model = cfg.model;
}

module _ (debug : Text → Text) (parse : Text → Option Node) (depth : ℕ) (r : Redactor) (v : Text)
    (show_status : ℕ → Text) (contents : Text → Text ⊎ List Text) (send other : Send)
    (cfg : LlmConfig) where
  -- What `fix` and `nl` send, the second attempt included, is the address, the credentials and the
  -- name of the model as the configuration has them, whatever is asked, and messages that do not
  -- contain a value of the redactor, if the value has no `<` and no `>` and is no part of the word
  -- `REDACTED`: with any context, command, output and request, the results stay the same if the
  -- network is replaced by one that answers alike to such requests, whatever it would do with others.
  pub fix-nl-Agree :
      (c : Context) (failed_cmd stderr_tail request : Text) (code : ℤ)
      → At v r.env_values
      → IsForeign v
      → Agree cfg v send other
      → (fix debug parse depth
            (client show_status contents send cfg)
            r
            c
            failed_cmd
            code
            stderr_tail
          ≡ fix debug parse depth
              (client show_status contents other cfg)
              r
              c
              failed_cmd
              code
              stderr_tail)
        × (nl debug parse depth (client show_status contents send cfg) r c request
            ≡ nl debug parse depth (client show_status contents other cfg) r c request)
  fix-nl-Agree c failed_cmd stderr_tail request code m f agree =
      fix-nl-Alike debug parse depth (client show_status contents send cfg) r v
        (complete show_status contents other cfg) c failed_cmd stderr_tail request code m f
        (complete-Alike v send other cfg agree show_status contents)
