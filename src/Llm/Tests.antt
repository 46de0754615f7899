-- ===== src/Llm/Tests.antt =====
-- A network that gives a secret away, one that does not, and a server of the newer shape.
use fore_ai_assisted_termina.Prelude.{
  ℕ, ◌≡◌, refl, Option, none, some, List, [], ◌∷◌, ◌⊎◌, inr, if◌then◌else◌, pos, here, All, false,
}
use fore_ai_assisted_termina.Prelude.Text.{Text, codes, contains_char, starts_with, contains, holds}
use fore_ai_assisted_termina.Redact.Masked.{IsForeign}
use fore_ai_assisted_termina.Redact.Redactor.{Redactor, wrap}
use fore_ai_assisted_termina.Safety.Command.{Node}
use fore_ai_assisted_termina.Assist.Ask.{Context, fix, nl}
use fore_ai_assisted_termina.Llm.{
  LlmConfig, Message, ChatRequest, wants_new_openai_shape, apply_auth, post, exchange, read_answer,
  complete,
}
use fore_ai_assisted_termina.Llm.Requests.{Agree, client, fix-nl-Agree}

abbrev hunter : Text
hunter = codes "hunter2hunter2"

hunter-IsForeign : IsForeign hunter
unfolding contains_char contains starts_with
hunter-IsForeign = record { no_open = refl; no_close = refl; not_redacted = refl }

abbrev redactor : Redactor
redactor = record { env_values = hunter ∷ [] }

abbrev last_content : List Message → Text
last_content [] = []
last_content (m ∷ []) = m.content
last_content (m ∷ n ∷ ms) = last_content (n ∷ ms)

last_content-All :
    (ms : List Message)
    → All (λ (m : Message). contains m.content hunter ≡ false) ms
    → contains (last_content ms) hunter ≡ false
unfolding contains starts_with
last_content-All [] a = refl
last_content-All (m ∷ []) a = a.0
last_content-All (m ∷ n ∷ ms) a = last_content-All (n ∷ ms) a.1

abbrev leaky : Text → List (Text × Text) → ChatRequest → Text ⊎ (ℕ × Text)
leaky url headers body =
    if contains (last_content body.messages) hunter
    then inr (200, last_content body.messages)
    else inr (500, [])

abbrev discreet : Text → List (Text × Text) → ChatRequest → Text ⊎ (ℕ × Text)
discreet url headers body = inr (500, [])

abbrev cfg : LlmConfig
cfg = record { base_url = codes "http://h/v1/"; model = codes "small"; api_key = none }

abbrev status : ℕ → Text
status n = codes "500"

abbrev contents : Text → Text ⊎ List Text
contents t = inr (t ∷ [])

leaky-Agree : Agree cfg hunter leaky discreet
leaky-Agree url headers body free = rw (last_content-All body.messages free.3) refl

abbrev no_parse : Text → Option Node
no_parse t = none

abbrev context : Context
context = record {
  cwd = codes "/w";
  git_branch = none;
  os = codes "Linux";
  shell = codes "zsh";
  project_kind = codes "unknown";
  recent = [];
}

abbrev login : Text
login = codes "login hunter2hunter2"

fix-nl-Agree_example :
    (fix (λ t. t) no_parse 1 (client status contents leaky cfg) redactor context login (pos 1) []
      ≡ fix
          (λ t. t)
          no_parse
          1
          (client status contents discreet cfg)
          redactor
          context
          login
          (pos 1)
          [])
    × (nl (λ t. t) no_parse 1 (client status contents leaky cfg) redactor context login
        ≡ nl (λ t. t) no_parse 1 (client status contents discreet cfg) redactor context login)
fix-nl-Agree_example =
    fix-nl-Agree (λ t. t) no_parse 1 redactor hunter status contents leaky discreet cfg context
      login [] login (pos 1) here hunter-IsForeign leaky-Agree

-- The second request, to a server that wants the newer shape.
abbrev newer : Text → List (Text × Text) → ChatRequest → Text ⊎ (ℕ × Text)
newer url headers body = elim body.max_tokens [
  | some n ↦ inr (400, codes "Use 'max_completion_tokens'")
  | none ↦ inr (200, url)
]

second_try :
    complete status contents newer cfg (wrap redactor []) (wrap redactor []) 200
    ≡ inr (codes "http://h/v1/chat/completions")
unfolding complete read_answer exchange post apply_auth wants_new_openai_shape holds contains
    starts_with
second_try = refl
