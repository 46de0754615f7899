-- ===== src/Redact/Redactor.antt =====
-- `Redactor` of src/redact.rs: the values of the environment (layer 3), and the three layers in
-- the order in which they run. The environment is an argument.
pub mod Leaks
pub mod Tests
use fore_ai_assisted_termina.Prelude.{
  ℕ, ◌≡◌, refl, String, Bool, ◌&&◌, List, [], ◌∷◌, ltb, leb, if◌then◌else◌, any,
}
use fore_ai_assisted_termina.Prelude.Text.{
  Text, codes, utf8_len, to_ascii_uppercase, holds, contains, replace, text_eq,
}
use fore_ai_assisted_termina.Redact.Known.{mask, redact_known_formats}
use fore_ai_assisted_termina.Redact.Assign.{redact_assignments}

abbrev pub secret_name_hints : List String
secret_name_hints =
    "SECRET" ∷ "TOKEN" ∷ "PASSWORD" ∷ "PASSWD" ∷ "API_KEY" ∷ "APIKEY" ∷ "PRIVATE_KEY" ∷ "ACCESS_KEY"
    ∷ "AUTH" ∷ "CREDENTIAL" ∷ "CLIENT_SECRET" ∷ "DATABASE_URL" ∷ "DSN" ∷ []

pub record Redactor : Type 0 where
  pub env_values : List Text

unfoldable pub looks_secret_name : Text → Bool
unfolding holds
looks_secret_name name = let up = to_ascii_uppercase name in any (holds up) secret_name_hints

unfoldable pub secret_values : List (Text × Text) → List Text
unfolding looks_secret_name
secret_values [] = []
secret_values ((k, v) ∷ vars) =
    let rest = secret_values vars in
    if looks_secret_name k && leb 8 (utf8_len v) then v ∷ rest else rest

-- `sort_by_key(Reverse(len))` is stable: equal lengths keep their order.
unfoldable pub insert_value : Text → List Text → List Text
insert_value v [] = v ∷ []
insert_value v (w ∷ ws) =
    let later = w ∷ insert_value v ws in if leb (utf8_len w) (utf8_len v) then v ∷ w ∷ ws else later

unfoldable pub sort_values : List Text → List Text
unfolding insert_value
sort_values [] = []
sort_values (v ∷ vs) = insert_value v (sort_values vs)

-- `dedup()` drops a value that equals the one before it.
unfoldable pub dedup : List Text → List Text
unfolding text_eq
dedup [] = []
dedup (v ∷ []) = v ∷ []
dedup (v ∷ w ∷ ws) = let rest = dedup (w ∷ ws) in if text_eq v w then rest else v ∷ rest

unfoldable pub from_env : List (Text × Text) → Redactor
unfolding secret_values sort_values dedup
from_env vars = record { env_values = dedup (sort_values (secret_values vars)) }

unfoldable pub redact_env : List Text → Text → Text
unfolding contains replace
redact_env [] s = s
redact_env (v ∷ vs) s = redact_env vs (if contains s v then replace s v mask else s)

unfoldable pub redact : Redactor → Text → Text
unfolding redact_env redact_known_formats redact_assignments
redact r input = redact_assignments (redact_known_formats (redact_env r.env_values input))

-- `Redacted` of src/llm.rs, with its one field.
pub record Redacted : Type 0 where
  text : Text

unfoldable pub as_str : Redacted → Text
as_str s = s.text

unfoldable pub wrap : Redactor → Text → Redacted
wrap r input = record { text = redact r input }
