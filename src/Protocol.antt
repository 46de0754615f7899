-- ===== src/Protocol.antt =====
-- src/protocol.rs: what the shell and the daemon say to one another. The time that an answer takes,
-- `took_us`, is an argument.
use fore_ai_assisted_termina.Prelude.{ℕ, Bool, true, false, Option, none, some, List, ℤ}
use fore_ai_assisted_termina.Prelude.Text.{Text}
use fore_ai_assisted_termina.Safety.Risk.{Assessment}
use fore_ai_assisted_termina.Assist.Ask.{Proposal}
use fore_ai_assisted_termina.Preflight.{EnvSnapshot, Preflight}

pub data Request : Type 0 where
  exec : (cmd cwd session : Text) (git_branch : Option Text) → Request
  done : (session : Text) (exit_code : ℤ) (duration_ms : ℕ) (stderr_tail : Option Text) → Request
  fix : (session : Text) → Request
  nl : (session cwd request : Text) (git_branch : Option Text) → Request
  assess : (cmd : Text) → Request
  preflight : (session cmd cwd : Text) (env : EnvSnapshot) → Request
  accepted : (session : Text) (chars : ℕ) → Request
  stats : Request
  reload : Request
  aliases : (existing : List Text) → Request
  suggest : (prefix cwd session : Text) → Request
  ping : Request
  shutdown : Request

-- `Stats` and `Aliases` are what src/insights.rs makes for the two requests.
module _ (Stats Aliases : Type 0) where
  pub record Response : Type 0 where
    pub ok : Bool
    pub suggestion : Option Text
    pub message : Option Text
    pub proposal : Option Proposal
    pub assessment : Option Assessment
    pub preflight_result : Option Preflight
    pub usage : Option Stats
    pub alias_list : Option Aliases
    pub took_us : ℕ

  abbrev pub base : ℕ → Response
  base took = record {
    ok = true;
    suggestion = none;
    message = none;
    proposal = none;
    assessment = none;
    preflight_result = none;
    usage = none;
    alias_list = none;
    took_us = took;
  }

  abbrev pub answer_ok : ℕ → Response
  answer_ok took = base took

  abbrev pub answer_suggestion : Option Text → ℕ → Response
  answer_suggestion s took = record (base took) { suggestion = s }

  abbrev pub answer_message : Text → ℕ → Response
  answer_message msg took = record (base took) { message = some msg }

  abbrev pub answer_error : Text → ℕ → Response
  answer_error msg took = record (base took) { ok = false; message = some msg }

  abbrev pub answer_proposal : Proposal → ℕ → Response
  answer_proposal p took = record (base took) { proposal = some p }

  abbrev pub answer_assessment : Assessment → ℕ → Response
  answer_assessment a took = record (base took) { assessment = some a }

  abbrev pub answer_preflight : Preflight → ℕ → Response
  answer_preflight p took = record (base took) { preflight_result = some p }

  abbrev pub answer_stats : Stats → ℕ → Response
  answer_stats s took = record (base took) { usage = some s }

  abbrev pub answer_aliases : Aliases → ℕ → Response
  answer_aliases a took = record (base took) { alias_list = some a }
