-- ===== src/Context/Tests/Script.antt =====
-- Ports that answer what a script says, and a job, a user and worlds to run on.
use memoflow_api.Prelude.{ℕ, ◌+◌, Bool, true, Option, none, some, List, [], ◌∷◌}
use memoflow_api.Text.{units}
use memoflow_api.Exec.{Result, ok}
use memoflow_api.Users.{User, user, ai_notice_version}
use memoflow_api.Context.Json.{end}
use memoflow_api.Context.Job.{JobStatus, PlanningJobDoc}
use memoflow_api.Context.Repository.{CreatePlanningJobData, new_row}
use memoflow_api.Context.Ports.{
  Ports, World, Prompt, ResolvedPlanningPrompt, PreparedPlanningContext, ValidatedPlanningResult,
  ConnectorConnection, Document, Section,
}
use memoflow_api.Context.Tests.Memory.{Rows}

pub record Script : Type 0 where
  pub time : ℕ
  pub driver : Result (Unit {0})
  pub user : Result (Option User)
  -- The user from the second look on.
  pub user_later : Result (Option User)
  pub prompt : Result (Option Prompt)
  pub prepared : Result PreparedPlanningContext
  pub planned : Result ValidatedPlanningResult
  pub published : Result (Unit {0})
  pub connections : Result (List ConnectorConnection)
  pub available : Bool
  pub quota : Result (Unit {0})
  pub enqueued : Result (Unit {0})
  pub document : Result (Option Document)
  pub section : Result (Option Section)

abbrev pub scripted : Ports
scripted = record {
  Env = Script;
  driver = λ e. (e.driver, e);
  clock = λ e. (e.time, record e { time = e.time + 1 });
  find_user = λ id e. (e.user, record e { user = e.user_later });
  find_active_prompt = λ e. (e.prompt, e);
  gather = λ request e. (ok end, e);
  prepare = λ job context e. (e.prepared, e);
  plan = λ prompt job prepared e. (e.planned, e);
  publish_gather_request = λ request e. (e.published, e);
  schedule_timeout = λ id delay e. (ok tt, e);
  has_connections = true;
  find_active_by_user = λ id e. (e.connections, e);
  is_available = λ e. e.available;
  check_quota = λ id e. (e.quota, e);
  enqueue = λ job_id user_id e. (e.enqueued, e);
  find_document = λ id e. (e.document, e);
  find_section = λ id e. (e.section, e);
}

abbrev pub alice : User
alice = record {
  id = "alice";
  email = "alice@example.com";
  password_hash = "hash";
  display_name = "Alice";
  role = user;
  xp = 0;
  level = 1;
  last_active_at = none;
  disabled_at = none;
  email_verified_at = some 1;
  token_version = 0;
  ai_consent_at = some 1;
  ai_consent_version = some ai_notice_version;
}

abbrev pub disabled_alice : User
disabled_alice = record alice { disabled_at = some 5 }

abbrev pub builtin : ResolvedPlanningPrompt
builtin = record {
  prompt_version = none;
  system_template = units "system";
  user_template = units "user";
}

abbrev pub script : Script
script = record {
  time = 100;
  driver = ok tt;
  user = ok (some alice);
  user_later = ok (some alice);
  prompt = ok none;
  prepared = ok (record {
    context_used = end;
    connector_context = end;
    rendered_context = [];
    sources = [];
    source_strings = [];
  });
  planned =
      ok (record {
        suggestions = units "write" ∷ [];
        outline = none;
        sources = [];
        model = some "m";
      });
  published = ok tt;
  connections = ok (record { provider = "trello"; composio_account_id = some "acc" } ∷ []);
  available = true;
  quota = ok tt;
  enqueued = ok tt;
  document = ok none;
  section = ok none;
}

abbrev pub sample_data : CreatePlanningJobData
sample_data = record {
  user_id = "alice";
  prompt = units "plan";
  connectors = "trello" ∷ [];
  document_id = none;
  section_id = none;
}

-- A row of alice's in the given state.
abbrev pub sample_row : JobStatus → PlanningJobDoc
unfolding new_row
sample_row s = record (new_row sample_data 1) { status = s; started_at = some 2 }

abbrev pub rows_in : JobStatus → Rows
unfolding new_row
rows_in s = ("j1", sample_row s) ∷ []

abbrev pub world : JobStatus → World Rows Script
unfolding new_row
world s = record { store = rows_in s; env = script; calls = [] }
