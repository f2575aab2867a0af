-- ===== src/Context/Ports.antt =====
-- What the handlers ask of others: the ports of domain/context, domain/ai, domain/users,
-- domain/documents and domain/connectors, as functions of an environment that they may change and
-- in which they may throw. A handler's world holds the collection, the environment and the calls
-- made so far, the last one first.
use memoflow_api.Prelude.{ℕ, String, Bool, Option, List, ◌∷◌}
use memoflow_api.Text.{Text}
use memoflow_api.Exec.{Result, ok, err, Exec}
use memoflow_api.Users.{User}
use memoflow_api.Context.Json.{Json, Fields}
use memoflow_api.Context.Job.{PlanningJob}
use memoflow_api.Context.Collection.{Collection}

-- domain/ai/prompt.entity.ts, the fields that planning reads.
pub record Prompt : Type 0 where
  pub version : String
  pub system_template : Text
  pub template : Text

pub record ResolvedPlanningPrompt : Type 0 where
  pub prompt_version : Option String
  pub system_template : Text
  pub user_template : Text

pub data PlanningSourceType : Type 0 where
  section connector : PlanningSourceType

pub record CitedSource : Type 0 where
  pub id : Text
  pub type : PlanningSourceType
  pub title : Text

-- `PlanningSourceMeta` of application/context/planning-sources.ts.
pub record PlanningSourceMeta : Type 0 where
  pub id : Text
  pub type : PlanningSourceType
  pub title : Text
  pub ref : Text
  pub truncated : Bool

pub record PreparedPlanningContext : Type 0 where
  pub context_used : Fields
  pub connector_context : Fields
  pub rendered_context : Text
  pub sources : List PlanningSourceMeta
  pub source_strings : List Text

pub record ValidatedPlanningResult : Type 0 where
  pub suggestions : List Text
  pub outline : Option Json
  pub sources : List CitedSource
  pub model : Option String

-- domain/connectors/connector-connection.entity.ts, the fields that the context feature reads.
pub record ConnectorConnection : Type 0 where
  pub provider : String
  pub composio_account_id : Option String

pub record ConnectorMcpReference : Type 0 where
  pub provider : String
  pub mcp_url : Option String
  pub composio_account_id : String

pub record GatherRequestInput : Type 0 where
  pub job_id : String
  pub user_id : String
  pub prompt : Text
  pub connectors : List ConnectorMcpReference
  pub requested_at : ℕ

pub record GatherInput : Type 0 where
  pub user_id : String
  pub connectors : List String
  pub prompt : Text

-- domain/documents: what submission reads of a document and of a section.
pub record Document : Type 0 where
  pub user_id : String

pub record Section : Type 0 where
  pub document_id : String

pub data Call : Type 0 where
  looked_up_user : String → Call
  looked_up_prompt : Call
  asked_gatherer : GatherInput → Call
  prepared_for : String → Call
  planned_for : String → Call
  published : GatherRequestInput → Call
  set_timeout : String → ℕ → Call
  listed_connections : String → Call
  checked_quota : String → Call
  enqueued : String → String → Call
  looked_up_document looked_up_section : String → Call

pub record Ports : Type 1 where
  pub Env : Type 0
  -- A failure of the database driver, met before a query does anything.
  pub driver : Env → Result (Unit {0}) × Env
  pub clock : Env → ℕ × Env
  pub find_user : String → Env → Result (Option User) × Env
  pub find_active_prompt : Env → Result (Option Prompt) × Env
  pub gather : GatherInput → Env → Result Fields × Env
  pub prepare : PlanningJob → Fields → Env → Result PreparedPlanningContext × Env
  pub plan :
      ResolvedPlanningPrompt
      → PlanningJob
      → PreparedPlanningContext
      → Env
      → Result ValidatedPlanningResult × Env
  pub publish_gather_request : GatherRequestInput → Env → Result (Unit {0}) × Env
  pub schedule_timeout : String → ℕ → Env → Result (Unit {0}) × Env
  -- Whether the connection repository is bound: the processing of a job takes it as optional.
  pub has_connections : Bool
  pub find_active_by_user : String → Env → Result (List ConnectorConnection) × Env
  pub is_available : Env → Bool
  pub check_quota : String → Env → Result (Unit {0}) × Env
  pub enqueue : String → String → Env → Result (Unit {0}) × Env
  pub find_document : String → Env → Result (Option Document) × Env
  pub find_section : String → Env → Result (Option Section) × Env

pub record World (Store Env : Type 0) : Type 0 where
  pub store : Store
  pub env : Env
  pub calls : List Call

module _ (c : Collection) (p : Ports) where
  abbrev pub M : Type 0 → Type 0
  M A = Exec (World c.Store p.Env) A

  module _ {A : Type 0} where
    -- `await` of a call on a port.
    unfoldable pub port : Call → (p.Env → Result A × p.Env) → M A
    port call f w = let (r, env) = f w.env in (r, record w { env = env; calls = call ∷ w.calls })

    abbrev pub run_query : (c.Store → A × c.Store) → Result (Unit {0}) × p.Env → M A
    run_query f (ok u, env) w =
        let (a, store) = f w.store in (ok a, record w { store = store; env = env })
    run_query f (err e, env) w = (err e, record w { env = env })

    -- `await` of an operation of the job repository.
    unfoldable pub query : (c.Store → A × c.Store) → M A
    query f w = run_query f (p.driver w.env) w

    unfoldable pub read : (c.Store → A) → M A
    unfolding query
    read f = query (λ s. (f s, s))

  unfoldable pub now : M ℕ
  now w = let (t, env) = p.clock w.env in (ok t, record w { env = env })
