-- ===== src/Context/Message/RoundTrip.antt =====
-- The messages that the contract docs/contracts/context-result.schema.json describes are read back.
use memoflow_api.Prelude.{ℕ, String, ◌≡◌, refl, true, false, Option, none, some, ◌==◌}
use memoflow_api.Text.{units}
use memoflow_api.Context.Json.{Number, natural}
use memoflow_api.Context.Chunk.{
  ChunkPhase, started, gathering, completed, failed, ChunkBody, data_body, status_body,
  ContextResultChunk,
}
use memoflow_api.Context.Message.{
  Raw, RawFields, str, num, obj, end, field, is_allowed_provider, text_of,
  parse_context_result_chunk, parse_body, parse_data, parse_status, phase_named, string_of, lookup,
}

pub data WireBody : Type 0 where
  wire_data : (provider content : String) (token_estimate : Option Number) → WireBody
  wire_status : (phase : ChunkPhase) (message error_code : Option String) → WireBody

pub record WireMessage : Type 0 where
  pub job_id : String
  pub user_id : String
  pub sequence : ℕ
  pub body : WireBody

abbrev pub phase_name : ChunkPhase → String
phase_name started = "started"
phase_name gathering = "gathering"
phase_name completed = "completed"
phase_name failed = "failed"

-- An optional field is left out when it has no value.
abbrev pub optional_field {ℓ} : {A : Type ℓ} → String → (A → Raw) → Option A → RawFields → RawFields
optional_field key write none rest = rest
optional_field key write (some a) rest = field key (write a) rest

abbrev pub body_fields : WireBody → RawFields
body_fields (wire_data provider content tokens) = field "type" (str "data") (
    field "data"
      (obj (
        field "provider" (str provider)
          (field "content" (str content) (optional_field "token_estimate" num tokens end))))
      end)
body_fields (wire_status phase message code) = field "type" (str "status") (
    field "status"
      (obj (
        field "phase" (str (phase_name phase))
          (optional_field "message" str message (optional_field "error_code" str code end))))
      end)

-- The message as its JSON.
unfoldable pub raw_of : WireMessage → Raw
raw_of m = obj (
    field "schema_version" (num (natural 1)) (
      field "job_id" (str m.job_id) (
        field "user_id" (str m.user_id)
          (field "sequence" (num (natural m.sequence)) (body_fields m.body)))))

abbrev pub body_of : WireBody → ChunkBody
body_of (wire_data provider content tokens) =
    data_body (record { provider = provider; content = units content; token_estimate = tokens })
body_of (wire_status phase message code) =
    status_body (record { phase = phase; message = text_of message; error_code = code })

-- What the message says.
abbrev pub chunk_of : WireMessage → ContextResultChunk
chunk_of m = record {
  job_id = m.job_id;
  user_id = m.user_id;
  sequence = m.sequence;
  body = body_of m.body;
}

abbrev pub HasAllowedProvider : WireBody → Type 0
HasAllowedProvider (wire_data provider content tokens) = is_allowed_provider provider ≡ true
HasAllowedProvider (wire_status phase message code) = Unit {0}

phase_named-phase_name : (phase : ChunkPhase) → phase_named (phase_name phase) ≡ some phase
unfolding phase_named
phase_named-phase_name started = refl
phase_named-phase_name gathering = refl
phase_named-phase_name completed = refl
phase_named-phase_name failed = refl

parse_body-raw_of :
    (job user : String) (n : ℕ) (b : WireBody)
    → HasAllowedProvider b
    → parse_body
        (raw_of (record { job_id = job; user_id = user; sequence = n; body = b }))
        (string_of (lookup "type" (body_fields b)))
      ≡ some (body_of b)
unfolding raw_of parse_body parse_data parse_status
parse_body-raw_of job user n (wire_data provider content none) allowed = rw allowed refl
parse_body-raw_of job user n (wire_data provider content (some tokens)) allowed = rw allowed refl
parse_body-raw_of job user n (wire_status phase none none) allowed =
    rw (phase_named-phase_name phase) refl
parse_body-raw_of job user n (wire_status phase none (some code)) allowed =
    rw (phase_named-phase_name phase) refl
parse_body-raw_of job user n (wire_status phase (some text) none) allowed =
    rw (phase_named-phase_name phase) refl
parse_body-raw_of job user n (wire_status phase (some text) (some code)) allowed =
    rw (phase_named-phase_name phase) refl

-- A message that the contract allows, with ids that are not empty and, where it carries data, one of
-- the three providers, is read back as the chunk that it says, whatever optional fields it leaves out.
pub parse-raw_of :
    (m : WireMessage)
    → (m.job_id == "") ≡ false
    → (m.user_id == "") ≡ false
    → HasAllowedProvider m.body
    → parse_context_result_chunk (raw_of m) ≡ some (chunk_of m)
unfolding parse_context_result_chunk raw_of
parse-raw_of m has_job has_user allowed =
    rw (has_job, has_user, parse_body-raw_of m.job_id m.user_id m.sequence m.body allowed) refl
