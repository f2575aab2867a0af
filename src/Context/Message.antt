-- ===== src/Context/Message.antt =====
-- Messages of the queue `ctx.gather.results`: `parseContextResultChunk` of
-- infrastructure/amqp/context-results.consumer.ts. `Raw` is what `JSON.parse` makes of a message
-- whose strings are well formed.
pub mod RoundTrip
use memoflow_api.Prelude.{
  ℕ, zero, suc, String, Bool, true, false, not, ◌||◌, Option, none, some, ◌==◌, if◌then◌else◌, eqb,
}
use memoflow_api.Text.{Text, units}
use memoflow_api.Context.Json.{Number, natural, other_number}
use memoflow_api.Context.Chunk.{
  ChunkPhase, started, gathering, completed, failed, ChunkContent, ChunkStatus, ChunkBody,
  data_body, status_body, ContextResultChunk,
}

mutual
  pub data Raw : Type 0 where
    null : Raw
    bool : Bool → Raw
    num : Number → Raw
    str : String → Raw
    arr : RawItems → Raw
    obj : RawFields → Raw

  pub data RawItems : Type 0 where
    nil : RawItems
    cons : Raw → RawItems → RawItems

  pub data RawFields : Type 0 where
    end : RawFields
    field : String → Raw → RawFields → RawFields

-- The value under a key, `none` for `undefined`.
abbrev pub lookup : String → RawFields → Option Raw
lookup key end = none
lookup key (field j v rest) = let found = lookup key rest in if j == key then some v else found

-- `raw[key]` of a value that `isRecord` accepts; an array has none of the keys that are read.
abbrev pub property : String → Raw → Option Raw
property key (obj fields) = lookup key fields
property key _ = none

abbrev pub is_record : Option Raw → Bool
is_record (some (obj fields)) = true
is_record (some (arr items)) = true
is_record _ = false

-- The value, where `isRecord` accepts it.
abbrev pub record_of : Option Raw → Option Raw
record_of v = if is_record v then v else none

-- `typeof v === 'string'`
abbrev pub string_of : Option Raw → Option String
string_of (some (str s)) = some s
string_of _ = none

abbrev pub number_of : Option Raw → Option Number
number_of (some (num n)) = some n
number_of _ = none

-- A number that `Number.isInteger` accepts and that is not negative.
abbrev pub sequence_of : Option Raw → Option ℕ
sequence_of (some (num (natural n))) = some n
sequence_of _ = none

abbrev pub non_empty_of : Option Raw → Option String
non_empty_of v = kept (string_of v)
  where
    kept : Option String → Option String
    kept none = none
    kept (some s) = if s == "" then none else some s

-- `undefined`, or a value that `read` accepts.
abbrev pub optional_of {ℓ} : {A : Type ℓ} → (Option Raw → Option A) → Option Raw → Option (Option A)
optional_of {A = A} read none = some none
optional_of {A = A} read (some v) = wrapped (read (some v))
  where
    wrapped : Option A → Option (Option A)
    wrapped none = none
    wrapped (some a) = some (some a)

abbrev pub is_version_one : Option Raw → Bool
is_version_one (some (num (natural n))) = eqb n 1
is_version_one _ = false

-- `ALLOWED_PROVIDERS.has(provider)`
abbrev pub is_allowed_provider : String → Bool
is_allowed_provider p = "trello" == p || "notion" == p || "github" == p

-- The phase of a name in `ALLOWED_PHASES`.
unfoldable pub phase_named : String → Option ChunkPhase
phase_named name =
    if "started" == name
    then some started
    else if "gathering" == name
    then some gathering
    else if "completed" == name
    then some completed
    else if "failed" == name
    then some failed
    else none

infixl 10 ◌>>=◌
abbrev pub ◌>>=◌ {ℓ} : {A B : Type ℓ} → Option A → (A → Option B) → Option B
none >>= f = none
some a >>= f = f a

abbrev pub allowed_provider_of : Option Raw → Option String
allowed_provider_of v = do
  provider ← string_of v
  (if is_allowed_provider provider then some provider else none)

unfoldable pub parse_data : Raw → Option ChunkBody
parse_data raw = do
  fields ← record_of (property "data" raw)
  provider ← allowed_provider_of (property "provider" fields)
  content ← string_of (property "content" fields)
  tokens ← optional_of number_of (property "token_estimate" fields)
  some
      (data_body (record { provider = provider; content = units content; token_estimate = tokens }))

abbrev pub text_of : Option String → Option Text
text_of none = none
text_of (some s) = some (units s)

unfoldable pub parse_status : Raw → Option ChunkBody
parse_status raw = do
  fields ← record_of (property "status" raw)
  name ← string_of (property "phase" fields)
  phase ← phase_named name
  message ← optional_of string_of (property "message" fields)
  code ← optional_of string_of (property "error_code" fields)
  some (status_body (record { phase = phase; message = text_of message; error_code = code }))

unfoldable pub parse_body : Raw → Option String → Option ChunkBody
parse_body raw none = none
parse_body raw (some type) =
    if "data" == type then parse_data raw else if "status" == type then parse_status raw else none

unfoldable pub parse_context_result_chunk : Raw → Option ContextResultChunk
parse_context_result_chunk raw = do
  top ← record_of (some raw)
  version ← (if is_version_one (property "schema_version" top) then some top else none)
  job_id ← non_empty_of (property "job_id" top)
  user_id ← non_empty_of (property "user_id" top)
  sequence ← sequence_of (property "sequence" top)
  body ← parse_body top (string_of (property "type" top))
  some (record { job_id = job_id; user_id = user_id; sequence = sequence; body = body })
