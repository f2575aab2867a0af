-- ===== src/Lib.antt =====
-- The MemoFlow API, a NestJS service for academic writing: how a planning job is submitted, claimed,
-- gathered for, planned, timed out and finished; how users log in, how AI calls are capped, how
-- connections to providers follow their status, and how leads are scored.
--
-- The program
-- -----------
-- A user submits a prompt (`application/context/submit-planning-job.use-case.ts`). The use case checks
-- the document or section that the job is bound to, the requested connectors and the AI quota, writes a
-- `pending` row of the Mongo collection `planning_jobs` and puts the job on a queue. A worker takes it
-- from there (`process-planning-job.use-case.ts`): without a message broker it gathers and plans in
-- process, with one it asks the context engine to gather and leaves. The engine answers in chunks
-- (`handle-context-result-chunk.use-case.ts`); the last one claims the job for planning
-- (`run-claimed-planning.ts`), and a timeout (`handle-gather-timeout.use-case.ts`) fails a job whose
-- last chunk never comes. Several workers, consumers and timers run at once; what keeps them apart are
-- the guarded single-row updates of
-- `infrastructure/persistence/context/planning-job.mongoose.repository.ts`. The answers of the engine
-- arrive as messages (`infrastructure/amqp/context-results.consumer.ts`), which are read, handled and
-- acknowledged, and whose effects are relayed as events.
--
-- Beside the planning jobs: `login-user.use-case.ts` lets a user in after the limiter of
-- `redis-login-attempt-limiter.ts`; `redis-ai-quota.ts` counts the AI calls of a user and of all users
-- on a UTC day; the use cases of `application/connectors` keep a connection's status in line with the
-- gateway's webhooks and answers. Limiter and quota are scripts that Redis runs without interruption.
--
-- The files
-- ---------
-- Prelude       numbers, options, lists and stable sorting (Prelude/Tests, Lists, Sort)
-- Text          JavaScript strings as lists of UTF-16 units
-- Exec          computations that pass a world on and may throw; Exec/Errors what is thrown, Exec/Within
--               what holds between the worlds before and after, Exec/Returns what is returned for certain,
--               Exec/Inversion what holds of what is returned
-- Redis         the interface of the counters in Redis; Redis/Memory fills it, Redis/Entries its lemmas
-- Quota         infrastructure/ai/redis-ai-quota.ts (Quota/Keys the keys of its counters, Script what one
--               run of the script leaves, Calls and Caps the calls of a day; Quota/Examples)
-- Auth          logging in: Auth/Limiter (redis-login-attempt-limiter.ts), Login (login-user.use-case.ts);
--               Auth/Counter and Window what the limiter lets through, Login/Outcomes what a login
--               answers; Auth/Examples
-- Connectors    the data of domain/connectors; Connectors/Table the interface of the table, Database
--               what the use cases work with, Repository
--               (connector-connection.typeorm.repository.ts), Sync (the use cases of
--               application/connectors); Safely, Terminal and Stale what becomes of terminal
--               connections; Memory and Examples
-- Gateway       infrastructure/ai/openrouter.gateway.ts: Gateway/Answer how an answer is read, Retries the
--               loop of one call, Complete the call and its repair, Metered how many requests it sends;
--               Gateway/Examples
-- Users         domain/users/user.entity.ts
-- Leads         domain/leads: the score and tier of a lead (lead-score.ts; Leads/Dates, Score), and the
--               statistics over all leads (lead-stats.ts; Leads/Enums, Stats); Leads/Examples
-- Context       the context feature:
--   Json, Job, Chunk     the data of domain/context
--   Collection           the interface of the Mongo collection: operations and the laws they rely on
--   Repository           the repository; below it Rows (what holds of a row), Changes, Steps (its
--                        operations as one step relation), Races, Append, Soundness
--   Ports                what the handlers ask of others, as one record of functions that may throw
--   Prompt, Claimed      the prompt, the check of the user, and planning a claimed job
--                        (Claimed/Ends: planning ends the job; Claimed/Consent: who is planned for)
--   ResultChunk          `HandleContextResultChunkUseCase` (below it Assembly, Refusals, Once, Endings,
--                        Terminal)
--   Message              `parseContextResultChunk` (Message/RoundTrip: the contract's messages)
--   Consumer             `ContextResultsConsumer` (Consumer/Redelivery: a message that comes again)
--   Timeout, Process, Submit, Get     the other handlers (Timeout/Exact, Process/Stranded,
--                        Submit/Orphans)
--   Cut, Candidates, Budget     `cutAtBoundary`, `orderCandidates` and `budgetSources` of
--                        planning-sources.ts (Candidates/Groups: the order of the groups; Budget/Bounds:
--                        the budget is kept); Citations the source list of
--                        planning-citations.ts
--   Traces               every handler is a sequence of repository steps; Traces/Safety the consequences
--   Tests                a collection in memory, scripted ports, and the theorems on concrete jobs
--
-- How the code is represented
-- ---------------------------
-- An `async` method is a function from a world to a result and a world: the world is the collection,
-- an environment of the ports, and the calls made so far. `await` of a repository method is `query`,
-- which first lets the database driver fail (in the repository of
-- connections, each of its statements); `await` of another port is `port`, which records the call
-- and lets the port answer or throw; `try` is `attempt`. What another process does while a handler
-- waits is a sequence of steps between two handlers, or between two updates. Log lines are left out,
-- and so is the chunk that every answer of the chunk handler repeats.
--
-- The collection is a record of operations with laws that MongoDB documents: a `findOneAndUpdate`
-- matches, changes and returns one row atomically, `create` gives an id that no row has, and a
-- malformed id makes a query throw a `CastError`. Ports (users, prompts, the gatherer, the planning
-- pipeline, the broker, the queue, the timer, the quota) are arbitrary functions: nothing is assumed
-- of them but what a theorem states. Context/Tests/Memory fills the interface of the collection.
-- Times are milliseconds and sequence numbers natural numbers. Every loop of the code walks a list or
-- spends a budget of retries, on which it recurses, so no definition needs fuel. The promise chain of the consumer, which handles the messages of one job
-- one after another, is the order in which its function is applied. The commands of Redis and the table
-- of connections are records with laws as the collection is; a script that is sent to Redis may be
-- answered, or fail before or after it has run. SHA-256, bcrypt, `toLowerCase`, the names of days, the
-- token service, the gateway of the connectors, the HTTP exchange with the AI provider, the parsing of
-- its reply's JSON and the redaction of `prompt-guards.ts` are parameters.
--
-- Function names are the code's in snake_case: `claimForPlanning` is `claim_for_planning`, a use case's
-- `execute` is `handle_chunk`, `handle_timeout`, `process_job`, `submit_job` or `get_planning_job`. A
-- private step of a handler that has no name in the code, such as what follows an `await`, has a
-- definition of its own (`on_job`, `after_append`, `run_legacy`).
--
-- Not modelled: HTTP controllers and transfer objects, module wiring, configuration, the drivers of
-- Postgres, Mongo, Redis and RabbitMQ, the websocket gateway and logging, which are glue; the listing of
-- connections, the response cache, suggestions, prompts, documents, templates,
-- gamification, and of authentication all but the login. `PlanningPipeline` is a parameter.
pub mod Prelude
pub mod Text
pub mod Exec
pub mod Redis
pub mod Quota
pub mod Auth
pub mod Connectors
pub mod Gateway
pub mod Users
pub mod Leads
pub mod Context
