-- ===== src/Lib.antt =====
-- A verification of pg_agmemory, a memory service for agents over PostgreSQL.
--
-- The program. A request reaches MemoryService (src/pg_agmemory/service.py) or one of the services
-- that are built on it, ToolEffects (src/pg_agmemory/effects.py) and Jobs (src/pg_agmemory/jobs.py),
-- in one database transaction: it reads and writes tables, or it raises an error and everything is
-- rolled back. Row-level security, constraints and triggers of the database (src/pg_agmemory/storage)
-- check what the service writes. An administrator grants and revokes access by scope_access
-- (src/pg_agmemory/scope_access.py), which counts its changes in the tenant's access epoch; a worker
-- that claimed a job compares that epoch before it publishes.
--
-- The model.
--   Prelude, Text    tests on numbers, lists, options; texts as lists of code points, their UTF-8
--                    length, JSON strings, decimal numbers, UUIDs.
--   Store            Store.Tables holds one tenant's tables as lists of records, the newest row
--                    first. Store.Exec is a transaction: a function of the store to a result with a
--                    store, or a failure without one. Store.Visibility is row-level security
--                    (memory.permitted, memory.visible) for the principal and the time of a Session.
--                    Store.Keeps has the rules by which invariants of transactions are proved.
--   Service          the checks and records that all operations share: scope, object, digest, replay,
--                    save_result, audit, new_object, validate_refs, validate_evidence.
--                    Service.Memory has observe, remember, publish_assertion, insert_revision and
--                    revise_assertion, with the trigger memory.adopt_revision. Service.Timeline is
--                    about the history of an assertion.
--   Effects          ToolEffects: load, get, plan, append, transition, list_run, fence_restore, over
--                    the tables of Effects.Database with the triggers of 004_tool_effects.sql.
--   Jobs             Jobs: load, get, enqueue, cancel, claim, lease, heartbeat, publish, fail, over
--                    the tables of Jobs.Database with the guard of 010_job_cancellation.sql.
--                    Jobs.Machine is the abstract machine of a job, Jobs.Ledger any sequence of
--                    requests, Jobs.Lease what a worker must hold, Jobs.Settles how often a
--                    job changes, Jobs.Idle when there is nothing to claim.
--   Graph            SqlGraph of src/pg_agmemory/graphs.py: entities and relations. Graph.Expand has
--                    visible_entities, neighbors and expand, Graph.Expand.Walks the reference that
--                    expand is compared with; Graph.Targets is about the targets of the revisions.
--   Checkpoints      Checkpoints of src/pg_agmemory/checkpoints.py, over the tables of
--                    Checkpoints.Database with the triggers of 003_checkpoints.sql.
--                    Checkpoints.Envelope is the text under the checksum, Checkpoints.Reconcile
--                    and Checkpoints.Resume what keeps a run from being resumed, Checkpoints.Chains the
--                    order within a branch.
--   Deletion         forget of service.py: Deletion.Closure is the recursive query, over the edges of
--                    Deletion.Rows, which also has the deletions; Deletion.Steps, Deletion.Seen and
--                    Deletion.Hiding lead to Deletion.Purged, what is left. The query's passes are
--                    as many as there are edges, which is enough, as Deletion.Complete states.
--   Capture          Captures of src/pg_agmemory/capture.py: an episode and its jobs at once.
--   Worker           run_once of src/pg_agmemory/worker.py, with what others do between its
--                    transactions; Worker.Verdicts is about what it makes of a failure.
--   Paging           query_episodes and Jobs.query, and their pages.
--   Requests         the validators of src/pg_agmemory/models.py for the requests above.
--   Access           the request validator and the transaction of scope_access; Access.Connection is
--                    what surrounds the transaction.
--   Client           NativeHTTPClient of src/pg_agmemory/native_client.py: exchange, request,
--                    validate, with the network, json.loads and pydantic as parameters.
--   Hook             src/pg_agmemory/recall_hook.py: what it asks, checks and prints, with the API,
--                    the environment and the deadline as parameters.
--   Context          build_context of service.py, byte for byte; Context.Kept is about the items it
--                    takes, Context.Refusals about its errors.
--   Lexical          segment of src/pg_agmemory/lexical.py; Lexical.Runs is about the runs it replaces.
--
-- The child Models of a component has its requests and answers, the child Rows what its queries join,
-- and the modules Tests run the components on concrete stores.
--
-- Choices. UUIDs and times are natural numbers, times in microseconds. A Session carries what comes
-- from outside: the principal, one time for the whole transaction (the code reads clock_timestamp()
-- at each statement), the UUIDs that uuid4 draws, HMAC-SHA-256, the Japanese tokenizer, which may
-- fail. Nothing is assumed of them: a UUID that is drawn twice meets a primary key. pydantic's JSON of
-- a request is a function that the operations take. Transactions run one after another, as the row
-- locks of the code make them for one row. There is one tenant, whose identifier is left out. Loops
-- are structural recursion on lists; the four passes of build_context are recursion on 4, which is
-- enough for the budgets that the request model admits, as build_context-bytes states.
--
-- Not modelled: recall's SQL and its ranking, explain, assertion_history, embeddings.py,
-- from_env of recall_hook.py, the settings of native_client.py, the loop of worker.py; the deferred
-- triggers, the policies on insertion and the foreign keys of the tables. Left aside: the HTTP API, the SDK, the MCP adapter, the command line, the calls of model providers and the database's
-- migrations, which are input, output and forwarding.
pub mod Prelude
pub mod Text
pub mod Context
pub mod Store
pub mod Service
pub mod Effects
pub mod Lexical
pub mod Checkpoints
pub mod Hook
pub mod Graph
pub mod Jobs
pub mod Access
pub mod Capture
pub mod Worker
pub mod Paging
pub mod Requests
pub mod Client
pub mod Deletion
