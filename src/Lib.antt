-- ===== src/Lib.antt =====
-- The work ledger of signal-plane (internal/workledger), with the parts that feed it and the
-- executor that launches agents, and the dispatcher of repository tasks (internal/dispatcher). The
-- ledger is the durable queue between authenticated events and the executors that act on them. A
-- route definition is activated as an immutable route snapshot; an event that a snapshot accepts is
-- admitted as a work item, at most once per delivery; a claim gives an item to an executor under a
-- serialization lease; a completion ends the attempt and decides what becomes of the item; a
-- restart gives every lease back.
--
-- Parts and files:
-- - Ledger/Model: the types of model.go and registry.go, the digests and the keys.
-- - Ledger/Patterns, Ledger/Validate: the regular expressions and the Validate methods of model.go
--   and registry.go, DecodeRouteDefinition.
-- - Ledger/Agent: AgentBinding and its guards, agentbinding.go.
-- - Ledger/Registry: the executor registry, registry.go.
-- - Ledger/Store: the tables of schema.go, as lists of rows.
-- - Ledger/Routes, Content, Admit, Claim, Complete, Resolve: the methods of Store in store.go, one
--   function each, named as the method (ActivateRoute is activate_route); the statements of a
--   transaction are functions of the database that the method composes.
-- - Ledger/Coherent: what holds between the tables, with the two ways in which a call may change
--   them (Shrink, Grow); Admit, Claim, Complete and Resolve have a child Coherence with the proof
--   for their calls.
-- - Ledger/History: the calls as steps and the databases that they lead to; Exclusion has the
--   safety theorems, Evolution, Calls and Life the life of one row.
-- - Ledger/World, Ledger/Tests: a small ledger on which each call is run.
-- - Ingress: the envelope (internal/envelope) and the GitHub adapter
--   (internal/workledger/adapter.go); Ingress/Shadow is internal/shadowadmit over the ledger,
--   Ingress/Routing is internal/routeresolver, Ingress/Examples runs them.
-- - Launch: the executor of internal/workitemlaunch, with Launch/Examples.
-- - Dispatch: the choice of a repository task, internal/dispatcher/predicate.go; Dispatch/Waits and
--   Dispatch/Wakes are the waits of repository runs, internal/dispatcher/external_wait.go, each on
--   the two tables it writes. Dispatch/Examples runs them.
-- - Jobs: the dispatcher's jobs, internal/dispatcher/store.go, terminal.go and dispatcher.go. Jobs
--   has the lifecycle states, a row of jobs and the delays; Jobs/Tables the other tables;
--   Jobs/Intake the recording of deliveries; Jobs/Lifecycle the claim and the marks; Jobs/Terminal,
--   Comment, Outbox and Reconcile the terminal results, their comment, the reports and the
--   operator's commands; Jobs/Recovery the recovery tables; Jobs/Broker, Engine and RunOne the
--   broker's answers, the reconciliation of a status, and a turn, RunOne, from ClaimReportDue on. A
--   turn may keep what a first transaction wrote when a second one fails, so it answers with a
--   database in either case.
-- - Jobs/Ci is what deliveries and terminal results do to the tables of CI repair,
--   internal/dispatcher/ci_repair.go, with Jobs/Ci/Laws. Jobs/Consumer is process, the consumer of
--   the stream, with Jobs/Consumer/Acked on what is acknowledged; Jobs/Replay is Run of
--   internal/recovery/recovery.go, which takes the pending messages of a stream and the restored
--   jobs through a recovery, with Jobs/Replay/Closed on its failures and Jobs/Replay/Success on its
--   end (Due and Settled have the jobs to restore and their reconciliations); Jobs/Inbox is the
--   inbox without tables that the recording of deliveries implements. Jobs/Order, Taken, Repeat,
--   Progress, Stuck and Backoff have the other laws, Jobs/Examples a small run.
--
-- Conventions. A method is a function of the database that returns Result: the new database with
-- the answer, or an error and no database, as the transaction is rolled back. Its transactions are
-- steps, since the one connection makes them so. Times are nanoseconds since 1970 and columns
-- milliseconds, as time.Time and UnixMilli have them; the ids that newID draws are arguments.
-- Integers whose sign the code tests are ℤ over the native numbers; none is computed with except
-- attempt numbers and generations, which do not come near the width of int64. Unique keys of the
-- schema fail an insertion with the error constraint; an index out of range is the error panic.
-- Where an ORDER BY leaves a tie the first row of the table is taken.
--
-- Parameters. encoding/json, crypto/sha256 and the RFC 3339 parser are the fields of the record
-- Codec; the broker, the decoding of an issue payload, the mode catalog, the map of profiles and
-- the scan of the route config's JSON are arguments. In Jobs the record Library has the decoding of
-- a worker's result, url.Parse, SHA-256, the test of UTF-8, strings.TrimSpace, json.Marshal of a
-- terminal result and json.Valid, and the record Broker the operations of the broker, the record
-- Runner those of a recovery and the text of its errors. No theorem assumes anything of them.
--
-- Bounds. Retries need no fuel: a turn is one attempt, and the attempts are columns of the tables.
-- An operator's command may set a blocked report to be retried with the attempts that it has.
--
-- Not modelled: the repair attempts, observations and escalations of CI repair with the first
-- branches of RunOne, which work on them, the metrics, the cut of an error text inside a character,
-- the migration of older databases, foreign keys and CHECK constraints other than the one that
-- retirement meets, faults of the database itself, cancellation of contexts, and the other packages
-- of the repository.
pub mod Base
pub mod Ledger
pub mod Ingress
pub mod Launch
pub mod Dispatch
pub mod Jobs
