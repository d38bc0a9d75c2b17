-- ===== src/Lib.antt =====
-- Verification of the invoice review system: intake, processing, review and export of supplier
-- invoices, with the access control and the assistant's policy around them.
--
-- A PDF is uploaded and queued; a worker claims its job under a lease, has the file parsed and the
-- invoice extracted, checks the invoice against rules and stores the result for review; a reviewer
-- corrects and approves it; an export batch takes approved invoices and a run under an idempotency
-- key writes them to a file, or an integration delivers an approved invoice to an accounting system.
-- An assistant plans back-office work, asks for approvals and executes approved steps under a
-- reservation. All of this works on shared repositories inside transactions.
--
-- Runtime models what the services share. A world holds the tables of the in-memory repositories,
-- the wake-up queue, the clock and the source of UUIDs; a call takes a world and returns a value or
-- an exception together with the world after it. Any sequence of clock readings and UUIDs is
-- allowed. A `with transaction()` block that raises is undone or not, as the world's `rollback`
-- says, which tells SqliteStore (backend/app/documents/sqlite_store.py) from the transaction manager
-- that does nothing (backend/app/core/transactions.py). The children of Runtime hold the rules for
-- calls that only read (Effects), that keep a predicate on the tables or must fail (Keeps), that
-- leave the whole world alone (Refuses), for the value that a call returns (Yields) and for the tables
-- that a call leaves when it returns (Leaves).
--
-- Core is backend/app/core/security.py (Security and its children Context, Tokens and Sessions) and
-- the exceptions of the program (Errors). Invoice is backend/app/extraction/schemas.py (Schemas) and
-- backend/app/validation/invoice.py (Validation) over exact decimals (Decimal). Documents follows
-- backend/app/documents: status.py (Status), workflow.py and state_writer.py (Workflow), models.py
-- (Models), jobs.py (JobModel, Jobs), repositories.py (JobStore, Repositories), job_leases.py
-- (Leases), processing_policy.py (RetryPolicy), extraction_pipeline.py (Pipeline),
-- processing_results.py (Results), services.py (Processing, Upload), lifecycle_commands.py
-- (Lifecycle), processing_queue.py (Queue) and worker.py (Worker); DuplicateCheck and
-- UntrustedContent are the other two files of backend/app/validation. Review is backend/app/review:
-- services.py (Service), corrections.py (Corrections) and models.py (Models). Exports is
-- backend/app/exports: models.py, repositories.py (Repository), eligibility.py, execution.py,
-- batch_service.py (Batches) and csv_security.py (Csv). Integrations is backend/app/integrations:
-- models.py, repositories.py (Repository), delivery_executor.py (Adapter, Executor), services.py
-- (Payload, Service, Settlement) and projections.py (Projection). Backoffice is
-- backend/app/backoffice: policy.py (Policy), models.py, repositories.py (Store), services.py
-- (Setup, Service), planner.py (Planner and its Playbooks), planning_service.py (Planning, Approvals,
-- Drafts), execution.py (Execution and its Outcome), recovery.py (Recovery), evidence.py (Evidence)
-- and workflow_projection.py (Projection); Agent is contracts.py (Contracts,
-- Tools) and routing.py (Routing) of backend/app/agent. Scenarios applies the theorems to a small installation.
--
-- A UUID and a lease token are numbers, a time is a number of microseconds, a date is its ordinal.
-- Decimals are exact, as Python's are up to 28 digits, and a delay is computed in whole
-- microseconds. No function needs fuel: every loop runs over a list. The heartbeat of a worker or of
-- an execution, other workers and other requests may act only where a call of a parser, an
-- extractor, a storage, an accounting adapter or a tool of the assistant stands, which are parameters
-- that may change the whole world; any other call is one step, as under the locks of the
-- repositories.
--
-- Not modelled: the web interface, the repositories in SQL, the providers, the ERPNext client and
-- its mapping, the answers of the agent, evaluation, dashboards, settings and scripts. They are
-- network code, database text or presentation around the parts above, or later work. Operation logs,
-- token counts, latencies and confidence scores are left out because no modelled code reads them.
-- The JSON text of a queue message, the hashes of requests, the texts of UUIDs, times and amounts,
-- the Unicode database and the regular expressions of the checks are parameters.
pub mod Prelude
pub mod Invoice
pub mod Core
pub mod Documents
pub mod Review
pub mod Exports
pub mod Integrations
pub mod Agent
pub mod Backoffice
pub mod Runtime
pub mod Scenarios
