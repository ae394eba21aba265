-- ===== src/Lib.antt =====
-- The write core of LitGrove's knowledge base (src/research_kb): the crash-safe transactions by which
-- every service changes a canonical file, and the rules on the records those services write.
--
-- The parts and the files that model them:
--
-- * Diagnostics.antt is errors.py: `Diagnostic`, the codes, and `ResearchKBError` as the failing side of
--   a `Result`. `deduplicate` is the `_deduplicate` of pipeline_jobs.py, which other modules repeat.
--
-- * Transactions/ is storage/transactions.py with the functions of process_events.py and
--   storage/json_io.py that it calls, and services/recovery.py. State.antt has the journal, the process
--   event and the canonical files: a function from relative paths to contents, the journals by event ID,
--   and the event log. Action.antt is the monad in which the code runs: each call that
--   reaches the operating system, the reads included, or a caller's callback takes the next `Fault` of a
--   schedule, so that it works, raises, is interrupted (`KeyboardInterrupt`) or is the last thing the
--   process does. A schedule that
--   is used up means that no further fault happens; a theorem over all schedules is a theorem over all
--   crashes. A rename is one step of the disk, and a temporary file is a name that the exclusive open
--   takes. Manager.antt has `promote_bytes` and `record_failure`, Recovery.antt has `recover` and the
--   service above it. Rules.antt proves what holds however an action ends, FaultFree.antt that an action
--   returns where nothing goes wrong, Stages.antt names the eleven states of the disk that a transaction
--   goes through, and Recovery/Service.antt relates the answer of the service to the rounds of `recover`.
--   Targets.antt and Integrity.antt are the report on the journals that are complete.
--
-- * Identity/ is identity_corrections.py: the report on a history of registry corrections (Report.antt) and
--   its projection, the paper that stands for each paper (Project.antt). A `while` loop has one round more
--   than its map has keys, which is enough, since it stops at a paper that it has seen. `Run` tells an error
--   of the module from a missing key or a failed assertion.
--
-- * Tasks/ is agent_task_registry.py (Kinds.antt and Registry.antt) and agent_tasks.py: the record of a state
--   (State.antt), the rules on one state (Rules.antt), on the revisions of a Task (Chain.antt), and the whole
--   report with the lineage of Tasks (Report.antt). A JSON value that the code only compares and digests
--   stands as one text. WellFormed.antt and History.antt say by themselves what the rules ask for.
--
-- * Dispositions/ is guardian_dispositions.py (State.antt and Report.antt) and `record` of
--   services/guardian_disposition.py (Service.antt). A finding is one text, and the JSON that is digested
--   too; Thread.antt says by itself what the dispositions of a finding are.
--
-- * Jobs/ is pipeline_jobs.py and the operations of services/pipeline_job.py: the life cycle of a job,
--   the diagnostics of a history of job states, and the compare-and-swap transition. State.antt has the
--   record of a job state, Rules.antt its transitions and their rules, Chain.antt the report on a history
--   and on a store, Service.antt `create`, `transition` and `cancel`.
--
-- What is a parameter: SHA-256 and the clock's text (`Env` of Transactions/Manager.antt), what the
-- integrity report finds on disk (`Disk` of Transactions/Integrity.antt), the digests of states and
-- findings and the order of timestamps (`Env` of Jobs/Chain.antt, Tasks/Chain.antt and
-- Dispositions/Service.antt). What is left out: the workspace lock (one process holds it, so there is
-- one thread of steps), JSON text and the schema validation of records (the types stand for the
-- records that the schemas admit; of the journal's schema the rule that ties `phase` and `result` is
-- modelled, since `_set_state` must keep it), file modes, the validation of the whole workspace around
-- a service's call, and the reading side of the application (catalog, exchange, Obsidian views,
-- guardian, CLI). Every loop runs over a list, but those of Identity/, the search for a cycle in
-- Tasks/, which has the same bound, and the chain in Dispositions/, which takes a record away in each
-- round.
pub mod Prelude
pub mod Diagnostics
pub mod Transactions
pub mod Jobs
pub mod Identity
pub mod Dispositions
pub mod Tasks
