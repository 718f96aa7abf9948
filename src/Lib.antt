-- ===== src/Lib.antt =====
-- AI-Game: a backend that writes marketing content with LLM agents under human approval. This development
-- models the parts that decide what happens to a campaign and to the work queued for it, and proves that
-- they are correct. Paths are from the repository's root.
--
-- The parts and how they interact. A campaign has at most one live workflow run, whose row moves with the
-- campaign's through the state machine of app/workflows/workflow_state.py. app/service/workflow_service.py
-- creates a run. app/workflows/campaign_workflow.py drives it: it calls the specialists (LLM agents) and
-- stores their output at checkpoints, each a transaction on both rows, until a human is needed.
-- app/service/approval_service.py takes the human's decision and closes the run. Runs are started by the
-- queue of background jobs (app/jobs, app/repositories/job_repository.py): workers lease jobs, renew
-- their leases, end them, and take away those of workers that are gone. What a transaction tells the rest
-- of the system it leaves in the outbox (app/outbox, app/repositories/outbox_repository.py), where
-- dispatchers lease events under a version and mark them as processed or failed.
--
-- A specialist is an agent run (app/agentic/runtime): a loop of LLM turns and tool calls under a budget, with
-- a record of each (app/service/agent_run_service.py). With its answer an agent may propose actions
-- (app/service/action_service.py). The policy engine (app/agentic/policies) judges a proposal: a safe action
-- is executed at once, another waits for a human whose role is high enough (app/service/auth_service.py),
-- and the rest is refused. The executor (app/agentic/actions/executor.py) asks the engine again, reserves
-- one execution, runs the handler on rows that must stand as reserved, and records the end.
--
-- A request for an image or a storyboard leaves an asset with a job. The worker (app/jobs/worker.py) runs the
-- job's handler (app/media/service.py), which makes an attempt at the asset and delivers it to a human for
-- review, and reconciles the asset with the end of the job (app/jobs/lifecycle.py).
--
-- Files:
--   Base (and below)      numbers, lists, tables with a primary key, `SELECT … ORDER BY … LIMIT`
--   Errors                app/core/exceptions.py, and transactions that raise
--   Constants             app/core/constants.py
--   Workflow/State        workflow_state.py
--   Workflow/Tables       the rows of campaigns, runs, approvals and staged events, and their queries
--   Workflow/Checkpoints, Review, Failures, Run
--                         campaign_workflow.py: the checkpoints, the review's branches, the exceptions that
--                         are told apart, and the loop of `run_to_pending_approval`
--   Workflow/Service      workflow_service.py
--   Workflow/Approval     approval_service.py
--   Workflow/Automaton    the abstract state machine that a run refines
--   Workflow/Pairs to Workflow/Rerun
--                         proofs: what a pair of rows is, what one round does, why the loop ends, what a
--                         decision or a creation has checked, and where a run cannot finish
--   Jobs/Retry, Tables, Attempts, Leases, Finish, Queue
--                         retry.py, the rows of jobs and attempts, job_repository.py, and `enqueue`
--   Jobs/Sound to Jobs/Stranded
--                         proofs: the invariant of the queue, each operation under it, histories of calls
--   Outbox/Tables, Repository
--                         the rows of events, outbox_repository.py, and `add_event` of service.py
--   Outbox/Dispatcher     the dispatch of one event, of dispatcher.py
--   Outbox/Moves to Outbox/Staging, Outbox/Once
--                         proofs: the life of an event, histories of calls, versions of leases, what a
--                         consumer commits
--   Auth/Roles, Tokens, Levels
--                         auth_service.py: roles, requirements, bearer tokens; Levels is proofs
--   Actions/Rules, Policy policies/rules.py and engine.py, actions/definitions.py and registry.py
--   Actions/Guard, Campaign
--                         action_state_guard_service.py, and the default registry and its handlers
--   Actions/Tables, Requests, Executions
--                         the rows of requests and executions, and their two repositories
--   Actions/Reserve, Finish
--                         actions/executor.py: the reservation, the run and the end of an execution
--   Actions/Service       action_service.py and policy_service.py
--   Actions/Names, Dangers, Permission, Acts, Clearance, Approvals
--                         proofs: canonical names, the nested search, when the engine permits, what handlers
--                         do, what a reservation and an approval have checked
--   Actions/Life to Actions/Histories
--                         proofs: the life of a request, what each transaction does to requests and
--                         executions, and histories of transactions
--   Agents/Tables, Service
--                         the rows of runs and tool calls, agent_run_service.py and its repositories
--   Agents/Tools, Loop, Orchestrator
--                         tools/registry.py and executor.py, agent_loop.py with execution_budget.py, and
--                         the `_run` of orchestrator.py
--   Agents/Recording, Rounds, Budget, Calls, Rivals, Endings
--                         proofs: what is recorded of a run, its budget, histories of calls, its end
--   Sanitization          core/sanitization.py: `sanitize_text`
--   Media/Tables, Repository
--                         the rows of assets, attempts and tasks, media_repository.py
--   Media/Attempts, Processor, Review
--                         media/service.py with media/safety.py: the sessions of an attempt, the run of
--                         an image or a storyboard, the review
--   Media/Lifecycle, Worker
--                         lifecycle.py on media and tasks, and what follows the handler in worker.py
--   Media/Finalized, Numbers, Rows, Moves, Calls, Reviewed, Histories
--                         proofs: what a completion and a review have checked, the numbers of attempts, what
--                         each transaction does, and histories of them
--   Media/Generation, Delivery, Orphans
--                         proofs: runs that never deliver, runs that do, and what the worker's check undoes
--   Workflow/Tests, Workflow/CreationTests, Jobs/Tests, Outbox/Tests, Auth/Tests, Actions/Tests,
--   Agents/Tests, Media/Samples, Media/Tests
--                         concrete tables, and the theorems at them
--
-- Conventions. A table is the list of its rows. Identifiers, worker names and keys are only compared,
-- and are numbers; so are times (of the job, outbox and media tables in microseconds) and costs of
-- media (in millionths). The clock, new identifiers and the rows that other transactions hold
-- (`skip_locked`) are arguments. A transaction returns its value and the new tables, or the exception
-- that rolls it back; a row lock makes it one step. A status column holds the text of its enumeration's
-- member, and is that member here. The specialists and the memory log are the interface `Environment`:
-- the agents stand behind the LLM client, and what the loop relies on in them is the hypothesis
-- `LeavesProgress`, that they leave the columns that the loop reads to the checkpoints.
--
-- Arguments of an action are JSON values. Text that the policy reads, that `sanitize_text` cuts, or
-- that stands in a column is a list of code points, and ASCII only. What LLM providers, tools,
-- pydantic's validation of an action's input, PyJWT and the memory log answer are arguments. A timeout
-- or a cancellation of a handler is an argument too, with whether the handler had committed.
--
-- Fuel. `run_to_pending_approval` loops on fuel, one unit for each round. A round lowers a rank of at
-- most twice the retry limit and five, so that twice the limit and six units are enough. The agents'
-- loop is bounded in the source, by `max_iterations`, and recurses on that number.
--
-- Not modelled: message texts and `updated_at`; metrics and logs; cancellation of other asyncio tasks;
-- the prompts, the LLM clients, the tools' queries and the memory log; `sanitize_json`, and the
-- sanitising of texts that are not modelled; the hashes of idempotency keys; the requests that create
-- media assets, the media providers and the file store behind them; HTTP and schemas; evaluation,
-- experiments, applied workflows and reports, which use the queue but do not change what it does.
pub mod Actions
pub mod Agents
pub mod Auth
pub mod Base
pub mod Constants
pub mod Errors
pub mod Jobs
pub mod Media
pub mod Outbox
pub mod Sanitization
pub mod Workflow
