-- ===== src/Lib.antt =====
-- A verification library for the execution platform: the orchestrator with its policy engine, its
-- tool runtime, its replays and their diffs, the model runtime, the feedback service and the Mukti
-- analyzer.
--
-- The program. `ExecutionService` (services/orchestrator/app/services/execution_service.py)
-- creates executions, queues them (app/runtime/queue.py), and starts them, by a worker
-- (app/runtime/worker.py) or at once. `ExecutionEngine` (app/runtime/orchestrator.py) plans an
-- execution (app/runtime/planner.py), runs its steps one at a time (app/runtime/step_executor.py,
-- or the knowledge service, the tool runtime and the model runtime), validates, and completes it;
-- an incident triage goes through the policy engine (services/policy-engine) and may wait for a
-- person's approval. Statuses change by app/runtime/state_machine.py; all state is in the
-- repository (app/adapters/repository.py). `ReplayService` (app/services/replay_service.py) makes
-- a child of an execution and runs it by the execution service; `ReplayDiffService`
-- (app/services/replay_diff_service.py) compares the two. The model runtime
-- (services/model-runtime) asks a provider, with retries; the feedback service
-- (services/feedback-service) keeps what operators say of executions, in memory or in Postgres;
-- `MuktiAnalyzer` (services/mukti-agent) classifies executions that have ended, and
-- `CrossExecutionAnalyzer` sums up what it said of many.
--
-- The files. Prelude has tests, lists, dictionaries, sorting and text; Value the values of
-- `dict[str, Any]` (Value.Same is Python's `==` on them); Schemas the records of
-- packages/common-schemas. StateMachine, RuntimeMeta, Planner, StepExecutor, Policy, Tools,
-- Repository, Queue, Service and Worker are the components of these names, with the theorems about
-- each in its child modules. Engine has one child for each part of orchestrator.py: Ready (order,
-- readiness, instantiation of steps), Trace (timeline), Services and Models (capabilities),
-- RunStep (`_run_step`), Governance (results and policy), Run (`run_execution`), Approval
-- (`submit_approval`), Cancel (`cancel_execution`, `fail_execution`); its other children are
-- proofs: Quiet, Still, Steers and Leads are rules for actions that keep or advance statuses,
-- Progress and Termination count the pending steps, and Keyed has what a run leaves for the next
-- one. Replay has `create_replay`, with Snapshot (the copy of the input) and Checks (the
-- refusals); its child Diff has `compare`, with Items, Executions, Steps and Calls for the
-- sections of the result and Inputs, Records and Results with what they report. ModelRuntime has
-- the requests, the provider's errors and the retry loop, with Config (the environment's settings),
-- Http and OpenAi (the OpenAI-compatible provider).
-- Feedback has the service with the repository in memory, Rows (the columns of a row), Listing
-- (its order) and Postgres. Mukti is the analyzer, with the proofs for its loops in Loops, its
-- stages in Stages, and the result in Classes; Mukti.Cross and Mukti.Ranked have four methods of
-- the analysis across executions, with the proofs on their counts in Tallies, on what they list in
-- Top, and on the bounds of the schema in Bounds. Knowledge has the chunks of a document,
-- `chunk_text` of services/knowledge-service.
--
-- How code becomes definitions. A method is an action of Exec: it reads and writes a world and
-- returns or raises, and what was written before a raise stays; Exec.Returns has the rules for the
-- actions that return. The world holds the repository, the next UUID, and counters of clock
-- readings and service calls, so that the clock and each service may answer every call in its own
-- way. Env holds what comes from outside: the clock, hashing, `str`, `float` and JSON of the
-- standard library, and the optional services. What the model runtime takes from pydantic, httpx
-- and the JSON library is a parameter in the same way. Times, identifiers and the bits of floats
-- are natural numbers. `append_timeline` stands for the row that the code adds to an execution's
-- trace.
--
-- Loops. `while True` of `run_execution` runs on fuel, one more than the number of pending steps:
-- each turn that asks for another one has run a step that was pending. `run_until_idle` runs on
-- one more than the length of the queue: each turn that asks for another one has taken an item
-- from it. `chunk_text` runs on one more than the length of the text: each turn starts at least
-- one character later. The retry loops of the tool executor and of the model runtime recur on the
-- attempts that are left.
--
-- Not modelled: the Postgres repository of the orchestrator, the fake provider of the model
-- runtime, the knowledge service but for its chunks, the evaluation engine, the other methods of
-- the analysis across executions (model fallbacks, unstable workflows and steps), the gateway and
-- the console; metrics and events; the checks of field lengths by pydantic where no definition
-- states them.
pub mod Prelude
pub mod Value
pub mod Schemas
pub mod StateMachine
pub mod RuntimeMeta
pub mod Policy
pub mod Tools
pub mod Repository
pub mod Exec
pub mod Env
pub mod Planner
pub mod StepExecutor
pub mod Engine
pub mod Queue
pub mod Service
pub mod Worker
pub mod Replay
pub mod ModelRuntime
pub mod Feedback
pub mod Mukti
pub mod Knowledge
pub mod Tests
