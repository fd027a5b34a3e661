-- ===== src/Lib.antt =====
-- A verification library for the core of OACP (core/src), the in-process part of an agent
-- communication protocol: agents register on a message bus with the capabilities that they offer,
-- and send each other task requests, responses, delegations and capability queries.
--
-- Protocol: the messages (core/src/protocol/message-schemas.ts), the structured errors, the permissions of an
--   agent (permissions.ts) and the catalog of its capabilities (capabilities.ts).
-- Routing.TraceStore: core/src/routing/trace-store.ts, the bounded index of messages per trace.
-- Routing.CapabilityIndex and Routing.Router: which agents a message goes to (router.ts).
-- Routing.Bus: core/src/routing/message-bus.ts. `Bus` is the state of `InMemoryMessageBus`, together
--   with the heap of its mailboxes, since registrations share a mailbox by reference, and with the
--   promises of `waitForMessage` that are open or settled and their timers. Each public method that
--   changes the state is a function of its name (`register`, `unregister`, `send`, `send_raw`,
--   `wait_for_message`, `replay_trace_message`, `close`, `open_bus`, `clear_traces`), and `expire` is
--   the callback of a timer. Bus.Calls composes them into sequences.
-- Routing.Retry: core/src/routing/retry-policy.ts, the attempts of remote calls and the delays between
--   them.
-- Resilience: core/src/resilience/recovery-policy.ts and resilient-send.ts, the sending of a task with
--   retries, other agents and other capabilities.
-- Workflow: core/src/workflow, the data of subtask plans, their validation and the grouping of their steps
--   into batches (plan-validation.ts), the execution of the batches (dag-executor.ts) and of one
--   step (core/src/resilience/step-executor.ts), and the engine with its records of runs
--   (workflow-definition.ts, run-workflow.ts, workflow-engine.ts, workflow-run-store.ts). Workflow.Decompose is
--   a plan that is made and executed for a running task (execute-subtask-plan.ts, and
--   core/src/runtime/execution-context.ts).
-- Memory: core/src/memory, the store of entries (in-memory-store.ts) with its scopes (scope-manager.ts) and the
--   entries that messages are recorded as (task-recorder.ts); the graph of the delegations of a trace
--   (delegation-graph-builder.ts: Graph its construction from messages or entries, Graph.Finish what is
--   computed from it, Graph.Walk and Graph.Order the walks), and the store of the graphs.
-- Runtime: core/src/runtime, an agent with its lifecycle and its table of pending responses (agent-runtime.ts,
--   Agent), the messages that it builds (message-factory.ts), and pipelines of tasks (pipeline.ts,
--   with the class TaskPipeline in Pipeline.Class, whose executor is such an agent).
--   A promise of a response is a place in a list, with its timer. A method that awaits is cut where it
--   awaits (`dispatch`, `after_send` and `after_response` are `sendTask`), and Agent.Events composes the
--   pieces, the responses that arrive and the timers that go off into sequences.
-- Observability: core/src/observability, the messages that are made again from the nodes of a delegation
--   graph (graph-messages.ts).
-- Prelude and Js: lemmas on lists, and the maps, sets and sorting of JavaScript. A map is the list of
--   its entries and a set the list of its members, in the order of insertion.
-- Tests: the theorems at concrete inputs.
--
-- The host is a parameter: the validator of messages, the order of `localeCompare` and of `sort()`,
-- the handlers of agents, and the runtime that resilient sending uses. The functions that a plan or a
-- pipeline holds may throw, and a sending of a runtime may reject, as that of an agent that is not
-- running does; both are results with an `OacpError`, which stands for whatever is thrown, and what
-- calls them passes them on. Where several steps of a batch reject, the first in the batch's order is
-- the outcome. A handler or a sending is a function of the world, so it settles: one that never does,
-- as that of an agent that is stopped while it waits, is seen in Runtime.Agent only. A handler takes
-- the bus to any other state, so it may call the bus again, and other tasks may run while it is
-- awaited. Numbers are natural numbers; times are kept as the texts that messages carry.
--
-- The loops of resilient sending are structural recursion on the lists and the count that they run
-- over. The loop of `planExecutionBatches` runs on fuel, one unit for each batch; the validation and
-- the execution give it the number of steps, which is enough where ids are distinct, and plans with
-- repeated ids are refused before it is run. The loops over a delegation graph run on fuel too: one unit for
-- each edge and two more, or for each root and work node, are enough for any graph, since each round visits
-- an id that was not visited or takes a queued one.
--
-- Not modelled: the logger of core/src and the timelines, bundles and client of traces; JSON schemas and
-- their validation; HTTP, storage and authentication (server); the command line, the console, the
-- SDKs and the integrations with other frameworks.
pub mod Prelude
pub mod Js
pub mod Protocol
pub mod Routing
pub mod Resilience
pub mod Workflow
pub mod Memory
pub mod Observability
pub mod Runtime
pub mod Tests
