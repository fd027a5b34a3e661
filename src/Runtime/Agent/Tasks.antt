-- ===== src/Runtime/Agent/Tasks.antt =====
-- Sending, answering and handling of tasks in core/src/runtime/agent-runtime.ts. A method that awaits is
-- cut where it awaits: what it does before, and what it does with the outcome.
use oacp.Prelude.{
  ℕ, String, Bool, true, false, ◌&&◌, Option, none, some, [], ◌∷◌, or_else, if◌then◌else◌,
}
use oacp.Js.Map
use oacp.Js.Map.{Map}
use oacp.Protocol.Json.{Fields, template}
use oacp.Protocol.Errors.{OacpError, runtime_error, Result, ok, err}
use oacp.Protocol.Errors.Codes.{response_timeout, invalid_task_message, task_handler_failed}
use oacp.Protocol.Messages.{
  OacpMessage, task_request, task_response, delegation, capability_query, message_id, trace_id,
  type_tag, TaskRequestMessage, TaskResponseMessage, DelegationMessage, TaskStatus, success, error,
  TaskErrorBody,
}
use oacp.Routing.Types.{SendOutcome, sent, failed}
use oacp.Resilience.Send.{SendTaskParams, SendTaskOutcome, delivered, undelivered}
use oacp.Memory.Store.{MemoryStore}
use oacp.Memory.Recorder.{Stamp}
use oacp.Memory.Recorder
use oacp.Memory.GraphStore.{InMemoryDelegationGraphStore}
use oacp.Memory.GraphStore
use oacp.Runtime.MessageFactory.{Fresh, build_task_request, build_task_response, build_delegation}
use oacp.Runtime.Agent.{
  AgentRuntime, is_running, not_running_error, create_response_promise, cancel_response_wait,
  resolve_pending_response,
}

-- A request that goes out, and the place of its promise.
pub record Dispatch : Type 0 where
  pub request : TaskRequestMessage
  pub wait : Option ℕ

abbrev pub request_of : Fresh → SendTaskParams → AgentRuntime → TaskRequestMessage
request_of fresh p a = build_task_request fresh (record {
  from = a.id;
  capability = p.capability;
  input = p.input;
  trace_id = p.trace_id;
  message_id = none;
  to = p.to;
  deadline_ms = p.deadline_ms;
})

-- `waitForResponse ? createResponsePromise(…) : undefined`
abbrev pub promise_for : Bool → String → AgentRuntime → Option ℕ × AgentRuntime
promise_for false id a = (none, a)
promise_for true id a = (some (create_response_promise id a).0, (create_response_promise id a).1)

abbrev pub put_graph_context : String → Option String → AgentRuntime → AgentRuntime
put_graph_context id none a = a
put_graph_context id (some parent) a = record a {
  pending_graph_context = Map.set a.pending_graph_context id parent;
}

-- `sendTask` up to `bus.send`.
unfoldable pub dispatch : Fresh → SendTaskParams → AgentRuntime → Result (Dispatch × AgentRuntime)
dispatch fresh p a =
    let request : TaskRequestMessage = request_of fresh p a in
    let promised : Option ℕ × AgentRuntime =
      promise_for (or_else p.wait_for_response true) request.message_id a in
    if is_running a
    then ok (
      record { request = request; wait = promised.0 },
      put_graph_context request.message_id p.parent_message_id promised.1,
    )
    else err (not_running_error a)

-- What a failed `bus.send` undoes.
unfoldable pub undo_dispatch : String → Bool → AgentRuntime → AgentRuntime
undo_dispatch id waits a =
    let next : AgentRuntime = record a {
      pending_graph_context = Map.delete a.pending_graph_context id;
    } in
    if waits then cancel_response_wait id next else next

-- The recorders of an agent, each of which may be missing.
pub record Memories : Type 0 where
  pub store : Option MemoryStore
  pub graphs : Option InMemoryDelegationGraphStore

unfoldable pub consume_graph_context : String → AgentRuntime → Option String × AgentRuntime
consume_graph_context id a = (
  Map.get a.pending_graph_context id,
  record a { pending_graph_context = Map.delete a.pending_graph_context id },
)

unfoldable pub persist_graph_message : OacpMessage → Option String → Memories → Memories
persist_graph_message m parent ms = elim ms.graphs [
  | none ↦ ms
  | some graphs ↦ record ms { graphs = some (GraphStore.record_message graphs m parent) }
]

-- An error of the recorder is dropped.
abbrev pub store_after : {A : Type 0} → MemoryStore → Result (A × MemoryStore) → MemoryStore
store_after before (ok (entry, next)) = next
store_after before (err e) = before

module _ (to_lower_case : String → String) where
  unfoldable pub record_in_store :
      Stamp → Option String → Option String → OacpMessage → Memories → Memories
  record_in_store stamp scope parent m ms = elim ms.store [
    | none ↦ ms
    | some s ↦ record ms {
      store = some (store_after s (Recorder.record_message to_lower_case stamp scope parent m s));
    }
  ]

  unfoldable pub persist_message :
      Stamp → OacpMessage → AgentRuntime × Memories → AgentRuntime × Memories
  persist_message stamp m (a, ms) =
      let context : Option String × AgentRuntime = consume_graph_context (message_id m) a in
      (
        context.1,
        persist_graph_message m context.0 (record_in_store stamp a.memory_scope context.0 m ms),
      )

  -- `sendTask` from `bus.send` to its first return, or to the promise of the response.
  unfoldable pub after_send :
      Stamp
      → Dispatch
      → SendOutcome
      → AgentRuntime × Memories
      → Option SendTaskOutcome × (AgentRuntime × Memories)
  after_send stamp d (failed e) (a, ms) = (
    some (undelivered e),
    (undo_dispatch d.request.message_id (elim d.wait [ none ↦ false | some k ↦ true ]) a, ms),
  )
  after_send stamp d (sent m recipients deliveries) w =
      let next : AgentRuntime × Memories = persist_message stamp (task_request d.request) w in
      elim d.wait [ none ↦ (some (delivered d.request none), next) | some k ↦ (none, next) ]

  abbrev pub timeout_error : TaskRequestMessage → OacpError
  timeout_error request =
      runtime_error response_timeout
        (template ("Timed out waiting for task_response to \"" ∷ request.message_id ∷ "\"" ∷ []))
        (record { path = "/in_reply_to"; message = "No response within timeout" } ∷ [])

  -- The rest of `sendTask`, once the promise has resolved.
  unfoldable pub after_response :
      Stamp
      → TaskRequestMessage
      → Option TaskResponseMessage
      → AgentRuntime × Memories
      → SendTaskOutcome × (AgentRuntime × Memories)
  after_response stamp request none w = (undelivered (timeout_error request), w)
  after_response stamp request (some response) w =
      (delivered request (some response), persist_message stamp (task_response response) w)

  -- `respond` and `delegate` after `bus.send`.
  unfoldable pub after_reply :
      Stamp → OacpMessage → SendOutcome → AgentRuntime × Memories → AgentRuntime × Memories
  after_reply stamp m (failed e) w = w
  after_reply stamp m (sent n recipients deliveries) w = persist_message stamp m w

abbrev pub unexpected_message : OacpMessage → OacpError
unexpected_message m =
    runtime_error invalid_task_message
      (template ("Expected task_request or delegation but received \"" ∷ type_tag m ∷ "\"" ∷ []))
      (record { path = "/type"; message = template ("Unexpected message type: " ∷ type_tag m ∷ []) }
        ∷ [])

abbrev pub is_task : OacpMessage → Bool
is_task (task_request m) = true
is_task (delegation m) = true
is_task _ = false

-- `receiveTask` once `waitForMessage` has resolved.
unfoldable pub receive_task : Option OacpMessage → Result (Option OacpMessage)
receive_task none = ok none
receive_task (some m) = if is_task m then ok (some m) else err (unexpected_message m)

pub record TaskHandlerResult : Type 0 where
  pub status : Option TaskStatus
  pub output : Option Fields
  pub error : Option TaskErrorBody

abbrev pub status_or : Option TaskErrorBody → TaskStatus
status_or none = success
status_or (some e) = error

-- `result.status ?? (result.error ? 'error' : 'success')`
abbrev pub status_of_result : TaskHandlerResult → TaskStatus
status_of_result r = or_else r.status (status_or r.error)

-- `respond` up to `bus.send`.
unfoldable pub respond :
    Fresh → OacpMessage → TaskHandlerResult → AgentRuntime → Result TaskResponseMessage
respond fresh request result a =
    if is_running a
    then ok (
        build_task_response fresh (record {
          from = a.id;
          in_reply_to = message_id request;
          trace_id = trace_id request;
          status = status_of_result result;
          output = result.output;
          error = result.error;
          message_id = none;
        }))
    else err (not_running_error a)

pub record DelegateParams : Type 0 where
  pub capability : String
  pub input : Fields
  pub parent_message_id : String
  pub trace_id : String
  pub to : Option String
  pub reason : Option String

-- `delegate` up to `bus.send`.
unfoldable pub delegate : Fresh → DelegateParams → AgentRuntime → Result DelegationMessage
delegate fresh p a =
    if is_running a
    then ok (
        build_delegation fresh (record {
          from = a.id;
          parent_message_id = p.parent_message_id;
          capability = p.capability;
          input = p.input;
          trace_id = p.trace_id;
          to = p.to;
          reason = p.reason;
          message_id = none;
        }))
    else err (not_running_error a)

-- What `onTask` gives: a result, or the message of what it throws.
pub data HandlerOutcome : Type 0 where
  handled : TaskHandlerResult → HandlerOutcome
  thrown : String → HandlerOutcome

-- What `handleIncoming` answers.
unfoldable pub reply_of : HandlerOutcome → TaskHandlerResult
reply_of (handled r) = r
reply_of (thrown message) = record {
  status = some error;
  output = none;
  error = some (record { code = task_handler_failed; message = message; details = none });
}

-- `handleIncoming` up to `onTask`; the Boolean tells whether `onTask` is run.
unfoldable pub handle_incoming :
    OacpMessage → AgentRuntime × Memories → Bool × (AgentRuntime × Memories)
handle_incoming (task_response m) (a, ms) = (false, (resolve_pending_response m a, ms))
handle_incoming (capability_query m) w = (false, w)
handle_incoming (task_request m) (a, ms) =
    (a.auto_handle_tasks && a.on_task, (a, persist_graph_message (task_request m) none ms))
handle_incoming (delegation m) (a, ms) =
    (a.auto_handle_tasks && a.on_task, (a, persist_graph_message (delegation m) none ms))
