-- ===== src/Routing/Router.antt =====
-- core/src/routing/router.ts: which agents receive a message.
pub mod Responses
pub mod Laws
use oacp.Prelude.{
  String, Bool, true, false, Option, none, some, List, [], ◌∷◌, ◌==◌, if◌then◌else◌, or_else,
}
use oacp.Js.Map
use oacp.Js.Set
use oacp.Js.Set.{Set}
use oacp.Js.Sort.{sort}
use oacp.Js.Collation.{Collation}
use oacp.Protocol.Json.{template}
use oacp.Protocol.Errors.{OacpError, routing_error, Result, ok, err}
use oacp.Protocol.Errors.Codes.{agent_not_registered, no_recipient}
use oacp.Protocol.Messages.{
  OacpMessage, task_request, task_response, delegation, capability_query, TaskResponseMessage,
  CapabilityQueryMessage, sender,
}
use oacp.Routing.TraceStore.{TraceStore, get_message_by_id}
use oacp.Routing.CapabilityIndex.{CapabilityIndex}

pub data CapabilityRoutingMode : Type 0 where
  first all : CapabilityRoutingMode

pub record RouterState : Type 0 where
  pub registered_agents : Set
  pub capability_index : CapabilityIndex

pub record RouterOptions : Type 0 where
  pub capability_routing_mode : Option CapabilityRoutingMode
  pub registry_agent_uri : Option String

abbrev pub default_registry_uri : String
default_registry_uri = "agent://registry"

resolve_direct_recipient : String → RouterState → Result (List String)
resolve_direct_recipient uri state =
    if Set.has state.registered_agents uri
    then ok (uri ∷ [])
    else err (
        routing_error agent_not_registered
          (template ("Agent \"" ∷ uri ∷ "\" is not registered on the bus" ∷ []))
          (record { path = "/to"; message = template ("No handler registered for " ∷ uri ∷ []) }
            ∷ []))

-- An absent `to` and an empty one are both falsy.
unfoldable pub direct_to : Option String → Option String
direct_to none = none
direct_to (some to) = if to == "" then none else some to

unknown_capability : String → OacpError
unknown_capability capability =
    routing_error no_recipient
      (template ("No registered agent declares capability \"" ∷ capability ∷ "\"" ∷ []))
      (record {
        path = "/capability";
        message = template ("No agents found for " ∷ capability ∷ []);
      }
        ∷ [])

no_registry : String → String → OacpError
no_registry capability registry_uri =
    routing_error no_recipient
      (template ("No registry or capability handler for \"" ∷ capability ∷ "\"" ∷ []))
      (record {
        path = "/capability";
        message = template ("Register agent://" ∷ registry_uri ∷ " or declare capability" ∷ []);
      }
        ∷ [])

-- `mode === 'all' ? sorted : [sorted[0]]`. The list is never empty: the caller answers an error where no agent
-- is found, and the clause for an empty list is not reached.
select : CapabilityRoutingMode → List String → List String
select all sorted = sorted
select first [] = []
select first (a ∷ sorted) = a ∷ []

resolve_task_response : TaskResponseMessage → TraceStore → Result (List String)
resolve_task_response m store = elim (get_message_by_id store m.in_reply_to) [
  | none ↦ err (
      routing_error no_recipient
        (template
          ("Cannot route task_response: original message \"" ∷ m.in_reply_to ∷ "\" not found" ∷ []))
        (record { path = "/in_reply_to"; message = "Referenced message_id is unknown to this bus" }
          ∷ []))
  | some original ↦ ok (sender original ∷ [])
]

module _ (c : Collation) where
  unfoldable pub sort_agents_by_uri : List String → List String
  sort_agents_by_uri = sort c.locale_le

  -- The agents under a capability, or the error where it has none.
  by_capability : Option Set → CapabilityRoutingMode → OacpError → Result (List String)
  unfolding sort_agents_by_uri select
  by_capability none mode e = err e
  by_capability (some []) mode e = err e
  by_capability (some (a ∷ agents)) mode e = ok (select mode (sort_agents_by_uri (a ∷ agents)))

  resolve_by_capability : String → RouterState → CapabilityRoutingMode → Result (List String)
  unfolding by_capability unknown_capability
  resolve_by_capability capability state mode =
      by_capability (Map.get state.capability_index capability) mode (unknown_capability capability)

  resolve_direct_or_capability :
      Option String → String → RouterState → CapabilityRoutingMode → Result (List String)
  unfolding resolve_direct_recipient resolve_by_capability direct_to
  resolve_direct_or_capability to capability state mode = elim (direct_to to) [
    | some uri ↦ resolve_direct_recipient uri state
    | none ↦ resolve_by_capability capability state mode
  ]

  resolve_capability_query : CapabilityQueryMessage → RouterState → String → Result (List String)
  unfolding by_capability no_registry
  resolve_capability_query m state registry_uri =
      if Set.has state.registered_agents registry_uri
      then ok (registry_uri ∷ [])
      else by_capability (Map.get state.capability_index m.capability) first
          (no_registry m.capability registry_uri)

  unfoldable pub resolve_route :
      OacpMessage → RouterState → TraceStore → RouterOptions → Result (List String)
  unfolding resolve_direct_or_capability resolve_task_response resolve_capability_query
  resolve_route message state store options =
      let mode : CapabilityRoutingMode = or_else options.capability_routing_mode first in
      let registry_uri : String = or_else options.registry_agent_uri default_registry_uri in
      elim message [
        | task_request m ↦ resolve_direct_or_capability m.to m.capability state mode
        | delegation m ↦ resolve_direct_or_capability m.to m.capability state mode
        | task_response m ↦ resolve_task_response m store
        | capability_query m ↦ resolve_capability_query m state registry_uri
      ]
