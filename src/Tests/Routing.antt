-- ===== src/Tests/Routing.antt =====
-- The routing theorems at concrete inputs.
use oacp.Prelude.{
  String, ◌≡◌, ◌↔◌, refl, true, none, some, List, [], ◌∷◌, ◌++◌, arith, length, last?, take_last,
}
use oacp.Js.Map
use oacp.Js.Set
use oacp.Protocol.Errors.{ok}
use oacp.Protocol.Messages.{task_response, sender, OacpMessage, task_request}
use oacp.Routing.TraceStore.{init, record_message, get_messages_for_trace, get_message_by_id}
use oacp.Routing.TraceStore.Window.{
  record_all, of_trace, with_id, get_messages-record_all, get_message_by_id-record_all,
}
use oacp.Routing.CapabilityIndex.{members}
use oacp.Routing.Router.{first, RouterState, RouterOptions, resolve_route}
use oacp.Routing.Router.Responses.{resolve_route-record_all}
use oacp.Routing.Router.Laws.{Leads, IsLeast, resolve_route-Leads, resolve_route-first}
use oacp.Routing.Types.{DeliveryReport}
use oacp.Routing.Bus.Defs.{
  Bus, create, register, find_agents_by_capability, with_mailbox, put_registration, allocate,
}
use oacp.Routing.Bus.Delivery.{
  deliver, deliver_one, run_handler, send, validation, record_trace, route_and_deliver, outcome_of,
  all_failed, post, post_to,
}
use oacp.Routing.Bus.Registration.{declares}
use oacp.Routing.Bus.Calls.{Call, registers, unregisters, sends, waits, expires, closes, run}
use oacp.Routing.Bus.Soundness.{IsSound}
use oacp.Routing.Bus.Reachable.{run-create-IsSound, find_agents-run}
use oacp.Routing.Bus.Reports.{IsSent, send-sent}
use oacp.Routing.Bus.Mailboxes.{post_all, receive_all, receive_all-post_all}
use oacp.Tests.Data.{
  response_to, collation, a_first-IsTotalPreorder, request_of, with_sum, no_options, host,
  host-Behaves,
}

abbrev first_request : OacpMessage
first_request = task_request (request_of "m1" none)

abbrev second_request : OacpMessage
second_request = task_request (request_of "m2" (some "agent://a"))

abbrev calls : List Call
calls =
    registers "agent://a" (some 0) with_sum
    ∷ waits "agent://a"
    ∷ sends "now" first_request
    ∷ expires 0
    ∷ unregisters "agent://a"
    ∷ closes
    ∷ []

get_messages-record_all_example :
    get_messages_for_trace (record_all (init 1) (first_request ∷ second_request ∷ [])) "trace-1"
    ≡ take_last 1 (of_trace "trace-1" (first_request ∷ second_request ∷ []))
get_messages-record_all_example =
    get_messages-record_all 1 (first_request ∷ second_request ∷ []) "trace-1"

get_message_by_id-record_all_example :
    get_message_by_id (record_all (init 1) (first_request ∷ second_request ∷ [])) "m1"
    ≡ last? (with_id "m1" (first_request ∷ second_request ∷ []))
get_message_by_id-record_all_example =
    get_message_by_id-record_all 1 (first_request ∷ second_request ∷ []) "m1"

abbrev two_agents : RouterState
two_agents = record {
  registered_agents = "agent://b" ∷ "agent://a" ∷ [];
  capability_index = ("sum", "agent://b" ∷ "agent://a" ∷ []) ∷ [];
}

abbrev one_agent : List String
one_agent = "agent://a" ∷ []

abbrev defaults : RouterOptions
defaults = record { capability_routing_mode = none; registry_agent_uri = none }

resolve_route-record_all_example :
    (resolve_route collation
        (task_response (response_to "m1"))
        two_agents
        (record_all (init 5) (first_request ∷ task_response (response_to "m1") ∷ []))
        defaults
      ≡ ok ("agent://a" ∷ []))
    ↔ ((original : OacpMessage) × (last?
            (with_id "m1" (first_request ∷ task_response (response_to "m1") ∷ []))
          ≡ some original)
        × ("agent://a" ∷ [] ≡ sender original ∷ []))
resolve_route-record_all_example =
    resolve_route-record_all collation 5 (first_request ∷ task_response (response_to "m1") ∷ [])
      (response_to "m1") two_agents defaults ("agent://a" ∷ [])

two_agents-indexed :
    (capability a : String)
    → Set.has (members two_agents.capability_index capability) a ≡ true
    → Set.has two_agents.registered_agents a ≡ true
unfolding Map.get Set.has
two_agents-indexed capability a h = ground arith

resolve_route-Leads_example : Leads (Set.has two_agents.registered_agents) ("agent://a" ∷ [])
unfolding resolve_route Map.get oacp.Js.Sort.sort
resolve_route-Leads_example =
    resolve_route-Leads two_agents two_agents-indexed collation first_request (init 5) defaults
      ("agent://a" ∷ []) refl refl

resolve_route-first_example :
    IsLeast collation.locale_le (members two_agents.capability_index "sum") ("agent://a" ∷ [])
unfolding oacp.Routing.Router.direct_to resolve_route Map.get oacp.Js.Sort.sort
resolve_route-first_example =
    resolve_route-first collation (request_of "m1" none) two_agents (init 5) defaults
      ("agent://a" ∷ []) a_first-IsTotalPreorder refl refl refl

run-create-IsSound_example : IsSound (run host (create no_options) calls)
run-create-IsSound_example = run-create-IsSound host host-Behaves no_options calls

find_agents-run_example :
    Set.has
      (find_agents_by_capability collation (run host (create no_options) calls) "sum")
      "agent://b"
    ≡ declares (run host (create no_options) calls) "agent://b" "sum"
find_agents-run_example = find_agents-run host host-Behaves no_options calls "sum" "agent://b"

-- A bus with one agent that has a mailbox, numbered 0.
abbrev bus : Bus
bus = register (create no_options) "agent://a" (some 0) with_sum

abbrev reports : List DeliveryReport
reports = record { agent_uri = "agent://a"; success = true; error = none } ∷ []

send-sent_example :
    (bus.is_open ≡ true)
    × (validation host bus.validate_on_send first_request ≡ none)
    × IsSent host "now" first_request
        (record_trace bus first_request)
        first_request
        ("agent://a" ∷ [])
        reports
unfolding send register Map.get create with_mailbox put_registration allocate validation
    route_and_deliver resolve_route record_trace oacp.Routing.CapabilityIndex.index_agent
    Set.of_list Map.set outcome_of deliver oacp.Js.Sort.sort Set.add Set.add_all Set.has
    oacp.Js.Sort.insert all_failed deliver_one post post_to run_handler
    oacp.Routing.CapabilityIndex.put_members oacp.Routing.Router.direct_to
    oacp.Routing.Router.sort_agents_by_uri record_message
send-sent_example =
    send-sent host "now" first_request first_request ("agent://a" ∷ []) reports bus refl

receive_all-post_all_example :
    receive_all
      (length ([] ++ first_request ∷ second_request ∷ []))
      "agent://a"
      (post_all bus 0 (first_request ∷ second_request ∷ []))
    ≡ [] ++ first_request ∷ second_request ∷ []
unfolding Map.get register create with_mailbox put_registration Map.set allocate Set.of_list
receive_all-post_all_example =
    receive_all-post_all bus "agent://a" 0 [] (first_request ∷ second_request ∷ []) (record {
      registration = record {
        agent_uri = "agent://a";
        handler = some 0;
        capabilities = "sum" ∷ [];
        mailbox = some 0;
      };
      registered = refl;
      owns = refl;
      stored = refl;
    })
