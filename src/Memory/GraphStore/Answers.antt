-- ===== src/Memory/GraphStore/Answers.antt =====
-- What the store of core/src/memory/in-memory-delegation-graph-store.ts answers of a trace.
use oacp.Prelude.{
  String, ◌≡◌, refl, sym, ap, ◌∙◌, true, false, Option, none, some, List, [], ◌∷◌, arith, ◌==◌,
  eq_iff, Bool-cases, Option-cases, inl, inr, filter, or_else, subst, ◌⊎◌, length, if◌then◌else◌,
  nat_eq,
}
use oacp.Js.Map
use oacp.Js.Map.{Map}
use oacp.Js.Set
use oacp.Protocol.Messages.{OacpMessage, trace_id}
use oacp.Workflow.Batches.Counts.{nodup}
use oacp.Memory.Graph.{DelegationNode, MutableDelegationGraphState, create_state, apply_message}
use oacp.Memory.Graph.Finish.{DelegationGraph, roots_of, work_ids, finalize, apply_messages}
use oacp.Memory.Graph.Depth.{finalize-roots}
use oacp.Memory.Graph.Kept.{IsGraph}
use oacp.Memory.Graph.Kept.Runs.{apply_messages-IsGraph, create_state-IsGraph, nodup-work_ids}
use oacp.Memory.Graph.Kept.Work.{is_work, is_work_node, has-work_ids, apply_messages-work}
use oacp.Memory.Graph.Order.{topological_order}
use oacp.Memory.Graph.Order.Listed.{topological_order_lem}
use oacp.Memory.GraphStore.{
  InMemoryDelegationGraphStore, state_of, record_message, get_graph, topological_order_of,
}

-- Messages with their parents, recorded one after the other.
unfoldable pub record_all :
    InMemoryDelegationGraphStore → List (OacpMessage × Option String) → InMemoryDelegationGraphStore
record_all traces [] = traces
record_all traces ((m, parent) ∷ ms) = record_all (record_message traces m parent) ms

abbrev pub of_trace :
    String → List (OacpMessage × Option String) → List (OacpMessage × Option String)
of_trace t = filter (λ r. trace_id r.0 == t)

state_of-record_message :
    (traces : InMemoryDelegationGraphStore) (m : OacpMessage) (parent : Option String) (t : String)
    → state_of (record_message traces m parent) t
      ≡ (if trace_id m == t then apply_message (state_of traces t) m parent else state_of traces t)
unfolding record_message state_of
state_of-record_message traces m parent t = ground (
  arith,
  Map.get-set traces (trace_id m) t
      (apply_message (or_else (Map.get traces (trace_id m)) (create_state (trace_id m))) m parent),
  eq_iff (trace_id m) t,
)

-- After any messages of any traces, in any interleaving, the graph under construction of a trace is the one
-- that the messages of the trace alone build, in their order.
pub state_of-record_all :
    (traces : InMemoryDelegationGraphStore) (ms : List (OacpMessage × Option String)) (t : String)
    → state_of (record_all traces ms) t ≡ apply_messages (state_of traces t) (of_trace t ms)
unfolding record_all apply_messages
state_of-record_all traces [] t = refl
state_of-record_all traces ((m, parent) ∷ ms) t = elim (Bool-cases (trace_id m == t)) [
  | inl same ↦
      state_of-record_all (record_message traces m parent) ms t
      ∙ ap (λ s. apply_messages s (of_trace t ms)) (state_of-record_message traces m parent t)
      ∙ ground (arith, same)
  | inr other ↦
      state_of-record_all (record_message traces m parent) ms t
      ∙ ap (λ s. apply_messages s (of_trace t ms)) (state_of-record_message traces m parent t)
      ∙ ground (arith, other)
]

size_zero : (m : Map DelegationNode) → length m ≡ 0 → m ≡ []
size_zero [] h = refl
size_zero (e ∷ m) h = absurd (omega (arith, h))

finalize-order :
    (s : MutableDelegationGraphState)
    → IsGraph s
    → (g : DelegationGraph) × (order : List String) × (finalize s ≡ some g)
      × (topological_order g ≡ some order)
      × (nodup order ≡ true)
      × ((x : String) → Set.has order x ≡ Set.has (work_ids (Map.values s.nodes)) x)
finalize-order s v =
    let (g, e, ns, es, rs) : (g : DelegationGraph) × (finalize s ≡ some g)
        × (g.nodes ≡ Map.values s.nodes)
        × (g.edges ≡ s.edges)
        × (g.roots ≡ roots_of g.nodes g.edges) =
      finalize-roots s in
    let (order, o, u, m) : (order : List String) × (topological_order g ≡ some order)
        × (nodup order ≡ true)
        × ((x : String) → Set.has order x ≡ Set.has (work_ids g.nodes) x) =
      topological_order_lem g rs (rw ns (nodup-work_ids s.nodes v.keyed_nodes v.unique_nodes)) in
    (g, order, e, o, u, λ x. m x ∙ ap (λ l. Set.has (work_ids l) x) ns)

get_graph_lem :
    (traces : InMemoryDelegationGraphStore) (t : String) (g : DelegationGraph)
    → finalize (state_of traces t) ≡ some g
    → (get_graph traces t ≡ some g)
      ⊎ ((get_graph traces t ≡ none) × (Map.size (state_of traces t).nodes ≡ 0))
unfolding get_graph state_of
get_graph_lem traces t g h = elim (Option-cases (Map.get traces t)) [
  | inl absent ↦ inr (rw (absent, get_graph) refl, rw absent refl)
  | inr (s, e) ↦ elim (Bool-cases (nat_eq (Map.size s.nodes) 0)) [
    | inl empty ↦ inr (rw (e, get_graph) (rw (empty, get_graph) refl), rw e (ground (arith, empty)))
    | inr filled ↦ inl (
        rw (e, get_graph)
          (rw (filled, get_graph) (sym (ap (λ o. finalize (or_else o (create_state t))) e) ∙ h)))
  ]
]

-- The work nodes of a trace by its messages.
listed_of :
    (ms : List (OacpMessage × Option String)) (t : String)
    → IsGraph (state_of (record_all [] ms) t)
    → (x : String)
    → Set.has (work_ids (Map.values (state_of (record_all [] ms) t).nodes)) x
      ≡ is_work false x (of_trace t ms)
unfolding state_of Map.get
listed_of ms t v x =
    has-work_ids (state_of (record_all [] ms) t).nodes x v.keyed_nodes v.unique_nodes
    ∙ ap (λ (s : MutableDelegationGraphState). is_work_node (Map.get s.nodes x))
        (state_of-record_all [] ms t)
    ∙ apply_messages-work (create_state t) (of_trace t ms) x

-- After any messages of any traces, the order of a trace is found. It lists, each once, exactly the ids for which
-- the last message of the trace with the id, capability queries left out, is a request or a delegation.
pub topological_order_of-record_all :
    (ms : List (OacpMessage × Option String)) (t : String)
    → (order : List String) × (topological_order_of (record_all [] ms) t ≡ some order)
      × (nodup order ≡ true)
      × ((x : String) → Set.has order x ≡ is_work false x (of_trace t ms))
unfolding topological_order_of
topological_order_of-record_all ms t =
    let traces : InMemoryDelegationGraphStore = record_all [] ms in
    let v : IsGraph (state_of (record_all [] ms) t) =
      subst IsGraph (sym (state_of-record_all [] ms t)) (
        apply_messages-IsGraph (state_of [] t) (of_trace t ms)
          (unfold state_of Map.get in create_state-IsGraph t)) in
    let (g, order, e, o, u, m) : (g : DelegationGraph) × (order : List String) × (finalize
            (state_of traces t)
          ≡ some g)
        × (topological_order g ≡ some order)
        × (nodup order ≡ true)
        × ((x : String)
            → Set.has order x ≡ Set.has (work_ids (Map.values (state_of traces t).nodes)) x) =
      finalize-order (state_of (record_all [] ms) t) v in
    let listed : (x : String)
        → Set.has (work_ids (Map.values (state_of traces t).nodes)) x
          ≡ is_work false x (of_trace t ms) =
      listed_of ms t v in
    elim (get_graph_lem traces t g e) [
      | inl there ↦ (order, rw (there, topological_order_of) o, u, λ x. m x ∙ listed x)
      | inr (none_there, empty) ↦ (
        [],
        rw (none_there, topological_order_of) refl,
        refl,
        λ x.
            unfold Set.has in
            sym (
              ap (λ l. Set.has (work_ids (Map.values l)) x)
                (size_zero (state_of traces t).nodes empty))
            ∙ listed x,
      )
    ]
