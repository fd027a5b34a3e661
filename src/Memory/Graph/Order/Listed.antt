-- ===== src/Memory/Graph/Order/Listed.antt =====
-- The order of core/src/memory/delegation-graph-builder.ts is found, and lists the work nodes.
use oacp.Prelude.{
  ◌+◌, String, ◌≡◌, refl, sym, ap, true, false, not, ◌&&◌, some, List, [], length, arith, filter,
  subst,
}
use oacp.Js.Map
use oacp.Js.Map.{Map}
use oacp.Js.Set
use oacp.Js.Set.{has-add, has-append}
use oacp.Workflow.Batches.{Graph, children_of}
use oacp.Workflow.Batches.Counts.{nodup}
use oacp.Memory.Graph.{DelegationNode, DelegationEdge}
use oacp.Memory.Graph.Finish.{DelegationGraph, work_ids, roots_of, targets}
use oacp.Memory.Graph.Order.{
  zero_degrees, add_work_edges, order_queue, add_missing, topological_order,
}
use oacp.Memory.Graph.Order.Degrees.{is_positive, waiting-length, IsQueued}
use oacp.Memory.Graph.Order.Queue.{IsListed, order_queue-IsListed}
use oacp.Memory.Graph.Order.Prepared.{
  add_missing-nodup, has-add_missing, IsPrepared, add_work_edges-IsPrepared, degree-add_work_edges,
  get-zero_degrees, has-filter, nodup-filter, all-filter, length-filter,
}

-- The graph that the queue starts from.
abbrev prepared : Set.Set → List DelegationEdge → Graph
prepared work edges =
    add_work_edges work (record { in_degree = zero_degrees [] work; children = [] }) edges

abbrev first_queue : DelegationGraph → List String
first_queue graph = filter (Set.has (Set.of_list (work_ids graph.nodes))) graph.roots

root-untargeted :
    (nodes : List DelegationNode) (edges : List DelegationEdge) (x : String)
    → Set.has (roots_of nodes edges) x ≡ true
    → (Set.has (targets edges) x ≡ false) × (Set.has (work_ids nodes) x ≡ true)
unfolding roots_of
root-untargeted nodes edges x h =
    let both : Set.has (roots_of nodes edges) x
        ≡ (Set.has (work_ids nodes) x && not (Set.has (targets edges) x)) =
      has-filter (λ id. not (Set.has (targets edges) id)) (work_ids nodes) x in
    (ground (arith, both, h), ground (arith, both, h))

-- A root has no degree, since it is no target.
degree-root :
    (nodes : List DelegationNode) (edges : List DelegationEdge) (x : String)
    → Set.has (roots_of nodes edges) x ≡ true
    → is_positive (Map.get (prepared (Set.of_list (work_ids nodes)) edges).in_degree x) ≡ false
degree-root nodes edges x h =
    let (free, work) : (Set.has (targets edges) x ≡ false) × (Set.has (work_ids nodes) x ≡ true) =
      root-untargeted nodes edges x h in
    let same : Map.get (prepared (Set.of_list (work_ids nodes)) edges).in_degree x
        ≡ Map.get (zero_degrees [] (Set.of_list (work_ids nodes))) x =
      degree-add_work_edges (Set.of_list (work_ids nodes))
        (record { in_degree = zero_degrees [] (Set.of_list (work_ids nodes)); children = [] }) edges
        x free in
    ground (
      arith,
      same,
      get-zero_degrees [] (Set.of_list (work_ids nodes)) x,
      Set.has-of_list (work_ids nodes) x,
      work,
    )

first-IsQueued :
    (graph : DelegationGraph)
    → graph.roots ≡ roots_of graph.nodes graph.edges
    → nodup (work_ids graph.nodes) ≡ true
    → IsQueued (Set.of_list (work_ids graph.nodes)) [] (record {
      in_degree = (prepared (Set.of_list (work_ids graph.nodes)) graph.edges).in_degree;
      next_queue = first_queue graph;
    })
first-IsQueued graph r u =
    let work : Set.Set = Set.of_list (work_ids graph.nodes) in
    record {
      unique = nodup-filter (Set.has (Set.of_list (work_ids graph.nodes))) graph.roots (
          subst (λ l. nodup l ≡ true) (sym r)
            (unfold roots_of in
              nodup-filter (λ id. not (Set.has (targets graph.edges) id)) (work_ids graph.nodes)
                u));
      inside = all-filter (Set.has (Set.of_list (work_ids graph.nodes))) graph.roots;
      settled = λ x p. ground (
        arith,
        p,
        has-filter (Set.has (Set.of_list (work_ids graph.nodes))) graph.roots x,
        degree-root graph.nodes graph.edges x,
        ap (λ l. Set.has l x) r,
      );
    }

topological_order_eq :
    (graph : DelegationGraph) (order : List String)
    → (let work : Set.Set = Set.of_list (work_ids graph.nodes) in
        order_queue
          (prepared work graph.edges).children
          (length graph.roots + length work)
          (prepared work graph.edges).in_degree
          (first_queue graph)
          []
        ≡ some order)
    → topological_order graph ≡ some (add_missing order (Set.of_list (work_ids graph.nodes)))
unfolding topological_order
topological_order_eq graph order h = rw (h, topological_order) refl

-- The order of any graph whose roots are its own and whose work nodes have different ids, cycles included,
-- is found and lists exactly the ids of the work nodes, each once.
pub topological_order_lem :
    (graph : DelegationGraph)
    → graph.roots ≡ roots_of graph.nodes graph.edges
    → nodup (work_ids graph.nodes) ≡ true
    → (order : List String) × (topological_order graph ≡ some order)
      × (nodup order ≡ true)
      × ((x : String) → Set.has order x ≡ Set.has (work_ids graph.nodes) x)
unfolding IsListed
topological_order_lem graph r u =
    let work : Set.Set = Set.of_list (work_ids graph.nodes) in
    let p : IsPrepared (Set.of_list (work_ids graph.nodes))
        (prepared (Set.of_list (work_ids graph.nodes)) graph.edges) =
      add_work_edges-IsPrepared (Set.of_list (work_ids graph.nodes))
        (record { in_degree = zero_degrees [] (Set.of_list (work_ids graph.nodes)); children = [] })
        graph.edges (record { closed = λ id. unfold children_of Map.get in refl }) in
    let (out, e, once, inside) : IsListed (Set.of_list (work_ids graph.nodes)) (
        order_queue (prepared work graph.edges).children (length graph.roots + length work)
          (prepared work graph.edges).in_degree (first_queue graph) []) =
      order_queue-IsListed (Set.of_list (work_ids graph.nodes)) (prepared work graph.edges).children
        p.closed (length graph.roots + length work) (prepared work graph.edges).in_degree
        (first_queue graph) [] (first-IsQueued graph r u)
        (omega (
          arith,
          length-filter (Set.has work) graph.roots,
          waiting-length work (prepared work graph.edges).in_degree,
        )) in
    (
      add_missing out work,
      topological_order_eq graph out e,
      add_missing-nodup out work once,
      λ x. ground (
        arith,
        has-add_missing out work x,
        Set.has-of_list (work_ids graph.nodes) x,
        Set.has-of_all (Set.has work) out x inside,
      ),
    )
