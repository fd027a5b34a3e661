-- ===== src/Observability/GraphMessages/Kept.antt =====
-- What the messages of core/src/observability/graph-messages.ts keep of the nodes that they are made from.
use oacp.Prelude.{
  String, ◌≡◌, refl, sym, ap, ◌∙◌, Bool, true, false, Option, none, some, List, [], ◌∷◌, arith, map,
  find, or_else, ◌==◌, eq_iff, eq_refl, if◌then◌else◌, Bool-cases, inl, inr, subst,
}
use oacp.Js.Map
use oacp.Js.Map.{Map, get-set}
use oacp.Js.Set
use oacp.Js.Set.{has-any}
use oacp.Js.Collation.{Collation}
use oacp.Js.Sort.{insert, sort}
use oacp.Protocol.Messages.{TaskStatus, success, OacpMessage}
use oacp.Workflow.Batches.Counts.{nodup}
use oacp.Memory.Graph.{
  DelegationNodeKind, request_node, delegation_node, response_node, DelegationNode,
  MutableDelegationGraphState, create_state, upsert_node, apply_message, request_of, delegation_of,
  response_of,
}
use oacp.Memory.Graph.Finish.{DelegationGraph, apply_messages}
use oacp.Memory.Graph.Kept.Work.{link-nodes, apply_request_node-nodes}
use oacp.Observability.GraphMessages.{node_to_message, by_time, messages_from_delegation_graph}

-- A node as its message gives it again. The parent of a request and the status of anything but a response are lost.
unfoldable pub kept : DelegationNode → String → DelegationNode
kept n trace_id = record n {
  trace_id = trace_id;
  capability = elim n.kind [
    | response_node ↦ none
    | delegation_node ↦ some (or_else n.capability "unknown")
    | request_node ↦ some (or_else n.capability "unknown")
  ];
  to = elim n.kind [ response_node ↦ none | delegation_node ↦ n.to | request_node ↦ n.to ];
  status = elim n.kind [
    | response_node ↦ some (or_else n.status success)
    | delegation_node ↦ none
    | request_node ↦ none
  ];
  timestamp = some (or_else n.timestamp "1970-01-01T00:00:00.000Z");
  parent_message_id = elim n.kind [
    | response_node ↦ some (or_else n.parent_message_id "")
    | delegation_node ↦ some (or_else n.parent_message_id "")
    | request_node ↦ none
  ];
}

-- The message puts the node of its own there.
apply-nodes :
    (s : MutableDelegationGraphState) (id trace agent : String) (k : DelegationNodeKind)
    (capability to : Option String) (status : Option TaskStatus) (timestamp parent : Option String)
    (t : String)
    → (let n : DelegationNode = record {
      message_id = id;
      trace_id = trace;
      agent_id = agent;
      kind = k;
      capability = capability;
      to = to;
      status = status;
      timestamp = timestamp;
      parent_message_id = parent;
    } in
        (apply_message s (node_to_message n t) none).nodes ≡ (upsert_node s (kept n t)).nodes)
unfolding apply_message node_to_message kept request_of delegation_of response_of
apply-nodes s id trace agent request_node capability to status timestamp parent t =
    apply_request_node-nodes s _
apply-nodes s id trace agent delegation_node capability to status timestamp parent t =
    link-nodes s _ _ _ _
apply-nodes s id trace agent response_node capability to status timestamp parent t =
    link-nodes s _ _ _ _

apply-get :
    (s : MutableDelegationGraphState) (n : DelegationNode) (t x : String)
    → Map.get s.nodes n.message_id ≡ none
    → Map.get (apply_message s (node_to_message n t) none).nodes x
      ≡ (if n.message_id == x then some (kept n t) else Map.get s.nodes x)
unfolding upsert_node kept
apply-get s n t x absent =
    ap (λ l. Map.get l x)
      (apply-nodes s n.message_id n.trace_id n.agent_id n.kind n.capability n.to n.status
        n.timestamp n.parent_message_id t)
    ∙ rw (absent, upsert_node) (get-set s.nodes n.message_id x (kept n t))

abbrev ids : List DelegationNode → List String
ids = map (λ n. n.message_id)

abbrev pub node_with : List DelegationNode → String → Option DelegationNode
node_with nodes id = find (λ n. n.message_id == id) nodes

abbrev pub kept_option : String → Option DelegationNode → Option DelegationNode
kept_option t none = none
kept_option t (some n) = some (kept n t)

abbrev pub without_parents : List OacpMessage → List (OacpMessage × Option String)
without_parents = map (λ m. (m, none))

-- The node with an id, from a graph that has none of the ids of the nodes to come.
found_or : List DelegationNode → String → String → Option DelegationNode → Option DelegationNode
found_or nodes t x before = elim (node_with nodes x) [ none ↦ before | some n ↦ some (kept n t) ]

node_with-none :
    (ns : List DelegationNode) (x : String) → Set.has (ids ns) x ≡ false → node_with ns x ≡ none
unfolding Set.has
node_with-none [] x h = refl
node_with-none (n ∷ ns) x h = ground (arith, h, node_with-none ns x)

apply_all-get :
    (ns : List DelegationNode) (s : MutableDelegationGraphState) (t x : String)
    → nodup (ids ns) ≡ true
    → ((y : String) → Set.has (ids ns) y ≡ true → Map.get s.nodes y ≡ none)
    → Map.get (apply_messages s (without_parents (map (λ n. node_to_message n t) ns))).nodes x
      ≡ found_or ns t x (Map.get s.nodes x)
unfolding apply_messages found_or Set.has
apply_all-get [] s t x u absent = refl
apply_all-get (n ∷ ns) s t x u absent =
    let free : Map.get s.nodes n.message_id ≡ none =
      absent n.message_id (ground (arith, eq_refl n.message_id)) in
    let next : MutableDelegationGraphState = apply_message s (node_to_message n t) none in
    let later : (y : String) → Set.has (ids ns) y ≡ true → Map.get next.nodes y ≡ none = λ y there.
      elim (Bool-cases (n.message_id == y)) [
        | inl same ↦
            let at : n.message_id ≡ y = ground (arith, same, eq_iff n.message_id y) in
            absurd (ground (arith, u, subst (λ z. Set.has (ids ns) z ≡ true) (sym at) there))
        | inr other ↦ apply-get s n t y free ∙ rw other (absent y (ground (arith, there, other)))
      ] in
    let rest = apply_all-get ns next t x (ground (arith, u)) later in
    rest ∙ ap (found_or ns t x) (apply-get s n t x free) ∙ elim (Bool-cases (n.message_id == x)) [
      | inr other ↦ rw (other, found_or) (rw other refl)
      | inl same ↦
          let at : n.message_id ≡ x = ground (arith, same, eq_iff n.message_id x) in
          let alone : node_with ns x ≡ none =
            node_with-none ns x (subst (λ z. Set.has (ids ns) z ≡ false) at (ground (arith, u))) in
          rw (same, alone, found_or) (rw same refl)
    ]

module _ (le : DelegationNode → DelegationNode → Bool) where
  has-insert :
      (n : DelegationNode) (ns : List DelegationNode) (x : String)
      → Set.has (ids (insert le n ns)) x ≡ (if n.message_id == x then true else Set.has (ids ns) x)
  unfolding insert Set.has
  has-insert n [] x = ground arith
  has-insert n (m ∷ ns) x = ground (arith, has-insert n ns x)

  nodup-insert :
      (n : DelegationNode) (ns : List DelegationNode)
      → nodup (ids (n ∷ ns)) ≡ true
      → nodup (ids (insert le n ns)) ≡ true
  unfolding insert Set.has
  nodup-insert n [] h = h
  nodup-insert n (m ∷ ns) h = ground (
    arith,
    h,
    nodup-insert n ns,
    has-insert n ns m.message_id,
    eq_iff m.message_id n.message_id,
    eq_iff n.message_id m.message_id,
  )

  find-insert :
      (n : DelegationNode) (ns : List DelegationNode) (x : String)
      → Set.has (ids ns) n.message_id ≡ false
      → node_with (insert le n ns) x ≡ node_with (n ∷ ns) x
  unfolding insert Set.has
  find-insert n [] x h = refl
  find-insert n (m ∷ ns) x h = ground (
    arith,
    h,
    find-insert n ns x,
    eq_iff m.message_id n.message_id,
    eq_iff m.message_id x,
    eq_iff n.message_id x,
  )

  has-sort :
      (ns : List DelegationNode) (x : String) → Set.has (ids (sort le ns)) x ≡ Set.has (ids ns) x
  unfolding sort Set.has
  has-sort [] x = refl
  has-sort (n ∷ ns) x = ground (arith, has-insert n (sort le ns) x, has-sort ns x)

  nodup-sort : (ns : List DelegationNode) → nodup (ids ns) ≡ true → nodup (ids (sort le ns)) ≡ true
  unfolding sort
  nodup-sort [] h = refl
  nodup-sort (n ∷ ns) h =
      nodup-insert n (sort le ns) (ground (arith, h, nodup-sort ns, has-sort ns n.message_id))

  find-sort :
      (ns : List DelegationNode) (x : String)
      → nodup (ids ns) ≡ true
      → node_with (sort le ns) x ≡ node_with ns x
  unfolding sort
  find-sort [] x h = refl
  find-sort (n ∷ ns) x h =
      find-insert n (sort le ns) x (ground (arith, h, has-sort ns n.message_id))
      ∙ ground (arith, find-sort ns x (ground (arith, h)))

-- The messages that are made from a graph whose nodes have different ids build, without parents, a graph with
-- exactly the nodes of those ids: each with its agent, its kind and what its message has of it, and a request without
-- its parent.
pub messages_from_delegation_graph-kept :
    (c : Collation) (g : DelegationGraph) (x : String)
    → nodup (map (λ n. n.message_id) g.nodes) ≡ true
    → Map.get
        (apply_messages
          (create_state g.trace_id)
          (without_parents (messages_from_delegation_graph c g))).nodes
        x
      ≡ kept_option g.trace_id (node_with g.nodes x)
unfolding messages_from_delegation_graph found_or Map.get
messages_from_delegation_graph-kept c g x u =
    apply_all-get (sort (by_time c) g.nodes) (create_state g.trace_id) g.trace_id x
      (nodup-sort (by_time c) g.nodes u) (λ y h. refl)
    ∙ ap (λ o. found o) (find-sort (by_time c) g.nodes x u)
    ∙ same (node_with g.nodes x)
  where
    found : Option DelegationNode → Option DelegationNode
    found o = elim o [ none ↦ none | some n ↦ some (kept n g.trace_id) ]

    same : (o : Option DelegationNode) → found o ≡ kept_option g.trace_id o
    same none = refl
    same (some n) = refl
