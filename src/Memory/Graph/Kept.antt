-- ===== src/Memory/Graph/Kept.antt =====
-- What every message and entry keeps of a graph of core/src/memory/delegation-graph-builder.ts.
pub mod Work
pub mod Runs
use oacp.Prelude.{
  ℕ, String, ◌≡◌, refl, sym, ap, ◌∙◌, Bool, true, false, not, ◌&&◌, ◌||◌, Option, none, some, List,
  [], ◌∷◌, ◌++◌, all, any, arith, ◌==◌, eq_iff, eq_refl, Bool-cases, Option-cases, inl, inr, map,
  filter, subst, is_some, if◌then◌else◌,
}
use oacp.Js.Map
use oacp.Js.Map.{Map}
use oacp.Js.Set
use oacp.Protocol.Messages.{OacpMessage, task_request, task_response, delegation, capability_query}
use oacp.Workflow.Batches.Counts.{nodup}
use oacp.Memory.Types.{MemoryEntryKind, MemoryEntry}
use oacp.Memory.Graph.{
  DelegationNodeKind, DelegationEdgeKind, DelegationNode, DelegationEdge,
  MutableDelegationGraphState, create_state, merged, upsert_node, same_edge, add_edge,
  agent_for_message, link, apply_request_node, request_of, delegation_of, response_of,
  apply_message, truthy, apply_delegation_entry, apply_response_entry, apply_entry_with,
  apply_entry, entry_node,
}
use oacp.Memory.Graph.Finish.{apply_messages, apply_entries, work_ids}
use oacp.Protocol.Json.{text_field}

-- Nodes stand under their own ids.
unfoldable pub keyed : Map DelegationNode → Bool
keyed [] = true
keyed ((k, n) ∷ m) = n.message_id == k && keyed m

-- No edge is there twice: from, to and kind.
unfoldable pub distinct_edges : List DelegationEdge → Bool
distinct_edges [] = true
distinct_edges (e ∷ es) = not (any (λ x. same_edge e x) es) && distinct_edges es

pub record IsGraph (s : MutableDelegationGraphState) : Type 0 where
  pub keyed_nodes : keyed s.nodes ≡ true
  pub unique_nodes : nodup (Map.keys s.nodes) ≡ true
  pub targets_there : all (λ e. Map.has s.nodes e.to_message_id) s.edges ≡ true
  pub unique_edges : distinct_edges s.edges ≡ true

keyed-set :
    (m : Map DelegationNode) (n : DelegationNode)
    → keyed m ≡ true
    → keyed (Map.set m n.message_id n) ≡ true
unfolding keyed Map.set
keyed-set [] n h = ground (arith, eq_refl n.message_id)
keyed-set ((k, v) ∷ m) n h =
    ground (arith, h, keyed-set m n, eq_iff k n.message_id, eq_iff n.message_id k)

keyed-get :
    (m : Map DelegationNode) (id : String) (n : DelegationNode)
    → keyed m ≡ true
    → Map.get m id ≡ some n
    → n.message_id ≡ id
unfolding keyed Map.get
keyed-get [] id n h e = absurd (ground (arith, e))
keyed-get ((k, v) ∷ m) id n h e =
    ground (arith, h, e, keyed-get m id n, eq_iff k id, eq_iff v.message_id k)

pub has-keys-set :
    (m : Map DelegationNode) (k : String) (n : DelegationNode) (x : String)
    → Set.has (Map.keys (Map.set m k n)) x ≡ (k == x || Set.has (Map.keys m) x)
unfolding Map.set Set.has
has-keys-set [] k n x = refl
has-keys-set ((j, v) ∷ m) k n x = ground (arith, has-keys-set m k n x, eq_iff j k)

nodup-keys-set :
    (m : Map DelegationNode) (k : String) (n : DelegationNode)
    → nodup (Map.keys m) ≡ true
    → nodup (Map.keys (Map.set m k n)) ≡ true
unfolding Map.set Set.has
nodup-keys-set [] k n h = refl
nodup-keys-set ((j, v) ∷ m) k n h =
    ground (arith, h, nodup-keys-set m k n, has-keys-set m k n j, eq_iff j k, eq_iff k j)

targets-set :
    (m : Map DelegationNode) (k : String) (n : DelegationNode) (edges : List DelegationEdge)
    → all (λ e. Map.has m e.to_message_id) edges ≡ true
    → all (λ e. Map.has (Map.set m k n) e.to_message_id) edges ≡ true
targets-set m k n [] h = refl
targets-set m k n (e ∷ edges) h =
    ground (arith, h, targets-set m k n edges, Map.get-set m k e.to_message_id n)

distinct_edges-concat :
    (es : List DelegationEdge) (e : DelegationEdge)
    → distinct_edges es ≡ true
    → any (λ x. same_edge x e) es ≡ false
    → distinct_edges (es ++ e ∷ []) ≡ true
unfolding distinct_edges
distinct_edges-concat [] e h n = refl
distinct_edges-concat (x ∷ es) e h n =
    ground (arith, h, n, any-concat es x e, distinct_edges-concat es e)
  where
    any-concat :
        (es : List DelegationEdge) (x e : DelegationEdge)
        → any (λ y. same_edge x y) (es ++ e ∷ []) ≡ (any (λ y. same_edge x y) es || same_edge x e)
    any-concat [] x e = ground arith
    any-concat (y ∷ es) x e = ground (arith, any-concat es x e)

all-concat :
    (p : DelegationEdge → Bool) (es : List DelegationEdge) (e : DelegationEdge)
    → all p es ≡ true
    → p e ≡ true
    → all p (es ++ e ∷ []) ≡ true
all-concat p [] e h k = ground (arith, k)
all-concat p (x ∷ es) e h k = ground (arith, h, k, all-concat p es e)

-- A node under its own id is stored.
set-IsGraph :
    (s : MutableDelegationGraphState) (n : DelegationNode)
    → IsGraph s
    → IsGraph (record s { nodes = Map.set s.nodes n.message_id n })
set-IsGraph s n g = record {
  keyed_nodes = keyed-set s.nodes n g.keyed_nodes;
  unique_nodes = nodup-keys-set s.nodes n.message_id n g.unique_nodes;
  targets_there = targets-set s.nodes n.message_id n s.edges g.targets_there;
  unique_edges = g.unique_edges;
}

upsert_node-IsGraph :
    (s : MutableDelegationGraphState) (n : DelegationNode) → IsGraph s → IsGraph (upsert_node s n)
unfolding upsert_node merged
upsert_node-IsGraph s n g = elim (Option-cases (Map.get s.nodes n.message_id)) [
  | inl fresh ↦ rw (fresh, upsert_node) (set-IsGraph s n g)
  | inr (old, e) ↦
      rw (e, upsert_node)
        (subst (λ k. IsGraph (record s { nodes = Map.set s.nodes k (merged old n) }))
          (keyed-get s.nodes n.message_id old g.keyed_nodes e) (set-IsGraph s (merged old n) g))
]

-- After it there is a node of the id.
upsert_node-has :
    (s : MutableDelegationGraphState) (n : DelegationNode)
    → Map.has (upsert_node s n).nodes n.message_id ≡ true
unfolding upsert_node
upsert_node-has s n = elim (Option-cases (Map.get s.nodes n.message_id)) [
  | inl fresh ↦
      rw (fresh, upsert_node)
        (ground (arith, Map.get-set s.nodes n.message_id n.message_id n, eq_refl n.message_id))
  | inr (old, e) ↦
      rw (e, upsert_node)
        (ground (
          arith,
          Map.get-set s.nodes n.message_id n.message_id (merged old n),
          eq_refl n.message_id,
        ))
]

add_edge-IsGraph :
    (s : MutableDelegationGraphState) (e : DelegationEdge)
    → Map.has s.nodes e.to_message_id ≡ true
    → IsGraph s
    → IsGraph (add_edge s e)
unfolding add_edge
add_edge-IsGraph s e h g = elim (Bool-cases (any (λ x. same_edge x e) s.edges)) [
  | inl there ↦ rw (there, add_edge) g
  | inr fresh ↦
      rw (fresh, add_edge)
        (record {
          keyed_nodes = g.keyed_nodes;
          unique_nodes = g.unique_nodes;
          targets_there =
              all-concat (λ x. Map.has s.nodes x.to_message_id) s.edges e g.targets_there h;
          unique_edges = distinct_edges-concat s.edges e g.unique_edges fresh;
        })
]

pub link-IsGraph :
    (s : MutableDelegationGraphState) (n : DelegationNode) (parent : String)
    (kind : DelegationEdgeKind) (to_agent : Option String)
    → IsGraph s
    → IsGraph (link s n parent kind to_agent)
unfolding link
link-IsGraph s n parent kind to_agent g =
    add_edge-IsGraph (upsert_node s n) _ (upsert_node-has s n) (upsert_node-IsGraph s n g)

pub apply_request_node-IsGraph :
    (s : MutableDelegationGraphState) (n : DelegationNode)
    → IsGraph s
    → IsGraph (apply_request_node s n)
unfolding apply_request_node
apply_request_node-IsGraph s n g = elim (Option-cases n.parent_message_id) [
  | inl alone ↦ go alone
  | inr (parent, e) ↦ linked parent e
]
  where
    go : n.parent_message_id ≡ none → IsGraph (apply_request_node s n)
    go e =
        subst
          (λ r. IsGraph (elim r as (λ o. MutableDelegationGraphState) [
            | none ↦ upsert_node s n
            | some p ↦ link s n p DelegationEdgeKind.subtask n.to
          ]))
          (sym e) (upsert_node-IsGraph s n g)

    linked :
        (parent : String) → n.parent_message_id ≡ some parent → IsGraph (apply_request_node s n)
    linked parent e =
        subst
          (λ r. IsGraph (elim r as (λ o. MutableDelegationGraphState) [
            | none ↦ upsert_node s n
            | some p ↦ link s n p DelegationEdgeKind.subtask n.to
          ]))
          (sym e) (link-IsGraph s n parent DelegationEdgeKind.subtask n.to g)
