-- ===== src/Memory/Graph/Kept/Work.antt =====
-- Which ids of the messages of a trace are those of work nodes in its graph.
use oacp.Prelude.{
  String, ◌≡◌, refl, ap, ◌∙◌, Bool, true, false, Option, none, some, List, [], ◌∷◌, arith, any,
  ◌==◌, eq_iff, eq_refl, if◌then◌else◌, Option-cases, inl, inr, if_ind, Bool-cases, subst,
}
use oacp.Js.Map
use oacp.Js.Map.{Map, get-set}
use oacp.Js.Set
use oacp.Protocol.Messages.{
  OacpMessage, task_request, task_response, delegation, capability_query, message_id,
}
use oacp.Workflow.Batches.Counts.{nodup}
use oacp.Memory.Graph.{
  DelegationNode, DelegationEdge, DelegationEdgeKind, subtask, MutableDelegationGraphState, merged,
  upsert_node, add_edge, same_edge, link, apply_request_node, request_of, delegation_of,
  response_of, apply_message,
}
use oacp.Memory.Graph.Finish.{is_work_kind, work_ids, apply_messages}
use oacp.Memory.Graph.Kept.{keyed}

-- A request and a delegation are work, a response is not, and a query changes nothing.
abbrev pub work_type : OacpMessage → Bool → Bool
work_type (task_request m) before = true
work_type (delegation m) before = true
work_type (task_response m) before = false
work_type (capability_query m) before = before

-- Whether the last of the messages with the id, queries left out, is a request or a delegation; `before` is for none.
unfoldable pub is_work : Bool → String → List (OacpMessage × Option String) → Bool
is_work before id [] = before
is_work before id ((m, parent) ∷ ms) =
    is_work (if message_id m == id then work_type m before else before) id ms

abbrev pub is_work_node : Option DelegationNode → Bool
is_work_node none = false
is_work_node (some n) = is_work_kind n.kind

work_ids-absent :
    (m : Map DelegationNode) (x : String)
    → keyed m ≡ true
    → Set.has (Map.keys m) x ≡ false
    → Set.has (work_ids (Map.values m)) x ≡ false
unfolding keyed Set.has
work_ids-absent [] x h k = refl
work_ids-absent ((j, n) ∷ m) x h k =
    ground (arith, h, k, work_ids-absent m x, eq_iff n.message_id j)

pub has-work_ids :
    (m : Map DelegationNode) (x : String)
    → keyed m ≡ true
    → nodup (Map.keys m) ≡ true
    → Set.has (work_ids (Map.values m)) x ≡ is_work_node (Map.get m x)
unfolding keyed Set.has Map.get
has-work_ids [] x h u = refl
has-work_ids ((j, n) ∷ m) x h u = elim (Bool-cases (j == x)) [
  | inr other ↦ ground (arith, h, u, other, has-work_ids m x, eq_iff n.message_id j)
  | inl same ↦
      let at : j ≡ x = ground (arith, same, eq_iff j x) in
      subst
        (λ y.
          Set.has (work_ids (Map.values ((j, n) ∷ m))) y ≡ is_work_node (Map.get ((j, n) ∷ m) y))
        at
        (elim (Bool-cases (is_work_kind n.kind)) [
          | inl work ↦ ground (arith, h, work, eq_refl j, eq_iff n.message_id j)
          | inr no_work ↦ ground (
            arith,
            no_work,
            eq_refl j,
            work_ids-absent m j (ground (arith, h)) (ground (arith, u)),
          )
        ])
]

upsert_node-work :
    (s : MutableDelegationGraphState) (n : DelegationNode) (x : String)
    → is_work_node (Map.get (upsert_node s n).nodes x)
      ≡ (if n.message_id == x then is_work_kind n.kind else is_work_node (Map.get s.nodes x))
unfolding upsert_node merged
upsert_node-work s n x = elim (Option-cases (Map.get s.nodes n.message_id)) [
  | inl absent ↦ rw (absent, upsert_node) (ground (arith, get-set s.nodes n.message_id x n))
  | inr (old, there) ↦
      rw (there, upsert_node) (ground (arith, get-set s.nodes n.message_id x (merged old n)))
]

add_edge-nodes :
    (s : MutableDelegationGraphState) (e : DelegationEdge) → (add_edge s e).nodes ≡ s.nodes
unfolding add_edge
add_edge-nodes s e =
    if_ind {A = MutableDelegationGraphState} (λ r. r.nodes ≡ s.nodes)
      (any (λ existing. same_edge existing e) s.edges) (λ _. refl) (λ _. refl)

pub link-nodes :
    (s : MutableDelegationGraphState) (n : DelegationNode) (parent : String)
    (kind : DelegationEdgeKind) (to_agent : Option String)
    → (link s n parent kind to_agent).nodes ≡ (upsert_node s n).nodes
unfolding link
link-nodes s n parent kind to_agent = add_edge-nodes (upsert_node s n) _

pub apply_request_node-nodes :
    (s : MutableDelegationGraphState) (n : DelegationNode)
    → (apply_request_node s n).nodes ≡ (upsert_node s n).nodes
unfolding apply_request_node
apply_request_node-nodes s n = go n.parent_message_id
  where
    go :
        (p : Option String)
        → (elim p as (λ x. MutableDelegationGraphState) [
          | none ↦ upsert_node s n
          | some parent ↦ link s n parent subtask n.to
        ]).nodes
          ≡ (upsert_node s n).nodes
    go none = refl
    go (some parent) = link-nodes s n parent subtask n.to

pub apply_message-work :
    (s : MutableDelegationGraphState) (m : OacpMessage) (parent : Option String) (x : String)
    → is_work_node (Map.get (apply_message s m parent).nodes x) ≡ (
        if message_id m == x
        then work_type m (is_work_node (Map.get s.nodes x))
        else is_work_node (Map.get s.nodes x))
unfolding apply_message request_of delegation_of response_of
apply_message-work s (task_request m) parent x =
    ap (λ l. is_work_node (Map.get l x)) (apply_request_node-nodes s (request_of m parent))
    ∙ upsert_node-work s (request_of m parent) x
apply_message-work s (delegation m) parent x =
    ap (λ l. is_work_node (Map.get l x)) (link-nodes s (delegation_of m) m.parent_message_id _ m.to)
    ∙ upsert_node-work s (delegation_of m) x
apply_message-work s (task_response m) parent x =
    ap (λ l. is_work_node (Map.get l x))
      (link-nodes s (response_of m) m.in_reply_to _ (some m.from))
    ∙ upsert_node-work s (response_of m) x
apply_message-work s (capability_query m) parent x = ground arith

pub apply_messages-work :
    (s : MutableDelegationGraphState) (ms : List (OacpMessage × Option String)) (x : String)
    → is_work_node (Map.get (apply_messages s ms).nodes x)
      ≡ is_work (is_work_node (Map.get s.nodes x)) x ms
unfolding apply_messages is_work
apply_messages-work s [] x = refl
apply_messages-work s ((m, parent) ∷ ms) x =
    apply_messages-work (apply_message s m parent) ms x
    ∙ ap (λ b. is_work b x ms) (apply_message-work s m parent x)
