-- ===== src/Memory/Graph/Walk/Paths.antt =====
-- Edges and paths of a graph of core/src/memory/delegation-graph-builder.ts, and the nodes of ids.
use oacp.Prelude.{String, ◌≡◌, refl, Bool, true, false, ◌&&◌, List, [], ◌∷◌, ◌++◌, any, ◌==◌}
use oacp.Js.Map
use oacp.Js.Map.{Map}
use oacp.Memory.Graph.{DelegationNode, DelegationEdge}
use oacp.Memory.Graph.Walk.{push_node}

-- There is an edge from one id to another.
unfoldable pub step : List DelegationEdge → String → String → Bool
step edges a b = any (λ e. e.from_message_id == a && e.to_message_id == b) edges

-- An id is reached from another over edges whose starts are not empty ids.
pub data Reaches (edges : List DelegationEdge) (a : String) : String → Type 0 where
  here : Reaches edges a a
  over :
      (b c : String)
      → Reaches edges a b
      → (b == "") ≡ false
      → step edges b c ≡ true
      → Reaches edges a c

-- The nodes of some ids, where there are any.
unfoldable pub nodes_at :
    Map DelegationNode → List String → List DelegationNode → List DelegationNode
nodes_at nodes [] found = found
nodes_at nodes (id ∷ ids) found = nodes_at nodes ids (push_node found (Map.get nodes id))

pub nodes_at-concat :
    (nodes : Map DelegationNode) (ids : List String) (id : String) (found : List DelegationNode)
    → nodes_at nodes (ids ++ id ∷ []) found
      ≡ push_node (nodes_at nodes ids found) (Map.get nodes id)
unfolding nodes_at
nodes_at-concat nodes [] id found = refl
nodes_at-concat nodes (x ∷ ids) id found =
    nodes_at-concat nodes ids id (push_node found (Map.get nodes x))
