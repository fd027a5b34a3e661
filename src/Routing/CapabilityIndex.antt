-- ===== src/Routing/CapabilityIndex.antt =====
-- `indexAgent` and `unindexAgent` of core/src/routing/message-bus.ts: the agents of each capability.
pub mod Laws
use oacp.Prelude.{String, Option, none, some, List, [], ◌∷◌, or_else}
use oacp.Js.Map
use oacp.Js.Map.{Map}
use oacp.Js.Set
use oacp.Js.Set.{Set}

abbrev pub CapabilityIndex : Type 0
CapabilityIndex = Map Set

-- The agents under a capability, none where it has no entry.
abbrev pub members : CapabilityIndex → String → Set
members ix c = or_else (Map.get ix c) []

unfoldable pub index_agent : CapabilityIndex → String → List String → CapabilityIndex
index_agent ix uri [] = ix
index_agent ix uri (c ∷ cs) = index_agent (Map.set ix c (Set.add (members ix c) uri)) uri cs

-- An entry whose set has become empty is deleted.
unfoldable pub put_members : CapabilityIndex → String → Set → CapabilityIndex
put_members ix c [] = Map.delete ix c
put_members ix c (a ∷ as') = Map.set ix c (a ∷ as')

unfoldable pub unindex_one : CapabilityIndex → String → String → CapabilityIndex
unfolding put_members
unindex_one ix uri c = elim (Map.get ix c) [
  | none ↦ ix
  | some agents ↦ put_members ix c (Set.delete agents uri)
]

unfoldable pub unindex_agent : CapabilityIndex → String → List String → CapabilityIndex
unfolding unindex_one
unindex_agent ix uri [] = ix
unindex_agent ix uri (c ∷ cs) = unindex_agent (unindex_one ix uri c) uri cs
