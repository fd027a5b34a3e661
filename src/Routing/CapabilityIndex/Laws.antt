-- ===== src/Routing/CapabilityIndex/Laws.antt =====
-- What indexing and unindexing do to the members of each capability.
use oacp.Prelude.{
  String, ◌≡◌, ◌≢◌, not, ◌&&◌, ◌||◌, some, List, [], ◌∷◌, arith, ◌==◌, eq_iff, Option-cases, inl,
  inr, if◌then◌else◌,
}
use oacp.Js.Map
use oacp.Js.Map.{get-set, get-delete}
use oacp.Js.Set
use oacp.Js.Set.{Set, has-add, has-delete}
use oacp.Routing.CapabilityIndex.{
  CapabilityIndex, members, index_agent, put_members, unindex_one, unindex_agent,
}

has-members-set :
    (ix : CapabilityIndex) (uri c d a : String)
    → Set.has (members (Map.set ix c (Set.add (members ix c) uri)) d) a
      ≡ (Set.has (members ix d) a || (c == d && uri == a))
has-members-set ix uri c d a = ground (
  arith,
  get-set ix c d (Set.add (members ix c) uri),
  has-add (members ix c) uri a,
  eq_iff c d,
  eq_iff uri a,
)

-- Indexing adds the agent to the capabilities that are listed, and changes nothing else.
pub has-index_agent :
    (ix : CapabilityIndex) (uri : String) (cs : List String) (d a : String)
    → Set.has (members (index_agent ix uri cs) d) a
      ≡ (Set.has (members ix d) a || (uri == a && Set.has cs d))
unfolding index_agent Set.has
has-index_agent ix uri [] d a = ground arith
has-index_agent ix uri (c ∷ cs) d a = ground (
  arith,
  has-index_agent (Map.set ix c (Set.add (members ix c) uri)) uri cs d a,
  has-members-set ix uri c d a,
)

members-put :
    (ix : CapabilityIndex) (c : String) (s : Set) (d : String)
    → members (put_members ix c s) d ≡ (if c == d then s else members ix d)
unfolding put_members
members-put ix c [] d = ground (arith, get-delete ix c d)
members-put ix c (x ∷ s) d = ground (arith, get-set ix c d (x ∷ s))

has-unindex_one :
    (ix : CapabilityIndex) (uri c d a : String)
    → Set.has (members (unindex_one ix uri c) d) a
      ≡ (Set.has (members ix d) a && not (c == d && uri == a))
unfolding unindex_one Set.has
has-unindex_one ix uri c d a = elim (Option-cases (Map.get ix c)) [
  | inl absent ↦ ground (arith, eq_iff c d)
  | inr (agents, e) ↦
      ground
        (arith, members-put ix c (Set.delete agents uri) d, has-delete agents uri a, eq_iff c d)
]

-- Unindexing removes the agent from the capabilities that are listed, and changes nothing else.
pub has-unindex_agent :
    (ix : CapabilityIndex) (uri : String) (cs : List String) (d a : String)
    → Set.has (members (unindex_agent ix uri cs) d) a
      ≡ (Set.has (members ix d) a && not (uri == a && Set.has cs d))
unfolding unindex_agent Set.has
has-unindex_agent ix uri [] d a = ground arith
has-unindex_agent ix uri (c ∷ cs) d a =
    ground
      (arith, has-unindex_agent (unindex_one ix uri c) uri cs d a, has-unindex_one ix uri c d a)

-- No capability is kept with an empty set.
abbrev pub NoEmpty : CapabilityIndex → Type 0
NoEmpty ix = (d : String) → Map.get ix d ≢ some []

add-ne-nil : (s : Set) (a : String) → Set.add s a ≢ []
unfolding Set.add Set.has
add-ne-nil [] a = ground arith
add-ne-nil (x ∷ s) a = ground arith

pub index_agent-NoEmpty :
    (ix : CapabilityIndex) (uri : String) (cs : List String)
    → NoEmpty ix
    → NoEmpty (index_agent ix uri cs)
unfolding index_agent
index_agent-NoEmpty ix uri [] h = h
index_agent-NoEmpty ix uri (c ∷ cs) h =
    index_agent-NoEmpty (Map.set ix c (Set.add (members ix c) uri)) uri cs λ d.
      ground
        (arith, h d, get-set ix c d (Set.add (members ix c) uri), add-ne-nil (members ix c) uri)

put_members-NoEmpty :
    (ix : CapabilityIndex) (c : String) (s : Set) → NoEmpty ix → NoEmpty (put_members ix c s)
unfolding put_members
put_members-NoEmpty ix c [] h = λ d. ground (arith, h d, get-delete ix c d)
put_members-NoEmpty ix c (x ∷ s) h = λ d. ground (arith, h d, get-set ix c d (x ∷ s))

unindex_one-NoEmpty :
    (ix : CapabilityIndex) (uri c : String) → NoEmpty ix → NoEmpty (unindex_one ix uri c)
unfolding unindex_one
unindex_one-NoEmpty ix uri c h = elim (Option-cases (Map.get ix c)) [
  | inl absent ↦ rw (absent, unindex_one) h
  | inr (agents, e) ↦ rw (e, unindex_one) (put_members-NoEmpty ix c (Set.delete agents uri) h)
]

pub unindex_agent-NoEmpty :
    (ix : CapabilityIndex) (uri : String) (cs : List String)
    → NoEmpty ix
    → NoEmpty (unindex_agent ix uri cs)
unfolding unindex_agent
unindex_agent-NoEmpty ix uri [] h = h
unindex_agent-NoEmpty ix uri (c ∷ cs) h =
    unindex_agent-NoEmpty (unindex_one ix uri c) uri cs (unindex_one-NoEmpty ix uri c h)
