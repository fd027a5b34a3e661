-- ===== src/Routing/Bus/Registration.antt =====
-- Registration keeps the capability index exact.
use oacp.Prelude.{
  ℕ, String, ◌≡◌, refl, ◌∙◌, Bool, true, false, not, ◌&&◌, Option, none, some, List, arith, ◌==◌,
  eq_iff, or_else, Option-cases, Bool-cases, inl, inr,
}
use oacp.Js.Map
use oacp.Js.Map.{get-set, get-delete}
use oacp.Js.Set
use oacp.Js.Set.{has-of_list}
use oacp.Js.Sort.{has-sort}
use oacp.Js.Collation.{Collation}
use oacp.Routing.CapabilityIndex.{members}
use oacp.Routing.CapabilityIndex.Laws.{
  has-index_agent, has-unindex_agent, NoEmpty, index_agent-NoEmpty, unindex_agent-NoEmpty,
}
use oacp.Routing.Types.{AgentRegistration}
use oacp.Routing.Bus.Defs.{
  Bus, BusOptions, create, RegisterOptions, allocate, put_registration, unindex, with_mailbox,
  merge_registration, register, unregister, find_agents_by_capability,
}

-- Whether an agent is registered with a capability.
abbrev pub declares : Bus → String → String → Bool
declares b a c = elim (Map.get b.agents a) [ none ↦ false | some r ↦ Set.has r.capabilities c ]

-- The index holds exactly what the registrations declare, and no empty entries.
pub record IsIndexed (b : Bus) : Type 0 where
  pub exact : (c a : String) → Set.has (members b.capability_index c) a ≡ declares b a c
  pub no_empty : NoEmpty b.capability_index

-- The same for all agents but one, which the index does not hold.
record IsIndexedBut (b : Bus) (uri : String) : Type 0 where
  others :
      (c a : String) → Set.has (members b.capability_index c) a ≡ (declares b a c && not (uri == a))
  no_empty : NoEmpty b.capability_index

pub create-IsIndexed : (o : BusOptions) → IsIndexed (create o)
unfolding create Map.get Set.has
create-IsIndexed o = record { exact = λ c a. refl; no_empty = λ d e. cc }

unindex-IsIndexedBut :
    (b : Bus) (uri : String) (r : AgentRegistration)
    → Map.get b.agents uri ≡ some r
    → IsIndexed b
    → IsIndexedBut (unindex b uri r) uri
unfolding unindex
unindex-IsIndexedBut b uri r e v = record {
  others = λ c a. ground (
    arith,
    v.exact c a,
    has-unindex_agent b.capability_index uri r.capabilities c a,
    eq_iff uri a,
  );
  no_empty = unindex_agent-NoEmpty b.capability_index uri r.capabilities v.no_empty;
}

absent-IsIndexedBut :
    (b : Bus) (uri : String) → Map.get b.agents uri ≡ none → IsIndexed b → IsIndexedBut b uri
absent-IsIndexedBut b uri e v = record {
  others = λ c a. ground (arith, v.exact c a, eq_iff uri a);
  no_empty = v.no_empty;
}

put_registration-IsIndexed :
    (b : Bus) (uri : String) (r : AgentRegistration)
    → IsIndexedBut b uri
    → IsIndexed (put_registration b uri r)
unfolding put_registration
put_registration-IsIndexed b uri r v = record {
  exact = λ c a. ground (
    arith,
    v.others c a,
    has-index_agent b.capability_index uri r.capabilities c a,
    get-set b.agents uri a r,
    eq_iff uri a,
  );
  no_empty = index_agent-NoEmpty b.capability_index uri r.capabilities v.no_empty;
}

allocate-IsIndexedBut :
    (b : Bus) (uri : String) → IsIndexedBut b uri → IsIndexedBut (allocate b) uri
unfolding allocate
allocate-IsIndexedBut b uri v = record { others = v.others; no_empty = v.no_empty }

with_mailbox-IsIndexed :
    (b : Bus) (uri : String) (handler : Option ℕ) (cs : List String) (box : Option ℕ) (wants : Bool)
    → IsIndexedBut b uri
    → IsIndexed (with_mailbox b uri handler cs box wants)
unfolding with_mailbox
with_mailbox-IsIndexed b uri handler cs (some box) wants v = put_registration-IsIndexed b uri _ v
with_mailbox-IsIndexed b uri handler cs none true v =
    put_registration-IsIndexed (allocate b) uri _ (allocate-IsIndexedBut b uri v)
with_mailbox-IsIndexed b uri handler cs none false v = put_registration-IsIndexed b uri _ v

-- Registering an agent, anew, in place of an old registration or merged with it, keeps the index exact.
pub register-IsIndexed :
    (b : Bus) (uri : String) (handler : Option ℕ) (o : RegisterOptions)
    → IsIndexed b
    → IsIndexed (register b uri handler o)
unfolding register merge_registration
register-IsIndexed b uri handler o v = elim (Option-cases (Map.get b.agents uri)) [
  | inl absent ↦
      rw (absent, register)
        (with_mailbox-IsIndexed b uri _ _ _ _ (absent-IsIndexedBut b uri absent v))
  | inr (r, e) ↦
      let free = unindex-IsIndexedBut b uri r e v in
      elim (Bool-cases (or_else o.replace false)) [
        | inl replaces ↦ rw (e, replaces, register) (with_mailbox-IsIndexed _ uri _ _ _ _ free)
        | inr merges ↦ rw (e, merges, register) (with_mailbox-IsIndexed _ uri _ _ _ _ free)
      ]
]

pub unregister-IsIndexed : (b : Bus) (uri : String) → IsIndexed b → IsIndexed (unregister b uri).0
unfolding unregister unindex
unregister-IsIndexed b uri v = elim (Option-cases (Map.get b.agents uri)) [
  | inl absent ↦ rw (absent, unregister) v
  | inr (r, e) ↦
      let free = unindex-IsIndexedBut b uri r e v in
      rw (e, unregister)
        (record {
          exact = λ c a. ground (arith, free.others c a, get-delete b.agents uri a, eq_iff uri a);
          no_empty = free.no_empty;
        })
]

-- Where the index is exact, the agents found under a capability are exactly the agents that are
-- registered with it.
pub has-find_agents_by_capability :
    (c : Collation) (b : Bus) (capability a : String)
    → IsIndexed b
    → Set.has (find_agents_by_capability c b capability) a ≡ declares b a capability
unfolding find_agents_by_capability
has-find_agents_by_capability c b capability a v =
    has-sort c.code_unit_le (members b.capability_index capability) a ∙ v.exact capability a
