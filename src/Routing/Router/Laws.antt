-- ===== src/Routing/Router/Laws.antt =====
-- Where messages go.
use oacp.Prelude.{
  String, ◌≡◌, ◌≢◌, refl, sym, eq_refl, ◌∙◌, Bool, true, false, Option, none, some, List, [], ◌∷◌,
  arith, all, or_else, ap, subst, Bool-cases, List-cases, Option-cases, inl, inr,
}
use oacp.Js.Map
use oacp.Js.Set
use oacp.Js.Set.{Set, all-of_has, has-of_all}
use oacp.Js.Sort.{sort, all-sort, sort-ne-nil, has-sort, sort-least}
use oacp.Js.Collation.{Collation, IsTotalPreorder}
use oacp.Protocol.Errors.{OacpError, ok}
use oacp.Protocol.Messages.{
  OacpMessage, task_request, task_response, delegation, capability_query, TaskRequestMessage,
  CapabilityQueryMessage,
}
use oacp.Routing.TraceStore.{TraceStore}
use oacp.Routing.CapabilityIndex.{members}
use oacp.Routing.Router.{
  CapabilityRoutingMode, first, RouterState, RouterOptions, default_registry_uri, direct_to, select,
  sort_agents_by_uri, by_capability, resolve_direct_recipient, resolve_by_capability,
  resolve_direct_or_capability, resolve_capability_query, resolve_task_response, resolve_route,
}

-- The agents that a route may lead to: all of them satisfy `p`, and there is one.
abbrev pub Leads : (String → Bool) → List String → Type 0
Leads p rs = (all p rs ≡ true) × (rs ≢ [])

module _ (p : String → Bool) where
  select-Leads :
      (mode : CapabilityRoutingMode) (rs : List String) → Leads p rs → Leads p (select mode rs)
  unfolding select
  select-Leads CapabilityRoutingMode.all rs h = h
  select-Leads first [] h = h
  select-Leads first (a ∷ rs) h = (ground arith, λ e. cc)

  by_capability-Leads :
      (c : Collation) (o : Option Set) (mode : CapabilityRoutingMode) (e : OacpError)
      (rs : List String)
      → all p (or_else o []) ≡ true
      → by_capability c o mode e ≡ ok rs
      → Leads p rs
  unfolding by_capability
  by_capability-Leads c none mode e rs h k = cc
  by_capability-Leads c (some []) mode e rs h k = cc
  by_capability-Leads c (some (a ∷ agents)) mode e rs h k =
      let chosen =
        select-Leads mode (sort c.locale_le (a ∷ agents))
          (all-sort c.locale_le p (a ∷ agents) ∙ h, sort-ne-nil c.locale_le a agents) in
      subst (Leads p) (ground (arith, k)) chosen

abbrev pub is_response : OacpMessage → Bool
is_response (task_response m) = true
is_response _ = false

module _ (state : RouterState)
    (indexed : (capability a : String)
      → Set.has (members state.capability_index capability) a ≡ true
      → Set.has state.registered_agents a ≡ true) where
  abbrev registered : String → Bool
  registered = Set.has state.registered_agents

  members-registered :
      (capability : String) → all registered (members state.capability_index capability) ≡ true
  members-registered capability = all-of_has registered _ (indexed capability)

  direct-Leads :
      (uri : String) (rs : List String)
      → resolve_direct_recipient uri state ≡ ok rs
      → Leads registered rs
  unfolding resolve_direct_recipient
  direct-Leads uri rs h = ground arith

  direct_or_capability-Leads :
      (c : Collation) (to : Option String) (capability : String) (mode : CapabilityRoutingMode)
      (rs : List String)
      → resolve_direct_or_capability c to capability state mode ≡ ok rs
      → Leads registered rs
  unfolding resolve_direct_or_capability resolve_by_capability
  direct_or_capability-Leads c to capability mode rs h = elim (Option-cases (direct_to to)) [
    | inl absent ↦
        by_capability-Leads registered c _ mode _ rs (members-registered capability)
          (rw (absent, resolve_direct_or_capability) at h)
    | inr (uri, e) ↦ direct-Leads uri rs (rw (e, resolve_direct_or_capability) at h)
  ]

  capability_query-Leads :
      (c : Collation) (m : CapabilityQueryMessage) (uri : String) (rs : List String)
      → resolve_capability_query c m state uri ≡ ok rs
      → Leads registered rs
  unfolding resolve_capability_query
  capability_query-Leads c m uri rs h = elim (Bool-cases (registered uri)) [
    | inl there ↦ ground arith
    | inr absent ↦
        by_capability-Leads registered c _ first _ rs (members-registered m.capability)
          (rw absent at h)
  ]

  -- Where only registered agents are indexed, every recipient of a request, a delegation or a query
  -- is registered, and there is a recipient.
  pub resolve_route-Leads :
      (c : Collation) (m : OacpMessage) (store : TraceStore) (options : RouterOptions)
      (rs : List String)
      → is_response m ≡ false
      → resolve_route c m state store options ≡ ok rs
      → Leads registered rs
  unfolding resolve_route
  resolve_route-Leads c (task_request m) store options rs k h =
      direct_or_capability-Leads c m.to m.capability _ rs h
  resolve_route-Leads c (delegation m) store options rs k h =
      direct_or_capability-Leads c m.to m.capability _ rs h
  resolve_route-Leads c (task_response m) store options rs k h = cc
  resolve_route-Leads c (capability_query m) store options rs k h =
      capability_query-Leads c m _ rs h

all-true : (xs : List String) → all (λ _. true) xs ≡ true
all-true [] = refl
all-true (x ∷ xs) = all-true xs

direct_or_capability-ne-nil :
    (c : Collation) (to : Option String) (capability : String) (state : RouterState)
    (mode : CapabilityRoutingMode) (rs : List String)
    → resolve_direct_or_capability c to capability state mode ≡ ok rs
    → rs ≢ []
unfolding resolve_direct_or_capability resolve_by_capability resolve_direct_recipient
direct_or_capability-ne-nil c to capability state mode rs h = elim (Option-cases (direct_to to)) [
  | inl absent ↦
      (by_capability-Leads (λ _. true) c _ mode _ rs
        (all-true (members state.capability_index capability))
        (rw (absent, resolve_direct_or_capability) at h)).1
  | inr (uri, e) ↦ ground arith
]

-- A route that is found is never empty.
pub resolve_route-ne-nil :
    (c : Collation) (m : OacpMessage) (state : RouterState) (store : TraceStore)
    (options : RouterOptions) (rs : List String)
    → resolve_route c m state store options ≡ ok rs
    → rs ≢ []
unfolding resolve_route resolve_task_response resolve_capability_query
resolve_route-ne-nil c (task_request m) state store options rs h =
    direct_or_capability-ne-nil c m.to m.capability state _ rs h
resolve_route-ne-nil c (delegation m) state store options rs h =
    direct_or_capability-ne-nil c m.to m.capability state _ rs h
resolve_route-ne-nil c (task_response m) state store options rs h = ground arith
resolve_route-ne-nil c (capability_query m) state store options rs h =
    elim (Bool-cases
      (Set.has state.registered_agents (or_else options.registry_agent_uri default_registry_uri))) [
        | inl there ↦ ground arith
        | inr absent ↦
            (by_capability-Leads (λ _. true) c _ first _ rs
              (all-true (members state.capability_index m.capability)) (rw absent at h)).1
      ]

-- One of the agents, and least in the locale's order.
abbrev pub IsLeast : (String → String → Bool) → Set → List String → Type 0
IsLeast le agents rs =
    (a : String) × (rs ≡ a ∷ []) × (Set.has agents a ≡ true) × (all (le a) agents ≡ true)

by_capability-first :
    (c : Collation) (o : Option Set) (e : OacpError) (rs : List String)
    → IsTotalPreorder c.locale_le
    → by_capability c o first e ≡ ok rs
    → IsLeast c.locale_le (or_else o []) rs
unfolding by_capability select sort_agents_by_uri Set.has
by_capability-first c none e rs order h = cc
by_capability-first c (some []) e rs order h = cc
by_capability-first c (some (x ∷ agents)) e rs order h =
    elim (List-cases (sort c.locale_le (x ∷ agents))) [
      | inl none_left ↦ absurd (sort-ne-nil c.locale_le x agents none_left)
      | inr (a, rest, s) ↦ (
        a,
        ground (arith, s),
        sym (has-sort c.locale_le (x ∷ agents) a)
            ∙ ap (λ l. Set.has l a) s
            ∙ ground (arith, eq_refl a),
        sort-least c.locale_le order.total order.trans a (x ∷ agents) rest s,
      )
    ]

-- A request with no receiver goes, in the mode `first`, to exactly one agent: it declares the capability,
-- and no agent that declares it stands before it in the locale's order. `localeCompare` is assumed
-- to be a total preorder.
pub resolve_route-first :
    (c : Collation) (m : TaskRequestMessage) (state : RouterState) (store : TraceStore)
    (options : RouterOptions) (rs : List String)
    → IsTotalPreorder c.locale_le
    → direct_to m.to ≡ none
    → or_else options.capability_routing_mode first ≡ first
    → resolve_route c (task_request m) state store options ≡ ok rs
    → IsLeast c.locale_le (members state.capability_index m.capability) rs
unfolding resolve_route resolve_direct_or_capability resolve_by_capability
resolve_route-first c m state store options rs order undirected mode h =
    by_capability-first c (Map.get state.capability_index m.capability) _ rs order
      (rw (undirected, mode, resolve_direct_or_capability) at h)
