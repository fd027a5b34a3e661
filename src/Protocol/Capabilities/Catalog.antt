-- ===== src/Protocol/Capabilities/Catalog.antt =====
-- When core/src/protocol/capabilities.ts builds a catalog, and which.
use oacp.Prelude.{
  String, ◌≡◌, ◌↔◌, refl, sym, ap, ◌∙◌, Bool, true, false, not, ◌&&◌, Option, none, some, List, [],
  ◌∷◌, ◌++◌, all, filter, map, arith, ◌==◌, eq_iff, Bool-cases, Option-cases, inl, inr,
}
use mathlib.Core.List.{append_assoc, append-nil}
use oacp.Js.Map
use oacp.Js.Map.{Map}
use oacp.Js.Set
use oacp.Protocol.Errors.{OacpError, ok, err}
use oacp.Workflow.Batches.Counts.{nodup}
use oacp.Protocol.Capabilities.{
  CapabilityDeclaration, AgentCapabilityRegistry, AgentIdentity, CapabilityCatalog,
  load_declarations, load_registry, declared, missing_in_registry, extra_in_registry,
  check_capabilities, assert_identity_registry_consistency, loaded, build_capability_catalog,
}

abbrev pub entries : List CapabilityDeclaration → CapabilityCatalog
entries = map (λ d. (d.id, d))

abbrev ids : List CapabilityDeclaration → List String
ids = map (λ d. d.id)

abbrev fresh : CapabilityCatalog → List CapabilityDeclaration → Bool
fresh c ds = all (λ x. not (Map.has c x)) (ids ds)

set-fresh :
    (c : CapabilityCatalog) (d : CapabilityDeclaration)
    → Map.has c d.id ≡ false
    → Map.set c d.id d ≡ c ++ (d.id, d) ∷ []
unfolding Map.set Map.get
set-fresh [] d h = refl
set-fresh ((k, v) ∷ c) d h = ground (arith, h, set-fresh c d)

-- After one more entry the others are still new, if they are different from it.
fresh-set :
    (c : CapabilityCatalog) (d : CapabilityDeclaration) (ds : List CapabilityDeclaration)
    → fresh (Map.set c d.id d) ds ≡ (fresh c ds && not (Set.has (ids ds) d.id))
unfolding Set.has
fresh-set c d [] = refl
fresh-set c d (x ∷ ds) =
    ground (arith, fresh-set c d ds, Map.get-set c d.id x.id d, eq_iff d.id x.id, eq_iff x.id d.id)

load_declarations-fresh :
    (ds : List CapabilityDeclaration) (c : CapabilityCatalog)
    → fresh c ds ≡ true
    → nodup (ids ds) ≡ true
    → load_declarations ds c ≡ (c ++ entries ds, none)
unfolding load_declarations
load_declarations-fresh [] c h u = ap (λ l. (l, none)) (sym (append-nil c))
load_declarations-fresh (d ∷ ds) c h u =
    let new : Map.has c d.id ≡ false = ground (arith, h) in
    rw (new, load_declarations)
      (load_declarations-fresh ds (Map.set c d.id d) (ground (arith, fresh-set c d ds, h, u))
          (ground (arith, u))
        ∙ ap (λ l. (l ++ entries ds, none)) (set-fresh c d new)
        ∙ ap (λ l. (l, none)) (append_assoc c ((d.id, d) ∷ []) (entries ds)))

load_declarations-none :
    (ds : List CapabilityDeclaration) (c : CapabilityCatalog)
    → (load_declarations ds c).1 ≡ none
    → (fresh c ds ≡ true) × (nodup (ids ds) ≡ true)
unfolding load_declarations
load_declarations-none [] c h = (refl, refl)
load_declarations-none (d ∷ ds) c h = elim (Bool-cases (Map.has c d.id)) [
  | inl there ↦ absurd (ground (arith, there, rw (there, load_declarations) at h))
  | inr new ↦
      let (f, u) : (fresh (Map.set c d.id d) ds ≡ true) × (nodup (ids ds) ≡ true) =
        load_declarations-none ds (Map.set c d.id d) (rw (new, load_declarations) at h) in
      (ground (arith, new, f, fresh-set c d ds), ground (arith, u, f, fresh-set c d ds))
]

filter-nil :
    (p : String → Bool) (xs : List String) → (filter p xs ≡ []) ↔ (all (λ x. not (p x)) xs ≡ true)
filter-nil p [] = ((λ h. refl), (λ h. refl))
filter-nil p (x ∷ xs) =
    ((λ h. ground (arith, h, (filter-nil p xs).0)), (λ h. ground (arith, h, (filter-nil p xs).1)))

check_capabilities-none :
    (missing extra : List String)
    → (check_capabilities missing extra ≡ none) ↔ ((missing ≡ []) × (extra ≡ []))
unfolding check_capabilities
check_capabilities-none [] [] = ((λ h. (refl, refl)), (λ h. refl))
check_capabilities-none (m ∷ missing) extra =
    ((λ h. absurd (ground (arith, h))), (λ (p, q). absurd (ground (arith, p))))
check_capabilities-none [] (x ∷ extra) =
    ((λ h. absurd (ground (arith, h))), (λ (p, q). absurd (ground (arith, q))))

-- Two lists have the same members.
abbrev pub Same : List String → List String → Type 0
Same xs ys = (x : String) → Set.has xs x ≡ Set.has ys x

all-has :
    (xs ys : List String)
    → ((x : String) → Set.has xs x ≡ true → Set.has ys x ≡ true)
    → all (λ x. not (not (Set.has ys x))) xs ≡ true
all-has xs ys h = Set.all-of_has (λ x. not (not (Set.has ys x))) xs (λ x m. ground (arith, h x m))

has-all :
    (xs ys : List String)
    → all (λ x. not (not (Set.has ys x))) xs ≡ true
    → (x : String) → Set.has xs x ≡ true
    → Set.has ys x ≡ true
has-all xs ys h x m = ground (arith, Set.has-of_all (λ x. not (not (Set.has ys x))) xs x h m)

assert_identity_registry_consistency-none :
    (i : AgentIdentity) (r : AgentCapabilityRegistry)
    → (assert_identity_registry_consistency i r ≡ none)
      ↔ (((i.id == r.agent_id) ≡ true) × Same (declared r) i.capabilities)
unfolding assert_identity_registry_consistency missing_in_registry extra_in_registry
assert_identity_registry_consistency-none i r = elim (Bool-cases (i.id == r.agent_id)) [
  | inr other ↦
      ((λ h. absurd (ground (arith, h, other))), (λ (e, s). absurd (ground (arith, e, other))))
  | inl same ↦ (
    (λ h.
        let (m, x) : (missing_in_registry i r ≡ []) × (extra_in_registry i r ≡ []) =
          (check_capabilities-none (missing_in_registry i r) (extra_in_registry i r)).0
            (ground (arith, h, same)) in
        (
          same,
          λ y. ground (
            arith,
            has-all i.capabilities (declared r)
                ((filter-nil (λ c. not (Set.has (declared r) c)) i.capabilities).0 m) y,
            has-all (declared r) i.capabilities
                ((filter-nil (λ d. not (Set.has i.capabilities d)) (declared r)).0 x) y,
          ),
        )),
    (λ (e, s).
        let none_missing : missing_in_registry i r ≡ [] =
          (filter-nil (λ c. not (Set.has (declared r) c)) i.capabilities).1
            (all-has i.capabilities (declared r) (λ y m. s y ∙ m)) in
        let none_extra : extra_in_registry i r ≡ [] =
          (filter-nil (λ d. not (Set.has i.capabilities d)) (declared r)).1
            (all-has (declared r) i.capabilities (λ y m. sym (s y) ∙ m)) in
        let consistent : check_capabilities (missing_in_registry i r) (extra_in_registry i r)
            ≡ none =
          (check_capabilities-none (missing_in_registry i r) (extra_in_registry i r)).1
            (none_missing, none_extra) in
        ground (arith, same, consistent)),
  )
]

fresh-nil : (ds : List CapabilityDeclaration) → fresh [] ds ≡ true
unfolding Map.get
fresh-nil [] = refl
fresh-nil (d ∷ ds) = fresh-nil ds

-- What a catalog is built from.
pub record IsCatalog (validate : AgentCapabilityRegistry → Option OacpError) (i : AgentIdentity)
    (r : AgentCapabilityRegistry) (c : CapabilityCatalog) : Type 0 where
  pub agent : (i.id == r.agent_id) ≡ true
  pub valid : validate r ≡ none
  pub capabilities : Same (declared r) i.capabilities
  pub unique : nodup (declared r) ≡ true
  pub content : c ≡ entries r.declarations

build-valid :
    (validate : AgentCapabilityRegistry → Option OacpError) (i : AgentIdentity)
    (r : AgentCapabilityRegistry)
    → assert_identity_registry_consistency i r ≡ none
    → validate r ≡ none
    → build_capability_catalog validate i r ≡ loaded (load_declarations r.declarations [])
unfolding build_capability_catalog load_registry
build-valid validate i r a v = rw (a, build_capability_catalog) (rw (v, load_registry) refl)

build-inconsistent :
    (validate : AgentCapabilityRegistry → Option OacpError) (i : AgentIdentity)
    (r : AgentCapabilityRegistry) (e : OacpError)
    → assert_identity_registry_consistency i r ≡ some e
    → build_capability_catalog validate i r ≡ err e
unfolding build_capability_catalog
build-inconsistent validate i r e a = rw (a, build_capability_catalog) refl

build-invalid :
    (validate : AgentCapabilityRegistry → Option OacpError) (i : AgentIdentity)
    (r : AgentCapabilityRegistry) (e : OacpError)
    → assert_identity_registry_consistency i r ≡ none
    → validate r ≡ some e
    → build_capability_catalog validate i r ≡ err e
unfolding build_capability_catalog load_registry loaded
build-invalid validate i r e a v = rw (a, build_capability_catalog) (rw (v, load_registry) refl)

loaded-ok :
    (p : CapabilityCatalog × Option OacpError) (c : CapabilityCatalog)
    → loaded p ≡ ok c
    → (p.0 ≡ c) × (p.1 ≡ none)
unfolding loaded
loaded-ok (d, none) c h = (ground (arith, h), refl)
loaded-ok (d, some e) c h = absurd (ground (arith, h))

-- A catalog is built from a registry for an identity exactly when the registry is valid and the identity's
-- own, declares exactly the capabilities of the identity, and declares none twice; it then holds the
-- declarations of the registry by their ids, in their order.
pub build_capability_catalog-IsCatalog :
    (validate : AgentCapabilityRegistry → Option OacpError) (i : AgentIdentity)
    (r : AgentCapabilityRegistry) (c : CapabilityCatalog)
    → (build_capability_catalog validate i r ≡ ok c) ↔ IsCatalog validate i r c
build_capability_catalog-IsCatalog validate i r c = (forth, back)
  where
    built :
        assert_identity_registry_consistency i r ≡ none
        → validate r ≡ none
        → build_capability_catalog validate i r ≡ ok c
        → IsCatalog validate i r c
    built a v h =
        let (same, fine) : ((load_declarations r.declarations []).0 ≡ c)
            × ((load_declarations r.declarations []).1 ≡ none) =
          loaded-ok (load_declarations r.declarations []) c
            (sym (build-valid validate i r a v) ∙ h) in
        let (e, s) : ((i.id == r.agent_id) ≡ true) × Same (declared r) i.capabilities =
          (assert_identity_registry_consistency-none i r).0 a in
        let u : nodup (declared r) ≡ true = (load_declarations-none r.declarations [] fine).1 in
        record {
          agent = e;
          valid = v;
          capabilities = s;
          unique = u;
          content =
              sym same
              ∙ ap (λ (p : CapabilityCatalog × Option OacpError). p.0)
                  (load_declarations-fresh r.declarations [] (fresh-nil r.declarations) u);
        }

    forth : build_capability_catalog validate i r ≡ ok c → IsCatalog validate i r c
    forth h = elim (Option-cases (assert_identity_registry_consistency i r)) [
      | inr (e, a) ↦ absurd (ground (arith, h, build-inconsistent validate i r e a))
      | inl a ↦ elim (Option-cases (validate r)) [
        | inr (e, v) ↦ absurd (ground (arith, h, build-invalid validate i r e a v))
        | inl v ↦ built a v h
      ]
    ]

    back : IsCatalog validate i r c → build_capability_catalog validate i r ≡ ok c
    back k =
        build-valid validate i r
          ((assert_identity_registry_consistency-none i r).1 (k.agent, k.capabilities)) k.valid
        ∙ ap loaded (load_declarations-fresh r.declarations [] (fresh-nil r.declarations) k.unique)
        ∙ unfold loaded in ap ok (sym k.content)
