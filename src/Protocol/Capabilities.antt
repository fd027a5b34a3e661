-- ===== src/Protocol/Capabilities.antt =====
-- core/src/protocol/capabilities.ts: the catalog of an agent's capabilities. The validation against JSON
-- schemas is the host's: it answers an error or none.
pub mod Catalog
use oacp.Prelude.{
  String, Bool, true, false, not, ◌&&◌, ◌||◌, Option, none, some, List, [], ◌∷◌, ◌++◌, filter, map,
  if◌then◌else◌, ◌==◌,
}
use oacp.Js.Map
use oacp.Js.Map.{Map}
use oacp.Js.Set
use oacp.Protocol.Json.{Fields, template}
use oacp.Protocol.Errors.{OacpError, ErrorDetail, validation_error, Result, ok, err}
use oacp.Protocol.Errors.Codes.{duplicate_capability, identity_capability_mismatch}

pub record CapabilityDeclaration : Type 0 where
  pub id : String
  pub name : String
  pub description : String
  pub version : Option String
  pub tags : Option (List String)
  pub input_schema : Option Fields
  pub output_schema : Option Fields

pub record AgentCapabilityRegistry : Type 0 where
  pub agent_id : String
  pub version : String
  pub declarations : List CapabilityDeclaration

-- What the code reads of an identity.
pub record AgentIdentity : Type 0 where
  pub id : String
  pub capabilities : List String

abbrev pub CapabilityCatalog : Type 0
CapabilityCatalog = Map CapabilityDeclaration

abbrev pub already_registered : String → OacpError
already_registered id =
    validation_error duplicate_capability (template ("Capability already registered: " ∷ id ∷ []))
      []

abbrev pub duplicate_in_registry : String → OacpError
duplicate_in_registry id =
    validation_error duplicate_capability
      (template ("Duplicate capability in registry: " ∷ id ∷ [])) []

unfoldable pub register :
    (CapabilityDeclaration → Option OacpError)
    → CapabilityDeclaration
    → CapabilityCatalog
    → Result CapabilityCatalog
register validate d c = elim (validate d) [
  | some e ↦ err e
  | none ↦ if Map.has c d.id then err (already_registered d.id) else ok (Map.set c d.id d)
]

-- The catalog after the loop, and the error that it stopped with: what was put before stays.
unfoldable pub load_declarations :
    List CapabilityDeclaration → CapabilityCatalog → CapabilityCatalog × Option OacpError
load_declarations [] c = (c, none)
load_declarations (d ∷ ds) c =
    let rest : CapabilityCatalog × Option OacpError = load_declarations ds (Map.set c d.id d) in
    if Map.has c d.id then (c, some (duplicate_in_registry d.id)) else rest

unfoldable pub load_registry :
    (AgentCapabilityRegistry → Option OacpError)
    → AgentCapabilityRegistry
    → CapabilityCatalog
    → CapabilityCatalog × Option OacpError
load_registry validate r c = elim (validate r) [
  | some e ↦ (c, some e)
  | none ↦ load_declarations r.declarations c
]

abbrev pub declared : AgentCapabilityRegistry → List String
declared r = map (λ d. d.id) r.declarations

unfoldable pub missing_in_registry : AgentIdentity → AgentCapabilityRegistry → List String
missing_in_registry i r = filter (λ c. not (Set.has (declared r) c)) i.capabilities

unfoldable pub extra_in_registry : AgentIdentity → AgentCapabilityRegistry → List String
extra_in_registry i r = filter (λ d. not (Set.has i.capabilities d)) (declared r)

-- `xs.join(', ')`
unfoldable pub joined : List String → String
joined [] = ""
joined (x ∷ []) = x
joined (x ∷ y ∷ xs) = template (x ∷ ", " ∷ joined (y ∷ xs) ∷ [])

abbrev pub detail_of : String → String → List String → List ErrorDetail
detail_of path message [] = []
detail_of path message (x ∷ xs) =
    record { path = path; message = template (message ∷ joined (x ∷ xs) ∷ []) } ∷ []

abbrev pub other_agent : AgentIdentity → AgentCapabilityRegistry → OacpError
other_agent i r =
    validation_error identity_capability_mismatch
      (template ("Identity id " ∷ i.id ∷ " does not match registry agent_id " ∷ r.agent_id ∷ [])) []

abbrev pub other_capabilities : List String → List String → OacpError
other_capabilities missing extra =
    validation_error identity_capability_mismatch
      "Identity capabilities must match registry declarations exactly"
      (detail_of "/capabilities" "Missing declarations for: " missing
        ++ detail_of "/declarations" "Extra declarations: " extra)

-- `missingInRegistry.length > 0 || extraInRegistry.length > 0`
unfoldable pub check_capabilities : List String → List String → Option OacpError
check_capabilities [] [] = none
check_capabilities (m ∷ missing) extra = some (other_capabilities (m ∷ missing) extra)
check_capabilities [] (x ∷ extra) = some (other_capabilities [] (x ∷ extra))

unfoldable pub assert_identity_registry_consistency :
    AgentIdentity → AgentCapabilityRegistry → Option OacpError
assert_identity_registry_consistency i r =
    if i.id == r.agent_id
    then check_capabilities (missing_in_registry i r) (extra_in_registry i r)
    else some (other_agent i r)

-- The error that a catalog was loaded with, or the catalog.
unfoldable pub loaded : CapabilityCatalog × Option OacpError → Result CapabilityCatalog
loaded (c, none) = ok c
loaded (c, some e) = err e

unfoldable pub build_capability_catalog :
    (AgentCapabilityRegistry → Option OacpError)
    → AgentIdentity
    → AgentCapabilityRegistry
    → Result CapabilityCatalog
build_capability_catalog validate i r = elim (assert_identity_registry_consistency i r) [
  | some e ↦ err e
  | none ↦ loaded (load_registry validate r [])
]
