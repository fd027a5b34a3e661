-- ===== src/Tests/Capabilities.antt =====
-- The theorem on catalogs at a concrete input.
use oacp.Prelude.{◌≡◌, ◌↔◌, Option, none, [], ◌∷◌}
use oacp.Protocol.Errors.{OacpError, ok}
use oacp.Protocol.Capabilities.{
  CapabilityDeclaration, AgentCapabilityRegistry, AgentIdentity, build_capability_catalog,
}
use oacp.Protocol.Capabilities.Catalog.{entries, IsCatalog, build_capability_catalog-IsCatalog}

abbrev sum : CapabilityDeclaration
sum = record {
  id = "sum";
  name = "Sum";
  description = "Adds";
  version = none;
  tags = none;
  input_schema = none;
  output_schema = none;
}

abbrev identity : AgentIdentity
identity = record { id = "agent://a"; capabilities = "sum" ∷ [] }

abbrev registry : AgentCapabilityRegistry
registry = record { agent_id = "agent://a"; version = "1.0"; declarations = sum ∷ [] }

abbrev accepts : AgentCapabilityRegistry → Option OacpError
accepts r = none

build_capability_catalog-IsCatalog_example :
    (build_capability_catalog accepts identity registry ≡ ok (entries (sum ∷ [])))
    ↔ IsCatalog accepts identity registry (entries (sum ∷ []))
build_capability_catalog-IsCatalog_example =
    build_capability_catalog-IsCatalog accepts identity registry (entries (sum ∷ []))
