-- ===== src/Meta/Tests.antt =====
-- The laws of the schema domain at concrete domains.
use primebrick_v3_dal.Base.{
  true, none, some, List, [], ◌∷◌, ◌++◌, ◌≡◌, refl, ◌⊎◌, ◌↔◌, All, Text, codes, includes,
}
use primebrick_v3_dal.Meta.SchemaDomain.{
  SchemaDomain, ok, platform_shared_tables, configure_schema_domain, checked, bad_names,
  is_schema_ident, resolve_entity_schema, Entry, no_entity, entity, assert_entity_schema_domain,
}
use primebrick_v3_dal.Meta.SchemaDomain.Resolved.{Targets, IsTableOf, resolve_entity_schema_iff}
use primebrick_v3_dal.Meta.SchemaDomain.Laws.{
  assert_entity_schema_domain-blind, Inside, assert_entity_schema_domain_iff,
}

abbrev schemas : List Text
schemas = codes "ai" ∷ codes "aux" ∷ []

abbrev domain : SchemaDomain
domain = record {
  allowed = schemas;
  primary = codes "ai";
  shared_tables = platform_shared_tables ++ [];
}

-- A class pinned outside the schemas, a class without a pin, and something else.
abbrev entities : List Entry
entities =
    entity (some (codes "billing")) (codes "invoices")
    ∷ entity none (codes "prompts")
    ∷ no_entity
    ∷ []

configured : configure_schema_domain schemas [] ≡ ok domain
unfolding configure_schema_domain checked bad_names is_schema_ident
configured = refl

resolve_entity_schema_iff_example :
    (resolve_entity_schema (some domain) none (some (codes "prompts")) (codes "public")
      ≡ ok (codes "ai"))
    ↔ (Targets (codes "ai") none (codes "ai")
        × ((includes schemas (codes "ai") ≡ true)
            ⊎ IsTableOf (platform_shared_tables ++ []) (some (codes "prompts"))))
resolve_entity_schema_iff_example =
    resolve_entity_schema_iff (codes "ai") (codes "aux" ∷ []) [] domain none
      (some (codes "prompts")) (codes "public") (codes "ai") configured

assert_entity_schema_domain-blind_example :
    assert_entity_schema_domain (some domain) entities schemas (platform_shared_tables ++ [])
    ≡ ok tt
assert_entity_schema_domain-blind_example =
    assert_entity_schema_domain-blind schemas [] domain entities configured

assert_entity_schema_domain_iff_example :
    (assert_entity_schema_domain none entities schemas [] ≡ ok tt)
    ↔ All (Inside schemas []) entities
assert_entity_schema_domain_iff_example = assert_entity_schema_domain_iff schemas [] entities
