-- ===== src/Meta/SchemaDomain.antt =====
-- src/meta/schema-domain.ts and schema-domain-assert.ts: the schemas a service may touch. The
-- module variable `domain` is an argument; `none` where no domain is configured.
pub mod Laws
pub mod Resolved
use primebrick_v3_dal.Base.{
  ℕ, Bool, true, false, not, ◌&&◌, ◌||◌, ◌==◌, Option, none, some, List, [], ◌∷◌, ◌++◌, Text, codes,
  includes, all, keep, leb, is_empty, if◌then◌else◌,
}

pub record SchemaDomain : Type 0 where
  pub allowed : List Text
  pub primary : Text
  pub shared_tables : List Text

-- What a SchemaDomainViolationError reports.
pub data DomainError : Type 0 where
  no_schemas : DomainError
  invalid_schemas : List Text → DomainError
  invalid_tables : List Text → DomainError
  outside_domain : Text → List Text → DomainError
  violations : List (Text × Text) → DomainError

pub data Result (A : Type 0) : Type 0 where
  ok : A → Result A
  err : DomainError → Result A

is_lower : ℕ → Bool
is_lower c = leb b'a' c && leb c b'z' || c == b'_'

-- /^[a-z_][a-z0-9_]*$/
unfoldable pub is_schema_ident : Text → Bool
unfolding is_lower
is_schema_ident [] = false
is_schema_ident (c ∷ s) = is_lower c && all (λ d. is_lower d || leb b'0' d && leb d b'9') s

-- The names that `filter` finds invalid.
unfoldable pub bad_names : List Text → List Text
bad_names names = keep (λ s. not (is_schema_ident s)) names

abbrev pub platform_shared_tables : List Text
platform_shared_tables = codes "user_profiles" ∷ codes "translations" ∷ []

unfoldable pub checked : List Text → List Text → Text → List Text → List Text → Result SchemaDomain
checked [] [] s ss shared_tables = ok (record {
  allowed = s ∷ ss;
  primary = s;
  shared_tables = platform_shared_tables ++ shared_tables;
})
checked [] (t ∷ ts) s ss shared_tables = err (invalid_tables (t ∷ ts))
checked (b ∷ bs) ts s ss shared_tables = err (invalid_schemas (b ∷ bs))

-- configureSchemaDomain
unfoldable pub configure_schema_domain : List Text → List Text → Result SchemaDomain
unfolding checked
configure_schema_domain [] shared_tables = err no_schemas
configure_schema_domain (s ∷ ss) shared_tables =
    checked (bad_names (s ∷ ss)) (bad_names shared_tables) s ss shared_tables

-- `!meta.tableName || !sharedTables.has(meta.tableName)`, negated
unfoldable pub is_shared : List Text → Option Text → Bool
is_shared tables none = false
is_shared tables (some n) = not (is_empty n) && includes tables n

-- `meta.tableSchema ?? domain?.primary ?? fallback`
unfoldable pub effective_schema : Option SchemaDomain → Option Text → Text → Text
effective_schema domain (some s) fallback = s
effective_schema (some d) none fallback = d.primary
effective_schema none none fallback = fallback

-- resolveEntitySchema; the fallback is "public" where the caller gives none.
unfoldable pub resolve_entity_schema :
    Option SchemaDomain → Option Text → Option Text → Text → Result Text
unfolding effective_schema is_shared
resolve_entity_schema none table_schema table_name fallback =
    ok (effective_schema none table_schema fallback)
resolve_entity_schema (some d) table_schema table_name fallback =
    let s = effective_schema (some d) table_schema fallback in
    if not (includes d.allowed s) && not (is_shared d.shared_tables table_name)
    then err (outside_domain s d.allowed)
    else ok s

-- An entry of the list of entities: no @Entity class, or a class with the schema it pins and its
-- table.
pub data Entry : Type 0 where
  no_entity : Entry
  entity : Option Text → Text → Entry

-- `meta.tableSchema` of `getEntityPersistenceMeta(e, primary)`, which is `schemas[0]` or absent.
unfoldable pub default_schema : List Text → Text
default_schema [] = codes "public"
default_schema (s ∷ ss) = s

-- What one round of the loop pushes, given what the metadata lookup returned or threw.
unfoldable pub violation : List Text → List Text → Text → Result Text → List (Text × Text)
violation schemas shared table (err e) = []
violation schemas shared table (ok s) =
    if not (includes schemas s) && not (is_shared shared (some table)) then (s, table) ∷ [] else []

unfoldable pub find_violations :
    Option SchemaDomain → List Text → List Text → List Entry → List (Text × Text)
unfolding violation
find_violations domain schemas shared [] = []
find_violations domain schemas shared (no_entity ∷ es) = find_violations domain schemas shared es
find_violations domain schemas shared (entity pin table ∷ es) =
    violation schemas shared table
      (resolve_entity_schema domain pin (some table) (default_schema schemas))
    ++ find_violations domain schemas shared es

unfoldable pub refuse : List (Text × Text) → Result Unit
refuse [] = ok tt
refuse (v ∷ vs) = err (violations (v ∷ vs))

-- assertEntitySchemaDomain
unfoldable pub assert_entity_schema_domain :
    Option SchemaDomain → List Entry → List Text → List Text → Result Unit
unfolding refuse find_violations
assert_entity_schema_domain domain entities schemas shared =
    refuse (find_violations domain schemas shared entities)
