-- ===== src/Meta/SchemaDomain/Laws.antt =====
-- What a configured domain promises, and what the boot check finds.
use primebrick_v3_dal.Base.{
  Bool, true, false, not, ◌&&◌, Option, none, some, List, [], ◌∷◌, ◌++◌, ◌≡◌, refl, ◌↔◌, All, ◌⊎◌,
  inl, inr, Text, includes, text_eq_refl, if◌then◌else◌,
}
use primebrick_v3_dal.Meta.SchemaDomain.{
  SchemaDomain, DomainError, Result, ok, err, is_schema_ident, bad_names, platform_shared_tables,
  checked, configure_schema_domain, is_shared, effective_schema, resolve_entity_schema, Entry,
  no_entity, entity, default_schema, violation, find_violations, refuse,
  assert_entity_schema_domain,
}

resolved-IsAllowed :
    (d : SchemaDomain) (pin table : Option Text) (fallback s : Text)
    → resolve_entity_schema (some d) pin table fallback ≡ ok s
    → (includes d.allowed s ≡ true) ⊎ (is_shared d.shared_tables table ≡ true)
unfolding resolve_entity_schema
resolved-IsAllowed d pin table fallback s h =
    by_tests (effective_schema (some d) pin fallback) _ _ refl refl h
  where
    by_tests :
        (t : Text) (inside shared : Bool)
        → includes d.allowed t ≡ inside
        → is_shared d.shared_tables table ≡ shared
        → (if not inside && not shared then err (DomainError.outside_domain t d.allowed) else ok t)
          ≡ ok s
        → (includes d.allowed s ≡ true) ⊎ (is_shared d.shared_tables table ≡ true)
    by_tests t true shared a b h = inl (cc)
    by_tests t false true a b h = inr b
    by_tests t false false a b h = cc

-- The names that a filter drops none of are all as they should be.
none_bad : (names : List Text) → bad_names names ≡ [] → All (λ s. is_schema_ident s ≡ true) names
unfolding bad_names
none_bad [] h = tt
none_bad (s ∷ ss) h = by_test (is_schema_ident s) refl (none_bad ss) h
  where
    by_test :
        (b : Bool)
        → is_schema_ident s ≡ b
        → (bad_names ss ≡ [] → All (λ t. is_schema_ident t ≡ true) ss)
        → (if not b then s ∷ bad_names ss else bad_names ss) ≡ []
        → (is_schema_ident s ≡ true) × All (λ t. is_schema_ident t ≡ true) ss
    by_test true e ih h = (e, ih h)
    by_test false e ih h = cc

-- A domain is configured just from one or more valid schema names and valid table names: then it
-- allows the schemas given, its primary one is the first of them, and it shares the platform's
-- tables and those given.
pub record Configures (schemas tables : List Text) (d : SchemaDomain) : Type 0 where
  pub valid_schemas : All (λ s. is_schema_ident s ≡ true) schemas
  pub valid_tables : All (λ s. is_schema_ident s ≡ true) tables
  pub allowed : d.allowed ≡ schemas
  pub primary : includes schemas d.primary ≡ true
  pub shared : d.shared_tables ≡ platform_shared_tables ++ tables

pub configure_schema_domain-Configures :
    (schemas tables : List Text) (d : SchemaDomain)
    → configure_schema_domain schemas tables ≡ ok d
    → Configures schemas tables d
unfolding configure_schema_domain checked includes
configure_schema_domain-Configures [] tables d h = cc
configure_schema_domain-Configures (s ∷ ss) tables d h = by_names _ _ refl refl h
  where
    first_allowed : s ≡ d.primary → includes (s ∷ ss) d.primary ≡ true
    first_allowed e = rw (← e, text_eq_refl s) refl

    by_names :
        (bs ts : List Text)
        → bad_names (s ∷ ss) ≡ bs
        → bad_names tables ≡ ts
        → checked bs ts s ss tables ≡ ok d
        → Configures (s ∷ ss) tables d
    by_names [] [] a b h = record {
      valid_schemas = none_bad (s ∷ ss) a;
      valid_tables = none_bad tables b;
      allowed = cc;
      primary = first_allowed (cc);
      shared = cc;
    }
    by_names [] (t ∷ ts) a b h = cc
    by_names (c ∷ bs) ts a b h = cc

-- A round of the boot check finds nothing where the entity resolves inside the domain.
violation-none :
    (schemas shared : List Text) (table s : Text)
    → (includes schemas s ≡ true) ⊎ (is_shared shared (some table) ≡ true)
    → violation schemas shared table (ok s) ≡ []
unfolding violation
violation-none schemas shared table s (inl h) = rw h refl
violation-none schemas shared table s (inr h) = by_test (includes schemas s)
  where
    by_test :
        (b : Bool)
        → if◌then◌else◌ {A = List (Text × Text)}
            (not b && not (is_shared shared (some table)))
            ((s, table) ∷ [])
            []
          ≡ []
    by_test true = refl
    by_test false = rw h refl

module _ (schemas tables : List Text) (d : SchemaDomain) (c : Configures schemas tables d) where
  find_violations-none :
      (entities : List Entry)
      → find_violations (some d) schemas (platform_shared_tables ++ tables) entities ≡ []
  unfolding find_violations
  find_violations-none [] = refl
  find_violations-none (no_entity ∷ es) = find_violations-none es
  find_violations-none (entity pin table ∷ es) = rw (round _ refl) (find_violations-none es)
    where
      round :
          (r : Result Text)
          → resolve_entity_schema (some d) pin (some table) (default_schema schemas) ≡ r
          → violation schemas (platform_shared_tables ++ tables) table r ≡ []
      round (err e) h = unfold violation in refl
      round (ok s) h =
          violation-none schemas _ table s
            (inside (resolved-IsAllowed d pin (some table) (default_schema schemas) s h))
        where
          inside :
              (includes d.allowed s ≡ true) ⊎ (is_shared d.shared_tables (some table) ≡ true)
              → (includes schemas s ≡ true)
                ⊎ (is_shared (platform_shared_tables ++ tables) (some table) ≡ true)
          inside (inl k) = inl (rw (← c.allowed) k)
          inside (inr k) = inr (rw (← c.shared) k)

-- Once a domain is configured, the boot check over the same schemas and the tables that the domain
-- shares passes whatever list of entities it is given: the lookup throws for an entity outside the
-- domain, and the loop takes that for an entry that is no entity.
pub assert_entity_schema_domain-blind :
    (schemas tables : List Text) (d : SchemaDomain) (entities : List Entry)
    → configure_schema_domain schemas tables ≡ ok d
    → assert_entity_schema_domain (some d) entities schemas (platform_shared_tables ++ tables)
      ≡ ok tt
unfolding assert_entity_schema_domain
assert_entity_schema_domain-blind schemas tables d entities h =
    rw
      (find_violations-none schemas tables d (configure_schema_domain-Configures schemas tables d h)
        entities)
      (unfold refuse in refl)

-- Where the entity resolves without a domain: its pin, else the first schema of the list.
abbrev pub Inside : List Text → List Text → Entry → Type 0
Inside schemas shared no_entity = Unit
Inside schemas shared (entity pin table) =
    (includes schemas (effective_schema none pin (default_schema schemas)) ≡ true)
    ⊎ (is_shared shared (some table) ≡ true)

violation-Inside :
    (schemas shared : List Text) (table s : Text)
    → violation schemas shared table (ok s) ≡ []
    → (includes schemas s ≡ true) ⊎ (is_shared shared (some table) ≡ true)
unfolding violation
violation-Inside schemas shared table s h = by_tests _ _ refl refl h
  where
    by_tests :
        (a b : Bool)
        → includes schemas s ≡ a
        → is_shared shared (some table) ≡ b
        → if◌then◌else◌ {A = List (Text × Text)} (not a && not b) ((s, table) ∷ []) [] ≡ []
        → (includes schemas s ≡ true) ⊎ (is_shared shared (some table) ≡ true)
    by_tests true b e f h = inl e
    by_tests false true e f h = inr f
    by_tests false false e f h = cc

split-nil : (xs ys : List (Text × Text)) → xs ++ ys ≡ [] → (xs ≡ []) × (ys ≡ [])
split-nil [] ys h = (refl, h)
split-nil (x ∷ xs) ys h = cc

module _ (schemas shared : List Text) where
  none_found :
      (es : List Entry)
      → find_violations none schemas shared es ≡ []
      → All (Inside schemas shared) es
  unfolding find_violations resolve_entity_schema
  none_found [] h = tt
  none_found (no_entity ∷ es) h = (tt, none_found es h)
  none_found (entity pin table ∷ es) h = (
    violation-Inside schemas shared table _ (split-nil _ _ h).0,
    none_found es (split-nil _ _ h).1,
  )

  find_violations-nil :
      (es : List Entry)
      → All (Inside schemas shared) es
      → find_violations none schemas shared es ≡ []
  unfolding find_violations resolve_entity_schema
  find_violations-nil [] h = refl
  find_violations-nil (no_entity ∷ es) h = find_violations-nil es h.1
  find_violations-nil (entity pin table ∷ es) (k, h) =
      rw (violation-none schemas shared table _ k, find_violations-nil es h) refl

refuse-nil : (vs : List (Text × Text)) → refuse vs ≡ ok tt → vs ≡ []
unfolding refuse
refuse-nil [] h = refl
refuse-nil (v ∷ vs) h = cc

-- With no domain configured, the boot check passes just the lists of which every entity resolves
-- to a schema of the list or has a shared table.
pub assert_entity_schema_domain_iff :
    (schemas shared : List Text) (entities : List Entry)
    → (assert_entity_schema_domain none entities schemas shared ≡ ok tt)
      ↔ All (Inside schemas shared) entities
unfolding assert_entity_schema_domain
assert_entity_schema_domain_iff schemas shared entities = (
  λ h. none_found schemas shared entities (refuse-nil _ h),
  λ h. rw (find_violations-nil schemas shared entities h) (unfold refuse in refl),
)
