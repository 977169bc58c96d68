-- ===== src/Meta/SchemaDomain/Resolved.antt =====
-- What an entity's schema resolves to under a configured domain.
use primebrick_v3_dal.Base.{
  Bool, true, false, not, ◌&&◌, Option, none, some, List, [], ◌∷◌, ◌++◌, ◌≡◌, refl, ◌↔◌, ◌⊎◌, inl,
  inr, Text, includes, is_empty, arith, if◌then◌else◌,
}
use primebrick_v3_dal.Meta.SchemaDomain.{
  SchemaDomain, DomainError, ok, err, platform_shared_tables, checked, configure_schema_domain,
  is_shared, effective_schema, resolve_entity_schema,
}

-- The schema of an entity under a domain whose first schema is `first`: its pin, else the first.
abbrev pub Targets : Text → Option Text → Text → Type 0
Targets first none s = s ≡ first
Targets first (some pin) s = s ≡ pin

-- The table has a name, one of those given.
abbrev pub IsTableOf : List Text → Option Text → Type 0
IsTableOf tables none = ⊥
IsTableOf tables (some t) = (is_empty t ≡ false) × (includes tables t ≡ true)

is_shared_iff :
    (tables : List Text) (table : Option Text)
    → (is_shared tables table ≡ true) ↔ IsTableOf tables table
unfolding is_shared
is_shared_iff tables none = (λ h. cc, λ h. elim h [ ])
is_shared_iff tables (some t) = ground arith

abbrev under : Text → List Text → List Text → SchemaDomain
under first ss tables = record {
  allowed = first ∷ ss;
  primary = first;
  shared_tables = platform_shared_tables ++ tables;
}

configure_schema_domain-eq :
    (first : Text) (ss tables : List Text) (d : SchemaDomain)
    → configure_schema_domain (first ∷ ss) tables ≡ ok d
    → d ≡ under first ss tables
unfolding configure_schema_domain checked
configure_schema_domain-eq first ss tables d h = by_names _ _ h
  where
    by_names :
        (bs ts : List Text) → checked bs ts first ss tables ≡ ok d → d ≡ under first ss tables
    by_names [] [] h = cc
    by_names [] (t ∷ ts) h = cc
    by_names (c ∷ bs) ts h = cc

decided_iff :
    (allowed : List Text) (shared : Bool) (t s : Text)
    → ((if not (includes allowed t) && not shared
          then err (DomainError.outside_domain t allowed)
          else ok t)
        ≡ ok s)
      ↔ ((s ≡ t) × ((includes allowed s ≡ true) ⊎ (shared ≡ true)))
decided_iff allowed shared t s = (there _ _ refl refl, λ (e, k). back k e)
  where
    there :
        (a b : Bool)
        → includes allowed t ≡ a
        → shared ≡ b
        → (if not a && not b then err (DomainError.outside_domain t allowed) else ok t) ≡ ok s
        → (s ≡ t) × ((includes allowed s ≡ true) ⊎ (shared ≡ true))
    there true b x y h = (cc, inl (cc))
    there false true x y h = (cc, inr y)
    there false false x y h = cc

    back :
        (includes allowed s ≡ true) ⊎ (shared ≡ true)
        → s ≡ t
        → (if not (includes allowed t) && not shared
            then err (DomainError.outside_domain t allowed)
            else ok t)
          ≡ ok s
    back (inl h) e = rw (← e, h) refl
    back (inr h) e = ground (arith, h, e)

effective-Targets :
    (d : SchemaDomain) (pin : Option Text) (fallback s : Text)
    → (s ≡ effective_schema (some d) pin fallback) ↔ Targets d.primary pin s
unfolding effective_schema
effective-Targets d none fallback s = (λ h. h, λ h. h)
effective-Targets d (some p) fallback s = (λ h. h, λ h. h)

-- Once a domain is configured over schemas and tables, an entity resolves to a schema just if that
-- is the schema it pins, or the first of the schemas where it pins none, and it is one of the
-- schemas, or the entity's table has a name that is among the platform's tables and those given.
pub resolve_entity_schema_iff :
    (first : Text) (ss tables : List Text) (d : SchemaDomain) (pin table : Option Text)
    (fallback s : Text)
    → configure_schema_domain (first ∷ ss) tables ≡ ok d
    → (resolve_entity_schema (some d) pin table fallback ≡ ok s) ↔ (
        Targets first pin s
        × ((includes (first ∷ ss) s ≡ true) ⊎ IsTableOf (platform_shared_tables ++ tables) table))
unfolding resolve_entity_schema
resolve_entity_schema_iff first ss tables d pin table fallback s h =
    rw (configure_schema_domain-eq first ss tables d h) (
      let tested =
        decided_iff (first ∷ ss) (is_shared (platform_shared_tables ++ tables) table)
          (effective_schema (some (under first ss tables)) pin fallback) s in
      let named = effective-Targets (under first ss tables) pin fallback s in
      let known = is_shared_iff (platform_shared_tables ++ tables) table in
      (
        λ h. (named.0 (tested.0 h).0, either known.0 (tested.0 h).1),
        λ (n, k). tested.1 (named.1 n, either known.1 k),
      ))
  where
    either :
        {A B : Type 0}
        → (A → B)
        → (includes (first ∷ ss) s ≡ true) ⊎ A
        → (includes (first ∷ ss) s ≡ true) ⊎ B
    either f (inl h) = inl h
    either f (inr h) = inr (f h)
