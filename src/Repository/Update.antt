-- ===== src/Repository/Update.antt =====
-- `update`: the statement that reports a unique conflict, and the choice between it and the plain
-- guarded one.
pub mod Bounds
use primebrick_v3_dal.Base.{
  ℕ, ◌+◌, Bool, true, false, Option, none, some, List, [], ◌∷◌, ◌++◌, Text, codes, String, text_eq,
  find, any, length, is_empty, if◌then◌else◌,
}
use primebrick_v3_dal.Query.Dsl.{Value, FieldProjector}
use primebrick_v3_dal.Query.Writer.{param, Sql, txt, lit}
use primebrick_v3_dal.Repository.Columns.{
  ColumnMeta, EntityMeta, Payload, extract_version, find_version_column, no_fields, Written, ok,
  err, ◌>>=◌,
}
use primebrick_v3_dal.Repository.Identity.{
  MatchCondition, UniqueGroup, unique_conflict_groups, resolve_match_conditions, is_some,
}
use primebrick_v3_dal.Repository.Draft.{
  quote, escape_literal, joined_by, identity_self_exclusion, Draft, deleted_at_column, stamps,
  update_stamps, when,
}
use primebrick_v3_dal.Repository.Statement.{
  Refs, set_fields, ref_of, VersionGuard, version_guard, Parts, Statement, write_parts,
  guarded_update,
}

pub record KeyRef : Type 0 where
  pub sql_name : Text
  pub quoted : Text
  pub ref : Sql

pub record UniquePredicate : Type 0 where
  pub name : Text
  pub sql : Sql
  pub key_refs : List KeyRef

abbrev pub writes_group : Refs → UniqueGroup → Bool
writes_group refs g = any (λ c. is_some (ref_of c.property_key refs)) g.cols

-- The value a column is about to have: the placeholder of the payload, or the target row's.
abbrev pub attempted : Text → Option ℕ → Sql
attempted q (some n) = param n ∷ []
attempted q none = txt (codes "t0." ++ q)

unfoldable pub key_refs_of : Refs → List ColumnMeta → Written (List KeyRef)
unfolding quote ref_of
key_refs_of refs [] = ok []
key_refs_of refs (c ∷ cs) = quote c.sql_name >>= λ q. key_refs_of refs cs >>= λ ks. ok (
    record { sql_name = c.sql_name; quoted = q; ref = attempted q (ref_of c.property_key refs) }
    ∷ ks)

abbrev pub key_tests : List KeyRef → List Sql
key_tests [] = []
key_tests (k ∷ ks) =
    (txt (codes "t." ++ k.quoted ++ codes " IS NOT DISTINCT FROM ")
      ++ (k.ref ++ (lit " AND " ++ (k.ref ++ lit " IS NOT NULL"))))
    ∷ key_tests ks

unfoldable pub unique_predicates : Refs → List UniqueGroup → Written (List UniquePredicate)
unfolding key_refs_of joined_by
unique_predicates refs [] = ok []
unique_predicates refs (g ∷ gs) =
    let rest = unique_predicates refs gs in
    if writes_group refs g
    then (key_refs_of refs g.cols >>= λ ks. rest >>= λ ps.
        ok (record { name = g.name; sql = joined_by " AND " (key_tests ks); key_refs = ks } ∷ ps))
    else rest

abbrev pub key_objects : List KeyRef → List Sql
key_objects [] = []
key_objects (k ∷ ks) = (txt (escape_literal k.sql_name ++ codes ", ") ++ k.ref) ∷ key_objects ks

abbrev pub constraint_cases : List UniquePredicate → List Sql
constraint_cases [] = []
constraint_cases (p ∷ ps) =
    (lit "WHEN (" ++ (p.sql ++ txt (codes ") THEN " ++ escape_literal p.name)))
    ∷ constraint_cases ps

abbrev pub keys_cases : List UniquePredicate → List Sql
keys_cases [] = []
keys_cases (p ∷ ps) =
    (lit "WHEN ("
      ++ (p.sql
          ++ (lit ") THEN jsonb_build_object("
              ++ (joined_by ", " (key_objects p.key_refs) ++ lit ")"))))
    ∷ keys_cases ps

abbrev pub predicate_tests : List UniquePredicate → List Sql
predicate_tests [] = []
predicate_tests (p ∷ ps) = (lit "(" ++ (p.sql ++ lit ")")) ∷ predicate_tests ps

abbrev pub uuid_selection : List ColumnMeta → Text
uuid_selection cs =
    if any (λ c. text_eq c.sql_name (codes "uuid")) cs then codes "t.\"uuid\"" else codes "NULL"

unfoldable pub deleted_selection : Option ColumnMeta → Written Text
unfolding quote
deleted_selection none = ok (codes "NULL")
deleted_selection (some c) = quote c.sql_name >>= λ q. ok (codes "t." ++ q)

-- The version guard of `t0`, with the placeholder that the WHERE has bound last.
unfoldable pub target_guard : VersionGuard → ℕ → Written Sql
unfolding quote
target_guard none n = ok []
target_guard (some (c, v)) n =
    quote c.sql_name >>= λ q. ok (txt (codes " AND " ++ q ++ codes " = ") ++ param n ∷ [])

abbrev pub raise_text : EntityMeta → Text
raise_text meta =
    codes
      "\n  LIMIT 1\n),\nraised AS (\n  SELECT public.pg_raise(\n    CASE WHEN c.c_deleted_at IS NULL THEN 'ERR04' ELSE 'ERR05' END,\n    "
    ++ escape_literal (codes "update: unique constraint violation on " ++ meta.entity_class_name)
    ++ codes ",\n    jsonb_build_object(\n      'entity', "
    ++ escape_literal meta.entity_class_name
    ++ codes ",\n      'table', "
    ++ escape_literal (meta.table_schema ++ codes "." ++ meta.table_name)
    ++ codes
        ",\n      'uuid', c.c_uuid::text,\n      'constraint', c.c_constraint,\n      'keys', c.c_keys\n    )::text\n  ) AS _raised\n  FROM conflict c\n),\nupd AS (\n  UPDATE "
    ++ meta.table
    ++ codes " SET "

module _ (meta : EntityMeta) (cs : List MatchCondition) (version : VersionGuard)
    (fields : List FieldProjector) where
  -- The statement with the CTEs t0, conflict and raised.
  unfoldable pub conflict_update : Draft → List UniquePredicate → Written Statement
  unfolding write_parts deleted_selection target_guard identity_self_exclusion
  conflict_update d ps = deleted_selection (deleted_at_column meta) >>= λ deleted.
      write_parts meta cs version fields (codes "update") d.values >>= λ p.
      target_guard version (length p.values) >>= λ t0_guard.
      identity_self_exclusion (length d.values + 1) cs >>= λ exclusion. ok (record {
        sql =
            lit "WITH "
            ++ (p.guard
                ++ (lit ",\nt0 AS (\n  SELECT * FROM matched WHERE 1=1"
                    ++ (t0_guard
                        ++ (txt (
                              codes "\n),\nconflict AS (\n  SELECT "
                              ++ uuid_selection meta.columns
                              ++ codes " AS c_uuid, "
                              ++ deleted
                              ++ codes " AS c_deleted_at,\n         CASE ")
                            ++ (joined_by " " (constraint_cases ps)
                                ++ (lit " END AS c_constraint,\n         CASE "
                                    ++ (joined_by " " (keys_cases ps)
                                        ++ (txt (
                                              codes " END AS c_keys\n  FROM t0, "
                                              ++ meta.table
                                              ++ codes " t\n  WHERE ")
                                            ++ (exclusion
                                                ++ (lit "\n    AND ("
                                                    ++ (joined_by "\n        OR "
                                                          (predicate_tests ps)
                                                        ++ (lit ")"
                                                            ++ (txt (raise_text meta)
                                                            ++ (joined_by ", " d.sets
                                                            ++ (lit " WHERE "
                                                            ++ (p.where_sql
                                                            ++ (lit
                                                            "\n    AND NOT EXISTS (SELECT 1 FROM raised)\n  "
                                                            ++ (p.returning
                                                            ++ lit
                                                            "\n)\nSELECT * FROM upd"))))))))))))))))));
        values = p.values;
      })

  unfoldable pub update_sql : Draft → List UniquePredicate → Written Statement
  unfolding guarded_update conflict_update
  update_sql d [] = guarded_update meta cs version fields "upd" (codes "update") d
  update_sql d (p ∷ ps) = conflict_update d (p ∷ ps)

abbrev pub some_fields : Draft × Refs → Written (Draft × Refs)
some_fields (d, []) = err no_fields
some_fields (d, r ∷ refs) = ok (d, r ∷ refs)

-- The conditions, the version guard and the statement of `update`.
pub record Planned : Type 0 where
  pub conditions : List MatchCondition
  pub version : VersionGuard
  pub statement : Statement

unfoldable pub update_statement :
    EntityMeta → Option Value → Payload → List Text → List FieldProjector → Written Planned
unfolding resolve_match_conditions extract_version update_stamps when set_fields
    unique_conflict_groups unique_predicates version_guard update_sql
update_statement meta by updates match_by fields =
    resolve_match_conditions meta updates match_by >>= λ (cs, remaining).
    extract_version remaining (find_version_column meta) >>= λ (expected, final).
    when (stamps meta by) (update_stamps meta by) (record { sets = []; values = [] }) >>= λ d.
    set_fields meta final d [] >>= some_fields >>= λ (d', refs).
    let version = version_guard (find_version_column meta) expected in
    unique_predicates refs (unique_conflict_groups meta) >>= λ ps.
    update_sql meta cs version fields d' ps >>= λ s.
    ok (record { conditions = cs; version = version; statement = s })
