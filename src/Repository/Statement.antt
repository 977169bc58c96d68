-- ===== src/Repository/Statement.antt =====
-- The statement that a single-row write sends: its fields, guard, WHERE and RETURNING.
pub mod Bounds
use primebrick_v3_dal.Base.{
  ℕ, ◌+◌, ◌==◌, Bool, true, false, not, ◌&&◌, Option, none, some, List, [], ◌∷◌, ◌++◌, map, Text,
  codes, String, text_eq, find, any, keep, length, is_empty, if◌then◌else◌,
}
use primebrick_v3_dal.Query.Dsl.{
  Value, FieldProjector, project_field, project_expr, get_column_name,
}
use primebrick_v3_dal.Query.Clauses.{alias_of}
use primebrick_v3_dal.Query.Writer.{Piece, code, param, Sql, txt, lit, Built, quote_ident}
use primebrick_v3_dal.Query.Writer
use primebrick_v3_dal.Repository.Columns.{
  ColumnMeta, EntityMeta, Payload, col_by_prop, find_pk_column, find_version_column,
  is_auditable_entity, is_updated_at, is_updated_by, is_deleted_at, is_deleted_by, is_version,
  WriteError, invalid_identifier, unknown_column, no_fields, foreign_projection, not_deletable,
  Written, ok, err, ◌>>=◌,
}
use primebrick_v3_dal.Repository.Identity.{
  MatchCondition, UniqueGroup, unique_conflict_groups, is_some,
}
use primebrick_v3_dal.Repository.Draft.{
  Draft, WriteParam, converted, escape_literal, expected, identity_where, joined_by, quote,
  set_param,
}

abbrev pub sql_name_of : Option ColumnMeta → Text → Text
sql_name_of none key = key
sql_name_of (some c) key = c.sql_name

-- `meta.columns[getColumnName(entity, key)]`
unfoldable pub column_for : EntityMeta → Text → Option ColumnMeta
column_for meta key =
    find (λ c. text_eq c.sql_name (sql_name_of (col_by_prop key meta.columns) key)) meta.columns

-- `paramRefByProp`
abbrev pub Refs : Type 0
Refs = List (Text × ℕ)

-- The fields of the payload, and the placeholder of each.
unfoldable pub set_fields : EntityMeta → Payload → Draft → Refs → Written (Draft × Refs)
unfolding set_param column_for
set_fields meta [] d refs = ok (d, refs)
set_fields meta ((key, none) ∷ p) d refs = set_fields meta p d refs
set_fields meta ((key, some v) ∷ p) d refs = elim (column_for meta key) [
  | none ↦ err (unknown_column key)
  | some c ↦ set_param c (converted c v) d >>= λ d'.
      set_fields meta p d' (refs ++ (key, length d.values + 1) ∷ [])
]

unfoldable pub ref_of : Text → Refs → Option ℕ
ref_of prop [] = none
ref_of prop ((key, n) ∷ refs) = if text_eq key prop then some n else ref_of prop refs

-- The values with those of the conditions, which start at the placeholder behind the fields.
unfoldable pub bind_conditions : List MatchCondition → List WriteParam → List WriteParam
bind_conditions cs values = values ++ map (λ c. converted c.column c.value) cs

-- What the version guard adds to a WHERE, and the value it binds.
abbrev pub VersionGuard : Type 0
VersionGuard = Option (ColumnMeta × Value)

unfoldable pub version_guard : Option ColumnMeta → Option Value → VersionGuard
version_guard (some c) (some v) = some (c, v)
version_guard _ _ = none

unfoldable pub guard_where : VersionGuard → List WriteParam → Written (Sql × List WriteParam)
unfolding quote
guard_where none values = ok ([], values)
guard_where (some (c, v)) values = quote c.sql_name >>= λ q. ok (
  lit " AND " ++ (txt q ++ (lit " = " ++ param (length values + 1) ∷ [])),
  values ++ expected v ∷ [],
)

abbrev pub match_object : ℕ → List MatchCondition → List Sql
match_object n [] = []
match_object n (c ∷ cs) =
    (txt (escape_literal c.column.sql_name ++ codes ", ") ++ param n ∷ []) ∷ match_object (n + 1) cs

-- buildGuardCte
unfoldable pub build_guard_cte : Text → List MatchCondition → ℕ → Sql → Text → Sql
unfolding joined_by
build_guard_cte table cs n match_where op =
    txt (codes "matched AS (\n  SELECT * FROM " ++ table ++ codes " WHERE ")
    ++ (match_where
        ++ (txt (
              codes "\n),\nguard AS (\n  SELECT public.pg_raise(\n    'ERR10',\n    "
              ++ escape_literal (op ++ codes ": identity match resolved to multiple rows")
              ++ codes ",\n    jsonb_build_object(\n      'table', "
              ++ escape_literal table
              ++ codes ",\n      'match', jsonb_build_object(")
            ++ (joined_by ", " (match_object n cs)
                ++ lit
                    ")\n    )::text\n  ) AS _raised\n  WHERE (SELECT count(*) FROM matched) > 1\n)")))

-- The projections of a RETURNING clause, and the columns that they emit.
unfoldable pub return_fields : EntityMeta → List FieldProjector → Written (List Sql × List Text)
unfolding quote
return_fields meta [] = ok ([], [])
return_fields meta (project_expr e alias ∷ fs) = quote alias >>= λ a.
    return_fields meta fs >>= λ (ps, names). ok ((txt (e.sql ++ codes " AS " ++ a)) ∷ ps, names)
return_fields meta (project_field f alias ∷ fs) =
    let name = get_column_name f.entity f.key in
    let rest = return_fields meta fs in
    if f.entity.id == meta.id
    then (quote name >>= λ q. quote (alias_of alias name) >>= λ a.
        rest >>= λ (ps, names). ok ((txt (q ++ codes " AS " ++ a)) ∷ ps, name ∷ names))
    else err foreign_projection

abbrev pub name_in : Text → List Text → Bool
name_in name names = any (λ n. text_eq n name) names

-- `id`, `uuid` and `version`, which the audit reads.
unfoldable pub return_internal : List ColumnMeta → List Text → Written (List Sql)
unfolding quote
return_internal [] names = ok []
return_internal (c ∷ cs) names =
    if name_in c.sql_name names
    then return_internal cs names
    else (quote c.sql_name >>= λ q.
        return_internal cs (c.sql_name ∷ names) >>= λ ps. ok ((txt (q ++ codes " AS " ++ q)) ∷ ps))

unfoldable pub return_all : List ColumnMeta → Written (List Sql)
unfolding quote
return_all [] = ok []
return_all (c ∷ cs) = quote c.sql_name >>= λ q.
    quote c.property_key >>= λ a. return_all cs >>= λ ps. ok ((txt (q ++ codes " AS " ++ a)) ∷ ps)

abbrev pub listed : Option ColumnMeta → List ColumnMeta
listed none = []
listed (some c) = c ∷ []

abbrev pub internal_columns : EntityMeta → List ColumnMeta
internal_columns meta =
    listed (find_pk_column meta)
    ++ (listed (find (λ c. text_eq c.sql_name (codes "uuid")) meta.columns)
        ++ listed (find_version_column meta))

unfoldable pub return_given : EntityMeta → List Sql × List Text → Written Sql
unfolding return_internal joined_by
return_given meta (ps, names) = return_internal (internal_columns meta) names >>= λ qs.
    ok (lit "RETURNING " ++ joined_by ", " (ps ++ qs))

-- buildReturningClause, its clause
unfoldable pub build_returning_clause : EntityMeta → List FieldProjector → Written Sql
unfolding return_fields return_given return_all joined_by
build_returning_clause meta [] =
    return_all meta.columns >>= λ ps. ok (lit "RETURNING " ++ joined_by ", " ps)
build_returning_clause meta (f ∷ fs) = return_fields meta (f ∷ fs) >>= λ r. return_given meta r

pub record Statement : Type 0 where
  pub sql : Sql
  pub values : List WriteParam

-- What the parts of a guarded write have in common.
pub record Parts : Type 0 where
  pub guard : Sql
  pub where_sql : Sql
  pub returning : Sql
  pub values : List WriteParam

module _ (meta : EntityMeta) (cs : List MatchCondition) (version : VersionGuard)
    (fields : List FieldProjector) where
  unfoldable pub write_parts : Text → List WriteParam → Written Parts
  unfolding identity_where guard_where bind_conditions build_guard_cte build_returning_clause
  write_parts op values =
      let n = length values + 1 in
      identity_where n cs >>= λ match_where.
      guard_where version (bind_conditions cs values) >>= λ (version_sql, values').
      build_returning_clause meta fields >>= λ returning. ok (record {
        guard = build_guard_cte meta.table cs n match_where op;
        where_sql = match_where ++ version_sql;
        returning = returning;
        values = values';
      })

  -- The statement of `delete` and `restore`, and that of `update` without a unique column.
  unfoldable pub guarded_update : String → Text → Draft → Written Statement
  unfolding write_parts
  guarded_update name op d = write_parts op d.values >>= λ p. ok (record {
    sql =
        lit "WITH "
        ++ (p.guard
            ++ (lit ",\n"
                ++ (lit name
                    ++ (txt (codes " AS (\n  UPDATE " ++ meta.table ++ codes " SET ")
                        ++ (joined_by ", " d.sets
                            ++ (lit " WHERE "
                                ++ (p.where_sql
                                    ++ (lit "\n    AND NOT EXISTS (SELECT 1 FROM guard)\n  "
                                        ++ (p.returning
                                            ++ (lit "\n)\nSELECT * FROM " ++ lit name))))))))));
    values = p.values;
  })

  -- The statement of `hardDelete`.
  unfoldable pub guarded_delete : Written Statement
  unfolding write_parts
  guarded_delete = write_parts (codes "hardDelete") [] >>= λ p. ok (record {
    sql =
        lit "WITH "
        ++ (p.guard
            ++ (txt (codes ",\nw AS (\n  DELETE FROM " ++ meta.table ++ codes " WHERE ")
                ++ (p.where_sql
                    ++ (lit "\n    AND NOT EXISTS (SELECT 1 FROM guard)\n  "
                        ++ (p.returning ++ lit "\n)\nSELECT * FROM w")))));
    values = p.values;
  })
