-- ===== src/Repository/Draft.antt =====
-- The SET list of a write and the values bound for it. A value is bound as it is or by way of
-- `jsValueToPgParam`, which is named and not applied.
pub mod Bounds
use primebrick_v3_dal.Base.{
  ℕ, ◌+◌, ◌==◌, Bool, true, false, not, ◌&&◌, Option, none, some, List, [], ◌∷◌, ◌++◌, map, Text,
  codes, String, text_eq, find, any, keep, length, is_empty, if◌then◌else◌,
}
use primebrick_v3_dal.Query.Dsl.{
  Value, FieldProjector, project_field, project_expr, get_column_name,
}
use primebrick_v3_dal.Query.Clauses.{alias_of}
use primebrick_v3_dal.Query.Writer.{Piece, code, param, Sql, txt, lit, Built, quote_ident}
use primebrick_v3_dal.Query.Writer
use primebrick_v3_dal.Repository.Columns.{
  ColumnMeta, EntityMeta, Payload, col_by_prop, find_pk_column, find_version_column,
  is_auditable_entity, is_updated_at, is_updated_by, is_deleted_at, is_deleted_by, is_version,
  WriteError, invalid_identifier, unknown_column, no_fields, foreign_projection, not_deletable,
  Written, ok, err, ◌>>=◌,
}
use primebrick_v3_dal.Repository.Identity.{
  MatchCondition, UniqueGroup, unique_conflict_groups, is_some,
}

-- A value bound: the time of the write, the actor, a value converted for its column, or `Number` of
-- the expected version.
pub data WriteParam : Type 0 where
  now : WriteParam
  actor : Value → WriteParam
  converted : ColumnMeta → Value → WriteParam
  expected : Value → WriteParam

abbrev pub quoted : Built Text → Text → Written Text
quoted (Writer.ok q) name = ok q
quoted (Writer.err e) name = err (invalid_identifier name)

-- quoteIdent
unfoldable pub quote : Text → Written Text
quote name = quoted (quote_ident name) name

abbrev pub escape_body : Text → Text
escape_body [] = []
escape_body (c ∷ s) = if c == b'\'' then c ∷ c ∷ escape_body s else c ∷ escape_body s

-- escapeLiteral
abbrev pub escape_literal : Text → Text
escape_literal s = codes "'" ++ escape_body s ++ codes "'"

unfoldable pub joined_by : String → List Sql → Sql
joined_by sep [] = []
joined_by sep (p ∷ []) = p
joined_by sep (p ∷ q ∷ ps) = p ++ (lit sep ++ joined_by sep (q ∷ ps))

-- The terms `<alias>"col"<op>$n` of the identity conditions, numbered from `n`.
unfoldable pub identity_terms : Text → String → ℕ → List MatchCondition → Written (List Sql)
unfolding quote
identity_terms alias op n [] = ok []
identity_terms alias op n (c ∷ cs) = quote c.column.sql_name >>= λ q.
    identity_terms alias op (n + 1) cs >>= λ ts.
    ok ((txt (alias ++ q) ++ (lit op ++ param n ∷ [])) ∷ ts)

-- identityWhere
unfoldable pub identity_where : ℕ → List MatchCondition → Written Sql
unfolding identity_terms joined_by
identity_where n cs = identity_terms [] " = " n cs >>= λ ts. ok (joined_by " AND " ts)

-- identitySelfExclusion
unfoldable pub identity_self_exclusion : ℕ → List MatchCondition → Written Sql
unfolding identity_terms joined_by
identity_self_exclusion n cs =
    identity_terms (codes "t.") " IS DISTINCT FROM " n cs >>= λ ts. ok (joined_by " OR " ts)

-- `setClauses` and `values`.
pub record Draft : Type 0 where
  pub sets : List Sql
  pub values : List WriteParam

-- SET "col" = $n, with the value pushed.
unfoldable pub set_param : ColumnMeta → WriteParam → Draft → Written Draft
unfolding quote
set_param c v d = quote c.sql_name >>= λ q. ok (record {
  sets = d.sets ++ (txt q ++ (lit " = " ++ param (length d.values + 1) ∷ [])) ∷ [];
  values = d.values ++ v ∷ [];
})

-- A stamp, where the entity has the column.
unfoldable pub stamp : Option ColumnMeta → WriteParam → Draft → Written Draft
unfolding set_param
stamp none v d = ok d
stamp (some c) v d = set_param c v d

unfoldable pub set_text : String → ColumnMeta → Draft → Written Draft
unfolding quote
set_text text c d =
    quote c.sql_name >>= λ q. ok (record d { sets = d.sets ++ (txt q ++ lit text) ∷ [] })

-- SET "col" = NULL
unfoldable pub clear : Option ColumnMeta → Draft → Written Draft
unfolding set_text
clear none d = ok d
clear (some c) d = set_text " = NULL" c d

-- SET "version" = "version" + 1
unfoldable pub bump : Option ColumnMeta → Draft → Written Draft
unfolding quote
bump none d = ok d
bump (some c) d = quote c.sql_name >>= λ q.
    ok (record d { sets = d.sets ++ (txt q ++ (lit " = " ++ (txt q ++ lit " + 1"))) ∷ [] })

unfoldable pub when : Bool → (Draft → Written Draft) → Draft → Written Draft
when true f d = f d
when false f d = ok d

abbrev pub updated_at_column : EntityMeta → Option ColumnMeta
updated_at_column meta = find (λ c. is_updated_at c.auditable_type) meta.columns

abbrev pub updated_by_column : EntityMeta → Option ColumnMeta
updated_by_column meta = find (λ c. is_updated_by c.auditable_type) meta.columns

abbrev pub deleted_at_column : EntityMeta → Option ColumnMeta
deleted_at_column meta = find (λ c. is_deleted_at c.deletable_type) meta.columns

abbrev pub deleted_by_column : EntityMeta → Option ColumnMeta
deleted_by_column meta = find (λ c. is_deleted_by c.deletable_type) meta.columns

abbrev pub actor_param : Option Value → WriteParam
actor_param none = now
actor_param (some a) = actor a

module _ (meta : EntityMeta) (by : Option Value) where
  -- `auditable && actor !== undefined`
  abbrev pub stamps : Bool
  stamps = is_auditable_entity meta && is_some by

  unfoldable pub stamp_updated : Draft → Written Draft
  unfolding stamp
  stamp_updated d = stamp (updated_at_column meta) now d >>= λ d'.
      stamp (updated_by_column meta) (actor_param by) d'

  unfoldable pub update_stamps : Draft → Written Draft
  unfolding stamp_updated bump
  update_stamps d = stamp_updated d >>= λ d'. bump (find_version_column meta) d'

  -- The stamps of `delete`.
  unfoldable pub delete_stamps : Draft → Written Draft
  unfolding stamp when stamp_updated bump
  delete_stamps d = stamp (deleted_at_column meta) now d >>= λ d1.
      when stamps (stamp (deleted_by_column meta) (actor_param by)) d1 >>= λ d2.
      when stamps stamp_updated d2 >>= λ d3.
      when (is_auditable_entity meta) (bump (find_version_column meta)) d3

  -- The stamps of `restore`.
  unfoldable pub restore_stamps : Draft → Written Draft
  unfolding clear when stamp_updated bump
  restore_stamps d = clear (deleted_at_column meta) d >>= λ d1.
      clear (deleted_by_column meta) d1 >>= λ d2. when stamps stamp_updated d2 >>= λ d3.
      when (is_auditable_entity meta) (bump (find_version_column meta)) d3
