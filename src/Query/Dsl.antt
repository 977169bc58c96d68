-- ===== src/Query/Dsl.antt =====
-- src/query/dsl.ts: the expressions that the builder renders, over entities given by the metadata
-- that the builder reads.
use primebrick_v3_dal.Base.{
  ℕ, Bool, Option, none, some, List, [], ◌∷◌, Text, codes, text_eq, if◌then◌else◌,
}

pub record Column : Type 0 where
  pub property_key : Text
  pub sql_name : Text
  pub cast_in_join : Option Text

-- An entity class: its identity, the schema of its persistence metadata, what
-- `getQualifiedTableName` answers for it, and its columns.
pub record Entity : Type 0 where
  pub id : ℕ
  pub table_schema : Text
  pub qualified_name : Text
  pub columns : List Column

column_from : List Column → Text → Text
column_from [] key = key
column_from (c ∷ cs) key = if text_eq c.property_key key then c.sql_name else column_from cs key

-- getColumnName of src/meta/entity-decorators.ts
unfoldable pub get_column_name : Entity → Text → Text
unfolding column_from
get_column_name e key = column_from e.columns key

-- `meta.columns[sqlName]`
unfoldable pub find_column : List Column → Text → Option Column
find_column [] name = none
find_column (c ∷ cs) name = if text_eq c.sql_name name then some c else find_column cs name

-- A bound value as far as the builder looks into it; `number` stands for any other value, with
-- what `String` makes of it.
mutual
  pub data Value : Type 0 where
    null : Value
    boolean : Bool → Value
    text : Text → Value
    number : Text → Value
    array : Values → Value

  pub data Values : Type 0 where
    end : Values
    item : Value → Values → Values

pub record FieldRef : Type 0 where
  pub entity : Entity
  pub key : Text

pub data SqlOperator : Type 0 where
  eq ne ne2 lt le gt ge ilike like within not_within between is is_not : SqlOperator
  cosine l2 inner_product l1 hamming jaccard matches : SqlOperator

abbrev pub operator_text : SqlOperator → Text
operator_text eq = codes "="
operator_text ne = codes "!="
operator_text ne2 = codes "<>"
operator_text lt = codes "<"
operator_text le = codes "<="
operator_text gt = codes ">"
operator_text ge = codes ">="
operator_text ilike = codes "ILIKE"
operator_text like = codes "LIKE"
operator_text within = codes "IN"
operator_text not_within = codes "NOT IN"
operator_text between = codes "BETWEEN"
operator_text is = codes "IS"
operator_text is_not = codes "IS NOT"
operator_text cosine = codes "<=>"
operator_text l2 = codes "<->"
operator_text inner_product = codes "<#>"
operator_text l1 = codes "<+>"
operator_text hamming = codes "<~>"
operator_text jaccard = codes "<%>"
operator_text matches = codes "@@"

pub data Operand : Type 0 where
  and or : Operand

abbrev pub operand_text : Operand → Text
operand_text and = codes "AND"
operand_text or = codes "OR"

pub record ExprOperand : Type 0 where
  pub sql : Text
  pub params : List Value

mutual
  pub data FilterExpr : Type 0 where
    field_value : FieldRef → SqlOperator → Value → Operand → FilterExpr
    field_field : FieldRef → SqlOperator → FieldRef → Operand → FilterExpr
    raw : Text → SqlOperator → Text → Operand → FilterExpr
    expr : ExprOperand → SqlOperator → ExprOperand → Operand → FilterExpr
    group : Filters → Operand → Option Operand → FilterExpr

  pub data Filters : Type 0 where
    none_left : Filters
    filter : FilterExpr → Filters → Filters

-- `f.operand`
abbrev pub operand_of : FilterExpr → Operand
operand_of (field_value left op right o) = o
operand_of (field_field left op right o) = o
operand_of (raw left op right o) = o
operand_of (expr left op right o) = o
operand_of (group fs o c) = o

pub data SqlSortDirection : Type 0 where
  asc desc : SqlSortDirection

abbrev pub direction_text : SqlSortDirection → Text
direction_text asc = codes "ASC"
direction_text desc = codes "DESC"

pub data SortingExpr : Type 0 where
  by_field : FieldRef → SqlSortDirection → SortingExpr
  by_alias : Text → SqlSortDirection → SortingExpr
  by_expr : ExprOperand → SqlSortDirection → SortingExpr

pub data GroupByOperand : Type 0 where
  group_field : FieldRef → GroupByOperand
  group_expr : ExprOperand → GroupByOperand

pub data SqlJoinType : Type 0 where
  inner left right : SqlJoinType

abbrev pub join_text : SqlJoinType → Text
join_text inner = codes "INNER"
join_text left = codes "LEFT"
join_text right = codes "RIGHT"

pub record JoinExpr : Type 0 where
  pub left_ref : FieldRef
  pub right_ref : FieldRef
  pub type : SqlJoinType
  pub alias : Option Text
  pub cast_right_to : Option Text
  pub cast_left_to : Option Text

pub data FieldProjector : Type 0 where
  project_field : FieldRef → Option Text → FieldProjector
  project_expr : ExprOperand → Text → FieldProjector
