-- ===== src/Query/ListFilters.antt =====
-- src/query/list-filters.ts: the conditions of a list endpoint become filter expressions. An
-- operator on the wire that is no SqlOperator is `none`; `validOps` holds operators alone.
pub mod Barrier
use primebrick_v3_dal.Base.{
  ℕ, Bool, true, false, not, ◌&&◌, ◌||◌, ◌==◌, Option, none, some, List, [], ◌∷◌, ◌++◌, Text, codes,
  text_eq, includes, any, if◌then◌else◌,
}
use primebrick_v3_dal.Query.Dsl
use primebrick_v3_dal.Query.Dsl.{
  Entity, Value, null, array, item, end, FieldRef, SqlOperator, eq, ne, ne2, lt, le, gt, ge, ilike,
  like, within, not_within, between, is, is_not, operator_text, Operand, and, FilterExpr,
  field_value, group, Filters, none_left, filter,
}

-- A value off the wire: one that is no object with `start` and `end`, or such an object, where
-- `none` is undefined.
pub data WireValue : Type 0 where
  plain : Value → WireValue
  range : Option Value → Option Value → WireValue

pub record ListFilterCondition : Type 0 where
  pub field : Text
  pub op : Option SqlOperator
  pub value : WireValue

pub record ListFilterOptions : Type 0 where
  pub allowed_fields : List Text
  pub connector : Option Operand
  pub valid_ops : Option (List SqlOperator)
  pub escape_ilike : Option (Text → Text)

abbrev pub default_valid_ops : List SqlOperator
default_valid_ops =
    eq ∷ ne ∷ ne2 ∷ lt ∷ le ∷ gt ∷ ge ∷ ilike ∷ like ∷ within ∷ not_within ∷ between ∷ is ∷ is_not
    ∷ []

-- `options.validOps ?? DEFAULT_VALID_OPS`
abbrev pub valid_ops_of : ListFilterOptions → List SqlOperator
valid_ops_of options = elim options.valid_ops [ none ↦ default_valid_ops | some ops ↦ ops ]

abbrev pub connector_of : ListFilterOptions → Operand
connector_of options = elim options.connector [ none ↦ and | some o ↦ o ]

-- Operators are the same where their texts are.
unfoldable pub has_op : List SqlOperator → SqlOperator → Bool
has_op ops op = any (λ o. text_eq (operator_text o) (operator_text op)) ops

unfoldable pub escaped : Option (Text → Text) → Text → Text
escaped none s = codes "%" ++ s ++ codes "%"
escaped (some f) s = f s

-- A text without `%` gets its wildcards.
unfoldable pub with_wildcards : Option (Text → Text) → Value → Value
unfolding escaped
with_wildcards f (Dsl.text s) = Dsl.text (if any (λ c. c == b'%') s then s else escaped f s)
with_wildcards f v = v

-- An object where no range is asked for goes on as it is.
abbrev pub as_given : WireValue → Value
as_given (plain v) = v
as_given (range a b) = Dsl.number (codes "[object Object]")

-- The value of a BETWEEN, or `none` where the condition is passed over.
unfoldable pub between_value : WireValue → Option Value
between_value (range none b) = none
between_value (range (some null) b) = none
between_value (range (some a) none) = none
between_value (range (some a) (some null)) = none
between_value (range (some a) (some b)) = some (array (item a (item b end)))
between_value (plain (array vs)) = some (array vs)
between_value (plain v) = none

unfoldable pub condition_value : Option (Text → Text) → SqlOperator → WireValue → Option Value
unfolding with_wildcards between_value
condition_value f ilike v = some (with_wildcards f (as_given v))
condition_value f like v = some (with_wildcards f (as_given v))
condition_value f between v = between_value v
condition_value f op v = some (as_given v)

unfoldable pub push : Entity → Text → SqlOperator → Operand → Option Value → List FilterExpr
push e key op connector none = []
push e key op connector (some v) =
    field_value (record { entity = e; key = key }) op v connector ∷ []

-- One round of the loop: what it pushes.
unfoldable pub translate_condition :
    Entity → ListFilterOptions → Text → Option SqlOperator → WireValue → List FilterExpr
unfolding push condition_value has_op
translate_condition e options key none v = []
translate_condition e options key (some op) v =
    if has_op (valid_ops_of options) op && includes options.allowed_fields key
    then push e key op (connector_of options) (condition_value options.escape_ilike op v)
    else []

unfoldable pub translate_each :
    Entity → ListFilterOptions → List ListFilterCondition → List FilterExpr
unfolding translate_condition
translate_each e options [] = []
translate_each e options (c ∷ cs) =
    translate_condition e options c.field c.op c.value ++ translate_each e options cs

abbrev pub to_filters : List FilterExpr → Filters
to_filters [] = none_left
to_filters (f ∷ fs) = filter f (to_filters fs)

-- `Filter.group(exprs, connector)`, whose operand is AND.
unfoldable pub grouped : Operand → List FilterExpr → Option (List FilterExpr)
grouped connector [] = none
grouped connector (f ∷ []) = some (group (filter f none_left) and (some and) ∷ [])
grouped connector (f ∷ g ∷ fs) = some (
    group (filter (group (to_filters (f ∷ g ∷ fs)) and (some connector)) none_left) and (some and)
    ∷ [])

-- translateFilterConditions; no list of conditions is the empty one.
unfoldable pub translate_filter_conditions :
    Entity → ListFilterOptions → List ListFilterCondition → Option (List FilterExpr)
unfolding grouped translate_each
translate_filter_conditions e options conditions =
    grouped (connector_of options) (translate_each e options conditions)
