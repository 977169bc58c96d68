-- ===== src/Query/Render.antt =====
-- renderFilterExpr, renderWhere, renderOrderBy, renderHaving of src/query/query-builder.ts.
pub mod Params
pub mod Numbered
use primebrick_v3_dal.Base.{
  ℕ, zero, suc, Bool, true, false, ◌&&◌, ◌||◌, not, Option, none, some, List, [], ◌∷◌, ◌++◌, Text,
  codes, text_eq, String, is_empty, length, if◌then◌else◌,
}
use primebrick_v3_dal.Query.Dsl
use primebrick_v3_dal.Query.Dsl.{
  Entity, Value, null, boolean, array, Values, end, item, FieldRef, SqlOperator, ilike, like,
  within, not_within, between, is, is_not, cosine, l2, inner_product, l1, hamming, jaccard, ne, ne2,
  operator_text, Operand, and, operand_text, ExprOperand, FilterExpr, field_value, field_field, raw,
  expr, group, Filters, none_left, filter, operand_of, SortingExpr, by_field, by_alias, by_expr,
  direction_text, find_column,
}
use primebrick_v3_dal.Query.Writer.{
  Sql, Piece, code, param, txt, lit, Built, ok, err, BuildError, between_needs_two,
  is_needs_boolean, ◌>>=◌, quote_ident, q_table, q_qualified_field, override_for, add_param,
  render_expr_operand, to_vector_literal,
}

pub data WithDeletedRecords : Type 0 where
  excluded only included : WithDeletedRecords

abbrev pub to_list : Values → List Value
to_list end = []
to_list (item v vs) = v ∷ to_list vs

-- Array.isArray(right) ? right : [right]
abbrev pub as_list : Value → List Value
as_list (array vs) = to_list vs
as_list v = v ∷ []

-- arr.map((v) => w.add(v)).join(", ")
unfoldable pub add_all : List Value → List Value → Sql × List Value
unfolding add_param
add_all [] w = ([], w)
add_all (v ∷ []) w = add_param v w
add_all (v ∷ u ∷ vs) w =
    let (p, w') = add_param v w in let (q, w'') = add_all (u ∷ vs) w' in (p ++ lit ", " ++ q, w'')

-- `${left} ${op} `, and what follows
abbrev pub compared : Text → SqlOperator → Sql → Sql
compared left op rest = txt left ++ lit " " ++ txt (operator_text op) ++ lit " " ++ rest

abbrev pub is_pattern_op : SqlOperator → Bool
is_pattern_op ilike = true
is_pattern_op like = true
is_pattern_op _ = false

unfoldable pub render_between : Text → List Value → List Value → Built (Sql × List Value)
unfolding add_param
render_between left (a ∷ b ∷ []) w =
    let (p, w') = add_param a w in
    let (q, w'') = add_param b w' in ok (compared left between (p ++ lit " AND " ++ q), w'')
render_between left vs w = err (between_needs_two (length vs))

unfoldable pub render_is : Text → SqlOperator → Value → List Value → Built (Sql × List Value)
render_is left op null w = ok (compared left op (lit "NULL"), w)
render_is left op (boolean true) w = ok (compared left op (lit "TRUE"), w)
render_is left op (boolean false) w = ok (compared left op (lit "FALSE"), w)
render_is left op v w = err is_needs_boolean

unfoldable pub render_list : Text → SqlOperator → List Value → List Value → Built (Sql × List Value)
unfolding add_all
render_list left op vs w =
    let (p, w') = add_all vs w in ok (compared left op (lit "(" ++ p ++ lit ")"), w')

unfoldable pub render_vector : Text → SqlOperator → Value → List Value → Built (Sql × List Value)
unfolding add_param
render_vector left op v w =
    let (p, w') = add_param (Dsl.text (to_vector_literal v)) w in
    ok (compared left op (p ++ lit "::vector"), w')

unfoldable pub render_unequal : Text → SqlOperator → Value → List Value → Built (Sql × List Value)
unfolding add_param
render_unequal left op v w =
    let (p, w') = add_param v w in
    ok (lit "(" ++ txt left ++ lit " IS NULL OR " ++ compared left op (p ++ lit ")"), w')

unfoldable pub render_plain :
    Text → SqlOperator → Value → Text → List Value → Built (Sql × List Value)
unfolding add_param
render_plain left op v suffix w =
    let (p, w') = add_param v w in ok (compared left op (p ++ txt suffix), w')

-- The case `field_value`, on the rendered left side.
unfoldable pub render_value : Text → SqlOperator → Value → List Value → Built (Sql × List Value)
render_value left within v w = render_list left within (as_list v) w
render_value left not_within v w = render_list left not_within (as_list v) w
render_value left between v w = render_between left (as_list v) w
render_value left is v w = render_is left is v w
render_value left is_not v w = render_is left is_not v w
render_value left ilike v w = render_plain left ilike v (codes " ESCAPE '#'") w
render_value left like v w = render_plain left like v (codes " ESCAPE '#'") w
render_value left cosine v w = render_vector left cosine v w
render_value left l2 v w = render_vector left l2 v w
render_value left inner_product v w = render_vector left inner_product v w
render_value left l1 v w = render_vector left l1 v w
render_value left hamming v w = render_vector left hamming v w
render_value left jaccard v w = render_vector left jaccard v w
render_value left ne v w = render_unequal left ne v w
render_value left ne2 v w = render_unequal left ne2 v w
render_value left op v w = render_plain left op v [] w

module _ (base : Entity) (override : Option Text) where
  unfoldable pub qualified : FieldRef → Built Text
  qualified f = q_qualified_field f.entity f.key (override_for override f.entity base)

  -- A pattern on a key `uuid` compares the column cast to text.
  unfoldable pub left_side : FieldRef → SqlOperator → Built Text
  left_side f op = qualified f >>= λ t. ok (
      if is_pattern_op op && text_eq f.key (codes "uuid")
      then codes "CAST(" ++ t ++ codes " AS text)"
      else t)

  unfoldable mutual
    pub render_filter : FilterExpr → List Value → Built (Sql × List Value)
    render_filter (field_value f op v o) w = left_side f op >>= λ left. render_value left op v w
    render_filter (field_field f op g o) w =
        qualified f >>= λ a. qualified g >>= λ b. ok (compared a op (txt b), w)
    render_filter (raw a op b o) w = ok (compared a op (txt b), w)
    render_filter (expr a op b o) w = render_expr_operand a w >>= λ (p, w').
        render_expr_operand b w' >>= λ (q, w'').
        ok (p ++ lit " " ++ txt (operator_text op) ++ lit " " ++ q, w'')
    render_filter (group fs o none) w =
        render_filters (operand_text o) fs w >>= λ (p, w'). ok (lit "(" ++ p ++ lit ")", w')
    render_filter (group fs o (some c)) w =
        render_filters (operand_text c) fs w >>= λ (p, w'). ok (lit "(" ++ p ++ lit ")", w')

    -- filters.map(…).join(` ${connector} `)
    pub render_filters : Text → Filters → List Value → Built (Sql × List Value)
    render_filters sep none_left w = ok ([], w)
    render_filters sep (filter f none_left) w = render_filter f w
    render_filters sep (filter f (filter g fs)) w = render_filter f w >>= λ (p, w').
        render_filters sep (filter g fs) w' >>= λ (q, w'').
        ok (p ++ lit " " ++ txt sep ++ lit " " ++ q, w'')

  -- The loop of renderWhere and renderHaving, behind its first round.
  unfoldable pub render_rest : Sql → List FilterExpr → List Value → Built (Sql × List Value)
  render_rest done [] w = ok (done, w)
  render_rest done (f ∷ fs) w = render_filter f w >>= λ (p, w').
      render_rest (done ++ lit " " ++ txt (operand_text (operand_of f)) ++ lit " " ++ p) fs w'

  unfoldable pub render_conditions : List FilterExpr → List Value → Built (Sql × List Value)
  render_conditions [] w = ok ([], w)
  render_conditions (f ∷ fs) w = render_filter f w >>= λ (p, w'). render_rest p fs w'

  unfoldable pub deleted_condition : WithDeletedRecords → Text → List Sql
  deleted_condition only col = (txt col ++ lit " IS NOT NULL") ∷ []
  deleted_condition excluded col = (txt col ++ lit " IS NULL") ∷ []
  deleted_condition included col = []

  -- The conditions on `deleted_at`, where the entity has that column.
  unfoldable pub render_deleted : WithDeletedRecords → Built (List Sql)
  unfolding deleted_condition
  render_deleted mode = elim (find_column base.columns (codes "deleted_at")) [
    | none ↦ ok []
    | some c ↦ q_table base override >>= λ t. quote_ident (codes "deleted_at") >>= λ col.
        ok (deleted_condition mode (t ++ codes "." ++ col))
  ]

  -- renderWhere. What a list of one or more filters renders to is never blank.
  unfoldable pub render_where :
      WithDeletedRecords → List FilterExpr → List Value → Built (List Sql × List Value)
  render_where mode [] w = render_deleted mode >>= λ ds. ok (ds, w)
  render_where mode (f ∷ fs) w = render_deleted mode >>= λ ds.
      render_conditions (f ∷ fs) w >>= λ (p, w'). ok (ds ++ p ∷ [], w')

  unfoldable pub render_sort : SortingExpr → List Value → Built (Sql × List Value)
  render_sort (by_alias alias d) w =
      quote_ident alias >>= λ a. ok (txt a ++ lit " " ++ txt (direction_text d), w)
  render_sort (by_expr e d) w =
      render_expr_operand e w >>= λ (p, w'). ok (p ++ lit " " ++ txt (direction_text d), w')
  render_sort (by_field f d) w =
      qualified f >>= λ a. ok (txt a ++ lit " " ++ txt (direction_text d), w)

  -- renderOrderBy; `[]` where there is nothing to sort by
  unfoldable pub render_order_by : List SortingExpr → List Value → Built (Sql × List Value)
  render_order_by [] w = ok ([], w)
  render_order_by (s ∷ []) w = render_sort s w
  render_order_by (s ∷ r ∷ ss) w = render_sort s w >>= λ (p, w').
      render_order_by (r ∷ ss) w' >>= λ (q, w''). ok (p ++ lit ", " ++ q, w'')
