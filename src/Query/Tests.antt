-- ===== src/Query/Tests.antt =====
-- The builder's theorems at concrete filters.
use primebrick_v3_dal.Base.{none, some, List, [], ◌∷◌, ◌≡◌, codes}
use primebrick_v3_dal.Query.Dsl
use primebrick_v3_dal.Query.Dsl.{
  Entity, Value, FieldRef, SqlOperator, eq, within, ilike, expr, and, or, FilterExpr, field_value,
  item, end, array, group, filter, none_left,
}
use primebrick_v3_dal.Query.Render.{render_conditions}
use primebrick_v3_dal.Query.Render.Params.{Sound}
use primebrick_v3_dal.Query.Render.Numbered.{render_conditions-Sound}
use primebrick_v3_dal.Query.ListFilters.{
  ListFilterCondition, ListFilterOptions, plain, translate_filter_conditions,
}
use primebrick_v3_dal.Query.ListFilters.Barrier.{
  result_leaves, admitted, translate_filter_conditions-admitted,
}
use primebrick_v3_dal.Query.Dsl.{FieldProjector, project_field, project_expr}
use primebrick_v3_dal.Query.Writer.{◌>>=◌}
use primebrick_v3_dal.Query.Clauses.{render_projectors}
use primebrick_v3_dal.Query.Clauses.Projected.{joined, render_projectors-Sound}

abbrev customers : Entity
customers = record {
  id = 0;
  table_schema = codes "crm";
  qualified_name = codes "\"crm\".\"customers\"";
  columns =
      record { property_key = codes "name"; sql_name = codes "full_name"; cast_in_join = none }
      ∷ [];
}

abbrev name_field : FieldRef
name_field = record { entity = customers; key = codes "name" }

abbrev filters : List FilterExpr
filters =
    field_value name_field within
      (array (item (Dsl.text (codes "a")) (item (Dsl.text (codes "b")) end))) and
    ∷ group
        (filter (field_value name_field ilike (Dsl.text (codes "%x%")) or) (
          filter
            (expr (record { sql = codes "a + ?"; params = Dsl.number (codes "1") ∷ [] }) eq
              (record { sql = codes "?"; params = Dsl.number (codes "2") ∷ [] }) or)
            none_left))
        and (some or)
    ∷ []

render_conditions-Sound_example :
    Sound
      (Dsl.number (codes "7") ∷ [])
      (render_conditions customers none filters (Dsl.number (codes "7") ∷ []))
render_conditions-Sound_example =
    render_conditions-Sound customers none filters (Dsl.number (codes "7") ∷ [])

abbrev options : ListFilterOptions
options = record {
  allowed_fields = codes "name" ∷ [];
  connector = some or;
  valid_ops = none;
  escape_ilike = none;
}

-- An allowed condition, one on a field outside the list, and one whose operator is none.
abbrev conditions : List ListFilterCondition
conditions =
    record { field = codes "name"; op = some ilike; value = plain (Dsl.text (codes "x")) }
    ∷ record { field = codes "1=1; --"; op = some eq; value = plain (Dsl.text (codes "x")) }
    ∷ record { field = codes "name"; op = none; value = plain (Dsl.text (codes "x")) }
    ∷ []

translate_filter_conditions-admitted_example :
    result_leaves (translate_filter_conditions customers options conditions)
    ≡ admitted customers options conditions
translate_filter_conditions-admitted_example =
    translate_filter_conditions-admitted customers options conditions

abbrev projectors : List FieldProjector
projectors =
    project_field name_field none
    ∷ project_expr
        (record { sql = codes "date_trunc(?, t)"; params = Dsl.text (codes "hour") ∷ [] })
        (codes "bucket")
    ∷ []

render_projectors-Sound_example :
    Sound [] (render_projectors customers none projectors [] >>= joined)
render_projectors-Sound_example = render_projectors-Sound customers none projectors []
