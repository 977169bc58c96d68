-- ===== src/Query/Clauses.antt =====
-- renderProjection and renderJoins of src/query/query-builder.ts. An absent list is the empty one.
pub mod Projected
use primebrick_v3_dal.Base.{
  ℕ, Bool, true, false, ◌||◌, ◌==◌, Option, none, some, List, [], ◌∷◌, ◌++◌, Text, codes, text_eq,
  if◌then◌else◌,
}
use primebrick_v3_dal.Query.Dsl.{
  Entity, Column, get_column_name, find_column, Value, ExprOperand, FieldRef, FieldProjector,
  project_field, project_expr, JoinExpr, join_text,
}
use primebrick_v3_dal.Query.Writer.{
  Sql, code, param, txt, lit, Built, ok, err, ◌>>=◌, quote_ident, assert_ident, q_table, q_col,
  override_for, render_expr_operand,
}

-- A text that is absent where it is empty.
abbrev pub given : Option Text → Option Text
given none = none
given (some []) = none
given (some (c ∷ s)) = some (c ∷ s)

-- The name of the display column of an alias.
unfoldable pub display_field : Text → Option Text
display_field alias =
    if text_eq alias (codes "creator")
    then some (codes "created_by_name")
    else if text_eq alias (codes "updater")
    then some (codes "updated_by_name")
    else if text_eq alias (codes "deleter")
    then some (codes "deleted_by_name")
    else none

abbrev pub alias_of : Option Text → Text → Text
alias_of none name = name
alias_of (some a) name = a

module _ (base : Entity) (override : Option Text) where
  unfoldable pub render_projector : FieldProjector → List Value → Built (Sql × List Value)
  render_projector (project_expr e alias) w = render_expr_operand e w >>= λ (p, w').
      quote_ident alias >>= λ a. ok (p ++ lit " AS " ++ txt a, w')
  render_projector (project_field f alias) w =
      q_table f.entity (override_for override f.entity base) >>= λ t. q_col f.entity f.key >>= λ c.
      assert_ident (alias_of alias (get_column_name f.entity f.key)) >>= λ a.
      quote_ident a >>= λ a. ok (txt t ++ lit "." ++ txt c ++ lit " AS " ++ txt a, w)

  unfoldable pub render_projectors :
      List FieldProjector → List Value → Built (List Sql × List Value)
  render_projectors [] w = ok ([], w)
  render_projectors (f ∷ fs) w =
      render_projector f w >>= λ (p, w'). render_projectors fs w' >>= λ (ps, w''). ok (p ∷ ps, w'')

  -- All the columns of the base entity, under their property names.
  unfoldable pub default_projection : List Column → Built (List Sql)
  default_projection [] = ok []
  default_projection (c ∷ cs) = assert_ident c.property_key >>= λ key.
      q_table base override >>= λ t. quote_ident c.sql_name >>= λ n. quote_ident key >>= λ k.
      default_projection cs >>= λ ps. ok ((txt t ++ lit "." ++ txt n ++ lit " AS " ++ txt k) ∷ ps)

  unfoldable pub render_display : JoinExpr → Text → Option Text → Built (List Sql)
  render_display j alias none = ok []
  render_display j alias (some name) =
      q_table j.right_ref.entity (override_for override j.right_ref.entity base) >>= λ t.
      quote_ident (get_column_name j.right_ref.entity j.right_ref.key) >>= λ c.
      quote_ident alias >>= λ a. quote_ident name >>= λ n. ok (
        (lit "COALESCE("
          ++ txt a
          ++ lit ".display_name, "
          ++ txt t
          ++ lit "."
          ++ txt c
          ++ lit ") AS "
          ++ txt n)
        ∷ [])

  unfoldable pub render_displays : List JoinExpr → Built (List Sql)
  unfolding display_field
  render_displays [] = ok []
  render_displays (j ∷ js) =
      let alias = alias_of (given j.alias) [] in
      render_display j alias (display_field alias) >>= λ ps.
      render_displays js >>= λ qs. ok (ps ++ qs)

  unfoldable pub projected : List FieldProjector → List Value → Built (List Sql × List Value)
  projected [] w = default_projection base.columns >>= λ ps. ok (ps, w)
  projected (f ∷ fs) w = render_projectors (f ∷ fs) w

  -- renderProjection
  unfoldable pub render_projection :
      List FieldProjector → List JoinExpr → List Value → Built (List Sql × List Value)
  render_projection fields joins w =
      projected fields w >>= λ (ps, w'). render_displays joins >>= λ qs. ok (ps ++ qs, w')

abbrev pub cast_in_join_of : Option Column → Option Text
cast_in_join_of none = none
cast_in_join_of (some c) = given c.cast_in_join

-- The cast of the right side: the one given, else that of its column.
unfoldable pub right_cast : Option Text → Option Column → Option Text
right_cast (some t) c = some t
right_cast none c = cast_in_join_of c

abbrev pub with_cast : Text → Option Text → Text
with_cast e none = e
with_cast e (some t) = e ++ codes "::" ++ t

abbrev pub is_uuid : Option Text → Bool
is_uuid none = false
is_uuid (some t) = text_eq t (codes "uuid")

-- A comparison with a cast to uuid is guarded by the pattern of one.
unfoldable pub on_expr : Bool → Text → Text → Text → Text
on_expr true raw right left =
    codes "CASE WHEN "
    ++ raw
    ++ codes " ~ '^[0-9a-fA-F-]{36}$' THEN "
    ++ right
    ++ codes " = "
    ++ left
    ++ codes " ELSE FALSE END"
on_expr false raw right left = right ++ codes " = " ++ left

abbrev pub alias_clause : Option Text → Built Text
alias_clause none = ok []
alias_clause (some a) = quote_ident a >>= λ q. ok (codes " AS " ++ q)

unfoldable pub left_table : JoinExpr → Option Text → Built Text
left_table j none = q_table j.left_ref.entity none
left_table j (some a) = quote_ident a

unfoldable pub right_table : Bool → Option Text → JoinExpr → Option Text → Built Text
right_table true override j alias = q_table j.right_ref.entity (given override)
right_table false override j none = q_table j.right_ref.entity none
right_table false override j (some a) = quote_ident a

-- One round of renderJoins.
unfoldable pub render_join : Entity → Option Text → JoinExpr → Built Text
unfolding right_table left_table on_expr right_cast
render_join base override j = q_table j.left_ref.entity none >>= λ join_table.
    alias_clause (given j.alias) >>= λ clause.
    assert_ident (get_column_name j.right_ref.entity j.right_ref.key) >>= λ column.
    right_table (j.right_ref.entity.id == base.id) override j (given j.alias) >>= λ table.
    quote_ident column >>= λ quoted. left_table j (given j.alias) >>= λ left.
    quote_ident (get_column_name j.left_ref.entity j.left_ref.key) >>= λ left_column.
    let raw = table ++ codes "." ++ quoted in
    let cast = right_cast (given j.cast_right_to) (find_column j.right_ref.entity.columns column) in
    ok (
      join_text j.type
      ++ codes " JOIN "
      ++ join_table
      ++ clause
      ++ codes " ON "
      ++ on_expr (is_uuid cast) raw (with_cast raw cast)
          (with_cast (left ++ codes "." ++ left_column) (given j.cast_left_to)))

unfoldable pub render_joins : Entity → Option Text → List JoinExpr → Built (List Text)
render_joins base override [] = ok []
render_joins base override (j ∷ js) =
    render_join base override j >>= λ s. render_joins base override js >>= λ ss. ok (s ∷ ss)
