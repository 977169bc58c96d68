-- ===== src/Query/Render/Numbered.antt =====
-- Whatever the builder renders binds its values in the order of its placeholders.
use primebrick_v3_dal.Base.{
  true, false, Option, none, some, List, [], ◌∷◌, ◌++◌, refl, Text, codes, length, ◌+◌,
}
use primebrick_v3_dal.Query.Dsl
use primebrick_v3_dal.Query.Dsl.{
  Entity, Value, null, boolean, array, Values, end, item, FieldRef, SqlOperator, ilike, like,
  within, not_within, between, is, is_not, cosine, l2, inner_product, l1, hamming, jaccard, ne, ne2,
  eq, lt, le, gt, ge, matches, operator_text, Operand, operand_text, ExprOperand, FilterExpr,
  field_value, field_field, raw, expr, group, Filters, none_left, filter, operand_of, SortingExpr,
  by_field, by_alias, by_expr, direction_text,
}
use primebrick_v3_dal.Query.Writer.{Sql, param, txt, lit, quote_ident, add_param, to_vector_literal}
use primebrick_v3_dal.Query.Render.{
  as_list, add_all, compared, render_between, render_is, render_list, render_vector, render_unequal,
  render_plain, render_value, qualified, left_side, render_filter, render_filters, render_rest,
  render_conditions, render_sort, render_order_by,
}
use primebrick_v3_dal.Query.Render.Params.{
  Numbers, Numbers-code, Numbers-add, Numbers-behind, Numbers-wrap, Numbers-join, Numbers-word,
  Sound, Sound-bind, Sound-text, Sound-then, render_expr_operand-Sound,
}

abbrev NumbersAll : List Value → Sql × List Value → Type 0
NumbersAll w (p, w') = Numbers w p w'

add_all-Numbers : (vs w : List Value) → NumbersAll w (add_all vs w)
unfolding add_all add_param
add_all-Numbers [] w = Numbers-code w [] refl
add_all-Numbers (v ∷ []) w = Numbers-add v w
add_all-Numbers (v ∷ u ∷ vs) w =
    Numbers-join w (w ++ v ∷ []) _ (param (length w + 1) ∷ []) (add_all (u ∷ vs) (w ++ v ∷ [])).0
      (lit ", ") refl (Numbers-add v w) (add_all-Numbers (u ∷ vs) (w ++ v ∷ []))

render_plain-Sound :
    (left : Text) (op : SqlOperator) (v : Value) (suffix : Text) (w : List Value)
    → Sound w (render_plain left op v suffix w)
unfolding render_plain add_param
render_plain-Sound left op v suffix w = (v ∷ [], refl, refl)

render_list-Sound :
    (left : Text) (op : SqlOperator) (vs w : List Value) → Sound w (render_list left op vs w)
unfolding render_list
render_list-Sound left op vs w =
    Numbers-wrap w _ (add_all vs w).0 (compared left op (lit "(")) (lit ")") refl refl
      (add_all-Numbers vs w)

render_vector-Sound :
    (left : Text) (op : SqlOperator) (v : Value) (w : List Value)
    → Sound w (render_vector left op v w)
unfolding render_vector add_param
render_vector-Sound left op v w = (Dsl.text (to_vector_literal v) ∷ [], refl, refl)

render_unequal-Sound :
    (left : Text) (op : SqlOperator) (v : Value) (w : List Value)
    → Sound w (render_unequal left op v w)
unfolding render_unequal add_param
render_unequal-Sound left op v w = (v ∷ [], refl, refl)

render_between-Sound : (left : Text) (vs w : List Value) → Sound w (render_between left vs w)
unfolding render_between add_param
render_between-Sound left (a ∷ b ∷ []) w =
    Numbers-join w (w ++ a ∷ []) _ (compared left between (param (length w + 1) ∷ []))
      (param (length (w ++ a ∷ []) + 1) ∷ []) (lit " AND ") refl (a ∷ [], refl, refl)
      (Numbers-add b (w ++ a ∷ []))
render_between-Sound left [] w = tt
render_between-Sound left (a ∷ []) w = tt
render_between-Sound left (a ∷ b ∷ c ∷ vs) w = tt

render_is-Sound :
    (left : Text) (op : SqlOperator) (v : Value) (w : List Value) → Sound w (render_is left op v w)
unfolding render_is
render_is-Sound left op null w = Numbers-code w (compared left op (lit "NULL")) refl
render_is-Sound left op (boolean true) w = Numbers-code w (compared left op (lit "TRUE")) refl
render_is-Sound left op (boolean false) w = Numbers-code w (compared left op (lit "FALSE")) refl
render_is-Sound left op (Dsl.text s) w = tt
render_is-Sound left op (Dsl.number s) w = tt
render_is-Sound left op (array vs) w = tt

render_value-Sound :
    (left : Text) (op : SqlOperator) (v : Value) (w : List Value)
    → Sound w (render_value left op v w)
unfolding render_value
render_value-Sound left within v w = render_list-Sound left within (as_list v) w
render_value-Sound left not_within v w = render_list-Sound left not_within (as_list v) w
render_value-Sound left between v w = render_between-Sound left (as_list v) w
render_value-Sound left is v w = render_is-Sound left is v w
render_value-Sound left is_not v w = render_is-Sound left is_not v w
render_value-Sound left cosine v w = render_vector-Sound left cosine v w
render_value-Sound left l2 v w = render_vector-Sound left l2 v w
render_value-Sound left inner_product v w = render_vector-Sound left inner_product v w
render_value-Sound left l1 v w = render_vector-Sound left l1 v w
render_value-Sound left hamming v w = render_vector-Sound left hamming v w
render_value-Sound left jaccard v w = render_vector-Sound left jaccard v w
render_value-Sound left ne v w = render_unequal-Sound left ne v w
render_value-Sound left ne2 v w = render_unequal-Sound left ne2 v w
render_value-Sound left ilike v w = render_plain-Sound left ilike v (codes " ESCAPE '#'") w
render_value-Sound left like v w = render_plain-Sound left like v (codes " ESCAPE '#'") w
render_value-Sound left eq v w = render_plain-Sound left eq v [] w
render_value-Sound left lt v w = render_plain-Sound left lt v [] w
render_value-Sound left le v w = render_plain-Sound left le v [] w
render_value-Sound left gt v w = render_plain-Sound left gt v [] w
render_value-Sound left ge v w = render_plain-Sound left ge v [] w
render_value-Sound left matches v w = render_plain-Sound left matches v [] w

module _ (base : Entity) (override : Option Text) where
  mutual
    unfolding render_filter render_filters

    filter-Sound : (f : FilterExpr) (w : List Value) → Sound w (render_filter base override f w)
    filter-Sound (field_value f op v o) w =
        Sound-text w (left_side base override f op) _ (λ left. render_value-Sound left op v w)
    filter-Sound (field_field f op g o) w = Sound-text w (qualified base override f) _ (λ a.
        Sound-text w (qualified base override g) _
          (λ b. Numbers-code w (compared a op (txt b)) refl))
    filter-Sound (raw a op b o) w = Numbers-code w (compared a op (txt b)) refl
    filter-Sound (expr a op b o) w = Sound-bind w _ _ (render_expr_operand-Sound a w) (λ p w' n.
        Sound-then w w' p _ _ n (render_expr_operand-Sound b w')
          (λ q w'' m. Numbers-word w w' w'' p q (operator_text op) n m))
    filter-Sound (group fs o none) w =
        Sound-bind w _ _ (filters-Sound (operand_text o) fs w)
          (λ p w' n. Numbers-wrap w w' p (lit "(") (lit ")") refl refl n)
    filter-Sound (group fs o (some c)) w =
        Sound-bind w _ _ (filters-Sound (operand_text c) fs w)
          (λ p w' n. Numbers-wrap w w' p (lit "(") (lit ")") refl refl n)

    filters-Sound :
        (sep : Text) (fs : Filters) (w : List Value)
        → Sound w (render_filters base override sep fs w)
    filters-Sound sep none_left w = Numbers-code w [] refl
    filters-Sound sep (filter f none_left) w = filter-Sound f w
    filters-Sound sep (filter f (filter g fs)) w = Sound-bind w _ _ (filter-Sound f w) (λ p w' n.
        Sound-then w w' p _ _ n (filters-Sound sep (filter g fs) w')
          (λ q w'' m. Numbers-word w w' w'' p q sep n m))

  rest-Sound :
      (fs : List FilterExpr) (p : Sql) (w w' : List Value)
      → Numbers w p w'
      → Sound w (render_rest base override p fs w')
  unfolding render_rest
  rest-Sound [] p w w' n = n
  rest-Sound (f ∷ fs) p w w' n = Sound-then w w' p _ _ n (filter-Sound f w') (λ q w'' m.
      rest-Sound fs _ w w'' (Numbers-word w w' w'' p q (operand_text (operand_of f)) n m))

  -- The condition that a list of filters renders to, in a WHERE or a HAVING, has one placeholder
  -- for each value it binds, numbered on from the values bound before, in the order of the values;
  -- what was bound before stays in front.
  pub render_conditions-Sound :
      (fs : List FilterExpr) (w : List Value) → Sound w (render_conditions base override fs w)
  unfolding render_conditions
  render_conditions-Sound [] w = Numbers-code w [] refl
  render_conditions-Sound (f ∷ fs) w =
      Sound-bind w _ _ (filter-Sound f w) (λ p w' n. rest-Sound fs p w w' n)

  sort-Sound : (s : SortingExpr) (w : List Value) → Sound w (render_sort base override s w)
  unfolding render_sort
  sort-Sound (by_alias alias d) w =
      Sound-text w (quote_ident alias) _
        (λ a. Numbers-code w (txt a ++ lit " " ++ txt (direction_text d)) refl)
  sort-Sound (by_field f d) w =
      Sound-text w (qualified base override f) _
        (λ a. Numbers-code w (txt a ++ lit " " ++ txt (direction_text d)) refl)
  sort-Sound (by_expr e d) w = Sound-bind w _ _ (render_expr_operand-Sound e w) (λ p w' n.
      Numbers-behind w w' (p ++ lit " ") (txt (direction_text d)) refl
        (Numbers-behind w w' p (lit " ") refl n))

  -- The same of ORDER BY.
  pub render_order_by-Sound :
      (ss : List SortingExpr) (w : List Value) → Sound w (render_order_by base override ss w)
  unfolding render_order_by
  render_order_by-Sound [] w = Numbers-code w [] refl
  render_order_by-Sound (s ∷ []) w = sort-Sound s w
  render_order_by-Sound (s ∷ r ∷ ss) w = Sound-bind w _ _ (sort-Sound s w) (λ p w' n.
      Sound-then w w' p _ _ n (render_order_by-Sound (r ∷ ss) w')
        (λ q w'' m. Numbers-join w w' w'' p q (lit ", ") refl n m))
