-- ===== src/Query/ListFilters/Barrier.antt =====
-- The allowlists of list filters: which fields and operators can reach the query builder.
use primebrick_v3_dal.Base.{
  Bool, true, false, ◌&&◌, Option, none, some, List, [], ◌∷◌, ◌++◌, ◌≡◌, refl, ap, ◌∙◌, Text,
  includes, if◌then◌else◌, append_assoc, append-nil,
}
use primebrick_v3_dal.Query.Dsl
use primebrick_v3_dal.Query.Dsl.{
  Entity, Value, null, array, FieldRef, SqlOperator, eq, ne, ne2, lt, le, gt, ge, ilike, like,
  within, not_within, between, is, is_not, cosine, l2, inner_product, l1, hamming, jaccard, matches,
  Operand, FilterExpr, field_value, field_field, raw, expr, group, Filters, none_left, filter,
}
use primebrick_v3_dal.Query.ListFilters.{
  WireValue, plain, range, ListFilterCondition, ListFilterOptions, valid_ops_of, connector_of,
  has_op, between_value, condition_value, push, translate_condition, translate_each, to_filters,
  grouped, translate_filter_conditions,
}

-- A comparison of a field with a value; any other leaf is `none`.
abbrev Leaf : Type 0
Leaf = Option (FieldRef × SqlOperator)

abbrev mutual
  pub leaves : FilterExpr → List Leaf
  leaves (field_value f op v o) = some (f, op) ∷ []
  leaves (field_field f op g o) = none ∷ []
  leaves (raw a op b o) = none ∷ []
  leaves (expr a op b o) = none ∷ []
  leaves (group fs o c) = leaves_all fs

  pub leaves_all : Filters → List Leaf
  leaves_all none_left = []
  leaves_all (filter f fs) = leaves f ++ leaves_all fs

-- The leaves of what a translation returns.
abbrev pub result_leaves : Option (List FilterExpr) → List Leaf
result_leaves none = []
result_leaves (some fs) = leaves_all (to_filters fs)

-- A BETWEEN needs an array, or two bounds that are neither null nor undefined.
abbrev pub is_usable : SqlOperator → WireValue → Bool
is_usable between (plain (array vs)) = true
is_usable between (plain v) = false
is_usable between (range (some null) b) = false
is_usable between (range (some a) (some null)) = false
is_usable between (range (some a) (some b)) = true
is_usable between (range a b) = false
is_usable op v = true

abbrev pub leaf_of : Bool → Entity → Text → SqlOperator → List Leaf
leaf_of true e key op = some (record { entity = e; key = key }, op) ∷ []
leaf_of false e key op = []

abbrev pub admitted_leaf :
    Entity → ListFilterOptions → Text → Option SqlOperator → WireValue → List Leaf
admitted_leaf e options key none v = []
admitted_leaf e options key (some op) v =
    leaf_of
      ((has_op (valid_ops_of options) op && includes options.allowed_fields key) && is_usable op v)
      e key op

-- The conditions with an allowed operator, an allowed field and a usable value, in order.
abbrev pub admitted : Entity → ListFilterOptions → List ListFilterCondition → List Leaf
admitted e options [] = []
admitted e options (c ∷ cs) = admitted_leaf e options c.field c.op c.value ++ admitted e options cs

is_some : Option Value → Bool
is_some none = false
is_some (some v) = true

condition_value-is_usable :
    (f : Option (Text → Text)) (op : SqlOperator) (v : WireValue)
    → is_some (condition_value f op v) ≡ is_usable op v
unfolding is_some condition_value between_value
condition_value-is_usable f between (range none b) = refl
condition_value-is_usable f between (range (some null) b) = refl
condition_value-is_usable f between (range (some a) none) = refl
condition_value-is_usable f between (range (some a) (some null)) = refl
condition_value-is_usable f between (range (some a) (some b)) = refl
condition_value-is_usable f between (plain null) = refl
condition_value-is_usable f between (plain (Dsl.boolean b)) = refl
condition_value-is_usable f between (plain (Dsl.text s)) = refl
condition_value-is_usable f between (plain (Dsl.number s)) = refl
condition_value-is_usable f between (plain (array vs)) = refl
condition_value-is_usable f eq v = refl
condition_value-is_usable f ne v = refl
condition_value-is_usable f ne2 v = refl
condition_value-is_usable f lt v = refl
condition_value-is_usable f le v = refl
condition_value-is_usable f gt v = refl
condition_value-is_usable f ge v = refl
condition_value-is_usable f ilike v = refl
condition_value-is_usable f like v = refl
condition_value-is_usable f within v = refl
condition_value-is_usable f not_within v = refl
condition_value-is_usable f is v = refl
condition_value-is_usable f is_not v = refl
condition_value-is_usable f cosine v = refl
condition_value-is_usable f l2 v = refl
condition_value-is_usable f inner_product v = refl
condition_value-is_usable f l1 v = refl
condition_value-is_usable f hamming v = refl
condition_value-is_usable f jaccard v = refl
condition_value-is_usable f matches v = refl

push-leaves :
    (e : Entity) (key : Text) (op : SqlOperator) (o : Operand) (v : Option Value)
    → leaves_all (to_filters (push e key op o v)) ≡ leaf_of (is_some v) e key op
unfolding push is_some
push-leaves e key op o none = refl
push-leaves e key op o (some v) = refl

module _ (e : Entity) (options : ListFilterOptions) where
  condition-leaves :
      (key : Text) (op : Option SqlOperator) (v : WireValue)
      → leaves_all (to_filters (translate_condition e options key op v))
        ≡ admitted_leaf e options key op v
  unfolding translate_condition
  condition-leaves key none v = refl
  condition-leaves key (some op) v =
      by_test (has_op (valid_ops_of options) op && includes options.allowed_fields key)
    where
      value : Option Value
      value = condition_value options.escape_ilike op v

      by_test :
          (b : Bool)
          → leaves_all (to_filters (if b then push e key op (connector_of options) value else []))
            ≡ leaf_of (b && is_usable op v) e key op
      by_test true =
          push-leaves e key op (connector_of options) value
          ∙ ap (λ b. leaf_of b e key op) (condition_value-is_usable options.escape_ilike op v)
      by_test false = refl

  leaves_all-append :
      (fs gs : List FilterExpr)
      → leaves_all (to_filters (fs ++ gs))
        ≡ leaves_all (to_filters fs) ++ leaves_all (to_filters gs)
  leaves_all-append [] gs = refl
  leaves_all-append (f ∷ fs) gs = rw (leaves_all-append fs gs, append_assoc) refl

  each-leaves :
      (cs : List ListFilterCondition)
      → leaves_all (to_filters (translate_each e options cs)) ≡ admitted e options cs
  unfolding translate_each
  each-leaves [] = refl
  each-leaves (c ∷ cs) =
      rw
        (
          leaves_all-append (translate_condition e options c.field c.op c.value)
              (translate_each e options cs),
          condition-leaves c.field c.op c.value,
          each-leaves cs,
        )
        refl

  grouped-leaves :
      (o : Operand) (fs : List FilterExpr)
      → result_leaves (grouped o fs) ≡ leaves_all (to_filters fs)
  unfolding grouped
  grouped-leaves o [] = refl
  grouped-leaves o (f ∷ []) = append-nil (leaves f ++ [])
  grouped-leaves o (f ∷ g ∷ fs) =
      append-nil (leaves_all (to_filters (f ∷ g ∷ fs)) ++ [])
      ∙ append-nil (leaves_all (to_filters (f ∷ g ∷ fs)))

  -- What a list endpoint lets through are just its admissible conditions, in their order: each is
  -- one comparison of an allowed field of the entity, by an allowed operator; there is no raw text
  -- and no expression among them, and there is no result where there is none.
  pub translate_filter_conditions-admitted :
      (conditions : List ListFilterCondition)
      → result_leaves (translate_filter_conditions e options conditions)
        ≡ admitted e options conditions
  unfolding translate_filter_conditions
  translate_filter_conditions-admitted conditions =
      grouped-leaves (connector_of options) (translate_each e options conditions)
      ∙ each-leaves conditions
