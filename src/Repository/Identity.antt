-- ===== src/Repository/Identity.antt =====
-- Which row a write is about: the unique groups of an entity, the selector `matchBy`, and the
-- conditions that the payload has to meet.
pub mod Sets
pub mod Known
pub mod Laws
pub mod Conditions
use primebrick_v3_dal.Base.{
  ℕ, Bool, true, false, not, ◌&&◌, ◌||◌, leb, Option, none, some, List, [], ◌∷◌, ◌++◌, map, Text,
  text_eq, includes, sort_by, keep, find, is_empty, if◌then◌else◌,
}
use primebrick_v3_dal.Query.Dsl.{Value}
use primebrick_v3_dal.Query.Clauses.{given}
use primebrick_v3_dal.Repository.Columns.{
  ColumnMeta, EntityMeta, Payload, payload_at, without, col_by_prop, find_pk_column,
  find_uuid_column, match_selector, no_identity, Written, ok, err, ◌>>=◌,
}

pub record UniqueGroup : Type 0 where
  pub name : Text
  pub cols : List ColumnMeta

-- `named`: the group of a name, in the order of the names' first columns.
unfoldable pub add_named : Text → ColumnMeta → List UniqueGroup → List UniqueGroup
add_named name c [] = record { name = name; cols = c ∷ [] } ∷ []
add_named name c (g ∷ gs) =
    let rest = add_named name c gs in
    if text_eq g.name name then record g { cols = g.cols ++ c ∷ [] } ∷ gs else g ∷ rest

-- `groups` and `named` with one more column.
abbrev pub Groups : Type 0
Groups = List UniqueGroup × List UniqueGroup

unfoldable pub add_column : Bool → Option Text → ColumnMeta → Groups → Groups
unfolding add_named
add_column false name c gs = gs
add_column true none c (singles, named) =
    (singles ++ record { name = c.sql_name; cols = c ∷ [] } ∷ [], named)
add_column true (some name) c (singles, named) = (singles, add_named name c named)

unfoldable pub group_columns : List ColumnMeta → Groups → Groups
unfolding add_column
group_columns [] gs = gs
group_columns (c ∷ cs) gs =
    group_columns cs (add_column c.is_unique (given c.unique_index_name) c gs)

abbrev pub order_le : ColumnMeta → ColumnMeta → Bool
order_le a b = leb a.unique_index_order b.unique_index_order

abbrev pub sort_group : UniqueGroup → UniqueGroup
sort_group g = record g { cols = sort_by order_le g.cols }

-- uniqueConflictGroups
unfoldable pub unique_conflict_groups : EntityMeta → List UniqueGroup
unfolding group_columns
unique_conflict_groups meta =
    let (singles, named) = group_columns meta.columns ([], []) in singles ++ map sort_group named

abbrev pub props_of : List ColumnMeta → List Text
props_of cs = map (λ c. c.property_key) cs

-- `groupOf`, where the last group of a property counts.
unfoldable pub group_of : Text → List UniqueGroup → Option UniqueGroup
group_of prop [] = none
group_of prop (g ∷ gs) = elim (group_of prop gs) [
  | some h ↦ some h
  | none ↦ if includes (props_of g.cols) prop then some g else none
]

-- `required.add`, on a Set in the order of insertion.
unfoldable pub add_prop : List Text → Text → List Text
add_prop required prop = if includes required prop then required else required ++ prop ∷ []

unfoldable pub add_props : List Text → List Text → List Text
unfolding add_prop
add_props required [] = required
add_props required (p ∷ ps) = add_props (add_prop required p) ps

abbrev pub is_pk : Option ColumnMeta → Text → Bool
is_pk none prop = false
is_pk (some c) prop = text_eq prop c.property_key

abbrev pub add_selected : Bool → Text → Option UniqueGroup → List Text → Written (List Text)
add_selected pk prop (some g) required = ok (add_props required (props_of g.cols))
add_selected true prop none required = ok (add_prop required prop)
add_selected false prop none required = err (match_selector prop)

-- One property of `matchBy`.
unfoldable pub select_prop : EntityMeta → Text → List Text → Written (List Text)
unfolding col_by_prop find_pk_column unique_conflict_groups group_of add_prop add_props
select_prop meta prop required = elim (col_by_prop prop meta.columns) [
  | none ↦ err (match_selector prop)
  | some c ↦
      add_selected (is_pk (find_pk_column meta) prop) prop
        (group_of prop (unique_conflict_groups meta)) required
]

unfoldable pub select_props : EntityMeta → List Text → List Text → Written (List Text)
unfolding select_prop
select_props meta [] required = ok required
select_props meta (p ∷ ps) required = select_prop meta p required >>= λ r. select_props meta ps r

-- resolveSelectorProps; an absent `matchBy` is the empty list, a text the list of it.
unfoldable pub resolve_selector_props : EntityMeta → List Text → Written (List Text)
unfolding select_props
resolve_selector_props meta match_by = select_props meta match_by []

abbrev pub is_some : {A : Type 0} → Option A → Bool
is_some none = false
is_some (some a) = true

unfoldable pub assert_present : Payload → List Text → Written Unit
unfolding payload_at
assert_present p [] = ok tt
assert_present p (r ∷ rs) =
    let rest = assert_present p rs in
    if is_some (payload_at r p) then rest else err (match_selector r)

-- id and uuid, where the payload has them.
unfoldable pub add_auto : Payload → Option ColumnMeta → List Text → List Text
unfolding payload_at add_prop
add_auto p none required = required
add_auto p (some c) required =
    if is_some (payload_at c.property_key p) && not (is_empty c.property_key)
    then add_prop required c.property_key
    else required

pub record MatchCondition : Type 0 where
  pub column : ColumnMeta
  pub property_key : Text
  pub value : Value

-- `colByProp.get(prop)!` and `payload[prop]` are there for each of these properties.
unfoldable pub add_condition :
    Text → Option ColumnMeta → Option Value → List MatchCondition → List MatchCondition
add_condition k (some c) (some v) rest = record { column = c; property_key = k; value = v } ∷ rest
add_condition k _ _ rest = rest

unfoldable pub conditions_of : EntityMeta → Payload → List Text → List MatchCondition
unfolding payload_at col_by_prop add_condition
conditions_of meta p [] = []
conditions_of meta p (r ∷ rs) =
    add_condition r (col_by_prop r meta.columns) (payload_at r p) (conditions_of meta p rs)

unfoldable pub without_all : List Text → Payload → Payload
unfolding without
without_all [] p = p
without_all (r ∷ rs) p = without_all rs (without r p)

-- The properties that the payload is matched by.
unfoldable pub required_props : EntityMeta → Payload → List Text → List Text
unfolding add_auto find_pk_column
required_props meta p selected =
    add_auto p (find_uuid_column meta) (add_auto p (find_pk_column meta) selected)

abbrev pub some_condition : List MatchCondition → Payload → Written (List MatchCondition × Payload)
some_condition [] remaining = err no_identity
some_condition (c ∷ cs) remaining = ok (c ∷ cs, remaining)

-- resolveMatchConditions
unfoldable pub resolve_match_conditions :
    EntityMeta → Payload → List Text → Written (List MatchCondition × Payload)
unfolding resolve_selector_props assert_present required_props conditions_of without_all
resolve_match_conditions meta p match_by = resolve_selector_props meta match_by >>= λ selected.
    assert_present p selected >>= λ _.
    let required = required_props meta p selected in
    some_condition (conditions_of meta p required) (without_all required p)
