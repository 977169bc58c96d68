-- ===== src/SchemaDiff/Types.antt =====
-- src/schema-diff/schema-type-normalize.ts: types made comparable. An absent or null field is the
-- empty text, as the code reads it.
pub mod Compatible
use primebrick_v3_dal.Base.{
  ℕ, Bool, true, false, not, ◌&&◌, ◌||◌, ◌==◌, Option, none, some, List, [], ◌∷◌, ◌++◌, Text, codes,
  text_eq, includes, starts_with, strip_prefix, to_lower, leb, is_empty, reverse, if◌then◌else◌,
}

-- SchemaColumnMeta of schema-types.ts, the fields that typing and renaming read.
pub record SchemaColumnMeta : Type 0 where
  pub ordinal_position : Option ℕ
  pub data_type : Text
  pub typname : Text
  pub typcategory : Text
  pub format_type : Text
  pub is_nullable : Option Bool
  pub is_primary_key : Bool

-- `includes` on strings
unfoldable pub has_part : Text → Text → Bool
has_part pat [] = is_empty pat
has_part pat (c ∷ s) = starts_with (c ∷ s) pat || has_part pat s

unfoldable pub ends_with : Text → Text → Bool
ends_with s suffix = starts_with (reverse s) (reverse suffix)

-- Array types in the text of a type: what stands before `[]`.
abbrev pub without_brackets : Text → Text
without_brackets s = elim (strip_prefix (codes "][") (reverse s)) [ none ↦ s | some r ↦ reverse r ]

-- spatialBucket
unfoldable pub spatial_bucket : Text → Text → Option Text
spatial_bucket n typcategory =
    if text_eq typcategory (codes "G")
      || includes (codes "geometry" ∷ codes "geography" ∷ codes "box2d" ∷ codes "box3d" ∷ []) n
    then some (codes "spatial:" ++ (if is_empty n then codes "geometry" else n))
    else none

-- The digits that a text starts with, and what follows them.
abbrev pub digits : Text → Text × Text
digits [] = ([], [])
digits (c ∷ s) =
    let (d, r) = digits s in if leb b'0' c && leb c b'9' then (c ∷ d, r) else ([], c ∷ s)

-- /vector\((\d+)\)/, the first match
abbrev pub dimension_at : Text × Text → Option Text
dimension_at ([], r) = none
dimension_at (c ∷ d, []) = none
dimension_at (c ∷ d, x ∷ r) = if x == b')' then some (c ∷ d) else none

abbrev pub dimension_of : Option Text → Option Text
dimension_of none = none
dimension_of (some r) = dimension_at (digits r)

abbrev pub or_next : Option Text → Option Text → Option Text
or_next none later = later
or_next (some d) later = some d

unfoldable pub vector_dimension : Text → Option Text
vector_dimension [] = none
vector_dimension (c ∷ s) =
    or_next (dimension_of (strip_prefix (codes "vector(") (c ∷ s))) (vector_dimension s)

abbrev pub vector_text : Option Text → Text
vector_text none = codes "vector"
vector_text (some d) = codes "vector(" ++ d ++ codes ")"

abbrev pub timestamp_aliases : List Text
timestamp_aliases =
    codes "timestamp"
    ∷ codes "timestamptz"
    ∷ codes "timestamp without time zone"
    ∷ codes "timestamp with time zone"
    ∷ []

-- The names that stand for themselves or for another one.
unfoldable pub known_name : Text → Option Text
known_name t =
    if includes (codes "int4" ∷ codes "integer" ∷ []) t
    then some (codes "int4")
    else if includes (codes "int8" ∷ codes "bigint" ∷ []) t
    then some (codes "int8")
    else if includes (codes "int2" ∷ codes "smallint" ∷ []) t
    then some (codes "int2")
    else if includes (codes "bool" ∷ codes "boolean" ∷ []) t
    then some (codes "bool")
    else if includes (codes "float4" ∷ codes "real" ∷ []) t
    then some (codes "float4")
    else if includes (codes "float8" ∷ codes "double precision" ∷ []) t
    then some (codes "float8")
    else if text_eq t (codes "numeric")
    then some (codes "numeric")
    else if includes (codes "varchar" ∷ codes "character varying" ∷ []) t
        || starts_with t (codes "varchar(")
    then some (codes "varchar")
    else if includes (codes "bpchar" ∷ codes "char" ∷ codes "character" ∷ []) t
    then some (codes "char")
    else if includes (codes "text" ∷ codes "uuid" ∷ codes "json" ∷ codes "jsonb" ∷ []) t
    then some t
    else none

unfoldable pub is_timestamp : Text → Text → Bool
is_timestamp t dt = includes timestamp_aliases t || includes timestamp_aliases dt

unfoldable pub is_zoned : Text → Text → Text → Bool
is_zoned t dt fmt =
    has_part (codes "tz") t || has_part (codes "time zone") dt || has_part (codes "tz") fmt

unfoldable pub is_vector : Text → Text → Bool
is_vector t fmt =
    text_eq t (codes "vector")
    || starts_with t (codes "vector(")
    || text_eq fmt (codes "vector")
    || starts_with fmt (codes "vector(")

-- What is left when no name is known.
unfoldable pub other_type : Text → Text → Text → Text
other_type t dt fmt =
    if not (is_empty t)
    then codes "raw:" ++ t
    else if not (is_empty dt)
    then codes "ischema:" ++ dt
    else if not (is_empty fmt)
    then codes "format:" ++ fmt
    else codes "unknown"

unfoldable pub unnamed_type : Text → Text → Text → Text
unfolding is_timestamp is_zoned is_vector other_type vector_dimension
unnamed_type t dt fmt =
    if is_timestamp t dt
    then if is_zoned t dt fmt then codes "timestamptz" else codes "timestamp"
    else if includes (codes "date" ∷ codes "time" ∷ codes "timetz" ∷ []) t
    then t
    else if is_vector t fmt
    then vector_text (or_next (vector_dimension t) (vector_dimension fmt))
    else other_type t dt fmt

-- The part behind the array test, on names in lower case.
unfoldable pub scalar_type : Text → Text → Text → Text
unfolding known_name unnamed_type
scalar_type t dt fmt = elim (known_name t) [ some n ↦ n | none ↦ unnamed_type t dt fmt ]

abbrev pub or_text : Option Text → Text → Text
or_text none t = t
or_text (some s) t = s

-- The call on the element type of an array, `{ typname }` alone, with its name reversed.
unfoldable pub element_type : Text → Text
unfolding scalar_type spatial_bucket
element_type [] = scalar_type [] [] []
element_type (a ∷ []) = scalar_type (a ∷ []) [] []
element_type (a ∷ b ∷ r) =
    let inner = element_type r in
    let name = reverse (a ∷ b ∷ r) in
    or_text (spatial_bucket name [])
      (if a == b']' && b == b'[' then codes "array:" ++ inner else scalar_type name [] [])

-- The name of the element type, where the type is an array.
unfoldable pub array_base : Text → Text → Text → Option Text
unfolding ends_with
array_base t dt fmt =
    if ends_with fmt (codes "[]")
    then some (without_brackets fmt)
    else if ends_with t (codes "[]")
    then some (without_brackets t)
    else if text_eq dt (codes "array") && starts_with t (codes "_")
    then strip_prefix (codes "_") t
    else none

unfoldable pub of_array : Option Text → Text → Text → Text → Text
unfolding element_type scalar_type
of_array (some base) t dt fmt = codes "array:" ++ element_type (reverse base)
of_array none t dt fmt = scalar_type t dt fmt

unfoldable pub comparable_from : Text → Text → Text → Text → Text
unfolding spatial_bucket array_base of_array
comparable_from t category dt fmt =
    or_text (spatial_bucket t category) (of_array (array_base t dt fmt) t dt fmt)

-- comparablePgType
unfoldable pub comparable_pg_type : SchemaColumnMeta → Text
unfolding comparable_from
comparable_pg_type m =
    comparable_from (to_lower m.typname) m.typcategory (to_lower m.data_type)
      (to_lower m.format_type)

-- a.dataType && b.typname && comparablePgType({ ...a, typname: a.dataType }) === comparablePgType(b)
unfoldable pub loosely_typed : SchemaColumnMeta → SchemaColumnMeta → Bool
unfolding comparable_pg_type
loosely_typed a b =
    (not (is_empty a.data_type) && not (is_empty b.typname))
    && text_eq (comparable_pg_type (record a { typname = a.data_type })) (comparable_pg_type b)

unfoldable pub same_known_type : Text → Text → Bool
same_known_type a b =
    (not (text_eq a (codes "unknown")) && not (text_eq b (codes "unknown"))) && text_eq a b

-- typesCompatibleForRename
unfoldable pub types_compatible_for_rename : SchemaColumnMeta → SchemaColumnMeta → Bool
unfolding loosely_typed same_known_type
types_compatible_for_rename a b =
    same_known_type (comparable_pg_type a) (comparable_pg_type b)
    || (loosely_typed a b || loosely_typed b a)
