-- ===== src/SchemaDiff/Types/Compatible.antt =====
-- The type test for renames does not depend on the side.
use primebrick_v3_dal.Base.{Bool, ◌||◌, ◌≡◌, refl, Text, text_eq_iff, arith}
use primebrick_v3_dal.SchemaDiff.Types.{
  SchemaColumnMeta, comparable_pg_type, loosely_typed, same_known_type, types_compatible_for_rename,
}

same_known_type_comm : (a b : Text) → same_known_type a b ≡ same_known_type b a
unfolding same_known_type
same_known_type_comm a b = ground (arith, text_eq_iff a b, text_eq_iff b a)

or_comm : (a b : Bool) → (a || b) ≡ (b || a)
or_comm a b = ground arith

-- Two columns are compatible for a rename whichever of them is taken as the entity's.
pub types_compatible_for_rename_comm :
    (a b : SchemaColumnMeta) → types_compatible_for_rename a b ≡ types_compatible_for_rename b a
unfolding types_compatible_for_rename
types_compatible_for_rename_comm a b =
    rw
      (
        same_known_type_comm (comparable_pg_type a) (comparable_pg_type b),
        or_comm (loosely_typed a b) (loosely_typed b a),
      )
      refl
