-- ===== src/SchemaDiff/Drift.antt =====
-- The result of a comparison of snapshots (SchemaMetaDiffV2 of src/schema-diff/schema-snapshot.ts),
-- and the drift test on it (src/migrations/drift.ts). An absent list is the empty one.
pub mod Clean
use primebrick_v3_dal.Base.{
  ℕ, Bool, true, false, not, ◌&&◌, ◌||◌, Option, List, [], ◌∷◌, Text, is_empty, all, if◌then◌else◌,
}

pub record LikelyRename : Type 0 where
  pub database_column : Text
  pub entity_column : Text
  pub match_tier : ℕ
  pub match_rule : Text
  pub reasons : List Text
  pub suggested_sql : Text

pub record TypeMismatch : Type 0 where
  pub column : Text
  pub entity_comparable : Text
  pub database_comparable : Text
  pub entity_type : Option Text
  pub database_type : Option Text
  pub entity_typname : Option Text
  pub database_typname : Option Text

pub record NullabilityMismatch : Type 0 where
  pub column : Text
  pub entity_nullable : Option Bool
  pub database_nullable : Option Bool

pub record IndexMismatch : Type 0 where
  pub name : Text
  pub entity_using : Option Text
  pub database_using : Option Text
  pub entity_columns : List Text
  pub database_columns : List Text

pub record ForeignKeyMismatch : Type 0 where
  pub name : Text
  pub entity_ref : Option Text
  pub database_ref : Option Text
  pub entity_on_delete : Option Text
  pub database_on_delete : Option Text

-- What is reported of one table.
pub record TableDiff : Type 0 where
  pub only_in_entity_columns : List Text
  pub only_in_database_columns : List Text
  pub likely_renames : List LikelyRename
  pub type_mismatches : List TypeMismatch
  pub nullability_mismatches : List NullabilityMismatch
  pub only_in_entity_indexes : List Text
  pub only_in_database_indexes : List Text
  pub index_mismatches : List IndexMismatch
  pub only_in_entity_foreign_keys : List Text
  pub only_in_database_foreign_keys : List Text
  pub foreign_key_mismatches : List ForeignKeyMismatch

pub record SchemaMetaDiff : Type 0 where
  pub only_in_entity_tables : List Text
  pub only_in_database_tables : List Text
  pub user_review_required : Bool
  pub tables : List (Text × TableDiff)

unfoldable pub has_intent : TableDiff → Bool
has_intent t =
    not (is_empty t.only_in_entity_columns)
    || not (is_empty t.likely_renames)
    || not (is_empty t.type_mismatches)
    || not (is_empty t.nullability_mismatches)
    || not (is_empty t.only_in_entity_indexes)
    || not (is_empty t.index_mismatches)
    || not (is_empty t.only_in_entity_foreign_keys)
    || not (is_empty t.foreign_key_mismatches)

unfoldable pub all_clean : List (Text × TableDiff) → Bool
unfolding has_intent
all_clean [] = true
all_clean ((key, t) ∷ ts) = let rest = all_clean ts in if has_intent t then false else rest

-- isDriftClean
unfoldable pub is_drift_clean : SchemaMetaDiff → Bool
unfolding all_clean
is_drift_clean d = if not (is_empty d.only_in_entity_tables) then false else all_clean d.tables
