-- ===== src/SchemaDiff/Tests.antt =====
-- The theorems on the comparison of schemas at concrete columns and differences.
use primebrick_v3_dal.Base.{true, false, some, List, [], ◌∷◌, ◌≡◌, codes}
use primebrick_v3_dal.Base.{◌↔◌, All}
use primebrick_v3_dal.SchemaDiff.Drift.{SchemaMetaDiff, TableDiff, is_drift_clean}
use primebrick_v3_dal.SchemaDiff.Drift.Clean.{IsSettled, is_drift_clean_iff}
use primebrick_v3_dal.SchemaDiff.Types.{SchemaColumnMeta, types_compatible_for_rename}
use primebrick_v3_dal.SchemaDiff.Types.Compatible.{types_compatible_for_rename_comm}
use primebrick_v3_dal.SchemaDiff.Renames.{Candidate, match_greedily}
use primebrick_v3_dal.SchemaDiff.Renames.Matching.{IsMatching, match_greedily-IsMatching}

abbrev hinted : SchemaColumnMeta
hinted = record {
  ordinal_position = some 2;
  data_type = codes "bigint";
  typname = [];
  typcategory = [];
  format_type = [];
  is_nullable = some true;
  is_primary_key = false;
}

abbrev catalogued : SchemaColumnMeta
catalogued = record hinted {
  typname = codes "int8";
  data_type = codes "int8";
  typcategory = codes "N";
}

types_compatible_for_rename_comm_example :
    types_compatible_for_rename hinted catalogued ≡ types_compatible_for_rename catalogued hinted
types_compatible_for_rename_comm_example = types_compatible_for_rename_comm hinted catalogued

-- Two entity columns that compete for one database column, and a further pair.
abbrev candidates : List Candidate
candidates =
    record { e = codes "name"; d = codes "title"; match_tier = 0 }
    ∷ record { e = codes "label"; d = codes "title"; match_tier = 1 }
    ∷ record { e = codes "label"; d = codes "caption"; match_tier = 1 }
    ∷ []

match_greedily-IsMatching_example : IsMatching (match_greedily [] [] candidates)
match_greedily-IsMatching_example = match_greedily-IsMatching [] [] candidates

-- A table with a column and an index that only the database has.
abbrev extras : TableDiff
extras = record {
  only_in_entity_columns = [];
  only_in_database_columns = codes "legacy" ∷ [];
  likely_renames = [];
  type_mismatches = [];
  nullability_mismatches = [];
  only_in_entity_indexes = [];
  only_in_database_indexes = codes "legacy_idx" ∷ [];
  index_mismatches = [];
  only_in_entity_foreign_keys = [];
  only_in_database_foreign_keys = [];
  foreign_key_mismatches = [];
}

abbrev difference : SchemaMetaDiff
difference = record {
  only_in_entity_tables = [];
  only_in_database_tables = codes "crm.old" ∷ [];
  user_review_required = false;
  tables = (codes "crm.customers", extras) ∷ [];
}

is_drift_clean_iff_example :
    (is_drift_clean difference ≡ true)
    ↔ ((difference.only_in_entity_tables ≡ []) × All (λ p. IsSettled p.1) difference.tables)
is_drift_clean_iff_example = is_drift_clean_iff difference
