-- ===== src/Repository/Tests.antt =====
-- The theorems on writes at a concrete entity.
use primebrick_v3_dal.Base.{
  ℕ, suc, true, false, none, some, List, [], ◌∷◌, ◌≡◌, refl, All, Text, codes, Bool, text_eq,
  includes, sort_by,
}
use primebrick_v3_dal.Query.Dsl
use primebrick_v3_dal.Query.Dsl.{Value}
use primebrick_v3_dal.Repository.Columns.{
  version, deleted_at, ColumnMeta, EntityMeta, find_version_column, is_auditable_entity, Payload,
  payload_at, Written, ok, err,
}
use primebrick_v3_dal.Query.Writer.{quote_ident, is_valid_ident}
use primebrick_v3_dal.Repository.Identity.{MatchCondition, resolve_match_conditions}
use primebrick_v3_dal.Repository.Identity.Known.{Identified}
use primebrick_v3_dal.Repository.Identity.Conditions.{
  keys_of, Faithful, resolve_match_conditions-Identified,
}
use primebrick_v3_dal.Repository.Draft.Bounds.{Holds}
use primebrick_v3_dal.Repository.Update.{update_statement}
use primebrick_v3_dal.Repository.Remove.{delete_statement, restore_statement, hard_delete_statement}
use primebrick_v3_dal.Repository.Write.{
  Query, raise_stale, Reply, failed, rows, WriteOptions, update, delete, restore, hard_delete,
}
use primebrick_v3_dal.Repository.Write.Effects.{Effects, writes-Effects}
use primebrick_v3_dal.Repository.Bounds.{PlannedInRange, writes-InRange}

abbrev plain : Text → ColumnMeta
plain name = record {
  property_key = name;
  sql_name = name;
  is_key = false;
  is_unique = false;
  unique_index_name = none;
  unique_index_order = 0;
  is_auditable = false;
  auditable_type = none;
  is_deletable = false;
  deletable_type = none;
}

abbrev orders : EntityMeta
orders = record {
  id = 0;
  table_schema = codes "sales";
  table_name = codes "orders";
  entity_class_name = codes "Order";
  table = codes "\"sales\".\"orders\"";
  is_auditable = true;
  columns =
      record (plain (codes "id")) { is_key = true }
      ∷ record (plain (codes "code")) {
        is_unique = true;
        unique_index_name = some (codes "u");
        unique_index_order = 1;
      }
      ∷ record (plain (codes "year")) { is_unique = true; unique_index_name = some (codes "u") }
      ∷ record (plain (codes "ref")) { is_unique = true }
      ∷ record (plain (codes "version")) { auditable_type = some version }
      ∷ record (plain (codes "deleted_at")) {
        is_deletable = true;
        deletable_type = some deleted_at;
      }
      ∷ [];
}

abbrev payload : Payload
payload =
    (codes "code", some (Dsl.text (codes "a")))
    ∷ (codes "year", some (Dsl.number (codes "26")))
    ∷ (codes "version", some (Dsl.number (codes "3")))
    ∷ []

conditions : List MatchCondition
conditions =
    record {
      column = record (plain (codes "year")) {
        is_unique = true;
        unique_index_name = some (codes "u");
      };
      property_key = codes "year";
      value = Dsl.number (codes "26");
    }
    ∷ record {
      column = record (plain (codes "code")) {
        is_unique = true;
        unique_index_name = some (codes "u");
        unique_index_order = 1;
      };
      property_key = codes "code";
      value = Dsl.text (codes "a");
    }
    ∷ []

abbrev remaining : Payload
remaining = (codes "version", some (Dsl.number (codes "3"))) ∷ []

resolve_match_conditions-Identified_example :
    Identified orders (keys_of conditions)
    × All (Faithful orders payload) conditions
    × All (λ k. payload_at k remaining ≡ none) (keys_of conditions)
unfolding resolve_match_conditions conditions text_eq includes sort_by
resolve_match_conditions-Identified_example =
    resolve_match_conditions-Identified orders payload (codes "code" ∷ []) conditions remaining refl

abbrev changed : Payload
changed = (codes "ref", some (Dsl.text (codes "x"))) ∷ payload

writes-InRange_example :
    Holds PlannedInRange
      (update_statement orders (some (Dsl.text (codes "me"))) changed (codes "code" ∷ []) [])
    × Holds PlannedInRange
        (delete_statement orders (some (Dsl.text (codes "me"))) changed (codes "code" ∷ []) [])
    × Holds PlannedInRange
        (restore_statement orders (some (Dsl.text (codes "me"))) changed (codes "code" ∷ []) [])
    × Holds PlannedInRange
        (hard_delete_statement orders (some (Dsl.text (codes "me"))) changed (codes "code" ∷ []) [])
writes-InRange_example =
    writes-InRange orders (some (Dsl.text (codes "me"))) [] (codes "code" ∷ []) changed

is_ok : {A : Type 0} → Written A → Bool
is_ok (ok a) = true
is_ok (err e) = false

-- The four statements of the witness are there.
writes_are_built :
    (is_ok (update_statement orders (some (Dsl.text (codes "me"))) changed (codes "code" ∷ []) [])
      ≡ true)
    × (is_ok (
          hard_delete_statement orders
            (some (Dsl.text (codes "me")))
            changed
            (codes "code" ∷ [])
            [])
        ≡ true)
unfolding is_ok update_statement hard_delete_statement text_eq includes sort_by find_version_column
    is_auditable_entity quote_ident is_valid_ident
writes_are_built = (refl, refl)

-- A server that knows the order: it answers every query with one row, but raises the stale version.
abbrev server : Query → ℕ → Reply × ℕ
server raise_stale c = (failed (codes "ERR01"), suc c)
server q c = (rows (((codes "id", Dsl.number (codes "1")) ∷ []) ∷ []), suc c)

abbrev options : WriteOptions
options = record {
  by = some (Dsl.text (codes "me"));
  audit = true;
  match_by = codes "code" ∷ [];
  returning = [];
}

writes-Effects_example :
    Effects (update server orders options changed)
    × Effects (delete server orders options changed)
    × Effects (restore server orders options changed)
    × Effects (hard_delete server orders options changed)
writes-Effects_example = writes-Effects server orders options changed
