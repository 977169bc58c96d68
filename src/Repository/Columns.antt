-- ===== src/Repository/Columns.antt =====
-- What the writes of the repository read of an entity's metadata and of a payload. The columns stand
-- in the order of `Object.values(meta.columns)`.
use primebrick_v3_dal.Base.{
  ℕ, Bool, true, false, not, ◌||◌, Option, none, some, List, [], ◌∷◌, Text, codes, text_eq, find,
  any, keep, if◌then◌else◌,
}
use primebrick_v3_dal.Query.Dsl.{Value, null}

pub data AuditableFieldType : Type 0 where
  created_at created_by updated_at updated_by version : AuditableFieldType

pub data DeletableFieldType : Type 0 where
  deleted_at deleted_by : DeletableFieldType

pub record ColumnMeta : Type 0 where
  pub property_key : Text
  pub sql_name : Text
  pub is_key : Bool
  pub is_unique : Bool
  pub unique_index_name : Option Text
  pub unique_index_order : ℕ
  pub is_auditable : Bool
  pub auditable_type : Option AuditableFieldType
  pub is_deletable : Bool
  pub deletable_type : Option DeletableFieldType

-- `table` is what `getQualifiedTableName` answers.
pub record EntityMeta : Type 0 where
  pub id : ℕ
  pub table_schema : Text
  pub table_name : Text
  pub entity_class_name : Text
  pub table : Text
  pub is_auditable : Bool
  pub columns : List ColumnMeta

-- A property of a payload may be there with the value `undefined`, which is `none`.
abbrev pub Payload : Type 0
Payload = List (Text × Option Value)

unfoldable pub payload_at : Text → Payload → Option Value
payload_at prop [] = none
payload_at prop ((key, value) ∷ p) = if text_eq key prop then value else payload_at prop p

-- `delete remaining[prop]`
unfoldable pub without : Text → Payload → Payload
without prop p = keep (λ (key, value). not (text_eq key prop)) p

-- `new Map(columns.map((c) => [c.propertyKey, c]))`, where the last of a key counts.
unfoldable pub col_by_prop : Text → List ColumnMeta → Option ColumnMeta
col_by_prop prop [] = none
col_by_prop prop (c ∷ cs) = elim (col_by_prop prop cs) [
  | some d ↦ some d
  | none ↦ if text_eq c.property_key prop then some c else none
]

-- findPkColumn
unfoldable pub find_pk_column : EntityMeta → Option ColumnMeta
find_pk_column meta = find (λ c. c.is_key) meta.columns

abbrev pub find_uuid_column : EntityMeta → Option ColumnMeta
find_uuid_column meta = find (λ c. text_eq c.sql_name (codes "uuid")) meta.columns

abbrev pub is_version : Option AuditableFieldType → Bool
is_version (some version) = true
is_version _ = false

abbrev pub is_updated_at : Option AuditableFieldType → Bool
is_updated_at (some updated_at) = true
is_updated_at _ = false

abbrev pub is_updated_by : Option AuditableFieldType → Bool
is_updated_by (some updated_by) = true
is_updated_by _ = false

abbrev pub is_deleted_at : Option DeletableFieldType → Bool
is_deleted_at (some deleted_at) = true
is_deleted_at _ = false

abbrev pub is_deleted_by : Option DeletableFieldType → Bool
is_deleted_by (some deleted_by) = true
is_deleted_by _ = false

-- findVersionColumn
unfoldable pub find_version_column : EntityMeta → Option ColumnMeta
find_version_column meta = find (λ c. is_version c.auditable_type) meta.columns

-- isAuditableEntity
unfoldable pub is_auditable_entity : EntityMeta → Bool
is_auditable_entity meta = meta.is_auditable || any (λ c. c.is_auditable) meta.columns

pub data WriteError : Type 0 where
  match_selector : Text → WriteError
  no_identity : WriteError
  missing_version : WriteError
  unknown_column : Text → WriteError
  no_fields : WriteError
  foreign_projection : WriteError
  not_deletable : WriteError
  invalid_identifier : Text → WriteError
  identity_conflict : Text → WriteError
  record_vanished : WriteError
  not_found : WriteError
  not_raised : WriteError
  refused : Text → WriteError

pub data Written (A : Type 0) : Type 0 where
  ok : A → Written A
  err : WriteError → Written A

infixl 5 ◌>>=◌
abbrev pub ◌>>=◌ : {A B : Type 0} → Written A → (A → Written B) → Written B
ok a >>= f = f a
err e >>= f = err e

-- extractVersion: the version that is expected, as `Number` reads it later, and the payload without it.
abbrev pub versioned : Text → Payload → Option Value → Written (Option Value × Payload)
versioned key p none = err missing_version
versioned key p (some null) = err missing_version
versioned key p (some v) = ok (some v, without key p)

unfoldable pub extract_version : Payload → Option ColumnMeta → Written (Option Value × Payload)
unfolding payload_at without
extract_version p none = ok (none, p)
extract_version p (some c) = versioned c.property_key p (payload_at c.property_key p)
