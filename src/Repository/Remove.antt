-- ===== src/Repository/Remove.antt =====
-- The statements of `delete`, `restore` and `hardDelete`.
use primebrick_v3_dal.Base.{Bool, true, false, Option, List, [], Text, codes, any}
use primebrick_v3_dal.Query.Dsl.{Value, FieldProjector}
use primebrick_v3_dal.Repository.Columns.{
  EntityMeta, Payload, extract_version, find_version_column, not_deletable, Written, ok, err, ◌>>=◌,
}
use primebrick_v3_dal.Repository.Identity.{resolve_match_conditions}
use primebrick_v3_dal.Repository.Draft.{Draft, delete_stamps, restore_stamps}
use primebrick_v3_dal.Repository.Statement.{version_guard, guarded_update, guarded_delete}
use primebrick_v3_dal.Repository.Update.{Planned}

abbrev pub empty_draft : Draft
empty_draft = record { sets = []; values = [] }

abbrev pub assert_deletable : Bool → Written Unit
assert_deletable true = ok tt
assert_deletable false = err not_deletable

module _ (meta : EntityMeta) (by : Option Value) (match : Payload) (match_by : List Text)
    (fields : List FieldProjector) where
  -- `delete` and `restore`, by their stamps.
  unfoldable pub mark_statement : (Draft → Written Draft) → Text → Written Planned
  unfolding resolve_match_conditions extract_version version_guard guarded_update
  mark_statement stamps op = resolve_match_conditions meta match match_by >>= λ (cs, remaining).
      assert_deletable (any (λ c. c.is_deletable) meta.columns) >>= λ _.
      extract_version match (find_version_column meta) >>= λ (expected, rest).
      stamps empty_draft >>= λ d.
      let version = version_guard (find_version_column meta) expected in
      guarded_update meta cs version fields "w" op d >>= λ s.
      ok (record { conditions = cs; version = version; statement = s })

  unfoldable pub delete_statement : Written Planned
  unfolding mark_statement delete_stamps
  delete_statement = mark_statement (delete_stamps meta by) (codes "delete")

  unfoldable pub restore_statement : Written Planned
  unfolding mark_statement restore_stamps
  restore_statement = mark_statement (restore_stamps meta by) (codes "restore")

  unfoldable pub hard_delete_statement : Written Planned
  unfolding resolve_match_conditions extract_version version_guard guarded_delete
  hard_delete_statement = resolve_match_conditions meta match match_by >>= λ (cs, remaining).
      extract_version match (find_version_column meta) >>= λ (expected, rest).
      let version = version_guard (find_version_column meta) expected in
      guarded_delete meta cs version fields >>= λ s.
      ok (record { conditions = cs; version = version; statement = s })
