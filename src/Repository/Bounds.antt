-- ===== src/Repository/Bounds.antt =====
-- The placeholders of the four single-row writes.
use primebrick_v3_dal.Base.{◌+◌, ◌≤◌, Bool, Option, List, [], ◌∷◌, Text, length, any, codes, arith}
use primebrick_v3_dal.Query.Dsl.{Value, FieldProjector}
use primebrick_v3_dal.Repository.Columns.{
  is_auditable_entity, EntityMeta, Payload, extract_version, find_version_column, Written, ◌>>=◌,
}
use primebrick_v3_dal.Repository.Identity.{
  MatchCondition, unique_conflict_groups, resolve_match_conditions,
}
use primebrick_v3_dal.Repository.Draft.{
  Draft, stamps, stamp_updated, update_stamps, delete_stamps, restore_stamps, clear, set_text, when,
  deleted_at_column, deleted_by_column, updated_at_column, updated_by_column, quote, actor_param,
}
use primebrick_v3_dal.Repository.Statement.{
  set_fields, Refs, VersionGuard, version_guard, guarded_update, guarded_delete, write_parts,
}
use primebrick_v3_dal.Repository.Draft
use primebrick_v3_dal.Repository.Draft.Bounds.{
  Holds, Holds-bind, Holds-any, InDraft, Drafts, stamp-InDraft, bump-InDraft, when-InDraft,
  clear-InDraft,
}
use primebrick_v3_dal.Repository.Statement.Bounds.{
  append-InRange, PartsInRange, write_parts-InRange,
}
use primebrick_v3_dal.Repository.Update.{
  UniquePredicate, unique_predicates, update_sql, some_fields, Planned, update_statement,
}
use primebrick_v3_dal.Repository.Update.Bounds.{
  StatementInRange, Fielded, set_fields-Fielded, PredicatesIn, unique_predicates-PredicatesIn,
  guarded_update-InRange, conflict_update-InRange,
}
use primebrick_v3_dal.Repository.Remove.{
  empty_draft, assert_deletable, mark_statement, delete_statement, restore_statement,
  hard_delete_statement,
}

abbrev pub PlannedInRange : Planned → Type 0
PlannedInRange p = StatementInRange p.statement

module _ (meta : EntityMeta) (by : Option Value) where
  abbrev marked : Bool
  marked = stamps meta by

  stamp_updated-InDraft : (d : Draft) → InDraft d → Drafts (stamp_updated meta by d)
  unfolding stamp_updated
  stamp_updated-InDraft d h =
      Holds-bind InDraft InDraft _ _ (stamp-InDraft (updated_at_column meta) Draft.now d h)
        (λ e i. stamp-InDraft (updated_by_column meta) (actor_param by) e i)

  update_stamps-InDraft : (d : Draft) → InDraft d → Drafts (update_stamps meta by d)
  unfolding update_stamps
  update_stamps-InDraft d h =
      Holds-bind InDraft InDraft _ _ (stamp_updated-InDraft d h)
        (λ e i. bump-InDraft (find_version_column meta) e i)

  delete_stamps-InDraft : (d : Draft) → InDraft d → Drafts (delete_stamps meta by d)
  unfolding delete_stamps
  delete_stamps-InDraft d h =
      Holds-bind InDraft InDraft _ _ (stamp-InDraft (deleted_at_column meta) Draft.now d h)
        (λ d1 h1.
          Holds-bind InDraft InDraft
            (when marked (Draft.stamp (deleted_by_column meta) (actor_param by)) d1) _
            (when-InDraft marked _ d1 h1
              (λ e i. stamp-InDraft (deleted_by_column meta) (actor_param by) e i))
            (λ d2 h2.
              Holds-bind InDraft InDraft (when marked (stamp_updated meta by) d2) _
                (when-InDraft marked _ d2 h2 stamp_updated-InDraft)
                (λ d3 h3.
                  when-InDraft (is_auditable_entity meta) _ d3 h3
                    (λ e i. bump-InDraft (find_version_column meta) e i))))

  restore_stamps-InDraft : (d : Draft) → InDraft d → Drafts (restore_stamps meta by d)
  unfolding restore_stamps
  restore_stamps-InDraft d h =
      Holds-bind InDraft InDraft _ _ (clear-InDraft (deleted_at_column meta) d h) (λ d1 h1.
        Holds-bind InDraft InDraft _ _ (clear-InDraft (deleted_by_column meta) d1 h1) (λ d2 h2.
          Holds-bind InDraft InDraft (when marked (stamp_updated meta by) d2) _
            (when-InDraft marked _ d2 h2 stamp_updated-InDraft)
            (λ d3 h3.
              when-InDraft (is_auditable_entity meta) _ d3 h3
                (λ e i. bump-InDraft (find_version_column meta) e i))))

  module _ (fields : List FieldProjector) (match_by : List Text) where
    -- A draft with a field has a value.
    some_fields-Fielded :
        (r : Draft × Refs)
        → Fielded r
        → Holds (λ f. Fielded f × (1 ≤ length f.0.values)) (some_fields r)
    some_fields-Fielded (d, []) h = tt
    some_fields-Fielded (d, r ∷ refs) (h, ((low, high), i)) =
        ((h, ((low, high), i)), omega (arith, low, high))

    update_sql-InRange :
        (cs : List MatchCondition) (version : VersionGuard) (d : Draft) (ps : List UniquePredicate)
        → InDraft d
        → PredicatesIn (length d.values) ps
        → 1 ≤ length d.values
        → Holds StatementInRange (update_sql meta cs version fields d ps)
    unfolding update_sql
    update_sql-InRange cs version d [] h i low =
        guarded_update-InRange meta cs version fields "upd" (codes "update") d h
    update_sql-InRange cs version d (p ∷ ps) h i low =
        conflict_update-InRange meta cs version fields d (p ∷ ps) h i low

    update-Planned :
        (updates : Payload)
        → Holds PlannedInRange (update_statement meta by updates match_by fields)
    unfolding update_statement
    update-Planned updates =
        Holds-bind (λ _. Unit) _ (resolve_match_conditions meta updates match_by) _ (Holds-any _)
          (λ r _.
            Holds-bind (λ _. Unit) _ (extract_version r.1 (find_version_column meta)) _
              (Holds-any _)
              (λ x _.
                Holds-bind InDraft _ (when (stamps meta by) (update_stamps meta by) empty_draft) _
                  (when-InDraft _ _ empty_draft tt update_stamps-InDraft)
                  (λ d h.
                    Holds-bind (λ f. Fielded f × (1 ≤ length f.0.values)) _
                      (set_fields meta x.1 d [] >>= some_fields) _
                      (Holds-bind Fielded _ (set_fields meta x.1 d []) _
                        (set_fields-Fielded meta x.1 d [] h tt) (λ f i. some_fields-Fielded f i))
                      (λ f i.
                        Holds-bind (PredicatesIn (length f.0.values)) _
                          (unique_predicates f.1 (unique_conflict_groups meta)) _
                          (unique_predicates-PredicatesIn (length f.0.values) f.1
                            (unique_conflict_groups meta) i.0.1)
                          (λ ps j.
                            Holds-bind StatementInRange _
                              (update_sql meta r.0 (version_guard (find_version_column meta) x.0)
                                fields f.0 ps)
                              _ (update_sql-InRange r.0 _ f.0 ps i.0.0 j i.1) (λ s w. w))))))

    mark-Planned :
        (match : Payload) (f : Draft → Written Draft) (op : Text)
        → Drafts (f empty_draft)
        → Holds PlannedInRange (mark_statement meta by match match_by fields f op)
    unfolding mark_statement
    mark-Planned match f op h =
        Holds-bind (λ _. Unit) _ (resolve_match_conditions meta match match_by) _ (Holds-any _)
          (λ r _.
            Holds-bind (λ _. Unit) _ (assert_deletable (any (λ c. c.is_deletable) meta.columns)) _
              (Holds-any _)
              (λ _ _.
                Holds-bind (λ _. Unit) _ (extract_version match (find_version_column meta)) _
                  (Holds-any _)
                  (λ x _. Holds-bind InDraft _ (f empty_draft) _ h (λ d i.
                    Holds-bind StatementInRange _
                      (guarded_update meta r.0 (version_guard (find_version_column meta) x.0) fields
                        "w" op d)
                      _ (guarded_update-InRange meta r.0 _ fields "w" op d i) (λ s w. w)))))

    guarded_delete-InRange :
        (cs : List MatchCondition) (version : VersionGuard)
        → Holds StatementInRange (guarded_delete meta cs version fields)
    unfolding guarded_delete
    guarded_delete-InRange cs version =
        Holds-bind (λ p. PartsInRange p × (0 + length cs ≤ length p.values)) _
          (write_parts meta cs version fields (codes "hardDelete") []) _
          (write_parts-InRange meta cs version fields (codes "hardDelete") [])
          (λ p ((g, w, r), n).
            let k = length p.values in
            (
              tt,
              append-InRange k p.guard _ g (
                tt,
                append-InRange k p.where_sql _ w (tt, append-InRange k p.returning _ r (tt, tt)),
              ),
            ))

    hard_delete-Planned :
        (match : Payload)
        → Holds PlannedInRange (hard_delete_statement meta by match match_by fields)
    unfolding hard_delete_statement
    hard_delete-Planned match =
        Holds-bind (λ _. Unit) _ (resolve_match_conditions meta match match_by) _ (Holds-any _)
          (λ r _.
            Holds-bind (λ _. Unit) _ (extract_version match (find_version_column meta)) _
              (Holds-any _)
              (λ x _.
                Holds-bind StatementInRange _
                  (guarded_delete meta r.0 (version_guard (find_version_column meta) x.0) fields) _
                  (guarded_delete-InRange r.0 _) (λ s w. w)))

    -- Where a single-row write has a statement, each of its placeholders is for one of the values bound.
    pub writes-InRange :
        (payload : Payload)
        → Holds PlannedInRange (update_statement meta by payload match_by fields)
          × Holds PlannedInRange (delete_statement meta by payload match_by fields)
          × Holds PlannedInRange (restore_statement meta by payload match_by fields)
          × Holds PlannedInRange (hard_delete_statement meta by payload match_by fields)
    unfolding delete_statement restore_statement
    writes-InRange payload = (
      update-Planned payload,
      mark-Planned payload (delete_stamps meta by) (codes "delete")
          (delete_stamps-InDraft empty_draft tt),
      mark-Planned payload (restore_stamps meta by) (codes "restore")
          (restore_stamps-InDraft empty_draft tt),
      hard_delete-Planned payload,
    )
