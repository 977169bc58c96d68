-- ===== src/Repository/Write.antt =====
-- What the single-row writes send and what they make of the answers, over one connection: the
-- reading of the old row for the audit, the write, and the queries that tell why no row was written.
-- The result is the row of RETURNING, before it is cut to the visible keys; the audit entry that is
-- written without waiting for it is left out.
pub mod Effects
use primebrick_v3_dal.Base.{
  ℕ, ◌+◌, Bool, true, false, ◌&&◌, ltb, Option, none, some, List, [], ◌∷◌, ◌++◌, Text, codes, map,
  length, any, if◌then◌else◌,
}
use primebrick_v3_dal.Query.Dsl.{Value, FieldProjector}
use primebrick_v3_dal.Query.Writer.{Sql, txt, lit}
use primebrick_v3_dal.Repository.Columns.{
  EntityMeta, Payload, extract_version, find_version_column, is_auditable_entity, WriteError,
  identity_conflict, record_vanished, not_found, not_raised, refused, Written, ok, err, ◌>>=◌,
}
use primebrick_v3_dal.Repository.Identity.{MatchCondition, resolve_match_conditions, is_some}
use primebrick_v3_dal.Repository.Draft.{
  Draft, identity_where, stamps, update_stamps, delete_stamps, restore_stamps, when,
}
use primebrick_v3_dal.Repository.Statement.{Statement, bind_conditions, set_fields, VersionGuard}
use primebrick_v3_dal.Repository.Update.{some_fields, Planned, update_statement}
use primebrick_v3_dal.Repository.Remove.{
  empty_draft, assert_deletable, delete_statement, restore_statement, hard_delete_statement,
}

abbrev pub Row : Type 0
Row = List (Text × Value)

-- `raise_stale` is the DO block that raises ERR01.
pub data Query : Type 0 where
  read_old write exists : Statement → Query
  raise_stale : Query

pub data Reply : Type 0 where
  failed : Text → Reply
  rows : List Row → Reply

abbrev pub Event : Type 0
Event = Query × Reply

abbrev pub Io : Type 0 → Type 0 → Type 0
Io C A = C → Written A × List Event × C

-- The options of a write that matter to its statements.
pub record WriteOptions : Type 0 where
  pub by : Option Value
  pub audit : Bool
  pub match_by : List Text
  pub returning : List FieldProjector

module _ {C : Type 0} where
  abbrev pub lift : {A : Type 0} → Written A → Io C A
  lift r c = (r, [], c)

  abbrev pub continue :
      {A B : Type 0} → Written A × List Event × C → (A → Io C B) → Written B × List Event × C
  continue (ok a, log, c) f = let (r, log', c') = f a c in (r, log ++ log', c')
  continue (err e, log, c) f = (err e, log, c)

  infixl 5 ◌>>-◌
  abbrev pub ◌>>-◌ : {A B : Type 0} → Io C A → (A → Io C B) → Io C B
  (m >>- f) c = continue (m c) f

module _ {C : Type 0} where
  unfoldable pub if_guarded : VersionGuard → Io C Unit → Io C Unit
  if_guarded none m = lift (ok tt)
  if_guarded (some g) m = m

abbrev pub if_none : WriteError → List Row → Written Unit
if_none e [] = ok tt
if_none e (r ∷ rs) = err e

module _ {C : Type 0} (send : Query → C → Reply × C) where
  abbrev pub answered : Query → Reply × C → Written (List Row) × List Event × C
  answered q (failed e, c) = (err (refused e), (q, failed e) ∷ [], c)
  answered q (rows rs, c) = (ok rs, (q, rows rs) ∷ [], c)

  unfoldable pub query : Query → Io C (List Row)
  query q c = answered q (send q c)

  -- SELECT 1 FROM t WHERE … LIMIT 1
  unfoldable pub row_exists : Text → List MatchCondition → Io C (List Row)
  unfolding query identity_where bind_conditions
  row_exists table cs = lift (identity_where 1 cs) >>- λ where_sql. query (
      exists (record {
        sql =
            txt (codes "SELECT 1 FROM " ++ table ++ codes " WHERE ")
            ++ (where_sql ++ lit " LIMIT 1");
        values = bind_conditions cs [];
      }))

  -- A row under any single one of the identity fields.
  unfoldable pub probe_each : Text → List MatchCondition → Io C Unit
  unfolding row_exists
  probe_each table [] = lift (ok tt)
  probe_each table (c ∷ cs) = row_exists table (c ∷ []) >>- λ rs.
      lift (if_none (identity_conflict c.column.sql_name) rs) >>- λ _. probe_each table cs

  unfoldable pub vanished_or_stale : Text → List MatchCondition → List Row → Io C Unit
  unfolding probe_each query
  vanished_or_stale table cs [] = probe_each table cs >>- λ _. lift (err record_vanished)
  vanished_or_stale table cs (r ∷ rs) = query raise_stale >>- λ _. lift (err not_raised)

  -- disambiguateZeroRows
  unfoldable pub disambiguate_zero_rows : Text → List MatchCondition → Io C Unit
  unfolding row_exists vanished_or_stale
  disambiguate_zero_rows table cs = row_exists table cs >>- λ rs. vanished_or_stale table cs rs

  -- assertNoPartialIdentity
  unfoldable pub assert_no_partial_identity : Text → List MatchCondition → Io C Unit
  unfolding probe_each
  assert_no_partial_identity table cs =
      if ltb (length cs) 2 then lift (ok tt) else probe_each table cs

  -- What follows a write: its first row, or why there is none.
  unfoldable pub on_rows : Text → Planned → List Row → Io C Row
  unfolding if_guarded disambiguate_zero_rows assert_no_partial_identity
  on_rows table p (r ∷ rs) = lift (ok r)
  on_rows table p [] = if_guarded p.version (disambiguate_zero_rows table p.conditions) >>- λ _.
      assert_no_partial_identity table p.conditions >>- λ _. lift (err not_found)

  unfoldable pub send_write : Text → Planned → Io C Row
  unfolding query on_rows
  send_write table p = query (write p.statement) >>- λ rs. on_rows table p rs

  module _ (meta : EntityMeta) (o : WriteOptions) where
    -- The old row, for the audit.
    unfoldable pub read_old_row : List MatchCondition → Io C (List Row)
    unfolding query identity_where bind_conditions
    read_old_row cs =
        if is_auditable_entity meta && (o.audit && is_some o.by)
        then (lift (identity_where 1 cs) >>- λ where_sql. query (
            read_old (record {
              sql = txt (codes "SELECT * FROM " ++ meta.table ++ codes " WHERE ") ++ where_sql;
              values = bind_conditions cs [];
            })))
        else lift (ok [])

    -- A write: what is checked before the old row is read, the reading, the rest of the statement.
    unfoldable pub perform : Written (List MatchCondition) → Written Planned → Io C Row
    unfolding read_old_row send_write
    perform before planned =
        lift before >>- λ cs. read_old_row cs >>- λ _. lift planned >>- λ p. send_write meta.table p

    -- The checks of `update` up to the reading of the old row.
    unfoldable pub update_checks : Payload → Written (List MatchCondition)
    unfolding resolve_match_conditions extract_version update_stamps when set_fields identity_where
    update_checks updates = resolve_match_conditions meta updates o.match_by >>= λ (cs, remaining).
        extract_version remaining (find_version_column meta) >>= λ (expected, final).
        when (stamps meta o.by) (update_stamps meta o.by) empty_draft >>= λ d.
        set_fields meta final d [] >>= some_fields >>= λ (d', refs).
        identity_where (length d'.values + 1) cs >>= λ w. ok cs

    -- Those of `delete` and `restore`.
    unfoldable pub mark_checks : (Draft → Written Draft) → Payload → Written (List MatchCondition)
    unfolding resolve_match_conditions extract_version identity_where
    mark_checks f match = resolve_match_conditions meta match o.match_by >>= λ (cs, remaining).
        assert_deletable (any (λ c. c.is_deletable) meta.columns) >>= λ _.
        extract_version match (find_version_column meta) >>= λ (expected, rest).
        f empty_draft >>= λ d. identity_where (length d.values + 1) cs >>= λ w. ok cs

    unfoldable pub hard_delete_checks : Payload → Written (List MatchCondition)
    unfolding resolve_match_conditions extract_version identity_where
    hard_delete_checks match = resolve_match_conditions meta match o.match_by >>= λ (cs, remaining).
        extract_version match (find_version_column meta) >>= λ (expected, rest).
        identity_where 1 cs >>= λ w. ok cs

    unfoldable pub update : Payload → Io C Row
    unfolding perform update_checks update_statement
    update updates =
        perform (update_checks updates) (update_statement meta o.by updates o.match_by o.returning)

    unfoldable pub delete : Payload → Io C Row
    unfolding perform mark_checks delete_statement
    delete match =
        perform (mark_checks (delete_stamps meta o.by) match)
          (delete_statement meta o.by match o.match_by o.returning)

    unfoldable pub restore : Payload → Io C Row
    unfolding perform mark_checks restore_statement
    restore match =
        perform (mark_checks (restore_stamps meta o.by) match)
          (restore_statement meta o.by match o.match_by o.returning)

    unfoldable pub hard_delete : Payload → Io C Row
    unfolding perform hard_delete_checks hard_delete_statement
    hard_delete match =
        perform (hard_delete_checks match)
          (hard_delete_statement meta o.by match o.match_by o.returning)
