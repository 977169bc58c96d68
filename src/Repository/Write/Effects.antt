-- ===== src/Repository/Write/Effects.antt =====
-- A write sends one data-modifying statement at most, and returns only with a row of its answer.
use primebrick_v3_dal.Base.{
  ◌≤◌, ◌&&◌, ltb, List, [], ◌∷◌, ◌++◌, ◌≡◌, refl, Text, length, none, some, Bool-cases, inl, inr,
  arith,
}
use primebrick_v3_dal.Repository.Columns.{
  EntityMeta, Payload, identity_conflict, record_vanished, not_found, not_raised,
  is_auditable_entity, Written, ok, err,
}
use primebrick_v3_dal.Repository.Identity.{MatchCondition, is_some}
use primebrick_v3_dal.Repository.Draft.{identity_where}
use primebrick_v3_dal.Repository.Statement.{Statement, VersionGuard}
use primebrick_v3_dal.Repository.Update.{Planned}
use primebrick_v3_dal.Repository.Write.{
  Row, Query, read_old, write, exists, raise_stale, Reply, failed, rows, Event, Io, WriteOptions,
  lift, continue, ◌>>-◌, answered, query, row_exists, if_none, probe_each, vanished_or_stale,
  disambiguate_zero_rows, assert_no_partial_identity, if_guarded, on_rows, send_write, read_old_row,
  perform, update, delete, restore, hard_delete,
}

-- The answers to the data-modifying statements.
abbrev pub add_write : Query → Reply → List Reply → List Reply
add_write (write s) r ws = r ∷ ws
add_write _ r ws = ws

unfoldable pub writes_of : List Event → List Reply
writes_of [] = []
writes_of ((q, r) ∷ log) = add_write q r (writes_of log)

writes_of-append : (l k : List Event) → writes_of (l ++ k) ≡ writes_of l ++ writes_of k
unfolding writes_of
writes_of-append [] k = refl
writes_of-append ((q, r) ∷ l) k = by_query q (writes_of-append l k)
  where
    by_query :
        (p : Query)
        → writes_of (l ++ k) ≡ writes_of l ++ writes_of k
        → add_write p r (writes_of (l ++ k)) ≡ add_write p r (writes_of l) ++ writes_of k
    by_query (write s) e = rw e refl
    by_query (read_old s) e = e
    by_query (exists s) e = e
    by_query raise_stale e = e

-- What a returned row, or an error, has to do with the answers.
abbrev pub Effect : Written Row → List Reply → Type 0
Effect (ok r) ws = (rest : List Row) × (ws ≡ rows (r ∷ rest) ∷ [])
Effect (err e) ws = length ws ≤ 1

abbrev Fails : {A : Type 0} → Written A → Type 0
Fails (ok a) = ⊥
Fails (err e) = Unit

module _ {C : Type 0} where
  abbrev Quiet : {A : Type 0} → Io C A → Type 0
  Quiet m = (c : C) → writes_of (m c).1 ≡ []

  abbrev pub Effects : Io C Row → Type 0
  Effects m = (c : C) → Effect (m c).0 (writes_of (m c).1)

  Quiet-lift : {A : Type 0} (r : Written A) → Quiet (lift r)
  unfolding writes_of
  Quiet-lift r c = refl

  Quiet-bind :
      {A B : Type 0} (m : Io C A) (f : A → Io C B)
      → Quiet m
      → ((a : A) → Quiet (f a))
      → Quiet (m >>- f)
  Quiet-bind {A = A} m f h k c = by_result (m c) (h c)
    where
      by_result :
          (t : Written A × List Event × C) → writes_of t.1 ≡ [] → writes_of (continue t f).1 ≡ []
      by_result (err e, log, c') w = w
      by_result (ok a, log, c') w = rw (writes_of-append log, w, k a c') refl

  Effects-bind :
      {A : Type 0} (m : Io C A) (f : A → Io C Row)
      → Quiet m
      → ((a : A) → Effects (f a))
      → Effects (m >>- f)
  Effects-bind {A = A} m f h k c = by_result (m c) (h c)
    where
      by_result :
          (t : Written A × List Event × C)
          → writes_of t.1 ≡ []
          → Effect (continue t f).0 (writes_of (continue t f).1)
      by_result (err e, log, c') w = rw w (omega arith)
      by_result (ok a, log, c') w = rw (writes_of-append log, w) (k a c')

  Fails-bind :
      {A B : Type 0} (m : Io C A) (f : A → Io C B)
      → ((a : A) (c : C) → Fails (f a c).0)
      → (c : C) → Fails ((m >>- f) c).0
  Fails-bind {A = A} m f k c = by_result (m c)
    where
      by_result : (t : Written A × List Event × C) → Fails (continue t f).0
      by_result (err e, log, c') = tt
      by_result (ok a, log, c') = k a c'

module _ {C : Type 0} (send : Query → C → Reply × C) where
  -- A query that is not a write.
  Reads : Query → Type 0
  Reads q = (r : Reply) (ws : List Reply) → add_write q r ws ≡ ws

  query-Quiet : (q : Query) → Reads q → Quiet (query send q)
  unfolding query writes_of Reads
  query-Quiet q h c = by_reply (send q c)
    where
      by_reply : (t : Reply × C) → writes_of (answered send q t).1 ≡ []
      by_reply (failed e, c') = h (failed e) []
      by_reply (rows rs, c') = h (rows rs) []

  row_exists-Quiet : (table : Text) (cs : List MatchCondition) → Quiet (row_exists send table cs)
  unfolding row_exists Reads
  row_exists-Quiet table cs =
      Quiet-bind (lift (identity_where 1 cs)) _ (Quiet-lift (identity_where 1 cs))
        (λ w. query-Quiet (exists _) (λ r ws. refl))

  probe_each-Quiet : (table : Text) (cs : List MatchCondition) → Quiet (probe_each send table cs)
  unfolding probe_each
  probe_each-Quiet table [] = Quiet-lift (ok tt)
  probe_each-Quiet table (c ∷ cs) =
      Quiet-bind (row_exists send table (c ∷ [])) _ (row_exists-Quiet table (c ∷ [])) (λ rs.
        Quiet-bind (lift (if_none (identity_conflict c.column.sql_name) rs)) _
          (Quiet-lift (if_none (identity_conflict c.column.sql_name) rs))
          (λ _. probe_each-Quiet table cs))

  vanished_or_stale-Quiet :
      (table : Text) (cs : List MatchCondition) (rs : List Row)
      → Quiet (vanished_or_stale send table cs rs)
  unfolding vanished_or_stale Reads
  vanished_or_stale-Quiet table cs [] =
      Quiet-bind (probe_each send table cs) _ (probe_each-Quiet table cs)
        (λ _. Quiet-lift {A = Unit} (err record_vanished))
  vanished_or_stale-Quiet table cs (r ∷ rs) =
      Quiet-bind (query send raise_stale) _ (query-Quiet raise_stale (λ r ws. refl))
        (λ _. Quiet-lift {A = Unit} (err not_raised))

  if_guarded-Quiet :
      (g : VersionGuard) (table : Text) (cs : List MatchCondition)
      → Quiet (if_guarded g (disambiguate_zero_rows send table cs))
  unfolding if_guarded disambiguate_zero_rows
  if_guarded-Quiet none table cs = Quiet-lift (ok tt)
  if_guarded-Quiet (some g) table cs =
      Quiet-bind (row_exists send table cs) _ (row_exists-Quiet table cs)
        (λ rs. vanished_or_stale-Quiet table cs rs)

  assert_no_partial_identity-Quiet :
      (table : Text) (cs : List MatchCondition) → Quiet (assert_no_partial_identity send table cs)
  unfolding assert_no_partial_identity
  assert_no_partial_identity-Quiet table cs = elim (Bool-cases (ltb (length cs) 2)) [
    | inl e ↦ rw e (Quiet-lift (ok tt))
    | inr e ↦ rw e (probe_each-Quiet table cs)
  ]

  on_no_rows-Quiet : (table : Text) (p : Planned) → Quiet (on_rows send table p [])
  unfolding on_rows
  on_no_rows-Quiet table p =
      Quiet-bind (if_guarded p.version (disambiguate_zero_rows send table p.conditions)) _
        (if_guarded-Quiet p.version table p.conditions)
        (λ _.
          Quiet-bind (assert_no_partial_identity send table p.conditions) _
            (assert_no_partial_identity-Quiet table p.conditions)
            (λ _. Quiet-lift {A = Row} (err not_found)))

  on_no_rows-Fails : (table : Text) (p : Planned) (c : C) → Fails (on_rows send table p [] c).0
  unfolding on_rows
  on_no_rows-Fails table p c =
      Fails-bind (if_guarded p.version (disambiguate_zero_rows send table p.conditions)) _
        (λ _ c'. Fails-bind (assert_no_partial_identity send table p.conditions) _ (λ _ c''. tt) c')
        c

  -- A failed continuation has the one write before it.
  one_write :
      (s : Statement) (rs : List Row) (t : Written Row × List Event × C)
      → Fails t.0
      → writes_of t.1 ≡ []
      → Effect t.0 (rows rs ∷ writes_of t.1)
  one_write s rs (ok r, log, c) f w = elim f [ ]
  one_write s rs (err e, log, c) f w = rw w (omega arith)

  send_write-Effects : (table : Text) (p : Planned) → Effects (send_write send table p)
  unfolding send_write query writes_of on_rows
  send_write-Effects table p c = by_reply (send (write p.statement) c)
    where
      by_reply :
          (t : Reply × C)
          → let r =
              continue (answered send (write p.statement) t) (λ rs. on_rows send table p rs) in
            Effect r.0 (writes_of r.1)
      by_reply (failed e, c') = omega arith
      by_reply (rows (r ∷ rs), c') = (rs, refl)
      by_reply (rows [], c') =
          one_write p.statement [] (on_rows send table p [] c') (on_no_rows-Fails table p c')
            (on_no_rows-Quiet table p c')

  module _ (meta : EntityMeta) (o : WriteOptions) where
    read_old_row-Quiet : (cs : List MatchCondition) → Quiet (read_old_row send meta o cs)
    unfolding read_old_row Reads
    read_old_row-Quiet cs =
        elim (Bool-cases (is_auditable_entity meta && (o.audit && is_some o.by))) [
          | inl e ↦ rw e (
              Quiet-bind (lift (identity_where 1 cs)) _ (Quiet-lift (identity_where 1 cs))
                (λ w. query-Quiet (read_old _) (λ r ws. refl)))
          | inr e ↦ rw e (Quiet-lift {A = List Row} (ok []))
        ]

    perform-Effects :
        (before : Written (List MatchCondition)) (planned : Written Planned)
        → Effects (perform send meta o before planned)
    unfolding perform
    perform-Effects before planned = Effects-bind (lift before) _ (Quiet-lift before) (λ cs.
        Effects-bind (read_old_row send meta o cs) _ (read_old_row-Quiet cs) (λ _.
          Effects-bind (lift planned) _ (Quiet-lift planned)
            (λ p. send_write-Effects meta.table p)))

    -- Whatever the server answers, each of update, delete, restore and hardDelete that returns has
    -- sent one data-modifying statement and returns the first row of its answer; one that throws has
    -- sent one at most. So a write that changes no row never returns.
    pub writes-Effects :
        (payload : Payload)
        → Effects (update send meta o payload)
          × Effects (delete send meta o payload)
          × Effects (restore send meta o payload)
          × Effects (hard_delete send meta o payload)
    unfolding update delete restore hard_delete
    writes-Effects payload =
        (perform-Effects _ _, perform-Effects _ _, perform-Effects _ _, perform-Effects _ _)
