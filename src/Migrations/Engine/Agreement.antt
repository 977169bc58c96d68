-- ===== src/Migrations/Engine/Agreement.antt =====
-- The result of a run and the registry agree: the patches reported as applied are those whose
-- registry write as `applied` is durable.
use primebrick_v3_dal.Base.{
  ℕ, Bool, true, false, List, [], ◌∷◌, ◌++◌, ◌≡◌, ◌≢◌, refl, sym, ◌∙◌, some, none, Text, Option,
  append_assoc, append-nil, Bool-cases, inl, inr, ◌-◌,
}
use primebrick_v3_dal.Migrations.Splitter.{
  PatchSegment, Kind, tx, notx, strip_tx_control, split_sql_statements, is_tx_control_statement,
  parse_patch_segments,
}
use primebrick_v3_dal.Migrations.Registry.{PatchStatus, applied}
use primebrick_v3_dal.Migrations.Manifest.{TrustedKey}
use primebrick_v3_dal.Migrations.Io.{
  Query, upsert, set_statement_timeout, patch_sql, Out, ok, thrown, Io, Rows, no_rows, Host,
}
use primebrick_v3_dal.Migrations.Io.Triple.{
  Triple, Triple-bind, Triple-pure, Triple-weaken, Triple-strengthen, Triple-fix,
}
use primebrick_v3_dal.Migrations.Engine.Rules.{Triple-query, Triple-clock}
use primebrick_v3_dal.Migrations.Engine.Defs.{
  query, in_transaction, PatchFile, Options, apply_atomic, register, upsert_status, apply_file,
  apply_mixed, run_segments, run_sql, apply_as, run_statements, atomic_sql,
}
use primebrick_v3_dal.Migrations.Engine.Durable.{
  View, TxState, idle, open_tx, broken, observe, role, plain, effect, no_control,
}
use primebrick_v3_dal.Migrations.Engine.Atomicity.{
  idle_view, open_view, Opened, Committed, Triple-plain, in_transaction_lem, apply_atomic_lem,
  AppliedAtomically, applied_upsert,
}

abbrev pub name_as_applied : PatchStatus → Text → List Text
name_as_applied applied name = name ∷ []
name_as_applied _ name = []

abbrev pub applied_name : Query → List Text
applied_name (upsert _ u) = name_as_applied u.status u.patch_name
applied_name _ = []

-- The names that a list of writes registers as applied.
abbrev pub applied_names : List Query → List Text
applied_names [] = []
applied_names (q ∷ qs) = applied_name q ++ applied_names qs

pub applied_names-append :
    (p q : List Query) → applied_names (p ++ q) ≡ applied_names p ++ applied_names q
applied_names-append [] q = refl
applied_names-append (a ∷ p) q =
    rw (applied_names-append p q)
      (sym (append_assoc (applied_name a) (applied_names p) (applied_names q)))

-- Outside a transaction, with `ns` registered; and the same with a transaction left open at most.
abbrev pub Idle : List Text → View → Type 0
Idle ns v = (v.state ≡ idle) × (applied_names v.durable ≡ ns)

abbrev pub Safe : List Text → View → Type 0
Safe ns v = (v.state ≢ broken) × (applied_names v.durable ≡ ns)

pub Idle-Safe : (ns : List Text) (v : View) → Idle ns v → Safe ns v
Idle-Safe ns v (e, h) = (rw e (cc), h)

Idle-nil : (ns : List Text) (v : View) → Idle (ns ++ []) v → Idle ns v
Idle-nil ns v (e, h) = (e, h ∙ rw append-nil)

abbrev pub Registers : {A : Type 0} → List Text → List Text → Out A → View → Type 0
Registers ns ms (ok a) v = Idle (ns ++ ms) v
Registers ns ms (thrown e) v = Safe ns v

effect-Idle :
    (q : Query) (b : Bool) (ns : List Text) (v : View)
    → applied_name q ≡ []
    → Idle ns v
    → Idle ns (effect q b v v.state)
effect-Idle q false ns v n h = h
effect-Idle q true ns v n (e, h) =
    rw e (refl, applied_names-append v.durable (q ∷ []) ∙ rw (n, append-nil) h)

pub effect-Safe :
    (q : Query) (b : Bool) (ns : List Text) (v : View) (s : TxState)
    → v.state ≡ s
    → applied_name q ≡ []
    → Safe ns v
    → Safe ns (effect q b v s)
effect-Safe q false ns v s e n h = h
effect-Safe q true ns v idle e n (u, h) =
    (rw e (cc), applied_names-append v.durable (q ∷ []) ∙ rw (n, append-nil) h)
effect-Safe q true ns v (open_tx qs) e n (u, h) = ((cc), h)
effect-Safe q true ns v broken e n h = h

module _ (host : Host) where
  -- A query that neither controls transactions nor registers a patch.
  pub query-Idle :
      (q : Query) (ns : List Text)
      → role q ≡ plain
      → applied_name q ≡ []
      → Triple observe (Idle ns) (query host q) (λ _. Idle ns)
  query-Idle q ns p n =
      Triple-query observe host q (λ _. Idle ns) (λ r v h. rw p (effect-Idle q true ns v n h))
        (λ m v h. rw p (effect-Idle q false ns v n h))

  pub query-Safe :
      (q : Query) (ns : List Text)
      → role q ≡ plain
      → applied_name q ≡ []
      → Triple observe (Safe ns) (query host q) (λ _. Safe ns)
  query-Safe q ns p n =
      Triple-query observe host q (λ _. Safe ns)
        (λ r v h. rw p (effect-Safe q true ns v v.state refl n h))
        (λ m v h. rw p (effect-Safe q false ns v v.state refl n h))

  module _ (opts : Options) (key : TrustedKey) where
    -- A transaction whose body registers `ms`.
    in_transaction-Registers :
        (body : Io host.Conn Rows) (B : List Query → Type 0) (ns ms : List Text)
        → ((qs : List Query) → B qs → applied_names qs ≡ ms)
        → ((d : List Query)
            → Triple observe
                (λ v. v ≡ idle_view d)
                (in_transaction host opts key body)
                (Committed B d))
        → Triple observe (Idle ns) (in_transaction host opts key body) (Registers ns ms)
    in_transaction-Registers body B ns ms hb t = Triple-fix observe (λ v (e, h).
        Triple-strengthen observe (finish v h)
          (Triple-weaken observe (λ s same. rw (same, ← e) refl) (t v.durable)))
      where
        finish :
            (v : View)
            → applied_names v.durable ≡ ns
            → (o : Out Rows) (s : View) → Committed B v.durable o s
            → Registers ns ms o s
        finish v h (ok a) s (qs, b, e) =
            rw e (refl, applied_names-append v.durable qs ∙ rw (h, hb qs b) refl)
        finish v h (thrown m) s (same, live) = (live, rw same h)

    atomic-Registers :
        (f : PatchFile) (t : ℕ) (sql : Text) (ns : List Text)
        → Triple observe
            (Idle ns)
            (apply_atomic host opts key f t sql)
            (Registers ns (f.patch_name ∷ []))
    unfolding apply_atomic
    atomic-Registers f t sql ns =
        in_transaction-Registers _ (AppliedAtomically host opts key f sql) ns _
          (λ qs (n, e). rw e refl) (λ d. apply_atomic_lem no_control host opts key f t sql d refl)

    statements-Idle :
        (stmts : List Text) (ns : List Text)
        → Triple observe (Idle ns) (run_statements host opts key stmts) (λ _. Idle ns)
    unfolding run_statements
    statements-Idle [] ns = Triple-pure observe no_rows (λ _. Idle ns) (λ v h. h)
    statements-Idle (stmt ∷ stmts) ns = elim (Bool-cases (is_tx_control_statement stmt)) [
      | inl e ↦ rw e (statements-Idle stmts ns)
      | inr e ↦ rw e (
          Triple-bind observe (λ _. Idle ns) (λ _. Idle ns) _ _
            (query-Idle (patch_sql stmt) ns refl refl) (λ a. statements-Idle stmts ns) (λ e v h. h))
    ]

    TimeoutThenPatch : Text → List Query → Type 0
    TimeoutThenPatch sql qs = qs ≡ set_statement_timeout ∷ patch_sql (strip_tx_control sql) ∷ []

    sql-Registers :
        (k : Kind) (sql : Text) (ns : List Text)
        → Triple observe (Idle ns) (run_sql host opts key k sql) (Registers ns [])
    unfolding run_sql TimeoutThenPatch
    sql-Registers notx sql ns =
        Triple-strengthen observe to_Registers (statements-Idle (split_sql_statements sql) ns)
      where
        to_Registers : (o : Out Rows) (v : View) → Idle ns v → Registers ns [] o v
        to_Registers (ok a) v h = rw append-nil h
        to_Registers (thrown e) v h = Idle-Safe ns v h
    sql-Registers tx sql ns =
        in_transaction-Registers _ (TimeoutThenPatch sql) ns [] (λ qs e. rw e refl)
          (λ d. in_transaction_lem no_control host opts key _ (TimeoutThenPatch sql) d (
            Triple-bind observe _ (Opened (λ qs. qs ≡ set_statement_timeout ∷ []) d) _ _
              (Triple-weaken observe (λ v e. ([], refl, e))
                (Triple-plain no_control host set_statement_timeout (λ qs. qs ≡ []) _ d refl
                  (λ qs b. rw b refl)))
              (λ a. Triple-plain no_control host _ _ _ d refl (λ qs b. rw b refl)) (λ e v h. h)))

    segments-Registers :
        (segs : List PatchSegment) (ns : List Text)
        → Triple observe (Idle ns) (run_segments host opts key segs) (Registers ns [])
    unfolding run_segments
    segments-Registers [] ns =
        Triple-pure observe no_rows (Registers ns []) (λ v h. rw append-nil h)
    segments-Registers (seg ∷ segs) ns =
        Triple-bind observe _ (Registers ns []) _ _ (sql-Registers seg.kind seg.sql ns)
          (λ a. Triple-weaken observe (Idle-nil ns) (segments-Registers segs ns)) (λ e v h. h)

    Registered : PatchFile → List Query → Type 0
    Registered f qs = (n : ℕ) × (qs ≡ applied_upsert host opts key f n false ∷ [])

    mixed-Registers :
        (f : PatchFile) (t : ℕ) (segs : List PatchSegment) (ns : List Text)
        → Triple observe
            (Idle ns)
            (apply_mixed host opts key f t segs)
            (Registers ns (f.patch_name ∷ []))
    unfolding apply_mixed register upsert_status Registered
    mixed-Registers f t segs ns =
        Triple-bind observe _ (Registers ns []) _ _ (segments-Registers segs ns)
          (λ a. Triple-weaken observe (Idle-nil ns) (
            in_transaction-Registers _ (Registered f) ns (f.patch_name ∷ [])
              (λ qs (n, e). rw e refl)
              (λ d. in_transaction_lem no_control host opts key _ (Registered f) d (
                Triple-bind observe _ (λ o v. v ≡ open_view d []) _ _
                  (Triple-clock observe host _ (λ n v h. h))
                  (λ n.
                    Triple-weaken observe (λ v e. ([], refl, e))
                      (Triple-plain no_control host (applied_upsert host opts key f (n - t) false)
                        (λ qs. qs ≡ []) _ d refl (λ qs b. (n - t, rw b refl))))
                  (λ e v h. ([], h))))))
          (λ e v h. h)

    -- One file: it is registered, or nothing new is.
    pub file-Registers :
        (f : PatchFile) (ns : List Text)
        → Triple observe (Idle ns) (apply_file host opts key f) (Registers ns (f.patch_name ∷ []))
    unfolding apply_file
    file-Registers f ns =
        Triple-bind observe _ (λ o. Idle ns) _ _ (Triple-clock observe host _ (λ n v h. h))
          (λ t.
            as_Registers t (parse_patch_segments f.raw) (atomic_sql (parse_patch_segments f.raw)))
          (λ e v h. Idle-Safe ns v h)
      where
        as_Registers :
            (t : ℕ) (segs : List PatchSegment) (o : Option Text)
            → Triple observe
                (Idle ns)
                (apply_as host opts key f segs o t)
                (Registers ns (f.patch_name ∷ []))
        as_Registers t segs none = unfold apply_as in mixed-Registers f t segs ns
        as_Registers t segs (some sql) = unfold apply_as in atomic-Registers f t sql ns
