-- ===== src/Migrations/Engine/Atomicity.antt =====
-- `in_transaction` and the application of an atomic patch: what they leave behind in the database.
use primebrick_v3_dal.Base.{
  ℕ, Bool, true, false, not, List, [], ◌∷◌, ◌++◌, ◌≡◌, ◌≢◌, refl, ◌-◌, some, none, Text, codes,
  join, keep, any, All, Bool-cases, inl, inr,
}
use primebrick_v3_dal.Migrations.Splitter.{
  strip_tx_control, split_sql_statements, is_tx_control_statement,
}
use primebrick_v3_dal.Migrations.Registry.{applied}
use primebrick_v3_dal.Migrations.Manifest.{TrustedKey}
use primebrick_v3_dal.Migrations.Io.{
  Query, begin_tx, commit_tx, rollback_tx, set_statement_timeout, patch_sql, upsert, Out, ok,
  thrown, Io, Rows, Host,
}
use primebrick_v3_dal.Migrations.Io.Triple.{
  observe_all, Triple, Triple-bind, Triple-try_catch, Triple-raise, Triple-weaken,
}
use primebrick_v3_dal.Migrations.Engine.Rules.{Triple-query, Triple-clock}
use primebrick_v3_dal.Migrations.Engine.Defs.{
  query, in_transaction, PatchFile, Options, apply_atomic, register, upsert_status,
}
use primebrick_v3_dal.Migrations.Engine.Durable.{
  View, idle, open_tx, broken, observe_by, role_by, plain,
}

abbrev pub idle_view : List Query → View
idle_view d = record { durable = d; state = idle }

abbrev pub open_view : List Query → List Query → View
open_view d qs = record { durable = d; state = open_tx qs }

-- Inside a transaction that has done `qs`, which `B` describes.
abbrev pub InTx : (List Query → Type 0) → List Query → View → Type 0
InTx B d v = (qs : List Query) × B qs × (v ≡ open_view d qs)

abbrev pub Opened : {A : Type 0} → (List Query → Type 0) → List Query → Out A → View → Type 0
Opened B d (ok a) v = InTx B d v
Opened B d (thrown e) v = (qs : List Query) × (v ≡ open_view d qs)

-- All of it is durable, or nothing.
abbrev pub Committed : {A : Type 0} → (List Query → Type 0) → List Query → Out A → View → Type 0
Committed B d (ok a) v = (qs : List Query) × B qs × (v ≡ idle_view (d ++ qs))
Committed B d (thrown e) v = (v.durable ≡ d) × (v.state ≢ broken)

-- After BEGIN, and after the body and COMMIT, before a ROLLBACK.
abbrev Begun : {A : Type 0} → List Query → Out A → View → Type 0
Begun d (ok a) v = v ≡ open_view d []
Begun d (thrown e) v = v ≡ idle_view d

abbrev Ended : {A : Type 0} → (List Query → Type 0) → List Query → Out A → View → Type 0
Ended B d (ok a) v = (qs : List Query) × B qs × (v ≡ idle_view (d ++ qs))
Ended B d (thrown e) v = (qs : List Query) × (v ≡ open_view d qs)

abbrev Undone : List Query → View → Type 0
Undone d v = (v.durable ≡ d) × (v.state ≢ broken)

-- A query that is no transaction control adds itself to the open transaction, or fails.
pub Triple-plain :
    (ends_tx : Text → Bool) (host : Host) (q : Query) (B B' : List Query → Type 0) (d : List Query)
    → role_by ends_tx q ≡ plain
    → ((qs : List Query) → B qs → B' (qs ++ q ∷ []))
    → Triple (observe_by ends_tx) (InTx B d) (query host q) (Opened B' d)
Triple-plain ends_tx host q B B' d p grow =
    Triple-query (observe_by ends_tx) host q (Opened B' d)
      (λ r v (qs, b, e). (qs ++ q ∷ [], grow qs b, rw (e, p))) (λ m v (qs, b, e). (qs, rw (e, p)))

module _ (host : Host) (opts : Options) (key : TrustedKey) where
  -- The registry write of a patch that was applied, with its duration.
  abbrev pub applied_upsert : PatchFile → ℕ → Bool → Query
  applied_upsert f n atomic = upsert opts.schema (record {
    patch_name = f.patch_name;
    content_sha256 = f.sha256;
    status = applied;
    signed_key_id = some key.key_id;
    duration_ms = some n;
    error = none;
    applied_by = opts.actor;
    atomic = atomic;
  })

  -- What an atomic application leaves: the timeout, the patch, and its row, with some duration.
  abbrev pub AppliedAtomically : PatchFile → Text → List Query → Type 0
  AppliedAtomically f sql qs =
      (n : ℕ) × (qs
        ≡ set_statement_timeout ∷ patch_sql (strip_tx_control sql) ∷ applied_upsert f n true ∷ [])

module _ (ends_tx : Text → Bool) (host : Host) (opts : Options) (key : TrustedKey) where
  pub in_transaction_lem :
      (body : Io host.Conn Rows) (B : List Query → Type 0) (d : List Query)
      → Triple (observe_by ends_tx) (λ v. v ≡ open_view d []) body (Opened B d)
      → Triple
          (observe_by ends_tx)
          (λ v. v ≡ idle_view d)
          (in_transaction host opts key body)
          (Committed B d)
  unfolding in_transaction
  in_transaction_lem body B d hb =
      Triple-bind (observe_by ends_tx) (Committed B d) (Begun d) _ _
        (Triple-query (observe_by ends_tx) host begin_tx (Begun d) (λ r v e. rw e refl)
          (λ m v e. rw e refl))
        (λ a.
          Triple-try_catch (observe_by ends_tx) (Committed B d) (Ended B d) _ _
            (Triple-bind (observe_by ends_tx) (Ended B d) (Opened B d) _ _ hb
              (λ a.
                Triple-query (observe_by ends_tx) host commit_tx (Ended B d)
                  (λ r v (qs, b, e). (qs, b, rw e refl)) (λ m v (qs, b, e). (qs, rw e refl)))
              (λ e v h. h))
            (λ e.
              Triple-bind (observe_by ends_tx) (Committed B d) (λ _. Undone d) _ _
                (Triple-query (observe_by ends_tx) host rollback_tx (λ _. Undone d)
                  (λ r v (qs, e). rw e (refl, cc)) (λ m v (qs, e). rw e (refl, cc)))
                (λ (a : Rows).
                  Triple-raise (observe_by ends_tx) {A = Rows} e (Committed B d) (λ v h. h))
                (λ e v h. h))
            (λ a v h. h))
        (λ e v h. rw h (refl, cc))

  abbrev StartsEmpty : List Query → Type 0
  StartsEmpty qs = qs ≡ []

  -- An atomic patch and its registry row are durable together, or neither is.
  pub apply_atomic_lem :
      (f : PatchFile) (started_at : ℕ) (sql : Text) (d : List Query)
      → ends_tx (strip_tx_control sql) ≡ false
      → Triple
          (observe_by ends_tx)
          (λ v. v ≡ idle_view d)
          (apply_atomic host opts key f started_at sql)
          (Committed (AppliedAtomically host opts key f sql) d)
  unfolding apply_atomic register upsert_status
  apply_atomic_lem f started_at sql d stays =
      in_transaction_lem _ (AppliedAtomically host opts key f sql) d (
        Triple-bind (observe_by ends_tx) _ (Opened one d) _ _
          (Triple-weaken (observe_by ends_tx) (λ v e. ([], refl, e))
            (Triple-plain ends_tx host set_statement_timeout StartsEmpty one d refl
              (λ qs b. rw b refl)))
          (λ a.
            Triple-bind (observe_by ends_tx) _ (Opened two d) _ _
              (Triple-plain ends_tx host (patch_sql (strip_tx_control sql)) one two d
                (rw stays refl) (λ qs b. rw b refl))
              (λ a.
                Triple-bind (observe_by ends_tx) _ (Opened two d) _ _
                  (Triple-clock (observe_by ends_tx) host (Opened two d) (λ n v h. h))
                  (λ n.
                    Triple-plain ends_tx host (applied_upsert host opts key f (n - started_at) true)
                      two (AppliedAtomically host opts key f sql) d refl
                      (λ qs b. (n - started_at, rw b refl)))
                  (λ e v h. h))
              (λ e v h. h))
          (λ e v h. h))
    where
      one : List Query → Type 0
      one qs = qs ≡ set_statement_timeout ∷ []

      two : List Query → Type 0
      two qs = qs ≡ set_statement_timeout ∷ patch_sql (strip_tx_control sql) ∷ []

-- No statement that is kept is transaction control for the server, where it knows no more of it
-- than the splitter.
any-keep :
    (control : Text → Bool) (ss : List Text)
    → All (λ s. control s ≡ true → is_tx_control_statement s ≡ true) ss
    → any control (keep (λ s. not (is_tx_control_statement s)) ss) ≡ false
any-keep control [] h = refl
any-keep control (s ∷ ss) (k, h) = elim (Bool-cases (is_tx_control_statement s)) [
  | inl e ↦ rw e (any-keep control ss h)
  | inr e ↦ elim (Bool-cases (control s)) [
    | inl c ↦ cc (k c)
    | inr c ↦ rw (e, c) (any-keep control ss h)
  ]
]

-- Let the server run a text as the statements `runs` of it, of which `control` are transaction
-- control. If it reads the statements that the splitter keeps of a patch, joined again, as those
-- statements, and finds control just in statements of the patch that the splitter finds it in,
-- then, whatever it answers: an atomic application that succeeds from outside a transaction adds to
-- what is durable just the timeout, the patch and its row as applied, in one transaction; one that
-- throws adds nothing, and neither breaks the bracketing of transactions, the patch's own text
-- included.
pub apply_atomic-Committed :
    (runs : Text → List Text) (control : Text → Bool) (host : Host) (opts : Options)
    (key : TrustedKey) (f : PatchFile) (started_at : ℕ) (sql : Text) (d : List Query)
    (c : host.Conn)
    → runs (
        join (codes ";\n") (keep (λ s. not (is_tx_control_statement s)) (split_sql_statements sql)))
      ≡ keep (λ s. not (is_tx_control_statement s)) (split_sql_statements sql)
    → All (λ s. control s ≡ true → is_tx_control_statement s ≡ true) (split_sql_statements sql)
    → Committed
        (AppliedAtomically host opts key f sql)
        d
        (apply_atomic host opts key f started_at sql c).0
        (observe_all
          (observe_by (λ t. any control (runs t)))
          (idle_view d)
          (apply_atomic host opts key f started_at sql c).1)
unfolding strip_tx_control
apply_atomic-Committed runs control host opts key f started_at sql d c reads finds =
    (apply_atomic_lem (λ t. any control (runs t)) host opts key f started_at sql d
        (rw reads (any-keep control (split_sql_statements sql) finds))).at
      c (idle_view d) refl
