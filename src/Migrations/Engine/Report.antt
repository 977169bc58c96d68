-- ===== src/Migrations/Engine/Report.antt =====
-- The whole run of the engine: its report agrees with the registry.
use primebrick_v3_dal.Base.{
  ℕ, zero, suc, Bool, true, false, List, [], ◌++◌, refl, some, none, Text, Option, is_empty, ◌||◌,
  leb, if◌then◌else◌,
}
use primebrick_v3_dal.Migrations.Registry.{Registry}
use primebrick_v3_dal.Migrations.Manifest.{TrustedKey}
use primebrick_v3_dal.Migrations.Io.{
  Out, ok, thrown, Io, pure, ◌>>=◌, Host, try_lock, unlock, select_registry, out_of_fuel,
  lock_not_acquired,
}
use primebrick_v3_dal.Migrations.Io.Triple.{
  Triple, Triple-bind, Triple-raise, Triple-pure, Triple-finally_ignore, observe_all,
}
use primebrick_v3_dal.Migrations.Engine.Rules.{Triple-query, Triple-clock, Triple-pause}
use primebrick_v3_dal.Migrations.Engine.Defs.{
  query, PatchFile, Options, MigrationRunResult, MigrationMode, check, off, apply, lock_loop,
  on_try, acquire_advisory_lock, find_changed, rows_of, provenance, is_locked, list_patch_files,
  pause,
}
use primebrick_v3_dal.Migrations.Engine.Run.{
  by_mode, unless_changed, after_gate, with_files, if_locked, is_off, registry_phase, locked_phase,
  run_migrations,
}
use primebrick_v3_dal.Migrations.Engine.Durable.{observe}
use primebrick_v3_dal.Migrations.Engine.Atomicity.{idle_view}
use primebrick_v3_dal.Migrations.Engine.Agreement.{
  Idle, Idle-Safe, query-Idle, query-Safe, effect-Safe,
}
use primebrick_v3_dal.Migrations.Engine.Outcome.{Agrees, apply_phase-Agrees, read_mode-Idle}

module _ (host : Host) (opts : Options) where
  by_mode-Agrees :
      (m : MigrationMode) (key : TrustedKey) (reg : Registry) (files : List PatchFile)
      (r : MigrationRunResult)
      → Triple observe (Idle r.applied_patches) (by_mode host opts m key reg files r) Agrees
  unfolding by_mode
  by_mode-Agrees check key reg files r = Triple-pure observe r Agrees (λ v h. Idle-Safe _ v h)
  by_mode-Agrees apply key reg files r = apply_phase-Agrees host opts key reg files r
  by_mode-Agrees off key reg files r = apply_phase-Agrees host opts key reg files r

  unless_changed-Agrees :
      (changed : Option PatchFile) (key : TrustedKey) (reg : Registry) (files : List PatchFile)
      (r : MigrationRunResult)
      → Triple observe
          (Idle r.applied_patches)
          (unless_changed host opts changed key reg files r)
          Agrees
  unfolding unless_changed
  unless_changed-Agrees (some f) key reg files r =
      Triple-raise observe _ Agrees (λ v h. (Idle-Safe _ v h).0)
  unless_changed-Agrees none key reg files r = by_mode-Agrees r.mode key reg files r

  after_gate-Agrees :
      (gate : Out (TrustedKey × List PatchFile)) (r : MigrationRunResult)
      → Triple observe (Idle r.applied_patches) (after_gate host opts gate r) Agrees
  unfolding after_gate registry_phase
  after_gate-Agrees (thrown e) r = Triple-raise observe e Agrees (λ v h. (Idle-Safe _ v h).0)
  after_gate-Agrees (ok (key, files)) r =
      Triple-bind observe Agrees (λ _. Idle r.applied_patches) _ _
        (query-Idle host (select_registry opts.schema) r.applied_patches refl refl)
        (λ rows.
          unless_changed-Agrees (find_changed (rows_of rows) files) key (rows_of rows) files r)
        (λ e v h. (Idle-Safe _ v h).0)

  with_files-Agrees :
      (filenames : List Text) (r : MigrationRunResult)
      → Triple observe (Idle r.applied_patches) (with_files host opts filenames r) Agrees
  unfolding with_files
  with_files-Agrees filenames r = either (is_empty filenames || is_off r.mode)
    where
      either :
          (b : Bool)
          → Triple observe
              (Idle r.applied_patches)
              (if b
                then pure r
                else after_gate host opts (provenance host opts filenames).1 (record r {
                  security_events = r.security_events ++ (provenance host opts filenames).0;
                }))
              Agrees
      either true = Triple-pure observe r Agrees (λ v h. Idle-Safe _ v h)
      either false = after_gate-Agrees (provenance host opts filenames).1 _

  locked_phase-Agrees :
      (filenames : List Text) → Triple observe (Idle []) (locked_phase host opts filenames) Agrees
  unfolding locked_phase
  locked_phase-Agrees filenames =
      Triple-bind observe Agrees (λ _. Idle []) _ _ (query-Idle host _ [] refl refl)
        (λ a.
          Triple-bind observe Agrees (λ _. Idle []) _ _ (read_mode-Idle host opts [])
            (λ m. with_files-Agrees filenames _) (λ e v h. (Idle-Safe [] v h).0))
        (λ e v h. (Idle-Safe [] v h).0)

  on_try-Idle :
      (b : Bool) (deadline : ℕ) (again : Io host.Conn Bool)
      → Triple observe (Idle []) again (λ _. Idle [])
      → Triple observe (Idle []) (on_try host b deadline again) (λ _. Idle [])
  unfolding on_try
  on_try-Idle true deadline again h = Triple-pure observe true _ (λ v h. h)
  on_try-Idle false deadline again h =
      Triple-bind observe _ (λ _. Idle []) _ _ (Triple-clock observe host _ (λ n v h. h))
        (λ t. late (leb deadline t)) (λ e v h. h)
    where
      late :
          (b : Bool)
          → Triple observe
              (Idle [])
              (if b then pure false else (pause host >>= λ _. again))
              (λ _. Idle [])
      late true = Triple-pure observe false _ (λ v h. h)
      late false =
          Triple-bind observe _ (λ _. Idle []) _ _ (Triple-pause observe host _ (λ v h. h)) (λ _. h)
            (λ e v h. h)

  lock_loop-Idle :
      (fuel : ℕ) (schema : Text) (deadline : ℕ)
      → Triple observe (Idle []) (lock_loop host fuel schema deadline) (λ _. Idle [])
  unfolding lock_loop
  lock_loop-Idle zero schema deadline = Triple-raise observe out_of_fuel _ (λ v h. h)
  lock_loop-Idle (suc fuel) schema deadline =
      Triple-bind observe _ (λ _. Idle []) _ _ (query-Idle host (try_lock schema) [] refl refl)
        (λ rows. on_try-Idle (is_locked rows) deadline _ (lock_loop-Idle fuel schema deadline))
        (λ e v h. h)

  if_locked-Agrees : (b : Bool) → Triple observe (Idle []) (if_locked host opts b) Agrees
  unfolding if_locked
  if_locked-Agrees false =
      Triple-raise observe lock_not_acquired Agrees (λ v h. (Idle-Safe [] v h).0)
  if_locked-Agrees true =
      Triple-finally_ignore observe Agrees Agrees _ _
        (locked_phase-Agrees (list_patch_files opts.directory)) unlock_keeps
    where
      unlock_keeps :
          (o : Out MigrationRunResult)
          → Triple observe (Agrees o) (query host (unlock opts.schema)) (λ _. Agrees o)
      unlock_keeps (ok r) = query-Safe host _ r.applied_patches refl refl
      unlock_keeps (thrown e) =
          Triple-query observe host _ _
            (λ r v h. (effect-Safe (unlock opts.schema) true _ v v.state refl refl (h, refl)).0)
            (λ m v h. h)

  run_migrations-Triple :
      (fuel : ℕ) → Triple observe (Idle []) (run_migrations host opts fuel) Agrees
  unfolding run_migrations acquire_advisory_lock
  run_migrations-Triple fuel =
      Triple-bind observe Agrees (λ _. Idle []) _ _
        (Triple-bind observe _ (λ _. Idle []) _ _ (Triple-clock observe host _ (λ n v h. h))
          (λ t. lock_loop-Idle fuel opts.schema _) (λ e v h. h))
        if_locked-Agrees (λ e v h. (Idle-Safe [] v h).0)

-- Whatever the server answers, a run that returns reports as applied just the patches whose
-- registry write as applied is durable, in the order of the writes; and returning or throwing,
-- its BEGIN, COMMIT and ROLLBACK never break the bracketing of transactions. The texts of the
-- patches are taken to hold no transaction control beyond what is stripped.
pub run_migrations-Agrees :
    (host : Host) (opts : Options) (fuel : ℕ) (c : host.Conn)
    → Agrees
        (run_migrations host opts fuel c).0
        (observe_all observe (idle_view []) (run_migrations host opts fuel c).1)
run_migrations-Agrees host opts fuel c =
    (run_migrations-Triple host opts fuel).at c (idle_view []) (refl, refl)
