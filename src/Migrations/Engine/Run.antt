-- ===== src/Migrations/Engine/Run.antt =====
-- `runMigrations` of src/migrations/engine.ts: the loop over the files and the whole run.
use primebrick_v3_dal.Base.{
  ℕ, Bool, true, false, Option, none, some, List, [], ◌∷◌, ◌++◌, Text, is_empty, ◌||◌,
  if◌then◌else◌,
}
use primebrick_v3_dal.Migrations.Registry.{failed, pending_review, Registry}
use primebrick_v3_dal.Migrations.Manifest.{TrustedKey}
use primebrick_v3_dal.Migrations.Io.{
  unlock, bootstrap, select_registry, set_lock_timeout, set_idle_timeout, lock_not_acquired,
  patch_changed, message, Out, ok, thrown, Io, pure, raise, ◌>>=◌, ◌>>◌, try_catch, finally_ignore,
  Host,
}
use primebrick_v3_dal.Migrations.Engine.Defs.{
  MigrationMode, check, off, apply, MigrationRunResult, PatchFile, Options, list_patch_files,
  rows_of, mode_of, find_changed, Verdict, skip, review, run, verdict, provenance, query,
  acquire_advisory_lock, read_mode, upsert_status, apply_file,
}

-- `result` as it is first built.
abbrev pub fresh : MigrationRunResult
fresh = record {
  mode = apply;
  next_mode = none;
  degraded = false;
  applied_patches = [];
  failed_patches = [];
  pending_reviews = [];
  skipped = [];
  security_events = [];
}

abbrev pub add_skipped : Text → MigrationRunResult → MigrationRunResult
add_skipped name r = record r { skipped = r.skipped ++ name ∷ [] }

abbrev pub add_review : Text → MigrationRunResult → MigrationRunResult
add_review name r = record r { pending_reviews = r.pending_reviews ++ name ∷ []; degraded = true }

abbrev pub add_applied : Text → MigrationRunResult → MigrationRunResult
add_applied name r = record r { applied_patches = r.applied_patches ++ name ∷ [] }

abbrev pub add_failed : Text → Text → MigrationRunResult → MigrationRunResult
add_failed name error r = record r {
  failed_patches = r.failed_patches ++ (name, error) ∷ [];
  degraded = true;
}

abbrev pub is_off : MigrationMode → Bool
is_off off = true
is_off _ = false

module _ (host : Host) (opts : Options) where
  module _ (signing_key : TrustedKey) where
    -- `try` and `catch` around one file: `none` if it was applied, else the message.
    unfoldable pub attempt : PatchFile → Io host.Conn (Option Text)
    attempt f = try_catch (apply_file host opts signing_key f >>= λ _. pure none) (λ e.
        upsert_status host opts signing_key f failed (some (message e)) none none >>= λ _.
        pure (some (message e)))

    -- The end of the loop's body after an attempt, given the rest of the loop.
    unfoldable pub after_attempt :
        PatchFile
        → (MigrationRunResult → Io host.Conn MigrationRunResult)
        → MigrationRunResult
        → Option Text
        → Io host.Conn MigrationRunResult
    after_attempt f rest r none = rest (add_applied f.patch_name r)
    after_attempt f rest r (some error) = pure (add_failed f.patch_name error r)

    -- What the loop does with a file, given the rest of the loop by the result so far.
    unfoldable pub on_verdict :
        Verdict
        → PatchFile
        → (MigrationRunResult → Io host.Conn MigrationRunResult)
        → MigrationRunResult
        → Io host.Conn MigrationRunResult
    on_verdict skip f rest r = rest (add_skipped f.patch_name r)
    on_verdict review f rest r =
        upsert_status host opts signing_key f pending_review none none none >>= λ _.
        pure (add_review f.patch_name r)
    on_verdict run f rest r = attempt f >>= after_attempt f rest r

    -- The loop over the files; a review gate and a failure break out of it.
    unfoldable pub apply_files :
        Registry → List PatchFile → MigrationRunResult → Io host.Conn MigrationRunResult
    apply_files reg [] r = pure r
    apply_files reg (f ∷ fs) r =
        on_verdict (verdict reg opts.approved_reviews f) f (apply_files reg fs) r

  -- From the loop on: the timeouts, the loop, and the mode read again.
  unfoldable pub apply_phase :
      TrustedKey → Registry → List PatchFile → MigrationRunResult → Io host.Conn MigrationRunResult
  apply_phase key reg files r = do
    query host set_lock_timeout
    query host set_idle_timeout
    done ← apply_files key reg files r
    next ← try_catch (read_mode host opts.schema) (λ _. pure none)
    pure (record done { next_mode = next })

  -- From the end of the prefetch on: mode=check only reports.
  unfoldable pub by_mode :
      MigrationMode
      → TrustedKey
      → Registry
      → List PatchFile
      → MigrationRunResult
      → Io host.Conn MigrationRunResult
  by_mode check key reg files r = pure r
  by_mode _ key reg files r = apply_phase key reg files r

  -- The immutability check over the files, then the rest.
  unfoldable pub unless_changed :
      Option PatchFile
      → TrustedKey
      → Registry
      → List PatchFile
      → MigrationRunResult
      → Io host.Conn MigrationRunResult
  unless_changed (some f) key reg files r = raise (patch_changed f.filename)
  unless_changed none key reg files r = by_mode r.mode key reg files r

  -- From the prefetch of the registry on, with the files that passed the gate.
  unfoldable pub registry_phase :
      TrustedKey → List PatchFile → MigrationRunResult → Io host.Conn MigrationRunResult
  registry_phase key files r = query host (select_registry opts.schema) >>= λ rows.
      unless_changed (find_changed (rows_of rows) files) key (rows_of rows) files r

  unfoldable pub after_gate :
      Out (TrustedKey × List PatchFile) → MigrationRunResult → Io host.Conn MigrationRunResult
  after_gate (thrown e) r = raise e
  after_gate (ok (key, files)) r = registry_phase key files r

  -- From the reading of the mode on: nothing is done without files, nor with mode=off.
  unfoldable pub with_files : List Text → MigrationRunResult → Io host.Conn MigrationRunResult
  with_files filenames r =
      if is_empty filenames || is_off r.mode
      then pure r
      else let gate = provenance host opts filenames in
        after_gate gate.1 (record r { security_events = r.security_events ++ gate.0 })

  -- The part of the run under the lock.
  unfoldable pub locked_phase : List Text → Io host.Conn MigrationRunResult
  locked_phase filenames = do
    query host (bootstrap opts.schema)
    raw_mode ← read_mode host opts.schema
    with_files filenames (record fresh { mode = mode_of raw_mode })

  -- The `finally`: the lock is released where it was taken.
  unfoldable pub if_locked : Bool → Io host.Conn MigrationRunResult
  if_locked false = raise lock_not_acquired
  if_locked true =
      finally_ignore (locked_phase (list_patch_files opts.directory))
        (query host (unlock opts.schema))

  unfoldable pub run_migrations : ℕ → Io host.Conn MigrationRunResult
  run_migrations fuel = acquire_advisory_lock host fuel opts.schema opts.lock_wait_ms >>= if_locked
