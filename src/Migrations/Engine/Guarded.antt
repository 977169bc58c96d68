-- ===== src/Migrations/Engine/Guarded.antt =====
-- The predicates on what a run of src/migrations/engine.ts sends and reports.
use primebrick_v3_dal.Base.{Bool, true, false, List, [], ◌∷◌, ◌++◌, ◌≡◌, ◌⊎◌}
use primebrick_v3_dal.Migrations.Manifest.{TrustedKey}
use primebrick_v3_dal.Migrations.Io.{Query, patch_sql, upsert, Event, Out, ok, thrown, Host}
use primebrick_v3_dal.Migrations.Engine.Defs.{
  PatchFile, Options, MigrationRunResult, apply, provenance, list_patch_files,
}
use primebrick_v3_dal.Migrations.Engine.Order.{Reports, names}

abbrev pub is_write : Query → Bool
is_write (patch_sql sql) = true
is_write (upsert schema u) = true
is_write _ = false

abbrev pub add_write : Bool → Query → List Query → List Query
add_write true q s = s ++ q ∷ []
add_write false q s = s

-- The patch statements and registry rows that were sent, whether they succeeded or not. The DDL of
-- `bootstrap`, which creates the schema and the tables of the registry, is neither.
abbrev pub writes : List Query → Event → List Query
writes s (q, succeeded) = add_write (is_write q) q s

-- Nothing is reported.
pub record Quiet (r : MigrationRunResult) : Type 0 where
  pub no_skip : r.skipped ≡ []
  pub no_apply : r.applied_patches ≡ []
  pub no_failure : r.failed_patches ≡ []
  pub no_review : r.pending_reviews ≡ []
  pub healthy : r.degraded ≡ false

-- The gate passed `files`.
abbrev pub Passed : Host → Options → TrustedKey → List PatchFile → Type 0
Passed host opts key files =
    (provenance host opts (list_patch_files opts.directory)).1 ≡ ok (key, files)

-- A run that returns sent no patch statement and no registry row, or was in mode `apply`, passed
-- the gate, and reports on the files; one that throws sent neither, or passed the gate. No security
-- event is ever reported.
abbrev pub Guarded : Host → Options → Out MigrationRunResult → List Query → Type 0
Guarded host opts (ok r) s =
    (r.security_events ≡ [])
    × (((s ≡ []) × Quiet r)
        ⊎ ((r.mode ≡ apply)
            × ((key : TrustedKey) × (files : List PatchFile) × Passed host opts key files
                × ((r0 : MigrationRunResult) × Reports (names files) r0 r))))
Guarded host opts (thrown e) s =
    (s ≡ []) ⊎ ((key : TrustedKey) × (files : List PatchFile) × Passed host opts key files)
