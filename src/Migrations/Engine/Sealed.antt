-- ===== src/Migrations/Engine/Sealed.antt =====
-- What a caller of `runMigrations` can rely on, whatever the server answers.
use primebrick_v3_dal.Base.{ℕ, List, [], ◌≡◌, refl}
use primebrick_v3_dal.Migrations.Io.{Query, Out, ok, thrown, Host}
use primebrick_v3_dal.Migrations.Io.Triple.{observe_all}
use primebrick_v3_dal.Migrations.Engine.Defs.{Options, MigrationRunResult}
use primebrick_v3_dal.Migrations.Engine.Run.{run_migrations}
use primebrick_v3_dal.Migrations.Engine.Guarded.{writes, Guarded}
use primebrick_v3_dal.Migrations.Engine.FailClosed.{run_migrations_lem}

module _ (host : Host) (opts : Options) (fuel : ℕ) (c : host.Conn) where
  abbrev outcome : Out MigrationRunResult
  outcome = (run_migrations host opts fuel c).0

  abbrev sent_writes : List Query
  sent_writes = observe_all writes [] (run_migrations host opts fuel c).1

  -- A run that returns either sent no patch statement and no registry row and reports nothing, or
  -- was in mode `apply`, passed the gate, and reports on the files of the directory in their order,
  -- up to the first that blocks; one that throws sent no patch statement and no registry row, or
  -- had passed the gate. The DDL with which a run creates the registry itself is not counted.
  pub run_migrations-Guarded : Guarded host opts outcome sent_writes
  run_migrations-Guarded = (run_migrations_lem host opts fuel).at c [] refl

  -- No run that returns reports a security event.
  pub run_migrations-no_events : (r : MigrationRunResult) → outcome ≡ ok r → r.security_events ≡ []
  run_migrations-no_events r returned = by_outcome outcome run_migrations-Guarded returned
    where
      by_outcome :
          (o : Out MigrationRunResult)
          → Guarded host opts o sent_writes
          → o ≡ ok r
          → r.security_events ≡ []
      by_outcome (ok x) (ev, rest) e = cc
      by_outcome (thrown x) h e = cc
