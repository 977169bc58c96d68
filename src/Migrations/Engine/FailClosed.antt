-- ===== src/Migrations/Engine/FailClosed.antt =====
-- The whole run of src/migrations/engine.ts: the patches and registry rows that it sends, and what
-- its report says of the files.
use primebrick_v3_dal.Base.{
  ℕ, zero, suc, Bool, true, false, List, [], ◌++◌, ◌≡◌, refl, ◌∙◌, inl, inr, some, none, Text,
  Option, is_empty, ◌||◌, leb, if◌then◌else◌,
}
use primebrick_v3_dal.Migrations.Registry.{Registry}
use primebrick_v3_dal.Migrations.Manifest.{TrustedKey}
use primebrick_v3_dal.Migrations.Io.{
  Query, Out, ok, thrown, Io, pure, ◌>>=◌, Host, try_lock, unlock, bootstrap, find_config,
  read_config, select_registry, out_of_fuel, lock_not_acquired,
}
use primebrick_v3_dal.Migrations.Io.Triple.{
  Triple, Triple-bind, Triple-raise, Triple-pure, Triple-weaken, Triple-strengthen,
  Triple-finally_ignore,
}
use primebrick_v3_dal.Migrations.Engine.Rules.{Triple-query, Triple-clock, Triple-pause}
use primebrick_v3_dal.Migrations.Engine.Defs.{
  query, pause, PatchFile, Options, MigrationRunResult, MigrationMode, SecurityEvent, check, off,
  apply, lock_loop, on_try, acquire_advisory_lock, find_changed, rows_of, provenance, is_locked,
  is_falsy, cell, read_mode, read_config_if, list_patch_files, mode_of,
}
use primebrick_v3_dal.Migrations.Engine.Run.{
  by_mode, unless_changed, after_gate, with_files, if_locked, is_off, fresh, registry_phase,
  locked_phase, run_migrations, apply_phase,
}
use primebrick_v3_dal.Migrations.Engine.Order.{
  Reports, Walking, Merged, names, apply_files-Reports, Returns,
}
use primebrick_v3_dal.Migrations.Engine.Gate.{provenance-IsTrusted}
use primebrick_v3_dal.Migrations.Engine.Guarded.{Quiet, Guarded, Passed, is_write, writes}

Reports-next_mode :
    (all : List Text) (r0 r : MigrationRunResult) (m : Option Text)
    → Reports all r0 r
    → Reports all r0 (record r { next_mode = m })
Reports-next_mode all r0 r m h = record {
  handled = h.handled;
  rest = h.rest;
  split = h.split;
  merged = h.merged;
  stops = h.stops;
  degraded = h.degraded;
  mode = h.mode;
  events = h.events;
}

Quiet-Walking : (r : MigrationRunResult) → Quiet r → Walking [] r r
Quiet-Walking r q = record {
  merged = rw (q.no_skip, q.no_apply) Merged.start;
  no_failure = q.no_failure;
  no_review = q.no_review;
  healthy = q.healthy;
  mode = refl;
  events = refl;
}

module _ (host : Host) (opts : Options) where
  abbrev NoWrite : {A : Type 0} → Out A → List Query → Type 0
  NoWrite o s = s ≡ []

  quiet : (q : Query) → is_write q ≡ false → Triple writes (λ s. s ≡ []) (query host q) NoWrite
  quiet q n = Triple-query writes host q NoWrite (λ r s h. rw n h) (λ m s h. rw n h)

  apply_phase-Reports :
      (key : TrustedKey) (reg : Registry) (files : List PatchFile) (r : MigrationRunResult)
      → Quiet r
      → Triple writes
          (λ s. Unit {0})
          (apply_phase host opts key reg files r)
          (Returns (Reports (names files) r))
  unfolding apply_phase
  apply_phase-Reports key reg files r q =
      Triple-bind writes (Returns (Reports (names files) r)) (λ _ _. Unit {0}) _ _ (any_m _)
        (λ a.
          Triple-bind writes (Returns (Reports (names files) r)) (λ _ _. Unit {0}) _ _ (any_m _)
            (λ a.
              Triple-bind writes _ (Returns (Reports (names files) r)) _ _
                (apply_files-Reports writes host opts key (names files) r reg files [] r refl
                  (Quiet-Walking r q))
                (λ done.
                  Triple-bind writes _ (λ _ _. Reports (names files) r done) _ _
                    (record { at = λ c s h. h })
                    (λ next. Triple-pure writes _ _ (λ s h. Reports-next_mode _ _ _ next h))
                    (λ e s h. tt))
                (λ e s h. tt))
            (λ e s h. tt))
        (λ e s h. tt)
    where
      any_m : {A : Type 0} (m : Io host.Conn A) → Triple writes (λ _. Unit {0}) m (λ _ _. Unit {0})
      any_m m = record { at = λ c s h. tt }

  by_mode-Guarded :
      (m : MigrationMode) (key : TrustedKey) (reg : Registry) (files : List PatchFile)
      (r : MigrationRunResult)
      → r.mode ≡ m
      → is_off m ≡ false
      → r.security_events ≡ []
      → Quiet r
      → Passed host opts key files
      → Triple writes (λ s. s ≡ []) (by_mode host opts m key reg files r) (Guarded host opts)
  unfolding by_mode
  by_mode-Guarded check key reg files r em n ev q pass =
      Triple-pure writes r (Guarded host opts) (λ s h. (ev, inl (h, q)))
  by_mode-Guarded off key reg files r em n ev q pass = cc
  by_mode-Guarded apply key reg files r em n ev q pass =
      Triple-strengthen writes finish
        (Triple-weaken writes (λ s h. tt) (apply_phase-Reports key reg files r q))
    where
      finish :
          (o : Out MigrationRunResult) (s : List Query)
          → Returns (Reports (names files) r) o s
          → Guarded host opts o s
      finish (ok done) s h = (h.events ∙ ev, inr (h.mode ∙ em, (key, files, pass, (r, h))))
      finish (thrown e) s h = inr (key, files, pass)

  unless_changed-Guarded :
      (changed : Option PatchFile) (key : TrustedKey) (reg : Registry) (files : List PatchFile)
      (r : MigrationRunResult)
      → is_off r.mode ≡ false
      → r.security_events ≡ []
      → Quiet r
      → Passed host opts key files
      → Triple writes
          (λ s. s ≡ [])
          (unless_changed host opts changed key reg files r)
          (Guarded host opts)
  unfolding unless_changed
  unless_changed-Guarded (some f) key reg files r n ev q pass =
      Triple-raise writes _ (Guarded host opts) (λ s h. inl h)
  unless_changed-Guarded none key reg files r n ev q pass =
      by_mode-Guarded r.mode key reg files r refl n ev q pass

  after_gate-Guarded :
      (gate : Out (TrustedKey × List PatchFile)) (r : MigrationRunResult)
      → (provenance host opts (list_patch_files opts.directory)).1 ≡ gate
      → is_off r.mode ≡ false
      → r.security_events ≡ (provenance host opts (list_patch_files opts.directory)).0
      → Quiet r
      → Triple writes (λ s. s ≡ []) (after_gate host opts gate r) (Guarded host opts)
  unfolding after_gate registry_phase
  after_gate-Guarded (thrown e) r g n ev q =
      Triple-raise writes e (Guarded host opts) (λ s h. inl h)
  after_gate-Guarded (ok (key, files)) r g n ev q =
      Triple-bind writes (Guarded host opts) NoWrite _ _ (quiet (select_registry opts.schema) refl)
        (λ rows.
          unless_changed-Guarded (find_changed (rows_of rows) files) key (rows_of rows) files r n
            (ev ∙ (provenance-IsTrusted host opts _ key files g).0) q g)
        (λ e s h. inl h)

  with_files-Guarded :
      (r : MigrationRunResult)
      → r.security_events ≡ []
      → Quiet r
      → Triple writes
          (λ s. s ≡ [])
          (with_files host opts (list_patch_files opts.directory) r)
          (Guarded host opts)
  unfolding with_files
  with_files-Guarded r ev q =
      either (is_empty (list_patch_files opts.directory)) (is_off r.mode) refl
    where
      gate : List SecurityEvent × Out (TrustedKey × List PatchFile)
      gate = provenance host opts (list_patch_files opts.directory)

      either :
          (a b : Bool)
          → is_off r.mode ≡ b
          → Triple writes
              (λ s. s ≡ [])
              (if a || b
                then pure r
                else after_gate host opts gate.1
                    (record r { security_events = r.security_events ++ gate.0 }))
              (Guarded host opts)
      either true b n = Triple-pure writes r _ (λ s h. (ev, inl (h, q)))
      either false true n = Triple-pure writes r _ (λ s h. (ev, inl (h, q)))
      either false false n = after_gate-Guarded gate.1 _ refl n (rw ev refl) (record {
        no_skip = q.no_skip;
        no_apply = q.no_apply;
        no_failure = q.no_failure;
        no_review = q.no_review;
        healthy = q.healthy;
      })

  read_mode-quiet : Triple writes (λ s. s ≡ []) (read_mode host opts.schema) NoWrite
  unfolding read_mode
  read_mode-quiet =
      Triple-bind writes NoWrite NoWrite _ _ (quiet (find_config opts.schema) refl)
        (λ rows. continue (is_falsy (cell rows))) (λ e s h. h)
    where
      continue :
          (b : Bool) → Triple writes (λ s. s ≡ []) (read_config_if host b opts.schema) NoWrite
      continue true = unfold read_config_if in Triple-pure writes none _ (λ s h. h)
      continue false =
          unfold read_config_if in
          Triple-bind writes NoWrite NoWrite _ _ (quiet (read_config opts.schema) refl)
            (λ rows. Triple-pure writes (cell rows) _ (λ s h. h)) (λ e s h. h)

  locked_phase-Guarded :
      Triple writes
        (λ s. s ≡ [])
        (locked_phase host opts (list_patch_files opts.directory))
        (Guarded host opts)
  unfolding locked_phase
  locked_phase-Guarded =
      Triple-bind writes (Guarded host opts) NoWrite _ _ (quiet (bootstrap opts.schema) refl)
        (λ a.
          Triple-bind writes (Guarded host opts) NoWrite _ _ read_mode-quiet
            (λ m.
              with_files-Guarded (record fresh { mode = mode_of m }) refl
                (record {
                  no_skip = refl;
                  no_apply = refl;
                  no_failure = refl;
                  no_review = refl;
                  healthy = refl;
                }))
            (λ e s h. inl h))
        (λ e s h. inl h)

  on_try-quiet :
      (b : Bool) (deadline : ℕ) (again : Io host.Conn Bool)
      → Triple writes (λ s. s ≡ []) again NoWrite
      → Triple writes (λ s. s ≡ []) (on_try host b deadline again) NoWrite
  unfolding on_try
  on_try-quiet true deadline again h = Triple-pure writes true _ (λ v h. h)
  on_try-quiet false deadline again h =
      Triple-bind writes _ NoWrite _ _ (Triple-clock writes host _ (λ n v h. h))
        (λ t. late (leb deadline t)) (λ e v h. h)
    where
      late :
          (b : Bool)
          → Triple writes
              (λ s. s ≡ [])
              (if b then pure false else (pause host >>= λ _. again))
              NoWrite
      late true = Triple-pure writes false _ (λ v h. h)
      late false =
          Triple-bind writes _ NoWrite _ _ (Triple-pause writes host _ (λ v h. h)) (λ _. h)
            (λ e v h. h)

  lock_loop-quiet :
      (fuel : ℕ) (deadline : ℕ)
      → Triple writes (λ s. s ≡ []) (lock_loop host fuel opts.schema deadline) NoWrite
  unfolding lock_loop
  lock_loop-quiet zero deadline = Triple-raise writes out_of_fuel _ (λ v h. h)
  lock_loop-quiet (suc fuel) deadline =
      Triple-bind writes _ NoWrite _ _ (quiet (try_lock opts.schema) refl)
        (λ rows. on_try-quiet (is_locked rows) deadline _ (lock_loop-quiet fuel deadline))
        (λ e v h. h)

  unlock-Guarded :
      (o : Out MigrationRunResult)
      → Triple writes
          (Guarded host opts o)
          (query host (unlock opts.schema))
          (λ _. Guarded host opts o)
  unlock-Guarded o =
      Triple-query writes host (unlock opts.schema) (λ _. Guarded host opts o) (λ r s h. h)
        (λ m s h. h)

  pub run_migrations_lem :
      (fuel : ℕ) → Triple writes (λ s. s ≡ []) (run_migrations host opts fuel) (Guarded host opts)
  unfolding run_migrations acquire_advisory_lock
  run_migrations_lem fuel =
      Triple-bind writes (Guarded host opts) NoWrite _ _
        (Triple-bind writes _ NoWrite _ _ (Triple-clock writes host _ (λ n v h. h))
          (λ t. lock_loop-quiet fuel _) (λ e v h. h))
        by_lock (λ e s h. inl h)
    where
      by_lock : (b : Bool) → Triple writes (λ s. s ≡ []) (if_locked host opts b) (Guarded host opts)
      by_lock true =
          unfold if_locked in
          Triple-finally_ignore writes _ (Guarded host opts) _ _ locked_phase-Guarded unlock-Guarded
      by_lock false = unfold if_locked in Triple-raise writes lock_not_acquired _ (λ s h. inl h)
