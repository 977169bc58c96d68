-- ===== src/Migrations/Engine/Outcome.antt =====
-- The loop over the patch files and the whole run: the report agrees with the registry, and the
-- transactions are well bracketed.
use primebrick_v3_dal.Base.{
  Bool, true, false, List, [], ◌∷◌, ◌++◌, ◌≢◌, refl, some, none, Text, Option,
}
use primebrick_v3_dal.Migrations.Registry.{Registry}
use primebrick_v3_dal.Migrations.Manifest.{TrustedKey}
use primebrick_v3_dal.Migrations.Io.{
  Out, ok, thrown, Io, Host, message, set_lock_timeout, set_idle_timeout,
}
use primebrick_v3_dal.Migrations.Io.Triple.{Triple, Triple-bind, Triple-try_catch, Triple-pure}
use primebrick_v3_dal.Migrations.Engine.Defs.{
  PatchFile, Options, upsert_status, Verdict, skip, review, run, verdict, MigrationRunResult,
  read_mode, read_config_if, is_falsy, cell,
}
use primebrick_v3_dal.Migrations.Engine.Run.{
  attempt, after_attempt, apply_files, on_verdict, apply_phase, add_skipped, add_applied,
}
use primebrick_v3_dal.Migrations.Engine.Durable.{View, broken, observe}
use primebrick_v3_dal.Migrations.Engine.Agreement.{
  Idle, Safe, Idle-Safe, Registers, file-Registers, query-Idle, query-Safe,
}

abbrev Attempted : List Text → Text → Out (Option Text) → View → Type 0
Attempted ns name (ok none) v = Idle (ns ++ name ∷ []) v
Attempted ns name (ok (some m)) v = Safe ns v
Attempted ns name (thrown e) v = Safe ns v

-- The report lists what is registered; a run that throws leaves no broken transaction.
abbrev pub Agrees : Out MigrationRunResult → View → Type 0
Agrees (ok r) v = Safe r.applied_patches v
Agrees (thrown e) v = v.state ≢ broken

module _ (host : Host) (opts : Options) where
  module _ (key : TrustedKey) where
    attempt-Attempted :
        (f : PatchFile) (ns : List Text)
        → Triple observe (Idle ns) (attempt host opts key f) (Attempted ns f.patch_name)
    unfolding attempt upsert_status
    attempt-Attempted f ns =
        Triple-try_catch observe _ after_try _ _
          (Triple-bind observe after_try (Registers ns (f.patch_name ∷ [])) _ _
            (file-Registers host opts key f ns) (λ a. Triple-pure observe none after_try (λ v h. h))
            (λ e v h. h))
          (λ e.
            Triple-bind observe _ (λ _. Safe ns) _ _ (query-Safe host _ ns refl refl)
              (λ a. Triple-pure observe (some (message e)) _ (λ v h. h)) (λ e v h. h))
          (λ a v h. h)
      where
        after_try : Out (Option Text) → View → Type 0
        after_try (ok none) v = Idle (ns ++ f.patch_name ∷ []) v
        after_try (ok (some m)) v = Safe ns v
        after_try (thrown e) v = Safe ns v

    on_verdict-Agrees :
        (d : Verdict) (f : PatchFile) (rest : MigrationRunResult → Io host.Conn MigrationRunResult)
        (r : MigrationRunResult)
        → ((r : MigrationRunResult) → Triple observe (Idle r.applied_patches) (rest r) Agrees)
        → Triple observe (Idle r.applied_patches) (on_verdict host opts key d f rest r) Agrees
    unfolding on_verdict upsert_status
    on_verdict-Agrees skip f rest r h = h (add_skipped f.patch_name r)
    on_verdict-Agrees review f rest r h =
        Triple-bind observe Agrees (λ _. Idle r.applied_patches) _ _
          (query-Idle host _ r.applied_patches refl refl)
          (λ a. Triple-pure observe _ Agrees (λ v h. Idle-Safe _ v h))
          (λ e v h. (Idle-Safe _ v h).0)
    on_verdict-Agrees run f rest r h =
        Triple-bind observe Agrees (Attempted r.applied_patches f.patch_name) _ _
          (attempt-Attempted f r.applied_patches) continue (λ e v h. h.0)
      where
        continue :
            (o : Option Text)
            → Triple observe
                (Attempted r.applied_patches f.patch_name (ok o))
                (after_attempt host opts key f rest r o)
                Agrees
        continue none = unfold after_attempt in h (add_applied f.patch_name r)
        continue (some error) = unfold after_attempt in Triple-pure observe _ Agrees (λ v h. h)

    apply_files-Agrees :
        (reg : Registry) (files : List PatchFile) (r : MigrationRunResult)
        → Triple observe (Idle r.applied_patches) (apply_files host opts key reg files r) Agrees
    unfolding apply_files
    apply_files-Agrees reg [] r = Triple-pure observe r Agrees (λ v h. Idle-Safe _ v h)
    apply_files-Agrees reg (f ∷ fs) r =
        on_verdict-Agrees (verdict reg opts.approved_reviews f) f (apply_files host opts key reg fs)
          r (apply_files-Agrees reg fs)

  pub read_mode-Idle :
      (ns : List Text) → Triple observe (Idle ns) (read_mode host opts.schema) (λ _. Idle ns)
  unfolding read_mode
  read_mode-Idle ns =
      Triple-bind observe _ (λ _. Idle ns) _ _ (query-Idle host _ ns refl refl)
        (λ rows. continue (is_falsy (cell rows))) (λ e v h. h)
    where
      continue :
          (b : Bool) → Triple observe (Idle ns) (read_config_if host b opts.schema) (λ _. Idle ns)
      continue true = unfold read_config_if in Triple-pure observe none _ (λ v h. h)
      continue false =
          unfold read_config_if in
          Triple-bind observe _ (λ _. Idle ns) _ _ (query-Idle host _ ns refl refl)
            (λ rows. Triple-pure observe (cell rows) _ (λ v h. h)) (λ e v h. h)

  read_mode-Safe :
      (ns : List Text) → Triple observe (Safe ns) (read_mode host opts.schema) (λ _. Safe ns)
  unfolding read_mode
  read_mode-Safe ns =
      Triple-bind observe _ (λ _. Safe ns) _ _ (query-Safe host _ ns refl refl)
        (λ rows. continue (is_falsy (cell rows))) (λ e v h. h)
    where
      continue :
          (b : Bool) → Triple observe (Safe ns) (read_config_if host b opts.schema) (λ _. Safe ns)
      continue true = unfold read_config_if in Triple-pure observe none _ (λ v h. h)
      continue false =
          unfold read_config_if in
          Triple-bind observe _ (λ _. Safe ns) _ _ (query-Safe host _ ns refl refl)
            (λ rows. Triple-pure observe (cell rows) _ (λ v h. h)) (λ e v h. h)

  pub apply_phase-Agrees :
      (key : TrustedKey) (reg : Registry) (files : List PatchFile) (r : MigrationRunResult)
      → Triple observe (Idle r.applied_patches) (apply_phase host opts key reg files r) Agrees
  unfolding apply_phase
  apply_phase-Agrees key reg files r =
      Triple-bind observe Agrees (λ _. Idle ns) _ _ (query-Idle host set_lock_timeout ns refl refl)
        (λ a.
          Triple-bind observe Agrees (λ _. Idle ns) _ _
            (query-Idle host set_idle_timeout ns refl refl)
            (λ a.
              Triple-bind observe Agrees Agrees _ _ (apply_files-Agrees key reg files r)
                (λ done.
                  Triple-bind observe Agrees (λ _. Safe done.applied_patches) _ _
                    (Triple-try_catch observe _ (λ _. Safe done.applied_patches) _ _
                      (read_mode-Safe done.applied_patches)
                      (λ e. Triple-pure observe none _ (λ v h. h)) (λ a v h. h))
                    (λ next. Triple-pure observe _ Agrees (λ v h. h)) (λ e v h. h.0))
                (λ e v h. h))
            (λ e v h. (Idle-Safe ns v h).0))
        (λ e v h. (Idle-Safe ns v h).0)
    where
      ns : List Text
      ns = r.applied_patches
