-- ===== src/Migrations/Engine/Defs.antt =====
-- The operations of src/migrations/engine.ts below `runMigrations`: the lock, the mode, the
-- provenance gate, and the application of one patch file.
use primebrick_v3_dal.Base.{
  ℕ, zero, suc, ◌+◌, ◌-◌, Bool, true, false, not, ◌&&◌, Option, none, some, List, [], ◌∷◌, Text,
  if◌then◌else◌, leb, text_eq, includes, lookup, is_empty, keep, sort_by, text_le, codes,
  starts_with, reverse,
}
use primebrick_v3_dal.SchemaDiff.Naming.{normalize_patch_eol, patch_name_from_filename}
use primebrick_v3_dal.Migrations.Splitter.{
  Kind, tx, notx, PatchSegment, parse_patch_segments, split_sql_statements, strip_tx_control,
  is_tx_control_statement, parse_patch_pragmas,
}
use primebrick_v3_dal.Migrations.Registry.{
  PatchStatus, applied, approved, PatchRegistryRow, Registry, is_settled, find_row,
}
use primebrick_v3_dal.Migrations.Manifest.{
  Trust, TrustedKey, PatchManifest, Loaded, missing, malformed, loaded, ManifestFailure, Verified,
  signed_by, refused, verify_with_keyring,
}
use primebrick_v3_dal.Migrations.Io.{
  Query, try_lock, find_config, read_config, set_statement_timeout, begin_tx, commit_tx,
  rollback_tx, patch_sql, upsert, Rows, no_rows, locked, text_cell, registry, rejected, returned,
  EngineError, query_failed, manifest_missing, manifest_unreadable, manifest_refused,
  file_unreadable, patch_unknown, patch_sha_mismatch, out_of_fuel, Out, ok, thrown, Io, pure, raise,
  EngineError, ◌>>=◌, ◌>>◌, try_catch, Host,
}

pub data MigrationMode : Type 0 where
  apply check off : MigrationMode

-- The strings of `securityEvents`.
pub data SecurityEvent : Type 0 where
  no_manifest : SecurityEvent
  refused_manifest : ManifestFailure → SecurityEvent
  unknown_patch : Text → SecurityEvent
  sha_mismatch : Text → SecurityEvent

pub record MigrationRunResult : Type 0 where
  pub mode : MigrationMode
  pub next_mode : Option Text
  pub degraded : Bool
  pub applied_patches : List Text
  pub failed_patches : List (Text × Text)
  pub pending_reviews : List Text
  pub skipped : List Text
  pub security_events : List SecurityEvent

pub record PatchFile : Type 0 where
  pub filename : Text
  pub patch_name : Text
  pub raw : Text
  pub sha256 : Text
  pub sha256_raw : Text
  pub requires_review : Bool
  pub no_transaction : Bool

-- What `MigrationEngineOptions` and the files in the two directories come to.
pub record Options : Type 0 where
  pub schema : Text
  pub directory : Option (List Text)
  pub manifest : Loaded PatchManifest
  pub keyring : Loaded (Option (List TrustedKey))
  pub check_signature : PatchManifest → Text → Option Bool
  pub allowed_trust : List Trust
  pub approved_reviews : List Text
  pub actor : Option Text
  pub lock_wait_ms : ℕ

-- `none` where the directory does not exist
unfoldable pub list_patch_files : Option (List Text) → List Text
list_patch_files none = []
list_patch_files (some names) =
    sort_by text_le (keep (λ f. starts_with (reverse f) (codes "lqs.")) names)

-- The outcomes of a query. The shape of its rows is the server's; another shape than the one
-- asked for is read as no row.
abbrev pub is_locked : Rows → Bool
is_locked (locked b) = b
is_locked _ = false

abbrev pub cell : Rows → Option Text
cell (text_cell o) = o
cell _ = none

abbrev pub rows_of : Rows → Registry
rows_of (registry rs) = rs
rows_of _ = []

-- `!oid`
abbrev pub is_falsy : Option Text → Bool
is_falsy none = true
is_falsy (some s) = is_empty s

abbrev pub mode_of : Option Text → MigrationMode
mode_of none = apply
mode_of (some s) =
    if text_eq s (codes "check") then check else if text_eq s (codes "off") then off else apply

-- The row, in `byName`, of a patch that is registered as done.
abbrev pub is_done : Option PatchRegistryRow → Bool
is_done none = false
is_done (some r) = is_settled r.status

abbrev pub is_approved : Option PatchRegistryRow → Bool
is_approved (some r) = elim r.status [ approved ↦ true | _ ↦ false ]
is_approved none = false

-- The immutability test on one file.
unfoldable pub is_changed : Registry → PatchFile → Bool
is_changed reg f = elim (find_row f.patch_name reg) [
  | none ↦ false
  | some r ↦
      is_settled r.status
      && not (text_eq r.content_sha256 f.sha256)
      && not (text_eq r.content_sha256 f.sha256_raw)
]

unfoldable pub find_changed : Registry → List PatchFile → Option PatchFile
find_changed reg [] = none
find_changed reg (f ∷ fs) = if is_changed reg f then some f else find_changed reg fs

-- What the loop does with a file before it runs anything.
pub data Verdict : Type 0 where
  skip review run : Verdict

unfoldable pub verdict : Registry → List Text → PatchFile → Verdict
verdict reg approved_reviews f =
    if is_done (find_row f.patch_name reg)
    then skip
    else if f.requires_review
        && not (is_approved (find_row f.patch_name reg))
        && not (includes approved_reviews f.patch_name)
    then review
    else run

-- segments.length === 1 && segments[0].kind === "tx", with the text of that segment
unfoldable pub atomic_sql : List PatchSegment → Option Text
atomic_sql [] = none
atomic_sql (seg ∷ []) = elim seg.kind [ tx ↦ some seg.sql | notx ↦ none ]
atomic_sql (seg ∷ _ ∷ _) = none

-- One round of the gate's loop: a file for the rest of the run, or the events and the error.
pub data FileCheck : Type 0 where
  passed : PatchFile → FileCheck
  stopped : List SecurityEvent → EngineError → FileCheck

-- What the gate has found so far: `securityEvents`, and the files or the error thrown.
abbrev pub Findings : Type 0 → Type 0
Findings A = List SecurityEvent × Out A

unfoldable pub add_checked : FileCheck → Findings (List PatchFile) → Findings (List PatchFile)
add_checked (stopped events e) later = (events, thrown e)
add_checked (passed f) (events, ok files) = (events, ok (f ∷ files))
add_checked (passed f) (events, thrown e) = (events, thrown e)

-- What an object that JSON.parse makes has of Object.prototype: at such a name `manifest.patches`
-- holds something that is no hash, listed or not.
abbrev pub inherited_keys : List Text
inherited_keys =
    codes "constructor"
    ∷ codes "hasOwnProperty"
    ∷ codes "isPrototypeOf"
    ∷ codes "propertyIsEnumerable"
    ∷ codes "toLocaleString"
    ∷ codes "toString"
    ∷ codes "valueOf"
    ∷ codes "__proto__"
    ∷ codes "__defineGetter__"
    ∷ codes "__defineSetter__"
    ∷ codes "__lookupGetter__"
    ∷ codes "__lookupSetter__"
    ∷ []

module _ (host : Host) where
  unfoldable pub check_content : Text → Text → Option Text → FileCheck
  check_content filename raw none =
      let name = patch_name_from_filename filename in
      if includes inherited_keys name
      then stopped (sha_mismatch name ∷ []) (patch_sha_mismatch filename)
      else stopped (unknown_patch name ∷ []) (patch_unknown filename)
  check_content filename raw (some declared) =
      let name = patch_name_from_filename filename in
      let sha = host.sha256_hex (normalize_patch_eol raw) in
      if text_eq declared sha
      then passed (record {
        filename = filename;
        patch_name = name;
        raw = raw;
        sha256 = sha;
        sha256_raw = host.sha256_hex raw;
        requires_review = (parse_patch_pragmas raw).requires_review;
        no_transaction = (parse_patch_pragmas raw).no_transaction;
      })
      else stopped (sha_mismatch name ∷ []) (patch_sha_mismatch filename)

  unfoldable pub check_read : List (Text × Text) → Text → Option Text → FileCheck
  check_read patches filename none = stopped [] (file_unreadable filename)
  check_read patches filename (some raw) =
      check_content filename raw (lookup (patch_name_from_filename filename) patches)

  -- The loop of the gate over the file names.
  unfoldable pub check_files : List (Text × Text) → List Text → Findings (List PatchFile)
  check_files patches [] = ([], ok [])
  check_files patches (filename ∷ rest) =
      add_checked (check_read patches filename (host.read_file filename)) (check_files patches rest)

  unfoldable pub with_key :
      TrustedKey → Findings (List PatchFile) → Findings (TrustedKey × List PatchFile)
  with_key key (events, ok files) = (events, ok (key, files))
  with_key key (events, thrown e) = (events, thrown e)

  unfoldable pub after_verify :
      List (Text × Text) → List Text → Verified → Findings (TrustedKey × List PatchFile)
  after_verify patches filenames (refused why) =
      (refused_manifest why ∷ [], thrown manifest_refused)
  after_verify patches filenames (signed_by key) = with_key key (check_files patches filenames)

  unfoldable pub with_manifest :
      Options → List Text → Loaded PatchManifest → Findings (TrustedKey × List PatchFile)
  with_manifest opts filenames missing = (no_manifest ∷ [], thrown manifest_missing)
  with_manifest opts filenames malformed = ([], thrown manifest_unreadable)
  with_manifest opts filenames (loaded m) =
      after_verify m.patches filenames
        (verify_with_keyring opts.check_signature m opts.keyring opts.allowed_trust)

  -- The manifest gate, then the gate over the files; with the key that signed.
  unfoldable pub provenance : Options → List Text → Findings (TrustedKey × List PatchFile)
  provenance opts filenames = with_manifest opts filenames opts.manifest

  -- client.query
  unfoldable pub query : Query → Io host.Conn Rows
  query q c =
      let (reply, c') = host.send q c in
      elim reply [
        | rejected m ↦ (thrown (query_failed m), (q, false) ∷ [], c')
        | returned rows ↦ (ok rows, (q, true) ∷ [], c')
      ]

  -- Date.now()
  unfoldable pub clock : Io host.Conn ℕ
  clock c = let (t, c') = host.now c in (ok t, [], c')

  unfoldable pub pause : Io host.Conn Unit
  pause c = (ok tt, [], host.sleep c)

  -- The `for (;;)` of acquireAdvisoryLock, on fuel, and what follows a query that found it held.
  unfoldable pub on_try : Bool → ℕ → Io host.Conn Bool → Io host.Conn Bool
  on_try true deadline again = pure true
  on_try false deadline again =
      clock >>= λ t. if leb deadline t then pure false else (pause >>= λ _. again)

  unfoldable pub lock_loop : ℕ → Text → ℕ → Io host.Conn Bool
  lock_loop zero schema deadline = raise out_of_fuel
  lock_loop (suc fuel) schema deadline =
      let again = lock_loop fuel schema deadline in
      query (try_lock schema) >>= λ rows. on_try (is_locked rows) deadline again

  unfoldable pub acquire_advisory_lock : ℕ → Text → ℕ → Io host.Conn Bool
  acquire_advisory_lock fuel schema wait_ms = clock >>= λ t. lock_loop fuel schema (t + wait_ms)

  unfoldable pub read_config_if : Bool → Text → Io host.Conn (Option Text)
  read_config_if true schema = pure none
  read_config_if false schema = query (read_config schema) >>= λ rows. pure (cell rows)

  unfoldable pub read_mode : Text → Io host.Conn (Option Text)
  read_mode schema =
      query (find_config schema) >>= λ reg. read_config_if (is_falsy (cell reg)) schema

  module _ (opts : Options) (signing_key : TrustedKey) where
    -- upsertStatus, with the fields of `extra`
    unfoldable pub upsert_status :
        PatchFile → PatchStatus → Option Text → Option ℕ → Option Bool → Io host.Conn Rows
    upsert_status f status error duration atomic = query (
        upsert opts.schema (record {
          patch_name = f.patch_name;
          content_sha256 = f.sha256;
          status = status;
          signed_key_id = some signing_key.key_id;
          duration_ms = duration;
          error = error;
          applied_by = opts.actor;
          atomic = elim atomic [ none ↦ not f.no_transaction | some b ↦ b ];
        }))

    -- BEGIN, then the body and COMMIT; an error in those rolls back and is thrown on.
    unfoldable pub in_transaction : Io host.Conn Rows → Io host.Conn Rows
    in_transaction body = do
      query begin_tx
      try_catch (body >> query commit_tx) (λ e. query rollback_tx >> raise e)

    unfoldable pub register : PatchFile → ℕ → Bool → Io host.Conn Rows
    register f started_at atomic =
        clock >>= λ t. upsert_status f applied none (some (t - started_at)) (some atomic)

    unfoldable pub apply_atomic : PatchFile → ℕ → Text → Io host.Conn Rows
    apply_atomic f started_at sql = in_transaction (do
      query set_statement_timeout
      query (patch_sql (strip_tx_control sql))
      register f started_at true)

    unfoldable pub run_statements : List Text → Io host.Conn Rows
    run_statements [] = pure no_rows
    run_statements (stmt ∷ stmts) =
        let rest = run_statements stmts in
        if is_tx_control_statement stmt then rest else (query (patch_sql stmt) >> rest)

    unfoldable pub run_sql : Kind → Text → Io host.Conn Rows
    run_sql tx sql =
        in_transaction (query set_statement_timeout >> query (patch_sql (strip_tx_control sql)))
    run_sql notx sql = run_statements (split_sql_statements sql)

    unfoldable pub run_segments : List PatchSegment → Io host.Conn Rows
    run_segments [] = pure no_rows
    run_segments (seg ∷ segs) = let rest = run_segments segs in run_sql seg.kind seg.sql >> rest

    unfoldable pub apply_mixed : PatchFile → ℕ → List PatchSegment → Io host.Conn Rows
    apply_mixed f started_at segments =
        run_segments segments >> in_transaction (register f started_at false)

    -- With the text of the one segment of an atomic file, if it is one.
    unfoldable pub apply_as : PatchFile → List PatchSegment → Option Text → ℕ → Io host.Conn Rows
    apply_as f segments (some sql) started_at = apply_atomic f started_at sql
    apply_as f segments none started_at = apply_mixed f started_at segments

    -- The body of the `try` for one file.
    unfoldable pub apply_file : PatchFile → Io host.Conn Rows
    apply_file f =
        let segments = parse_patch_segments f.raw in
        clock >>= apply_as f segments (atomic_sql segments)
