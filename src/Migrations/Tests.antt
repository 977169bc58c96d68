-- ===== src/Migrations/Tests.antt =====
-- The theorems on the migration engine at a server that grants the lock and accepts every query.
use primebrick_v3_dal.Base.{
  ℕ, suc, true, false, none, some, List, [], ◌∷◌, ◌≡◌, ◌≢◌, refl, keep, not, any, join, All, trim,
  ◌↔◌, Text, codes, arith, text_eq, lookup, sort_by, starts_with, to_lower, split_on, strip_prefix,
  trim_start, is_space,
}
use primebrick_v3_dal.SchemaDiff.Naming.{patch_name_from_filename, normalize_patch_eol}
use primebrick_v3_dal.Migrations.Registry.{
  applied, failed, pending_review, PatchRegistryRow, Registry, Upsert, find_row,
  retry_failed_patches, approve_pending_review, resolve_manually,
}
use primebrick_v3_dal.Migrations.Registry.Laws.{settled_rows_stay, approve_pending_review_iff}
use primebrick_v3_dal.Migrations.Registry.History.{Upserts, Told, of_patch, replay, find_row-replay}
use primebrick_v3_dal.Migrations.Manifest.{
  verify_with_keyring, verify_manifest, judge, is_trusted, release, TrustedKey, PatchManifest,
  loaded,
}
use primebrick_v3_dal.Migrations.Splitter.{
  parse_patch_pragmas, split_sql_statements, is_tx_control_statement,
}
use primebrick_v3_dal.Migrations.Io.{
  ◌>>=◌, resume, finally_ignore, find_config, read_config, text_cell, Query, try_lock, Reply,
  returned, no_rows, locked, ok, thrown, Host, out_of_fuel,
}
use primebrick_v3_dal.Migrations.Io.Triple.{observe_all}
use primebrick_v3_dal.Migrations.Engine.{
  with_manifest, after_verify, check_files, check_read, check_content, add_checked, with_key,
  acquire_advisory_lock, lock_loop, on_try, query, clock, if_locked, locked_phase, read_mode,
  read_config_if, with_files, after_gate, registry_phase, unless_changed, by_mode, find_changed,
  is_changed, PatchFile, Options, check, provenance, list_patch_files, apply_atomic, run_migrations,
  fresh,
}
use primebrick_v3_dal.Migrations.Engine.Durable.{observe, observe_by}
use primebrick_v3_dal.Migrations.Engine.Atomicity.{
  idle_view, Committed, AppliedAtomically, apply_atomic-Committed,
}
use primebrick_v3_dal.Migrations.Engine.Outcome.{Agrees}
use primebrick_v3_dal.Migrations.Engine.Report.{run_migrations-Agrees}
use primebrick_v3_dal.Migrations.Engine.Gate.{IsTrusted, provenance-IsTrusted}
use primebrick_v3_dal.Migrations.Engine.Guarded.{writes, Guarded}
use primebrick_v3_dal.Migrations.Engine.Lock.{Ticks, acquire_advisory_lock-ends}
use primebrick_v3_dal.Migrations.Engine.Sealed.{run_migrations-Guarded, run_migrations-no_events}

abbrev content : Text
content = codes "SELECT 1;"

abbrev answer : Query → Reply
answer (try_lock schema) = returned (locked true)
answer _ = returned no_rows

-- The connection is the time; a pause takes one millisecond; a hash is the text itself.
abbrev server : Host
server = record {
  Conn = ℕ;
  send = λ q c. (answer q, c);
  now = λ c. (c, c);
  sleep = suc;
  sha256_hex = λ s. s;
  read_file = λ name. some content;
}

abbrev key : TrustedKey
key = record { key_id = codes "k1"; public_key = codes "pk"; trust = release }

abbrev manifest : PatchManifest
manifest = record {
  key_id = codes "k1";
  issued_at = codes "2026-01-01";
  patches = (codes "001_a", content) ∷ [];
  signature = codes "sig";
}

abbrev opts : Options
opts = record {
  schema = codes "ai";
  directory = some (codes "001_a.sql" ∷ codes "notes.txt" ∷ []);
  manifest = loaded manifest;
  keyring = loaded (some (key ∷ []));
  check_signature = λ m k. some true;
  allowed_trust = release ∷ [];
  approved_reviews = [];
  actor = none;
  lock_wait_ms = 10;
}

run_migrations-Agrees_example :
    Agrees
      (run_migrations server opts 20 0).0
      (observe_all observe (idle_view []) (run_migrations server opts 20 0).1)
run_migrations-Agrees_example = run_migrations-Agrees server opts 20 0

run_migrations-Guarded_example :
    Guarded server opts
      (run_migrations server opts 20 0).0
      (observe_all writes [] (run_migrations server opts 20 0).1)
run_migrations-Guarded_example = run_migrations-Guarded server opts 20 0

abbrev file : PatchFile
file = record {
  filename = codes "001_a.sql";
  patch_name = codes "001_a";
  raw = content;
  sha256 = content;
  sha256_raw = content;
  requires_review = false;
  no_transaction = false;
}

-- A patch with a BEGIN and a COMMIT of its own, at a server that reads as the splitter does.
abbrev bracketed : Text
bracketed = codes "BEGIN; SELECT 1; COMMIT;"

kept_read :
    split_sql_statements (
      join
        (codes ";\n")
        (keep (λ s. not (is_tx_control_statement s)) (split_sql_statements bracketed)))
    ≡ keep (λ s. not (is_tx_control_statement s)) (split_sql_statements bracketed)
unfolding split_sql_statements is_tx_control_statement trim trim_start is_space join to_lower
    starts_with strip_prefix
kept_read = refl

control_found :
    (ss : List Text)
    → All (λ s. is_tx_control_statement s ≡ true → is_tx_control_statement s ≡ true) ss
control_found [] = tt
control_found (s ∷ ss) = ((λ h. h), control_found ss)

apply_atomic-Committed_example :
    Committed
      (AppliedAtomically server opts key file bracketed)
      []
      (apply_atomic server opts key file 0 bracketed 0).0
      (observe_all
        (observe_by (λ t. any is_tx_control_statement (split_sql_statements t)))
        (idle_view [])
        (apply_atomic server opts key file 0 bracketed 0).1)
apply_atomic-Committed_example =
    apply_atomic-Committed split_sql_statements is_tx_control_statement server opts key file 0
      bracketed [] 0 kept_read (control_found (split_sql_statements bracketed))

passes : (provenance server opts (codes "001_a.sql" ∷ [])).1 ≡ ok (key, file ∷ [])
unfolding provenance with_manifest after_verify verify_with_keyring verify_manifest judge is_trusted
    check_files check_read check_content add_checked with_key patch_name_from_filename
    normalize_patch_eol text_eq lookup parse_patch_pragmas to_lower split_on strip_prefix trim_start
    is_space
passes = refl

provenance-IsTrusted_example :
    ((provenance server opts (codes "001_a.sql" ∷ [])).0 ≡ [])
    × IsTrusted server opts (codes "001_a.sql" ∷ []) key (file ∷ [])
provenance-IsTrusted_example =
    provenance-IsTrusted server opts (codes "001_a.sql" ∷ []) key (file ∷ []) passes

ticks : Ticks server (λ c. c)
ticks = record {
  reads = λ c. refl;
  now_keeps = λ c. omega arith;
  send_keeps = λ q c. omega arith;
  sleep_moves = λ c. omega arith;
}

acquire_advisory_lock-ends_example :
    (acquire_advisory_lock server 11 (codes "ai") 10 0).0 ≢ thrown out_of_fuel
acquire_advisory_lock-ends_example =
    acquire_advisory_lock-ends server (λ c. c) ticks 11 10 (codes "ai") 0 (omega arith)

-- A server whose `config_entries` hold the mode `check`.
abbrev checking_answer : Query → Reply
checking_answer (find_config schema) = returned (text_cell (some (codes "1")))
checking_answer (read_config schema) = returned (text_cell (some (codes "check")))
checking_answer q = answer q

abbrev checking : Host
checking = record server { send = λ q c. (checking_answer q, c) }

checked_run : (run_migrations checking opts 20 0).0 ≡ ok (record fresh { mode = check })
unfolding run_migrations acquire_advisory_lock lock_loop on_try query clock ◌>>=◌ resume
    finally_ignore if_locked locked_phase read_mode read_config_if with_files after_gate
    registry_phase unless_changed by_mode find_changed is_changed find_row list_patch_files sort_by
    starts_with provenance with_manifest after_verify verify_with_keyring verify_manifest judge
    is_trusted check_files check_read check_content add_checked with_key patch_name_from_filename
    normalize_patch_eol text_eq lookup parse_patch_pragmas to_lower split_on strip_prefix trim_start
    is_space
checked_run = refl

run_migrations-no_events_example : (record fresh { mode = check }).security_events ≡ []
run_migrations-no_events_example =
    run_migrations-no_events checking opts 20 0 (record fresh { mode = check }) checked_run

abbrev waiting : PatchRegistryRow
waiting = record {
  patch_name = codes "001_a";
  content_sha256 = content;
  status = pending_review;
  signed_key_id = none;
  attempts = 1;
  duration_ms = none;
  error = none;
  applied_by = none;
  resolved_by = none;
  resolved_note = none;
  atomic = true;
  applied_at = 0;
  updated_at = 0;
}

abbrev done : PatchRegistryRow
done = record waiting { patch_name = codes "000_z"; status = applied }

abbrev rows : Registry
rows = done ∷ waiting ∷ []

settled_rows_stay_example :
    (find_row (codes "000_z") (retry_failed_patches 9 none rows).0 ≡ some done)
    × (find_row (codes "000_z") (approve_pending_review 9 (codes "000_z") (codes "me") none rows).0
        ≡ some done)
    × (find_row
          (codes "000_z")
          (resolve_manually 9 (codes "000_z") (codes "me") (codes "by hand") rows).0
        ≡ some done)
unfolding find_row text_eq
settled_rows_stay_example =
    settled_rows_stay 9 rows (codes "000_z") done none (codes "000_z") (codes "me")
      (codes "by hand") none refl refl

approve_pending_review_iff_example :
    ((approve_pending_review 9 (codes "001_a") (codes "me") none rows).1 ≡ true) ↔ (
      (r : PatchRegistryRow) × (find_row (codes "001_a") rows ≡ some r)
      × (r.status ≡ pending_review))
unfolding find_row text_eq
approve_pending_review_iff_example =
    approve_pending_review_iff 9 (codes "001_a") (codes "me") none rows (refl, (refl, tt))

abbrev write : Upsert
write = record {
  patch_name = codes "001_a";
  content_sha256 = content;
  status = applied;
  signed_key_id = none;
  duration_ms = some 3;
  error = none;
  applied_by = none;
  atomic = true;
}

-- A failed attempt, then a successful one that gives no actor.
abbrev history : Upserts
history = (12, write) ∷ (9, record write { status = failed; applied_by = some (codes "ci") }) ∷ []

find_row-replay_example :
    Told (of_patch (codes "001_a") history) (find_row (codes "001_a") (replay history))
find_row-replay_example = find_row-replay history (codes "001_a")
