-- ===== src/Migrations/Engine/Gate.antt =====
-- The provenance gate: what it has checked when it lets a run go on.
use primebrick_v3_dal.Base.{
  Bool, true, false, List, [], ◌∷◌, ◌++◌, ◌≡◌, refl, ap, ◌∙◌, some, none, Text, Option, lookup,
  text_eq, text_eq_iff, arith, find, any, Bool-cases, Option-cases, inl, inr, and_left, and_right,
  includes, if◌then◌else◌,
}
use primebrick_v3_dal.SchemaDiff.Naming.{normalize_patch_eol, patch_name_from_filename}
use primebrick_v3_dal.Migrations.Splitter.{parse_patch_pragmas}
use primebrick_v3_dal.Migrations.Manifest.{
  Trust, TrustedKey, PatchManifest, Loaded, missing, malformed, loaded, Verified, signed_by,
  refused, verify_manifest, verify_with_keyring, is_trusted, judge, trust_eq,
}
use primebrick_v3_dal.Migrations.Io.{ok, thrown, Host, patch_unknown, patch_sha_mismatch}
use primebrick_v3_dal.Migrations.Engine.Defs.{
  PatchFile, Options, sha_mismatch, unknown_patch, inherited_keys, FileCheck, passed, stopped,
  Findings, add_checked, check_content, check_read, check_files, with_key, after_verify,
  with_manifest, provenance,
}

-- The files, one for each name, each listed in the manifest with the hash of what was read.
abbrev pub Checked : Host → List (Text × Text) → List Text → List PatchFile → Type 0
Checked host patches [] [] = Unit
Checked host patches (name ∷ names) (f ∷ fs) =
    ((f.filename ≡ name)
      × (f.patch_name ≡ patch_name_from_filename name)
      × (host.read_file name ≡ some f.raw)
      × (f.sha256 ≡ host.sha256_hex (normalize_patch_eol f.raw))
      × (lookup f.patch_name patches ≡ some f.sha256)
      × (f.requires_review ≡ (parse_patch_pragmas f.raw).requires_review))
    × Checked host patches names fs
Checked host patches _ _ = ⊥

add_checked-ok :
    (c : FileCheck) (later : Findings (List PatchFile)) (files : List PatchFile)
    → (add_checked c later).1 ≡ ok files
    → (f : PatchFile) × (fs : List PatchFile) × (c ≡ passed f)
      × (later.1 ≡ ok fs)
      × (files ≡ f ∷ fs)
      × ((add_checked c later).0 ≡ later.0)
unfolding add_checked
add_checked-ok (stopped events e) later files h = cc
add_checked-ok (passed f) (events, ok fs) files h = (f, fs, refl, refl, (cc), refl)
add_checked-ok (passed f) (events, thrown e) files h = cc

module _ (host : Host) where
  -- What a file that passed has, from the name in the directory.
  abbrev CheckedFile : List (Text × Text) → Text → PatchFile → Type 0
  CheckedFile patches name f =
      (f.filename ≡ name)
      × (f.patch_name ≡ patch_name_from_filename name)
      × (host.read_file name ≡ some f.raw)
      × (f.sha256 ≡ host.sha256_hex (normalize_patch_eol f.raw))
      × (lookup f.patch_name patches ≡ some f.sha256)
      × (f.requires_review ≡ (parse_patch_pragmas f.raw).requires_review)

  check_read-passed :
      (patches : List (Text × Text)) (name : Text) (o : Option Text) (f : PatchFile)
      → host.read_file name ≡ o
      → check_read host patches name o ≡ passed f
      → CheckedFile patches name f
  unfolding check_read
  check_read-passed patches name none f r h = cc
  check_read-passed patches name (some raw) f r h =
      by_declared (lookup (patch_name_from_filename name) patches) refl h
    where
      by_name :
          (b : Bool)
          → (if b
              then stopped
                  (sha_mismatch (patch_name_from_filename name) ∷ [])
                  (patch_sha_mismatch name)
              else stopped
                  (unknown_patch (patch_name_from_filename name) ∷ [])
                  (patch_unknown name))
            ≡ passed f
          → CheckedFile patches name f
      by_name true h = cc
      by_name false h = cc

      by_declared :
          (d : Option Text)
          → lookup (patch_name_from_filename name) patches ≡ d
          → check_content host name raw d ≡ passed f
          → CheckedFile patches name f
      by_declared none e h =
          by_name (includes inherited_keys (patch_name_from_filename name))
            (unfold check_content in h)
      by_declared (some d) e h =
          unfold check_content in
          ground (arith, text_eq_iff d (host.sha256_hex (normalize_patch_eol raw)))

  pub check_files-Checked :
      (patches : List (Text × Text)) (filenames : List Text) (files : List PatchFile)
      → (check_files host patches filenames).1 ≡ ok files
      → ((check_files host patches filenames).0 ≡ []) × Checked host patches filenames files
  unfolding check_files
  check_files-Checked patches [] [] h = (refl, tt)
  check_files-Checked patches [] (f ∷ fs) h = cc
  check_files-Checked patches (name ∷ names) files h =
      let (f, fs, one, later, same, events) =
        add_checked-ok _ (check_files host patches names) files h in
      let (quiet, rest) = check_files-Checked patches names fs later in
      rw same (events ∙ quiet, (check_read-passed patches name _ f refl one, rest))

find_sound :
    (p : TrustedKey → Bool) (keys : List TrustedKey) (k : TrustedKey)
    → find p keys ≡ some k
    → (p k ≡ true)
      × (before : List TrustedKey) × (after : List TrustedKey) × (keys ≡ before ++ k ∷ after)
find_sound p [] k h = cc
find_sound p (j ∷ keys) k h = elim (Bool-cases (p j)) [
  | inl e ↦ let same : j ≡ k = ground (arith) in (rw (← same) e, [], keys, ap (λ x. x ∷ keys) same)
  | inr e ↦
      let (holds, before, after, split) = find_sound p keys k (rw e at h) in
      (holds, j ∷ before, after, ap (λ xs. j ∷ xs) split)
]

-- What lets a run go on to its patches.
pub record IsTrusted (host : Host) (opts : Options) (filenames : List Text) (key : TrustedKey)
    (files : List PatchFile) : Type 0 where
  pub manifest : PatchManifest
  pub keys : List TrustedKey
  pub present : opts.manifest ≡ loaded manifest
  pub keyring : opts.keyring ≡ loaded (some keys)
  pub before : List TrustedKey
  pub after : List TrustedKey
  pub listed : keys ≡ before ++ key ∷ after
  pub named : key.key_id ≡ manifest.key_id
  pub allowed : any (trust_eq key.trust) opts.allowed_trust ≡ true
  pub signature : opts.check_signature manifest key.public_key ≡ some true
  pub checked : Checked host manifest.patches filenames files

judge-signed :
    (check : PatchManifest → Text → Option Bool) (k key : TrustedKey) (o : Option Bool)
    → judge check k o ≡ signed_by key
    → (o ≡ some true) × (k ≡ key)
unfolding judge
judge-signed check k key none h = cc
judge-signed check k key (some true) h = (refl, cc)
judge-signed check k key (some false) h = cc

verify_manifest-signed :
    (check : PatchManifest → Text → Option Bool) (m : PatchManifest) (keys : List TrustedKey)
    (allowed : List Trust) (key : TrustedKey)
    → verify_manifest check m keys allowed ≡ signed_by key
    → (find (is_trusted m allowed) keys ≡ some key) × (check m key.public_key ≡ some true)
unfolding verify_manifest
verify_manifest-signed check m keys allowed key h =
    elim (Option-cases (find (is_trusted m allowed) keys)) [
      | inl e ↦ ground arith
      | inr (k, e) ↦
          let (good, same) = judge-signed check k key (check m k.public_key) (ground arith) in
          (e ∙ ap some same, rw (← same) good)
    ]

with_key-ok :
    (host : Host) (k key : TrustedKey) (c : Findings (List PatchFile)) (files : List PatchFile)
    → (with_key host k c).1 ≡ ok (key, files)
    → (k ≡ key) × (c.1 ≡ ok files) × ((with_key host k c).0 ≡ c.0)
unfolding with_key
with_key-ok host k key (events, ok fs) files h = (ground arith, ground arith, refl)
with_key-ok host k key (events, thrown e) files h = cc

module _ (host : Host) (opts : Options) (filenames : List Text) (key : TrustedKey)
    (files : List PatchFile) where
  after_keyring :
      (m : PatchManifest) (keys : List TrustedKey)
      → opts.manifest ≡ loaded m
      → opts.keyring ≡ loaded (some keys)
      → (after_verify host m.patches filenames
          (verify_manifest opts.check_signature m keys opts.allowed_trust)).1
        ≡ ok (key, files)
      → ((after_verify host m.patches filenames
            (verify_manifest opts.check_signature m keys opts.allowed_trust)).0
          ≡ [])
        × IsTrusted host opts filenames key files
  unfolding after_verify
  after_keyring m keys em ek h =
      by_result (verify_manifest opts.check_signature m keys opts.allowed_trust) refl h
    where
      by_result :
          (v : Verified)
          → verify_manifest opts.check_signature m keys opts.allowed_trust ≡ v
          → (after_verify host m.patches filenames v).1 ≡ ok (key, files)
          → ((after_verify host m.patches filenames v).0 ≡ [])
            × IsTrusted host opts filenames key files
      by_result (refused why) e h = cc
      by_result (signed_by k) e h =
          let (same, passed_all, events) =
            with_key-ok host k key (check_files host m.patches filenames) files h in
          let (quiet, checked) = check_files-Checked host m.patches filenames files passed_all in
          let (found, good) =
            verify_manifest-signed opts.check_signature m keys opts.allowed_trust key
              (e ∙ ap signed_by same) in
          let (fits, before, after, split) =
            find_sound (is_trusted m opts.allowed_trust) keys key found in
          (
            events ∙ quiet,
            record {
              manifest = m;
              keys = keys;
              present = em;
              keyring = ek;
              before = before;
              after = after;
              listed = split;
              named = (text_eq_iff key.key_id m.key_id).0 (
                  and_left _ (any (trust_eq key.trust) opts.allowed_trust)
                    (unfold is_trusted in fits));
              allowed = and_right (text_eq key.key_id m.key_id) _ (unfold is_trusted in fits);
              signature = good;
              checked = checked;
            },
          )

  -- The gate lets a run go on only from a manifest that a trusted key signed, with every file
  -- listed under its hash; and then it has recorded no security event.
  pub provenance-IsTrusted :
      (provenance host opts filenames).1 ≡ ok (key, files)
      → ((provenance host opts filenames).0 ≡ []) × IsTrusted host opts filenames key files
  unfolding provenance
  provenance-IsTrusted h = by_manifest opts.manifest refl h
    where
      by_keyring :
          (m : PatchManifest) (k : Loaded (Option (List TrustedKey)))
          → opts.manifest ≡ loaded m
          → opts.keyring ≡ k
          → (after_verify host m.patches filenames
              (verify_with_keyring opts.check_signature m k opts.allowed_trust)).1
            ≡ ok (key, files)
          → ((after_verify host m.patches filenames
                (verify_with_keyring opts.check_signature m k opts.allowed_trust)).0
              ≡ [])
            × IsTrusted host opts filenames key files
      by_keyring m missing em ek h = unfold verify_with_keyring verify_manifest after_verify in cc
      by_keyring m malformed em ek h = unfold verify_with_keyring after_verify in cc
      by_keyring m (loaded none) em ek h = unfold verify_with_keyring after_verify in cc
      by_keyring m (loaded (some keys)) em ek h =
          unfold verify_with_keyring in after_keyring m keys em ek h

      by_manifest :
          (l : Loaded PatchManifest)
          → opts.manifest ≡ l
          → (with_manifest host opts filenames l).1 ≡ ok (key, files)
          → ((with_manifest host opts filenames l).0 ≡ []) × IsTrusted host opts filenames key files
      by_manifest missing e h = unfold with_manifest in cc
      by_manifest malformed e h = unfold with_manifest in cc
      by_manifest (loaded m) e h = unfold with_manifest in by_keyring m opts.keyring e refl h
