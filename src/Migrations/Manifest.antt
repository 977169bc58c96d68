-- ===== src/Migrations/Manifest.antt =====
-- src/migrations/manifest.ts: the keyring, the manifest and the check of its signature. Key
-- decoding and ed25519 are node's; they enter as the parameter `check`.
use primebrick_v3_dal.Base.{
  Bool, true, false, ◌&&◌, Option, none, some, List, [], Text, text_eq, find, any,
}

pub data Trust : Type 0 where
  release dev : Trust

pub record TrustedKey : Type 0 where
  pub key_id : Text
  pub public_key : Text
  pub trust : Trust

pub record PatchManifest : Type 0 where
  pub key_id : Text
  pub issued_at : Text
  pub patches : List (Text × Text)
  pub signature : Text

-- What stands at a path that holds JSON: no file, a text that is not the JSON meant, or a value.
pub data Loaded (A : Type 0) : Type 0 where
  missing malformed : Loaded A
  loaded : A → Loaded A

-- `keys_invalid` and the two codes of `verifyManifest` are those of a ManifestError.
pub data ManifestFailure : Type 0 where
  keys_invalid : ManifestFailure
  manifest_untrusted_key : ManifestFailure
  manifest_bad_signature : ManifestFailure
  other_error : ManifestFailure

pub data Verified : Type 0 where
  signed_by : TrustedKey → Verified
  refused : ManifestFailure → Verified

abbrev pub trust_eq : Trust → Trust → Bool
trust_eq release release = true
trust_eq dev dev = true
trust_eq _ _ = false

-- The predicate that `keyring.find` is given.
unfoldable pub is_trusted : PatchManifest → List Trust → TrustedKey → Bool
is_trusted m allowed k = text_eq k.key_id m.key_id && any (trust_eq k.trust) allowed

-- What `check` returns for a manifest and a public key: the answer of `verify`, or `none` where
-- the key or the signature cannot be decoded and node throws.
module _ (check : PatchManifest → Text → Option Bool) where
  unfoldable pub judge : TrustedKey → Option Bool → Verified
  judge k none = refused other_error
  judge k (some true) = signed_by k
  judge k (some false) = refused manifest_bad_signature

  unfoldable pub verify_manifest : PatchManifest → List TrustedKey → List Trust → Verified
  unfolding judge
  verify_manifest m keyring allowed = elim (find (is_trusted m allowed) keyring) [
    | none ↦ refused manifest_untrusted_key
    | some k ↦ judge k (check m k.public_key)
  ]

  -- `loadKeyring` as the second argument: a keyring file that is JSON but no array is
  -- `keys_invalid`; one that is no JSON throws a plain error.
  unfoldable pub verify_with_keyring :
      PatchManifest → Loaded (Option (List TrustedKey)) → List Trust → Verified
  unfolding verify_manifest
  verify_with_keyring m missing allowed = verify_manifest m [] allowed
  verify_with_keyring m malformed allowed = refused other_error
  verify_with_keyring m (loaded none) allowed = refused keys_invalid
  verify_with_keyring m (loaded (some keys)) allowed = verify_manifest m keys allowed
