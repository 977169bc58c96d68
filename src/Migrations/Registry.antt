-- ===== src/Migrations/Registry.antt =====
-- src/migrations/patch-registry.ts and status.ts: the rows of the patch registry, and the writes
-- that its SQL statements make. A timestamp is a number, and `now()` an argument.
pub mod Laws
pub mod History
use primebrick_v3_dal.Base.{
  ℕ, ◌+◌, Bool, true, false, not, ◌&&◌, ◌||◌, Option, none, some, List, [], ◌∷◌, ◌++◌, Text,
  if◌then◌else◌, text_eq, ◌==◌,
}

pub data PatchStatus : Type 0 where
  pending applied failed pending_review approved resolved_manual : PatchStatus

pub record PatchRegistryRow : Type 0 where
  pub patch_name : Text
  pub content_sha256 : Text
  pub status : PatchStatus
  pub signed_key_id : Option Text
  pub attempts : ℕ
  pub duration_ms : Option ℕ
  pub error : Option Text
  pub applied_by : Option Text
  pub resolved_by : Option Text
  pub resolved_note : Option Text
  pub atomic : Bool
  pub applied_at : ℕ
  pub updated_at : ℕ

abbrev pub Registry : Type 0
Registry = List PatchRegistryRow

-- The parameters $1 to $8 of the statement of `upsertStatus`.
pub record Upsert : Type 0 where
  pub patch_name : Text
  pub content_sha256 : Text
  pub status : PatchStatus
  pub signed_key_id : Option Text
  pub duration_ms : Option ℕ
  pub error : Option Text
  pub applied_by : Option Text
  pub atomic : Bool

-- COALESCE
abbrev pub or_else {ℓ} : {A : Type ℓ} → Option A → Option A → Option A
or_else none b = b
or_else (some a) b = some a

-- status IN ('applied', 'resolved_manual'), also the engine's test on a row
abbrev pub is_settled : PatchStatus → Bool
is_settled applied = true
is_settled resolved_manual = true
is_settled _ = false

-- VALUES (…)
unfoldable pub inserted : ℕ → Upsert → PatchRegistryRow
inserted now u = record {
  patch_name = u.patch_name;
  content_sha256 = u.content_sha256;
  status = u.status;
  signed_key_id = u.signed_key_id;
  attempts = 1;
  duration_ms = u.duration_ms;
  error = u.error;
  applied_by = u.applied_by;
  resolved_by = none;
  resolved_note = none;
  atomic = u.atomic;
  applied_at = now;
  updated_at = now;
}

-- DO UPDATE SET …
unfoldable pub updated : ℕ → Upsert → PatchRegistryRow → PatchRegistryRow
updated now u r = record r {
  content_sha256 = u.content_sha256;
  status = u.status;
  signed_key_id = u.signed_key_id;
  attempts = r.attempts + 1;
  duration_ms = or_else u.duration_ms r.duration_ms;
  error = u.error;
  applied_by = or_else u.applied_by r.applied_by;
  atomic = u.atomic;
  applied_at = if is_settled u.status then now else r.applied_at;
  updated_at = now;
}

-- The whole statement: `patch_name` is the primary key.
unfoldable pub apply_upsert : ℕ → Upsert → Registry → Registry
unfolding inserted updated
apply_upsert now u [] = inserted now u ∷ []
apply_upsert now u (r ∷ rs) =
    if text_eq r.patch_name u.patch_name then updated now u r ∷ rs else r ∷ apply_upsert now u rs

unfoldable pub find_row : Text → Registry → Option PatchRegistryRow
find_row name [] = none
find_row name (r ∷ rs) = if text_eq r.patch_name name then some r else find_row name rs

-- An UPDATE … WHERE: the rows after it, and how many it changed.
unfoldable pub update_where :
    (PatchRegistryRow → Bool) → (PatchRegistryRow → PatchRegistryRow) → Registry → Registry × ℕ
update_where test change [] = ([], 0)
update_where test change (r ∷ rs) =
    let (rest, n) = update_where test change rs in
    if test r then (change r ∷ rest, n + 1) else (r ∷ rest, n)

abbrev is_failed : PatchStatus → Bool
is_failed failed = true
is_failed _ = false

abbrev is_pending_review : PatchStatus → Bool
is_pending_review pending_review = true
is_pending_review _ = false

abbrev is_open : PatchStatus → Bool
is_open failed = true
is_open pending = true
is_open pending_review = true
is_open _ = false

pub retry_failed_patches : ℕ → Option Text → Registry → Registry × ℕ
unfolding update_where
retry_failed_patches now actor =
    update_where (λ r. is_failed r.status)
      (λ r. record r { status = pending; error = none; updated_at = now; resolved_by = actor })

-- (r.rowCount ?? 0) === 1
abbrev one_row : Registry × ℕ → Registry × Bool
one_row (reg, n) = (reg, n == 1)

pub approve_pending_review : ℕ → Text → Text → Option Text → Registry → Registry × Bool
unfolding update_where
approve_pending_review now name actor note reg = one_row (
    update_where (λ r. text_eq r.patch_name name && is_pending_review r.status)
      (λ r. record r {
        status = approved;
        updated_at = now;
        resolved_by = some actor;
        resolved_note = note;
      })
      reg)

pub resolve_manually : ℕ → Text → Text → Text → Registry → Registry × Bool
unfolding update_where
resolve_manually now name actor note reg = one_row (
    update_where (λ r. text_eq r.patch_name name && is_open r.status)
      (λ r. record r {
        status = resolved_manual;
        updated_at = now;
        resolved_by = some actor;
        resolved_note = some note;
        error = none;
      })
      reg)
