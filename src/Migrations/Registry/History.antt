-- ===== src/Migrations/Registry/History.antt =====
-- The row of a patch after any runs of `upsertStatus` (src/migrations/engine.ts), told from those
-- upserts alone.
use primebrick_v3_dal.Base.{
  ℕ, ◌+◌, Option, none, some, List, [], ◌∷◌, ◌≡◌, refl, Text, if◌then◌else◌, text_eq, text_eq_iff,
  arith, length, Bool-cases, inl, inr,
}
use primebrick_v3_dal.Migrations.Registry.{
  PatchStatus, PatchRegistryRow, Registry, Upsert, is_settled, or_else, apply_upsert, find_row,
  inserted, updated,
}
use primebrick_v3_dal.Migrations.Registry.Laws.{find_row-apply_upsert, upserted}

-- Upserts with their times, the last one first, and the registry that they leave of an empty one.
abbrev pub Upserts : Type 0
Upserts = List (ℕ × Upsert)

abbrev pub replay : Upserts → Registry
replay [] = []
replay ((now, u) ∷ us) = apply_upsert now u (replay us)

-- Those of one patch.
abbrev pub of_patch : Text → Upserts → Upserts
of_patch name [] = []
of_patch name ((now, u) ∷ us) =
    if text_eq u.patch_name name then (now, u) ∷ of_patch name us else of_patch name us

-- The last value that was given, if any was.
abbrev pub or_before : {A : Type 0} → Option A → Option A → Option A
or_before (some a) before = some a
or_before none before = before

abbrev pub last_given : {A : Type 0} → (Upsert → Option A) → Upserts → Option A
last_given field [] = none
last_given field ((now, u) ∷ us) = or_before (field u) (last_given field us)

-- The time of the last upsert to a settled status, or else of the first of all.
abbrev pub settled_at : ℕ → PatchStatus → Upserts → ℕ
settled_at now status [] = now
settled_at now status ((before, u) ∷ us) =
    if is_settled status then now else settled_at before u.status us

-- The row tells of the last upsert `u`, at `now`, and of those before it.
pub record Tells (now : ℕ) (u : Upsert) (us : Upserts) (r : PatchRegistryRow) : Type 0 where
  pub content : r.content_sha256 ≡ u.content_sha256
  pub status : r.status ≡ u.status
  pub key : r.signed_key_id ≡ u.signed_key_id
  pub failure : r.error ≡ u.error
  pub atomic : r.atomic ≡ u.atomic
  pub attempts : r.attempts ≡ length us + 1
  pub duration : r.duration_ms ≡ last_given (λ w. w.duration_ms) ((now, u) ∷ us)
  pub actor : r.applied_by ≡ last_given (λ w. w.applied_by) ((now, u) ∷ us)
  pub unresolved : (r.resolved_by ≡ none) × (r.resolved_note ≡ none)
  pub applied_at : r.applied_at ≡ settled_at now u.status us
  pub updated_at : r.updated_at ≡ now

abbrev pub Told : Upserts → Option PatchRegistryRow → Type 0
Told [] o = o ≡ none
Told ((now, u) ∷ us) o = (r : PatchRegistryRow) × (o ≡ some r) × Tells now u us r

or_else-before : {A : Type 0} (o x y : Option A) → x ≡ y → or_else o x ≡ or_before o y
or_else-before none x y h = h
or_else-before (some a) x y h = refl

or_before-none : {A : Type 0} (o : Option A) → o ≡ or_before o none
or_before-none none = refl
or_before-none (some a) = refl

inserted-Tells : (now : ℕ) (u : Upsert) → Tells now u [] (inserted now u)
unfolding inserted
inserted-Tells now u = record {
  content = refl;
  status = refl;
  key = refl;
  failure = refl;
  atomic = refl;
  attempts = refl;
  duration = or_before-none u.duration_ms;
  actor = or_before-none u.applied_by;
  unresolved = (refl, refl);
  applied_at = refl;
  updated_at = refl;
}

updated-Tells :
    (now before : ℕ) (u w : Upsert) (us : Upserts) (r : PatchRegistryRow)
    → Tells before w us r
    → Tells now u ((before, w) ∷ us) (updated now u r)
unfolding updated
updated-Tells now before u w us r t = record {
  content = refl;
  status = refl;
  key = refl;
  failure = refl;
  atomic = refl;
  attempts = omega (arith, t.attempts);
  duration = or_else-before u.duration_ms _ _ t.duration;
  actor = or_else-before u.applied_by _ _ t.actor;
  unresolved = t.unresolved;
  applied_at = rw t.applied_at refl;
  updated_at = refl;
}

Told-upserted :
    (now : ℕ) (u : Upsert) (us : Upserts) (o : Option PatchRegistryRow)
    → Told us o
    → Told ((now, u) ∷ us) (some (upserted now u o))
Told-upserted now u [] o h = rw h (inserted now u, refl, inserted-Tells now u)
Told-upserted now u ((before, w) ∷ us) o (r, e, t) =
    rw e (updated now u r, refl, updated-Tells now before u w us r t)

-- After any upserts to an empty registry, a patch has a row just if it was upserted. The row then
-- holds the hash, the status, the key, the error and the `atomic` flag of its last upsert, as attempts the
-- number of its upserts, the last duration and the last actor that were given, no resolution, as
-- `updated_at` the time of the last upsert, and as `applied_at` the time of the last one to a
-- settled status, or of the first.
pub find_row-replay :
    (us : Upserts) (name : Text) → Told (of_patch name us) (find_row name (replay us))
unfolding find_row
find_row-replay [] name = refl
find_row-replay ((now, u) ∷ us) name = elim (Bool-cases (text_eq u.patch_name name)) [
  | inl e ↦
      rw (find_row-apply_upsert now u (replay us) name, e)
        (Told-upserted now u (of_patch name us) _
          (rw ((text_eq_iff u.patch_name name).0 e) (find_row-replay us name)))
  | inr e ↦ rw (find_row-apply_upsert now u (replay us) name, e) (find_row-replay us name)
]
