-- ===== src/Migrations/Registry/Laws.antt =====
-- What the writes to the patch registry do to each row.
use primebrick_v3_dal.Base.{
  ℕ, Bool, true, false, ◌&&◌, Option, none, some, [], ◌∷◌, ◌≡◌, refl, sym, ap, ◌∙◌, Text,
  if◌then◌else◌, text_eq, text_eq_iff, arith, ◌==◌, ◌↔◌, Bool-cases, Option-cases, inl, inr,
}
use mathlib.Core.Option
use primebrick_v3_dal.Migrations.Registry.{
  PatchStatus, pending, pending_review, PatchRegistryRow, Registry, Upsert, is_settled,
  apply_upsert, find_row, update_where, retry_failed_patches, approve_pending_review,
  resolve_manually, inserted, updated, is_pending_review, is_failed, is_open,
}

-- The row that an upsert leaves, given the one it finds.
abbrev pub upserted : ℕ → Upsert → Option PatchRegistryRow → PatchRegistryRow
upserted now u none = inserted now u
upserted now u (some r) = updated now u r

-- The upsert changes the row of its patch and no other.
pub find_row-apply_upsert :
    (now : ℕ) (u : Upsert) (reg : Registry) (name : Text)
    → find_row name (apply_upsert now u reg) ≡ (
        if text_eq u.patch_name name
        then some (upserted now u (find_row u.patch_name reg))
        else find_row name reg)
unfolding find_row apply_upsert inserted updated
find_row-apply_upsert now u [] name = ground arith
find_row-apply_upsert now u (r ∷ rs) name = ground (
  arith,
  find_row-apply_upsert now u rs name,
  text_eq_iff r.patch_name u.patch_name,
  text_eq_iff u.patch_name name,
  text_eq_iff r.patch_name name,
)

-- An UPDATE that keeps names acts on each row by itself.
pub find_row-update_where :
    (test : PatchRegistryRow → Bool) (change : PatchRegistryRow → PatchRegistryRow)
    → ((r : PatchRegistryRow) → (change r).patch_name ≡ r.patch_name)
    → (reg : Registry) (name : Text)
    → find_row name (update_where test change reg).0
      ≡ Option.map (λ r. if test r then change r else r) (find_row name reg)
unfolding find_row update_where
find_row-update_where test change keeps [] name = refl
find_row-update_where test change keeps (r ∷ rs) name = elim (Bool-cases (test r)) [
  | inl e ↦ ground (arith, e, keeps r, find_row-update_where test change keeps rs name)
  | inr e ↦ ground (arith, e, find_row-update_where test change keeps rs name)
]

-- A row on which the test fails stays as it is.
find_row-update_where_skip :
    (test : PatchRegistryRow → Bool) (change : PatchRegistryRow → PatchRegistryRow)
    → ((r : PatchRegistryRow) → (change r).patch_name ≡ r.patch_name)
    → (reg : Registry) (name : Text) (row : PatchRegistryRow) → find_row name reg ≡ some row
    → test row ≡ false
    → find_row name (update_where test change reg).0 ≡ some row
find_row-update_where_skip test change keeps reg name row found skips =
    find_row-update_where test change keeps reg name ∙ rw found (rw skips refl)

settled_closed :
    (s : PatchStatus) (b : Bool)
    → is_settled s ≡ true
    → (is_failed s ≡ false) × ((b && is_pending_review s) ≡ false) × ((b && is_open s) ≡ false)
settled_closed s b h = ground arith

-- No remediation helper touches a row that is applied or manually resolved, whatever patch it is
-- called for.
pub settled_rows_stay :
    (now : ℕ) (reg : Registry) (name : Text) (row : PatchRegistryRow) (actor : Option Text)
    (target by note : Text) (n : Option Text)
    → find_row name reg ≡ some row
    → is_settled row.status ≡ true
    → (find_row name (retry_failed_patches now actor reg).0 ≡ some row)
      × (find_row name (approve_pending_review now target by n reg).0 ≡ some row)
      × (find_row name (resolve_manually now target by note reg).0 ≡ some row)
unfolding retry_failed_patches approve_pending_review resolve_manually
settled_rows_stay now reg name row actor target by note n found settled =
    let closed = settled_closed row.status (text_eq row.patch_name target) settled in
    (
      find_row-update_where_skip _ _ (λ r. refl) reg name row found closed.0,
      find_row-update_where_skip _ _ (λ r. refl) reg name row found closed.1,
      find_row-update_where_skip _ _ (λ r. refl) reg name row found closed.2,
    )

-- A failed row is pending after the retry, its error cleared and its attempts kept; any other row
-- stays.
pub retry_failed_patches_lem :
    (now : ℕ) (actor : Option Text) (reg : Registry) (name : Text)
    → find_row name (retry_failed_patches now actor reg).0
      ≡ Option.map
          (λ r.
            if is_failed r.status
            then record r { status = pending; error = none; updated_at = now; resolved_by = actor }
            else r)
          (find_row name reg)
unfolding retry_failed_patches
retry_failed_patches_lem now actor reg name = find_row-update_where _ _ (λ r. refl) reg name

-- The primary key: no two rows of one patch.
abbrev pub HasNoRow : Text → Registry → Type 0
HasNoRow name reg = find_row name reg ≡ none

abbrev pub IsKeyed : Registry → Type 0
IsKeyed [] = Unit
IsKeyed (r ∷ rs) = HasNoRow r.patch_name rs × IsKeyed rs

pub apply_upsert-IsKeyed :
    (now : ℕ) (u : Upsert) (reg : Registry) → IsKeyed reg → IsKeyed (apply_upsert now u reg)
unfolding apply_upsert updated inserted find_row
apply_upsert-IsKeyed now u [] h = (refl, tt)
apply_upsert-IsKeyed now u (r ∷ rs) (fresh, h) =
    elim (Bool-cases (text_eq r.patch_name u.patch_name)) [
      | inl e ↦ rw e (fresh, h)
      | inr e ↦ rw e (
        find_row-apply_upsert now u rs r.patch_name
            ∙ ground (
              arith,
              text_eq_iff r.patch_name u.patch_name,
              text_eq_iff u.patch_name r.patch_name,
            ),
        apply_upsert-IsKeyed now u rs h,
      )
    ]

update_where-none :
    (test : PatchRegistryRow → Bool) (change : PatchRegistryRow → PatchRegistryRow) (name : Text)
    (reg : Registry)
    → ((r : PatchRegistryRow) → text_eq r.patch_name name ≡ false → test r ≡ false)
    → HasNoRow name reg
    → (update_where test change reg).1 ≡ 0
unfolding update_where find_row
update_where-none test change name [] only h = refl
update_where-none test change name (r ∷ rs) only h =
    ground (arith, only r, update_where-none test change name rs only)

-- The count of an UPDATE that is limited to one name.
update_where-one :
    (test : PatchRegistryRow → Bool) (change : PatchRegistryRow → PatchRegistryRow) (name : Text)
    (reg : Registry)
    → ((r : PatchRegistryRow) → text_eq r.patch_name name ≡ false → test r ≡ false)
    → IsKeyed reg
    → (update_where test change reg).1
      ≡ elim (find_row name reg) [ none ↦ 0 | some r ↦ if test r then 1 else 0 ]
unfolding update_where find_row
update_where-one test change name [] only h = refl
update_where-one test change name (r ∷ rs) only (fresh, h) =
    elim (Bool-cases (text_eq r.patch_name name)) [
      | inl e ↦ rw e (
          ground (
            arith,
            update_where-none test change name rs only
                (ap (λ n. find_row n rs) (sym ((text_eq_iff r.patch_name name).0 e)) ∙ fresh),
          ))
      | inr e ↦ rw (e, only r e) (update_where-one test change name rs only h)
    ]

find_row-name :
    (name : Text) (reg : Registry) (r : PatchRegistryRow)
    → find_row name reg ≡ some r
    → text_eq r.patch_name name ≡ true
unfolding find_row
find_row-name name [] r h = cc
find_row-name name (x ∷ reg) r h = elim (Bool-cases (text_eq x.patch_name name)) [
  | inl e ↦ let same : x ≡ r = ground arith in rw (← same) e
  | inr e ↦ find_row-name name reg r (rw e at h)
]

-- Over a registry with one row for each patch, the approval reports success just if the patch has
-- a row that waits for a review.
pub approve_pending_review_iff :
    (now : ℕ) (name actor : Text) (note : Option Text) (reg : Registry)
    → IsKeyed reg
    → ((approve_pending_review now name actor note reg).1 ≡ true)
      ↔ ((r : PatchRegistryRow) × (find_row name reg ≡ some r) × (r.status ≡ pending_review))
unfolding approve_pending_review
approve_pending_review_iff now name actor note reg keyed = elim (Option-cases (find_row name reg)) [
  | inl e ↦ ground (arith, counted)
  | inr (r, e) ↦ ground (arith, counted, find_row-name name reg r e)
]
  where
    counted : (approve_pending_review now name actor note reg).1 ≡ (
        elim (find_row name reg) [
          | none ↦ 0
          | some r ↦ if text_eq r.patch_name name && is_pending_review r.status then 1 else 0
        ]
        == 1)
    counted = ap (λ n. n == 1) (update_where-one _ _ name reg (λ r e. rw e refl) keyed)
