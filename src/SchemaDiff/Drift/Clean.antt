-- ===== src/SchemaDiff/Drift/Clean.antt =====
-- What a clean comparison says.
use primebrick_v3_dal.Base.{
  true, false, not, List, [], ◌∷◌, ◌≡◌, refl, ◌↔◌, Text, is_empty, All, arith, Bool-cases, inl, inr,
  if◌then◌else◌,
}
use primebrick_v3_dal.SchemaDiff.Drift.{
  TableDiff, SchemaMetaDiff, has_intent, all_clean, is_drift_clean,
}

-- Nothing of a table is the entity's alone, renamed or different.
abbrev pub IsSettled : TableDiff → Type 0
IsSettled t =
    (t.only_in_entity_columns ≡ [])
    × (t.likely_renames ≡ [])
    × (t.type_mismatches ≡ [])
    × (t.nullability_mismatches ≡ [])
    × (t.only_in_entity_indexes ≡ [])
    × (t.index_mismatches ≡ [])
    × (t.only_in_entity_foreign_keys ≡ [])
    × (t.foreign_key_mismatches ≡ [])

empty_nil {ℓ} : {A : Type ℓ} (xs : List A) → not (is_empty xs) ≡ false → xs ≡ []
empty_nil [] h = refl
empty_nil (x ∷ xs) h = cc

has_intent-IsSettled : (t : TableDiff) → has_intent t ≡ false → IsSettled t
unfolding has_intent
has_intent-IsSettled t h = (
  empty_nil _ (ground (arith, h)),
  empty_nil _ (ground (arith, h)),
  empty_nil _ (ground (arith, h)),
  empty_nil _ (ground (arith, h)),
  empty_nil _ (ground (arith, h)),
  empty_nil _ (ground (arith, h)),
  empty_nil _ (ground (arith, h)),
  empty_nil _ (ground (arith, h)),
)

IsSettled-has_intent : (t : TableDiff) → IsSettled t → has_intent t ≡ false
unfolding has_intent
IsSettled-has_intent t (a, b, c, d, e, f, g, h) = rw (a, b, c, d, e, f, g, h) refl

all_clean_sound : (ts : List (Text × TableDiff)) → all_clean ts ≡ true → All (λ p. IsSettled p.1) ts
unfolding all_clean
all_clean_sound [] h = tt
all_clean_sound ((key, t) ∷ ts) h = elim (Bool-cases (has_intent t)) [
  | inl e ↦ absurd (ground (arith, e))
  | inr e ↦ (has_intent-IsSettled t e, all_clean_sound ts (rw e at h))
]

all_clean_complete :
    (ts : List (Text × TableDiff)) → All (λ p. IsSettled p.1) ts → all_clean ts ≡ true
unfolding all_clean
all_clean_complete [] h = refl
all_clean_complete ((key, t) ∷ ts) (s, h) = rw (IsSettled-has_intent t s) (all_clean_complete ts h)

-- A comparison is clean just if no table is the entities' alone and no table has a column, index or
-- foreign key of the entity alone, a rename or a mismatch; what only the database has does not
-- count.
pub is_drift_clean_iff :
    (d : SchemaMetaDiff)
    → (is_drift_clean d ≡ true)
      ↔ ((d.only_in_entity_tables ≡ []) × All (λ p. IsSettled p.1) d.tables)
unfolding is_drift_clean
is_drift_clean_iff d =
    (forth d.only_in_entity_tables, λ (e, h). rw e (all_clean_complete d.tables h))
  where
    forth :
        (ts : List Text)
        → (if not (is_empty ts) then false else all_clean d.tables) ≡ true
        → (ts ≡ []) × All (λ p. IsSettled p.1) d.tables
    forth [] h = (refl, all_clean_sound d.tables h)
    forth (t ∷ ts) h = cc
