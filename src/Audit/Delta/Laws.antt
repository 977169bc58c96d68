-- ===== src/Audit/Delta/Laws.antt =====
-- What a delta holds, and when there is none.
use primebrick_v3_dal.Base.{
  ℕ, ◌<◌, Bool, true, false, leb, ◌&&◌, not, Option, none, some, List, [], ◌∷◌, ◌++◌, ◌≡◌, refl,
  Text, text_eq, text_eq_iff, text_eq_refl, sym, ◌∙◌, Option-cases, lookup, includes, any, ◌||◌,
  Bool-cases, inl, inr, arith, if◌then◌else◌,
}
use primebrick_v3_dal.Audit.Delta.{
  Js, bigint, bigint_to_number, max_safe_integer, Record, Delta, at_key, has_key, alike,
  with_change, calculate_delta, force_fields, or_null,
}

-- The change that forcing a field records.
abbrev pub forced_change : Record → Record → Text → Js × Js
forced_change old new k =
    (bigint_to_number (or_null (at_key k old)), bigint_to_number (at_key k new))

abbrev pub or_forced : Option (Js × Js) → Bool → Js × Js → Option (Js × Js)
or_forced (some c) wanted change = some c
or_forced none wanted change = if wanted then some change else none

or_forced-false : (o : Option (Js × Js)) (c : Js × Js) → or_forced o false c ≡ o
or_forced-false none c = refl
or_forced-false (some x) c = refl

lookup-last :
    (k j : Text) (d : Delta) (c : Js × Js)
    → lookup j (d ++ (k, c) ∷ []) ≡ or_forced (lookup j d) (text_eq k j) c
unfolding lookup
lookup-last k j [] c = refl
lookup-last k j ((i, v) ∷ d) c = elim (Bool-cases (text_eq i j)) [
  | inl t ↦ rw t refl
  | inr t ↦ rw t (lookup-last k j d c)
]

has_key-lookup :
    (k : Text) (d : Delta) → has_key k d ≡ elim (lookup k d) [ none ↦ false | some c ↦ true ]
unfolding has_key lookup
has_key-lookup k [] = refl
has_key-lookup k ((j, v) ∷ d) = elim (Bool-cases (text_eq j k)) [
  | inl t ↦ rw t refl
  | inr t ↦ rw t (has_key-lookup k d)
]

abbrev step : Record → Record → Text → Delta → Delta
step old new k d =
    if not (has_key k d) && has_key k new then d ++ (k, forced_change old new k) ∷ [] else d

lookup-step_same :
    (old new : Record) (k : Text) (d : Delta)
    → lookup k (step old new k d) ≡ or_forced (lookup k d) (has_key k new) (forced_change old new k)
lookup-step_same old new k d = elim (Option-cases (lookup k d)) [
  | inl e ↦ elim (Bool-cases (has_key k new)) [
    | inl h ↦ rw (has_key-lookup k d, e, h) (lookup-last k k d _ ∙ rw (e, text_eq_refl k) refl)
    | inr h ↦ rw (has_key-lookup k d, e, h) e
  ]
  | inr (c, e) ↦ rw (has_key-lookup k d, e) e
]

lookup-step :
    (old new : Record) (k j : Text) (d : Delta)
    → lookup j (step old new k d)
      ≡ or_forced (lookup j d) (text_eq k j && has_key j new) (forced_change old new j)
lookup-step old new k j d = elim (Bool-cases (text_eq k j)) [
  | inl t ↦ rw t (rw ((text_eq_iff k j).0 t) (lookup-step_same old new j d))
  | inr t ↦ elim (Bool-cases (not (has_key k d) && has_key k new)) [
    | inl h ↦
        rw (h, t)
          (lookup-last k j d _
            ∙ rw t (or_forced-false (lookup j d) _ ∙ sym (or_forced-false (lookup j d) _)))
    | inr h ↦ rw (h, t) (sym (or_forced-false (lookup j d) _))
  ]
]

-- A field of the delta stays as it was; of the others just those are added that are forced and that
-- the new record has, each with the old value, null where the old record has none, and the new
-- value.
pub lookup-force_fields :
    (old new : Record) (ks : List Text) (d : Delta) (j : Text)
    → lookup j (force_fields old new ks d)
      ≡ or_forced (lookup j d) (includes ks j && has_key j new) (forced_change old new j)
unfolding force_fields includes
lookup-force_fields old new [] d j = sym (or_forced-false (lookup j d) _)
lookup-force_fields old new (k ∷ ks) d j =
    lookup-force_fields old new ks (step old new k d) j
    ∙ rw (lookup-step old new k j d) (by_cases (lookup j d) (text_eq k j) (has_key j new))
  where
    by_cases :
        (o : Option (Js × Js)) (same has : Bool)
        → or_forced
            (or_forced o (same && has) (forced_change old new j))
            (any (λ y. text_eq y j) ks && has)
            (forced_change old new j)
          ≡ or_forced o ((same || any (λ y. text_eq y j) ks) && has) (forced_change old new j)
    by_cases (some c) same has = refl
    by_cases none true true = refl
    by_cases none true false = ground arith
    by_cases none false has = refl

too_large : (n : ℕ) → max_safe_integer < n → leb n max_safe_integer ≡ false
too_large n h = ground arith

alike-none :
    (stringify : Js → Option (Option Text)) (t : Option (Option Text))
    → alike stringify t none ≡ none
alike-none stringify none = refl
alike-none stringify (some t) = refl

-- Where printing a bigint throws, a record with a bigint beyond the safe integers has no delta,
-- whatever stands before and behind that field.
pub calculate_delta-unsafe :
    (stringify : Js → Option (Option Text)) (old before behind : Record) (k : Text) (b : Bool)
    (n : ℕ)
    → ((c : Bool) (m : ℕ) → stringify (bigint c m) ≡ none)
    → max_safe_integer < n
    → calculate_delta stringify old (before ++ (k, bigint b n) ∷ behind) ≡ none
unfolding calculate_delta bigint_to_number
calculate_delta-unsafe stringify old [] behind k b n throws large =
    rw
      (
        too_large n large,
        throws b n,
        alike-none stringify (stringify (bigint_to_number (at_key k old))),
      )
      refl
calculate_delta-unsafe stringify old ((j, v) ∷ before) behind k b n throws large =
    by_alike
      (alike stringify (stringify (bigint_to_number (at_key j old)))
        (stringify (bigint_to_number v)))
      (calculate_delta-unsafe stringify old before behind k b n throws large)
  where
    by_alike :
        (a : Option Bool)
        → calculate_delta stringify old (before ++ (k, bigint b n) ∷ behind) ≡ none
        → with_change stringify a j
            (bigint_to_number (at_key j old), bigint_to_number v)
            (calculate_delta stringify old (before ++ (k, bigint b n) ∷ behind))
          ≡ none
    by_alike none h = refl
    by_alike (some true) h = h
    by_alike (some false) h = rw h refl
