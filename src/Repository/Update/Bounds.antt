-- ===== src/Repository/Update/Bounds.antt =====
-- Every placeholder of a write's statement is for one of its values.
use primebrick_v3_dal.Base.{
  ℕ, ◌+◌, ◌≤◌, Option, none, some, List, [], ◌∷◌, ◌++◌, Text, text_eq, String, length, All,
  All-append, All-map, Bool-cases, inl, inr, codes, arith,
}
use primebrick_v3_dal.Query.Dsl.{FieldProjector}
use primebrick_v3_dal.Repository.Columns.{
  ColumnMeta, EntityMeta, Payload, unknown_column, err, ◌>>=◌,
}
use primebrick_v3_dal.Repository.Identity.{MatchCondition, UniqueGroup}
use primebrick_v3_dal.Repository.Draft.{
  quote, identity_terms, identity_self_exclusion, Draft, converted, set_param, deleted_at_column,
}
use primebrick_v3_dal.Repository.Statement.{
  column_for, Refs, set_fields, ref_of, VersionGuard, Statement, write_parts, guarded_update,
}
use primebrick_v3_dal.Repository.Draft.Bounds.{
  Holds, Holds-bind, Holds-any, InRange, InRange-mono, AllInRange-mono, InDraft, Pushed,
  set_param-Pushed,
}
use primebrick_v3_dal.Repository.Statement.Bounds.{
  append-InRange, joined_by-InRange, identity_terms-InRange, PartsInRange, write_parts-InRange,
}
use primebrick_v3_dal.Repository.Update.{
  KeyRef, UniquePredicate, writes_group, attempted, key_refs_of, key_tests, unique_predicates,
  key_objects, constraint_cases, keys_cases, predicate_tests, deleted_selection, target_guard,
  conflict_update,
}

abbrev pub StatementInRange : Statement → Type 0
StatementInRange s = InRange (length s.values) s.sql

-- The fields of the payload: their placeholders and the values pushed for them.
abbrev pub RefsIn : ℕ → Refs → Type 0
RefsIn k refs = All (λ r. (1 ≤ r.1) × (r.1 ≤ k)) refs

abbrev pub Fielded : Draft × Refs → Type 0
Fielded (d, refs) = InDraft d × RefsIn (length d.values) refs

RefsIn-mono : (k l : ℕ) (refs : Refs) → k ≤ l → RefsIn k refs → RefsIn l refs
RefsIn-mono k l refs h w = All-map _ _ refs (λ r q. (q.0, omega (arith, q.1, h))) w

pub set_fields-Fielded :
    (meta : EntityMeta) (p : Payload) (d : Draft) (refs : Refs)
    → InDraft d
    → RefsIn (length d.values) refs
    → Holds Fielded (set_fields meta p d refs)
unfolding set_fields
set_fields-Fielded meta [] d refs h r = (h, r)
set_fields-Fielded meta ((key, none) ∷ p) d refs h r = set_fields-Fielded meta p d refs h r
set_fields-Fielded meta ((key, some v) ∷ p) d refs h r =
    by_column (column_for meta key) (λ e refs' i q. set_fields-Fielded meta p e refs' i q)
  where
    by_column :
        (o : Option ColumnMeta)
        → ((e : Draft) (refs' : Refs)
            → InDraft e
            → RefsIn (length e.values) refs'
            → Holds Fielded (set_fields meta p e refs'))
        → Holds Fielded (elim o [
          | none ↦ err (unknown_column key)
          | some c ↦ set_param c (converted c v) d >>= λ d'.
              set_fields meta p d' (refs ++ (key, length d.values + 1) ∷ [])
        ])
    by_column none ih = tt
    by_column (some c) ih =
        Holds-bind (Pushed d) Fielded (set_param c (converted c v) d) _
          (set_param-Pushed c (converted c v) d h)
          (λ e (i, n). ih e _ i (
            All-append _ refs _
              (RefsIn-mono (length d.values) (length e.values) refs (omega (arith, n)) r)
              ((omega arith, omega (arith, n)), tt)))

attempted-InRange :
    (k : ℕ) (q : Text) (prop : Text) (refs : Refs)
    → RefsIn k refs
    → InRange k (attempted q (ref_of prop refs))
unfolding ref_of
attempted-InRange k q prop [] h = (tt, tt)
attempted-InRange k q prop ((key, n) ∷ refs) (r, h) = elim (Bool-cases (text_eq key prop)) [
  | inl e ↦ rw e (r, tt)
  | inr e ↦ rw e (attempted-InRange k q prop refs h)
]

module _ (k : ℕ) where
  abbrev pub KeysIn : List KeyRef → Type 0
  KeysIn ks = All (λ r. InRange k r.ref) ks

  abbrev pub PredicatesIn : List UniquePredicate → Type 0
  PredicatesIn ps = All (λ p. InRange k p.sql × KeysIn p.key_refs) ps

  key_refs_of-KeysIn :
      (refs : Refs) (cs : List ColumnMeta) → RefsIn k refs → Holds KeysIn (key_refs_of refs cs)
  unfolding key_refs_of
  key_refs_of-KeysIn refs [] h = tt
  key_refs_of-KeysIn refs (c ∷ cs) h =
      Holds-bind (λ _. Unit) _ (quote c.sql_name) _ (Holds-any _)
        (λ q _.
          Holds-bind KeysIn _ (key_refs_of refs cs) _ (key_refs_of-KeysIn refs cs h)
            (λ ks i. (attempted-InRange k q c.property_key refs h, i)))

  key_tests-InRange : (ks : List KeyRef) → KeysIn ks → All (InRange k) (key_tests ks)
  key_tests-InRange [] h = tt
  key_tests-InRange (r ∷ ks) (i, h) = (
    (tt, append-InRange k r.ref _ i (tt, append-InRange k r.ref _ i (tt, tt))),
    key_tests-InRange ks h,
  )

  key_objects-InRange : (ks : List KeyRef) → KeysIn ks → All (InRange k) (key_objects ks)
  key_objects-InRange [] h = tt
  key_objects-InRange (r ∷ ks) (i, h) = ((tt, i), key_objects-InRange ks h)

  pub unique_predicates-PredicatesIn :
      (refs : Refs) (gs : List UniqueGroup)
      → RefsIn k refs
      → Holds PredicatesIn (unique_predicates refs gs)
  unfolding unique_predicates
  unique_predicates-PredicatesIn refs [] h = tt
  unique_predicates-PredicatesIn refs (g ∷ gs) h = elim (Bool-cases (writes_group refs g)) [
    | inr e ↦ rw e (unique_predicates-PredicatesIn refs gs h)
    | inl e ↦ rw e (
        Holds-bind KeysIn _ (key_refs_of refs g.cols) _ (key_refs_of-KeysIn refs g.cols h) (λ ks i.
          Holds-bind PredicatesIn _ (unique_predicates refs gs) _
            (unique_predicates-PredicatesIn refs gs h)
            (λ ps j. ((joined_by-InRange k " AND " _ (key_tests-InRange ks i), i), j))))
  ]

  constraint_cases-InRange :
      (ps : List UniquePredicate) → PredicatesIn ps → All (InRange k) (constraint_cases ps)
  constraint_cases-InRange [] h = tt
  constraint_cases-InRange (p ∷ ps) ((i, j), h) =
      ((tt, append-InRange k p.sql _ i (tt, tt)), constraint_cases-InRange ps h)

  keys_cases-InRange :
      (ps : List UniquePredicate) → PredicatesIn ps → All (InRange k) (keys_cases ps)
  keys_cases-InRange [] h = tt
  keys_cases-InRange (p ∷ ps) ((i, j), h) = (
    (
      tt,
      append-InRange k p.sql _ i (
        tt,
        append-InRange k _ _ (joined_by-InRange k ", " _ (key_objects-InRange p.key_refs j))
            (tt, tt),
      ),
    ),
    keys_cases-InRange ps h,
  )

  predicate_tests-InRange :
      (ps : List UniquePredicate) → PredicatesIn ps → All (InRange k) (predicate_tests ps)
  predicate_tests-InRange [] h = tt
  predicate_tests-InRange (p ∷ ps) ((i, j), h) =
      ((tt, append-InRange k p.sql _ i (tt, tt)), predicate_tests-InRange ps h)

module _ (k l : ℕ) (h : k ≤ l) where
  KeysIn-mono : (ks : List KeyRef) → KeysIn k ks → KeysIn l ks
  KeysIn-mono ks w = All-map _ _ ks (λ r q. InRange-mono k l r.ref h q) w

  PredicatesIn-mono : (ps : List UniquePredicate) → PredicatesIn k ps → PredicatesIn l ps
  PredicatesIn-mono ps w =
      All-map _ _ ps (λ p q. (InRange-mono k l p.sql h q.0, KeysIn-mono p.key_refs q.1)) w

module _ (meta : EntityMeta) (cs : List MatchCondition) (version : VersionGuard)
    (fields : List FieldProjector) where
  pub guarded_update-InRange :
      (name : String) (op : Text) (d : Draft)
      → InDraft d
      → Holds StatementInRange (guarded_update meta cs version fields name op d)
  unfolding guarded_update
  guarded_update-InRange name op d h =
      Holds-bind (λ p. PartsInRange p × (length d.values + length cs ≤ length p.values)) _
        (write_parts meta cs version fields op d.values) _
        (write_parts-InRange meta cs version fields op d.values)
        (λ p ((g, w, r), n).
          let k = length p.values in
          let sets =
            joined_by-InRange k ", " d.sets
              (AllInRange-mono (length d.values) k d.sets (omega (arith, n)) h) in
          (
            tt,
            append-InRange k p.guard _ g (
              tt,
              (
                tt,
                (
                  tt,
                  append-InRange k _ _ sets (
                    tt,
                    append-InRange k p.where_sql _ w
                        (tt, append-InRange k p.returning _ r (tt, (tt, tt))),
                  ),
                ),
              ),
            ),
          ))

  target_guard-InRange : (k : ℕ) (g : VersionGuard) → 1 ≤ k → Holds (InRange k) (target_guard g k)
  unfolding target_guard
  target_guard-InRange k none low = tt
  target_guard-InRange k (some (c, v)) low =
      Holds-bind (λ _. Unit) _ (quote c.sql_name) _ (Holds-any _)
        (λ q _. (tt, ((low, omega arith), tt)))

  identity_self_exclusion-InRange :
      (k n : ℕ) → 1 ≤ n → n + length cs ≤ k + 1 → Holds (InRange k) (identity_self_exclusion n cs)
  unfolding identity_self_exclusion
  identity_self_exclusion-InRange k n low high =
      Holds-bind (All (InRange k)) _ (identity_terms (codes "t.") " IS DISTINCT FROM " n cs) _
        (identity_terms-InRange k (codes "t.") " IS DISTINCT FROM " n cs low high)
        (λ ts h. joined_by-InRange k " OR " ts h)

  pub conflict_update-InRange :
      (d : Draft) (ps : List UniquePredicate)
      → InDraft d
      → PredicatesIn (length d.values) ps
      → 1 ≤ length d.values
      → Holds StatementInRange (conflict_update meta cs version fields d ps)
  unfolding conflict_update
  conflict_update-InRange d ps h pin low =
      Holds-bind (λ _. Unit) _ (deleted_selection (deleted_at_column meta)) _ (Holds-any _)
        (λ deleted _.
          Holds-bind (λ p. PartsInRange p × (length d.values + length cs ≤ length p.values)) _
            (write_parts meta cs version fields (codes "update") d.values) _
            (write_parts-InRange meta cs version fields (codes "update") d.values)
            (λ p ((g, w, r), n).
              let k = length p.values in
              let sets =
                joined_by-InRange k ", " d.sets
                  (AllInRange-mono (length d.values) k d.sets (omega (arith, n)) h) in
              let psk = PredicatesIn-mono (length d.values) k (omega (arith, n)) ps pin in
              Holds-bind (InRange k) _ (target_guard version k) _
                (target_guard-InRange k version (omega (arith, n, low)))
                (λ t0 ht.
                  Holds-bind (InRange k) _ (identity_self_exclusion (length d.values + 1) cs) _
                    (identity_self_exclusion-InRange k (length d.values + 1) (omega arith)
                      (omega (arith, n)))
                    (λ ex hx. (
                      tt,
                      append-InRange k p.guard _ g (
                        tt,
                        append-InRange k t0 _ ht (
                          tt,
                          append-InRange k _ _
                              (joined_by-InRange k " " _ (constraint_cases-InRange k ps psk))
                              (
                                tt,
                                append-InRange k _ _
                                    (joined_by-InRange k " " _ (keys_cases-InRange k ps psk))
                                    (
                                      tt,
                                      append-InRange k ex _ hx (
                                        tt,
                                        append-InRange k _ _
                                            (joined_by-InRange k "\n        OR " _
                                              (predicate_tests-InRange k ps psk))
                                            (
                                              tt,
                                              (
                                                tt,
                                                append-InRange k _ _ sets (
                                                  tt,
                                                  append-InRange k p.where_sql _ w (
                                                    tt,
                                                    append-InRange k p.returning _ r (tt, tt),
                                                  ),
                                                ),
                                              ),
                                            ),
                                      ),
                                    ),
                              ),
                        ),
                      ),
                    )))))
