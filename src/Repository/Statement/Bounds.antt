-- ===== src/Repository/Statement/Bounds.antt =====
-- The placeholders of the parts of a write.
use primebrick_v3_dal.Base.{
  ℕ, ◌+◌, ◌≤◌, none, some, List, [], ◌∷◌, ◌++◌, ◌≡◌, refl, map, Text, String, length, length-append,
  All, All-append, ◌==◌, Bool-cases, inl, inr, arith,
}
use primebrick_v3_dal.Query.Dsl.{FieldProjector, project_field, project_expr, get_column_name}
use primebrick_v3_dal.Query.Clauses.{alias_of}
use primebrick_v3_dal.Query.Writer.{Sql}
use primebrick_v3_dal.Repository.Columns.{ColumnMeta, EntityMeta}
use primebrick_v3_dal.Repository.Identity.{MatchCondition}
use primebrick_v3_dal.Repository.Draft.{
  WriteParam, converted, expected, quote, joined_by, identity_terms, identity_where,
}
use primebrick_v3_dal.Repository.Statement.{
  match_object, build_guard_cte, bind_conditions, VersionGuard, guard_where, return_fields,
  return_internal, return_all, internal_columns, return_given, name_in, build_returning_clause,
  Parts, write_parts,
}
use primebrick_v3_dal.Repository.Draft.Bounds.{
  Holds, Holds-any, Holds-bind, InRange, InRange-mono, Within,
}

module _ (k : ℕ) where
  pub append-InRange : (a b : Sql) → InRange k a → InRange k b → InRange k (a ++ b)
  append-InRange a b h i = All-append (Within k) a b h i

  pub joined_by-InRange :
      (sep : String) (ps : List Sql) → All (InRange k) ps → InRange k (joined_by sep ps)
  unfolding joined_by
  joined_by-InRange sep [] h = tt
  joined_by-InRange sep (p ∷ []) (h, hs) = h
  joined_by-InRange sep (p ∷ q ∷ ps) (h, hs) =
      append-InRange p _ h (tt, joined_by-InRange sep (q ∷ ps) hs)

  pub identity_terms-InRange :
      (alias : Text) (op : String) (n : ℕ) (cs : List MatchCondition)
      → 1 ≤ n
      → n + length cs ≤ k + 1
      → Holds (All (InRange k)) (identity_terms alias op n cs)
  unfolding identity_terms
  identity_terms-InRange alias op n [] low high = tt
  identity_terms-InRange alias op n (c ∷ cs) low high =
      Holds-bind (λ _. Unit) _ (quote c.column.sql_name) _ (Holds-any _)
        (λ q _.
          Holds-bind (All (InRange k)) _ (identity_terms alias op (n + 1) cs) _
            (identity_terms-InRange alias op (n + 1) cs (omega arith) (omega (arith, high)))
            (λ ts h. ((tt, (tt, ((low, omega (arith, high)), tt))), h)))

  pub match_object-InRange :
      (n : ℕ) (cs : List MatchCondition)
      → 1 ≤ n
      → n + length cs ≤ k + 1
      → All (InRange k) (match_object n cs)
  match_object-InRange n [] low high = tt
  match_object-InRange n (c ∷ cs) low high = (
    (tt, ((low, omega (arith, high)), tt)),
    match_object-InRange (n + 1) cs (omega arith) (omega (arith, high)),
  )

  pub build_guard_cte-InRange :
      (table : Text) (cs : List MatchCondition) (n : ℕ) (where_sql : Sql) (op : Text)
      → 1 ≤ n
      → n + length cs ≤ k + 1
      → InRange k where_sql
      → InRange k (build_guard_cte table cs n where_sql op)
  unfolding build_guard_cte
  build_guard_cte-InRange table cs n where_sql op low high h = (
    tt,
    append-InRange where_sql _ h (
      tt,
      append-InRange _ _ (joined_by-InRange ", " _ (match_object-InRange n cs low high)) (tt, tt),
    ),
  )

  pub identity_where-InRange :
      (n : ℕ) (cs : List MatchCondition)
      → 1 ≤ n
      → n + length cs ≤ k + 1
      → Holds (InRange k) (identity_where n cs)
  unfolding identity_where
  identity_where-InRange n cs low high =
      Holds-bind _ _ (identity_terms [] " = " n cs) _
        (identity_terms-InRange [] " = " n cs low high) (λ ts h. joined_by-InRange " AND " ts h)

  return_fields-InRange :
      (meta : EntityMeta) (fs : List FieldProjector)
      → Holds (λ r. All (InRange k) r.0) (return_fields meta fs)
  unfolding return_fields
  return_fields-InRange meta [] = tt
  return_fields-InRange meta (project_expr e alias ∷ fs) =
      Holds-bind (λ _. Unit) _ (quote alias) _ (Holds-any _)
        (λ a _.
          Holds-bind (λ r. All (InRange k) r.0) _ (return_fields meta fs) _
            (return_fields-InRange meta fs) (λ r h. ((tt, tt), h)))
  return_fields-InRange meta (project_field f alias ∷ fs) =
      elim (Bool-cases (f.entity.id == meta.id)) [
        | inr e ↦ rw e tt
        | inl e ↦ rw e (
            Holds-bind (λ _. Unit) _ (quote (get_column_name f.entity f.key)) _ (Holds-any _)
              (λ q _.
                Holds-bind (λ _. Unit) _ (quote (alias_of alias (get_column_name f.entity f.key))) _
                  (Holds-any _)
                  (λ a _.
                    Holds-bind (λ r. All (InRange k) r.0) _ (return_fields meta fs) _
                      (return_fields-InRange meta fs) (λ r h. ((tt, tt), h)))))
      ]

  return_internal-InRange :
      (cs : List ColumnMeta) (names : List Text)
      → Holds (All (InRange k)) (return_internal cs names)
  unfolding return_internal
  return_internal-InRange [] names = tt
  return_internal-InRange (c ∷ cs) names = elim (Bool-cases (name_in c.sql_name names)) [
    | inl e ↦ rw e (return_internal-InRange cs names)
    | inr e ↦ rw e (
        Holds-bind (λ _. Unit) _ (quote c.sql_name) _ (Holds-any _)
          (λ q _.
            Holds-bind _ _ (return_internal cs (c.sql_name ∷ names)) _
              (return_internal-InRange cs (c.sql_name ∷ names)) (λ ps h. ((tt, tt), h))))
  ]

  return_given-InRange :
      (meta : EntityMeta) (r : List Sql × List Text)
      → All (InRange k) r.0
      → Holds (InRange k) (return_given meta r)
  unfolding return_given
  return_given-InRange meta (ps, names) h =
      Holds-bind _ _ (return_internal (internal_columns meta) names) _
        (return_internal-InRange _ names)
        (λ qs i. (tt, joined_by-InRange ", " (ps ++ qs) (All-append (InRange k) ps qs h i)))

  return_all-InRange : (cs : List ColumnMeta) → Holds (All (InRange k)) (return_all cs)
  unfolding return_all
  return_all-InRange [] = tt
  return_all-InRange (c ∷ cs) =
      Holds-bind (λ _. Unit) _ (quote c.sql_name) _ (Holds-any _)
        (λ q _.
          Holds-bind (λ _. Unit) _ (quote c.property_key) _ (Holds-any _)
            (λ a _.
              Holds-bind _ _ (return_all cs) _ (return_all-InRange cs) (λ ps h. ((tt, tt), h))))

  pub build_returning_clause-InRange :
      (meta : EntityMeta) (fs : List FieldProjector)
      → Holds (InRange k) (build_returning_clause meta fs)
  unfolding build_returning_clause
  build_returning_clause-InRange meta [] =
      Holds-bind _ _ (return_all meta.columns) _ (return_all-InRange meta.columns)
        (λ ps h. (tt, joined_by-InRange ", " ps h))
  build_returning_clause-InRange meta (f ∷ fs) =
      Holds-bind _ _ (return_fields meta (f ∷ fs)) _ (return_fields-InRange meta (f ∷ fs))
        (λ r h. return_given-InRange meta r h)

-- What a guarded write needs of its parts.
abbrev pub PartsInRange : Parts → Type 0
PartsInRange p =
    InRange (length p.values) p.guard
    × InRange (length p.values) p.where_sql
    × InRange (length p.values) p.returning

module _ (meta : EntityMeta) (cs : List MatchCondition) (version : VersionGuard)
    (fields : List FieldProjector) where
  length-bind_conditions :
      (values : List WriteParam) → length (bind_conditions cs values) ≡ length values + length cs
  unfolding bind_conditions
  length-bind_conditions values = omega (arith, length-append values _, length_map cs)
    where
      length_map :
          (ds : List MatchCondition) → length (map (λ d. converted d.column d.value) ds) ≡ length ds
      length_map [] = refl
      length_map (d ∷ ds) = omega (arith, length_map ds)

  -- The guard's own placeholder is the last value.
  abbrev Guarded : List WriteParam → Sql × List WriteParam → Type 0
  Guarded values (sql, values') = (length values ≤ length values') × InRange (length values') sql

  guard_where-Guarded :
      (g : VersionGuard) (values : List WriteParam) → Holds (Guarded values) (guard_where g values)
  unfolding guard_where
  guard_where-Guarded none values = (omega arith, tt)
  guard_where-Guarded (some (c, v)) values =
      Holds-bind (λ _. Unit) _ (quote c.sql_name) _ (Holds-any _)
        (λ q _. (
          omega (arith, length-append values (expected v ∷ [])),
          (
            tt,
            (tt, (tt, ((omega arith, omega (arith, length-append values (expected v ∷ []))), tt))),
          ),
        ))

  -- Every placeholder of the parts is for a value bound, and the values of before are still there.
  pub write_parts-InRange :
      (op : Text) (values : List WriteParam)
      → Holds
          (λ p. PartsInRange p × (length values + length cs ≤ length p.values))
          (write_parts meta cs version fields op values)
  unfolding write_parts
  write_parts-InRange op values =
      Holds-bind (InRange (length values + length cs)) _ (identity_where (length values + 1) cs) _
        (identity_where-InRange (length values + length cs) (length values + 1) cs (omega arith)
          (omega arith))
        (λ w hw.
          Holds-bind (Guarded (bind_conditions cs values)) _
            (guard_where version (bind_conditions cs values)) _
            (guard_where-Guarded version (bind_conditions cs values))
            (λ g hg.
              Holds-bind (InRange (length g.1)) _ (build_returning_clause meta fields) _
                (build_returning_clause-InRange (length g.1) meta fields)
                (λ r hr.
                  let room : length values + length cs ≤ length g.1 =
                    omega (arith, hg.0, length-bind_conditions values) in
                  let hw' = InRange-mono (length values + length cs) (length g.1) w room hw in
                  (
                    (
                      build_guard_cte-InRange (length g.1) meta.table cs (length values + 1) w op
                          (omega arith) (omega (arith, room)) hw',
                      append-InRange (length g.1) w g.0 hw' hg.1,
                      hr,
                    ),
                    room,
                  ))))
