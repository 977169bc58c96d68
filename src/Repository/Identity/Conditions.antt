-- ===== src/Repository/Identity/Conditions.antt =====
-- The conditions that a write's payload comes to.
use primebrick_v3_dal.Base.{
  Bool, true, false, not, Option, none, some, List, [], ◌∷◌, ◌≡◌, ◌⊎◌, inl, inr, refl, sym, subst,
  Text, text_eq, keep, map, All, Bool-cases,
}
use primebrick_v3_dal.Query.Dsl.{Value}
use primebrick_v3_dal.Repository.Columns.{
  ColumnMeta, EntityMeta, Payload, payload_at, without, col_by_prop, Written, ok, err, ◌>>=◌,
}
use primebrick_v3_dal.Repository.Identity.{
  resolve_selector_props, is_some, assert_present, MatchCondition, add_condition, conditions_of,
  without_all, required_props, some_condition, resolve_match_conditions,
}
use primebrick_v3_dal.Repository.Identity.Known.{Present, Known, Identified, Identified-Grows}
use primebrick_v3_dal.Repository.Identity.Laws.{
  SelectsAll, select_props-SelectsAll, required_props-keeps, required_props-All, required_first,
  assert_present-Present,
}

abbrev pub keys_of : List MatchCondition → List Text
keys_of cs = map (λ c. c.property_key) cs

module _ {A : Type 0} (P : A → Type 0) (f : A → Bool) where
  All-keep : (xs : List A) → All P xs → All P (keep f xs)
  All-keep [] h = tt
  All-keep (x ∷ xs) (p, h) = elim (Bool-cases (f x)) [
    | inl e ↦ rw e (p, All-keep xs h)
    | inr e ↦ rw e (All-keep xs h)
  ]

keep_passes : {A : Type 0} (f : A → Bool) (xs : List A) → All (λ x. f x ≡ true) (keep f xs)
keep_passes f [] = tt
keep_passes f (x ∷ xs) = elim (Bool-cases (f x)) [
  | inl e ↦ rw e (e, keep_passes f xs)
  | inr e ↦ rw e (keep_passes f xs)
]

-- No property of the payload has the key.
abbrev Absent : Text → Payload → Type 0
Absent k p = All (λ q. not (text_eq q.0 k) ≡ true) p

Absent-none : (k : Text) (p : Payload) → Absent k p → payload_at k p ≡ none
unfolding payload_at
Absent-none k [] h = refl
Absent-none k ((j, v) ∷ p) (e, h) = rw (not_true (text_eq j k) e) (Absent-none k p h)
  where
    not_true : (b : Bool) → not b ≡ true → b ≡ false
    not_true true i = cc
    not_true false i = refl

without_all-keeps :
    (k : Text) (rs : List Text) (p : Payload) → Absent k p → Absent k (without_all rs p)
unfolding without_all without
without_all-keeps k [] p h = h
without_all-keeps k (r ∷ rs) p h = without_all-keeps k rs (without r p) (All-keep _ _ p h)

without_all-Absent :
    (rs : List Text) (p : Payload) → All (λ k. payload_at k (without_all rs p) ≡ none) rs
unfolding without_all without
without_all-Absent [] p = tt
without_all-Absent (r ∷ rs) p = (
  Absent-none r _ (without_all-keeps r rs (without r p) (keep_passes _ p)),
  without_all-Absent rs (without r p),
)

module _ (meta : EntityMeta) (p : Payload) where
  -- A condition is on the column of its property, for the value that the payload gives it.
  abbrev pub Faithful : MatchCondition → Type 0
  Faithful c =
      (col_by_prop c.property_key meta.columns ≡ some c.column)
      × (payload_at c.property_key p ≡ some c.value)

  conditions_of-Faithful : (ks : List Text) → All Faithful (conditions_of meta p ks)
  unfolding conditions_of
  conditions_of-Faithful [] = tt
  conditions_of-Faithful (k ∷ ks) =
      by_both (col_by_prop k meta.columns) (payload_at k p) refl refl (conditions_of-Faithful ks)
    where
      by_both :
          (o : Option ColumnMeta) (v : Option Value)
          → col_by_prop k meta.columns ≡ o
          → payload_at k p ≡ v
          → All Faithful (conditions_of meta p ks)
          → All Faithful (add_condition k o v (conditions_of meta p ks))
      by_both (some c) (some v) e f h = ((e, f), h)
      by_both (some c) none e f h = h
      by_both none v e f h = h

  conditions_of-keys :
      (ks : List Text)
      → All (Known meta.columns) ks
      → All (Present p) ks
      → keys_of (conditions_of meta p ks) ≡ ks
  unfolding conditions_of
  conditions_of-keys [] h i = refl
  conditions_of-keys (k ∷ ks) (h, hs) (i, is) =
      by_both (col_by_prop k meta.columns) (payload_at k p) h i (conditions_of-keys ks hs is)
    where
      by_both :
          (o : Option ColumnMeta) (v : Option Value)
          → is_some o ≡ true
          → is_some v ≡ true
          → keys_of (conditions_of meta p ks) ≡ ks
          → keys_of (add_condition k o v (conditions_of meta p ks)) ≡ k ∷ ks
      by_both (some c) (some v) e f r = rw r refl
      by_both (some c) none e f r = cc
      by_both none v e f r = cc

  abbrev pub Resolved : Written (List MatchCondition × Payload) → Type 0
  Resolved (ok (cs, remaining)) =
      Identified meta (keys_of cs)
      × All Faithful cs
      × All (λ k. payload_at k remaining ≡ none) (keys_of cs)
  Resolved (err e) = Unit

  selected-Known :
      (mb selected : List Text)
      → SelectsAll meta mb [] (ok selected)
      → All (Known meta.columns) selected
  selected-Known [] selected h = subst (All (Known meta.columns)) h tt
  selected-Known (m ∷ mb) selected (g, i) = g.1 tt

  -- The required keys identify a row, unless there are none.
  required_identify :
      (mb selected : List Text)
      → SelectsAll meta mb [] (ok selected)
      → (required_props meta p selected ≡ []) ⊎ Identified meta (required_props meta p selected)
  required_identify [] selected h =
      subst (λ ks. (required_props meta p ks ≡ []) ⊎ Identified meta (required_props meta p ks)) h
        (required_first meta p)
  required_identify (m ∷ mb) selected (g, i) =
      inr (Identified-Grows meta selected _ (required_props-keeps meta p selected) i)

  some_condition-Resolved :
      (ks : List Text) (cs : List MatchCondition)
      → (ks ≡ []) ⊎ Identified meta ks
      → keys_of cs ≡ ks
      → All Faithful cs
      → Resolved (some_condition cs (without_all ks p))
  some_condition-Resolved ks [] i e f = tt
  some_condition-Resolved ks (c ∷ cs) (inl i) e f = elim (cons_not_nil i e) [ ]
    where
      cons_not_nil : ks ≡ [] → keys_of (c ∷ cs) ≡ ks → ⊥
      cons_not_nil a b = cc
  some_condition-Resolved ks (c ∷ cs) (inr i) e f = (
    rw e i,
    f,
    subst (All (λ k. payload_at k (without_all ks p) ≡ none)) (sym e) (without_all-Absent ks p),
  )

  resolve-Resolved : (mb : List Text) → Resolved (resolve_match_conditions meta p mb)
  unfolding resolve_match_conditions resolve_selector_props
  resolve-Resolved mb =
      by_selected (resolve_selector_props meta mb) (select_props-SelectsAll meta mb [])
    where
      finish : List Text → Written (List MatchCondition × Payload)
      finish selected =
          some_condition (conditions_of meta p (required_props meta p selected))
            (without_all (required_props meta p selected) p)

      by_present :
          (selected : List Text) (a : Written Unit)
          → SelectsAll meta mb [] (ok selected)
          → assert_present p selected ≡ a
          → Resolved (a >>= λ _. finish selected)
      by_present selected (err e) h a = tt
      by_present selected (ok _) h a =
          some_condition-Resolved (required_props meta p selected) _
            (required_identify mb selected h)
            (conditions_of-keys _
              (required_props-All meta (Known meta.columns) p selected
                (selected-Known mb selected h) (λ c k i. k))
              (required_props-All meta (Present p) p selected
                (assert_present-Present meta p selected a) (λ c k i. i)))
            (conditions_of-Faithful _)

      by_selected :
          (r : Written (List Text))
          → SelectsAll meta mb [] r
          → Resolved (r >>= λ selected. assert_present p selected >>= λ _. finish selected)
      by_selected (err e) h = tt
      by_selected (ok selected) h = by_present selected (assert_present p selected) h refl

  -- Where the conditions of a write are resolved, their properties identify a row: they hold the
  -- primary key, uuid, or all the properties of a unique group that has some. Each condition is on
  -- the column of its property for the value in the payload, and none of the properties is left to
  -- be set.
  pub resolve_match_conditions-Identified :
      (mb : List Text) (cs : List MatchCondition) (remaining : Payload)
      → resolve_match_conditions meta p mb ≡ ok (cs, remaining)
      → Identified meta (keys_of cs)
        × All Faithful cs
        × All (λ k. payload_at k remaining ≡ none) (keys_of cs)
  resolve_match_conditions-Identified mb cs remaining h = subst Resolved h (resolve-Resolved mb)
