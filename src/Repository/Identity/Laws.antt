-- ===== src/Repository/Identity/Laws.antt =====
-- A write is about an identified row, and matches it by the payload's own values.
use primebrick_v3_dal.Base.{
  Bool, true, false, ◌&&◌, not, Option, none, some, List, [], ◌∷◌, ◌≡◌, ◌⊎◌, inl, inr, refl, subst,
  Text, text_eq_iff, find, is_empty, All, Bool-cases, and_left,
}
use primebrick_v3_dal.Repository.Columns.{
  ColumnMeta, EntityMeta, Payload, payload_at, col_by_prop, find_pk_column, find_uuid_column,
  Written, ok, err, match_selector, ◌>>=◌,
}
use primebrick_v3_dal.Repository.Identity.{
  UniqueGroup, unique_conflict_groups, props_of, group_of, add_prop, is_pk, add_selected,
  select_prop, select_props, is_some, assert_present, add_auto, required_props,
}
use primebrick_v3_dal.Repository.Identity.Sets.{
  In, add_prop-keeps, add_prop-has, add_props-keeps, add_props-has, All-add_prop, All-add_props,
  All-find, groups-Grouped,
}
use primebrick_v3_dal.Repository.Identity.Known.{
  All-Known, All-Mem, Grows, Identified, Known, Known-props, Present, err_not_ok, false_not_true,
  group_of-found, has_cols, is_some_of,
}

module _ (meta : EntityMeta) where
  abbrev pub Selects : List Text → Written (List Text) → Type 0
  Selects ks (ok ks') = Grows meta ks ks' × Identified meta ks'
  Selects ks (err e) = Unit

  pk_key :
      (o : Option ColumnMeta) (p : Text)
      → is_pk o p ≡ true
      → (c : ColumnMeta) × (o ≡ some c) × (p ≡ c.property_key)
  pk_key none p h = elim (false_not_true h) [ ]
  pk_key (some c) p h = (c, refl, (text_eq_iff p c.property_key).0 h)

  add_selected-Selects :
      (b : Bool) (p : Text) (o : Option UniqueGroup) (ks : List Text)
      → is_pk (find_pk_column meta) p ≡ b
      → group_of p (unique_conflict_groups meta) ≡ o
      → Known meta.columns p
      → Selects ks (add_selected b p o ks)
  add_selected-Selects b p (some g) ks e1 e2 known =
      let (mem, i) = group_of-found p (unique_conflict_groups meta) g e2 in
      (
        (
          (λ k h. add_props-keeps ks (props_of g.cols) k h),
          λ h. All-add_props (Known meta.columns) ks (props_of g.cols) h (
              Known-props g.cols meta.columns (
                All-Mem _ (unique_conflict_groups meta) g
                  (groups-Grouped (λ c. Known meta.columns c.property_key) meta
                    (All-Known meta.columns))
                  mem)),
        ),
        inr (inr (g, mem, has_cols g.cols p i, add_props-has ks (props_of g.cols))),
      )
  add_selected-Selects true p none ks e1 e2 known =
      let (c, found, key) = pk_key (find_pk_column meta) p e1 in
      (
        ((λ k h. add_prop-keeps ks p k h), λ h. All-add_prop (Known meta.columns) ks p h known),
        inl (c, found, subst (In (add_prop ks p)) key (add_prop-has ks p)),
      )
  add_selected-Selects false p none ks e1 e2 known = tt

  select_prop-Selects : (p : Text) (ks : List Text) → Selects ks (select_prop meta p ks)
  unfolding select_prop
  select_prop-Selects p ks = by_column (col_by_prop p meta.columns) refl
    where
      by_column :
          (o : Option ColumnMeta)
          → col_by_prop p meta.columns ≡ o
          → Selects ks (elim o [
            | none ↦ err (match_selector p)
            | some c ↦
                add_selected
                  (is_pk (find_pk_column meta) p)
                  p
                  (group_of p (unique_conflict_groups meta))
                  ks
          ])
      by_column none e = tt
      by_column (some c) e = add_selected-Selects _ p _ ks refl refl (is_some_of e)

  -- With a property to select by, what is selected identifies a row.
  abbrev pub SelectsAll : List Text → List Text → Written (List Text) → Type 0
  SelectsAll [] ks (ok ks') = ks ≡ ks'
  SelectsAll (p ∷ ps) ks (ok ks') = Grows meta ks ks' × Identified meta ks'
  SelectsAll ps ks (err e) = Unit

  Grows-trans : (ks ls ms : List Text) → Grows meta ks ls → Grows meta ls ms → Grows meta ks ms
  Grows-trans ks ls ms (f, g) (f', g') = ((λ k h. f' k (f k h)), λ h. g' (g h))

  pub select_props-SelectsAll : (ps ks : List Text) → SelectsAll ps ks (select_props meta ps ks)
  unfolding select_props
  select_props-SelectsAll [] ks = refl
  select_props-SelectsAll (p ∷ ps) ks =
      by_first (select_prop meta p ks) (select_prop-Selects p ks)
        (λ ls. select_props-SelectsAll ps ls)
    where
      by_rest :
          (qs : List Text) (ls : List Text) (r : Written (List Text))
          → Grows meta ks ls
          → Identified meta ls
          → SelectsAll qs ls r
          → SelectsAll (p ∷ ps) ks r
      by_rest [] ls (ok ms) g i e = (subst (Grows meta ks) e g, subst (Identified meta) e i)
      by_rest (q ∷ qs) ls (ok ms) g i (g', i') = (Grows-trans ks ls ms g g', i')
      by_rest qs ls (err e) g i h = tt

      by_first :
          (r : Written (List Text))
          → Selects ks r
          → ((ls : List Text) → SelectsAll ps ls (select_props meta ps ls))
          → SelectsAll (p ∷ ps) ks (r >>= λ ls. select_props meta ps ls)
      by_first (err e) h ih = tt
      by_first (ok ls) (g, i) ih = by_rest ps ls (select_props meta ps ls) g i (ih ls)

  -- The keys with id and uuid added: those of before stay, and a first key is one of the two.
  abbrev pub Found : (Option ColumnMeta) → List Text → Type 0
  Found o ks = (c : ColumnMeta) × (o ≡ some c) × In ks c.property_key

  add_auto-cases :
      (pl : Payload) (o : Option ColumnMeta) (ks : List Text)
      → (add_auto pl o ks ≡ ks)
        ⊎ ((c : ColumnMeta) × (o ≡ some c)
            × (add_auto pl o ks ≡ add_prop ks c.property_key)
            × Present pl c.property_key)
  unfolding add_auto
  add_auto-cases pl none ks = inl refl
  add_auto-cases pl (some c) ks =
      elim (Bool-cases (is_some (payload_at c.property_key pl) && not (is_empty c.property_key))) [
        | inl e ↦ inr (c, refl, (rw e refl), and_left _ _ e)
        | inr e ↦ inl (rw e refl)
      ]

  add_auto-keeps :
      (pl : Payload) (o : Option ColumnMeta) (ks : List Text) (k : Text)
      → In ks k
      → In (add_auto pl o ks) k
  add_auto-keeps pl o ks k h = elim (add_auto-cases pl o ks) [
    | inl e ↦ rw e h
    | inr (c, f, e, q) ↦ rw e (add_prop-keeps ks c.property_key k h)
  ]

  add_auto-All :
      (P : Text → Type 0) (pl : Payload) (o : Option ColumnMeta) (ks : List Text)
      → All P ks
      → ((c : ColumnMeta) → o ≡ some c → Present pl c.property_key → P c.property_key)
      → All P (add_auto pl o ks)
  add_auto-All P pl o ks h q = elim (add_auto-cases pl o ks) [
    | inl e ↦ rw e h
    | inr (c, f, e, i) ↦ rw e (All-add_prop P ks c.property_key h (q c f i))
  ]

  add_auto_first :
      (pl : Payload) (o : Option ColumnMeta) (ks : List Text)
      → (add_auto pl o ks ≡ ks) ⊎ Found o (add_auto pl o ks)
  add_auto_first pl o ks = elim (add_auto-cases pl o ks) [
    | inl e ↦ inl e
    | inr (c, f, e, i) ↦ inr (c, f, rw e (add_prop-has ks c.property_key))
  ]

  pub required_props-keeps :
      (pl : Payload) (ks : List Text) (k : Text) → In ks k → In (required_props meta pl ks) k
  unfolding required_props
  required_props-keeps pl ks k h = add_auto-keeps pl _ _ k (add_auto-keeps pl _ ks k h)

  find_key-Known :
      (f : ColumnMeta → Bool) (c : ColumnMeta)
      → find f meta.columns ≡ some c
      → Known meta.columns c.property_key
  find_key-Known f c e =
      All-find (λ c. Known meta.columns c.property_key) f meta.columns c (All-Known meta.columns) e

  pub required_props-All :
      (P : Text → Type 0) (pl : Payload) (ks : List Text)
      → All P ks
      → ((c : ColumnMeta)
          → Known meta.columns c.property_key
          → Present pl c.property_key
          → P c.property_key)
      → All P (required_props meta pl ks)
  unfolding required_props find_pk_column
  required_props-All P pl ks h q =
      add_auto-All P pl (find_uuid_column meta) _
        (add_auto-All P pl (find_pk_column meta) ks h (λ c e i. q c (find_key-Known _ c e) i))
        (λ c e i. q c (find_key-Known _ c e) i)

  pub required_first :
      (pl : Payload)
      → (required_props meta pl [] ≡ []) ⊎ Identified meta (required_props meta pl [])
  unfolding required_props
  required_first pl =
      elim (add_auto_first pl (find_uuid_column meta) (add_auto pl (find_pk_column meta) [])) [
        | inr f ↦ inr (inr (inl f))
        | inl e ↦ elim (add_auto_first pl (find_pk_column meta) []) [
          | inl e' ↦ inl (rw (e, e') refl)
          | inr f ↦ inr (inl (rw e f))
        ]
      ]

  pub assert_present-Present :
      (pl : Payload) (ks : List Text) → assert_present pl ks ≡ ok tt → All (Present pl) ks
  unfolding assert_present
  assert_present-Present pl [] e = tt
  assert_present-Present pl (k ∷ ks) e = elim (Bool-cases (is_some (payload_at k pl))) [
    | inl t ↦ (t, assert_present-Present pl ks (rw t at e))
    | inr t ↦ elim (err_not_ok (rw t at e)) [ ]
  ]
