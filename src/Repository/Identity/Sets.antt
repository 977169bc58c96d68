-- ===== src/Repository/Identity/Sets.antt =====
-- Sets of properties in the order of insertion, and the columns of the unique groups.
use primebrick_v3_dal.Base.{
  Bool, true, false, Option, none, some, List, [], ◌∷◌, ◌++◌, ◌≡◌, refl, subst, Text, text_eq,
  text_eq_refl, includes, sort_by, insert_sorted, find, map, All, All-append, Bool-cases, inl, inr,
}
use primebrick_v3_dal.Query.Clauses.{given}
use primebrick_v3_dal.Repository.Columns.{ColumnMeta, EntityMeta}
use primebrick_v3_dal.Repository.Identity.{
  UniqueGroup, add_named, Groups, add_column, group_columns, sort_group, order_le,
  unique_conflict_groups, add_prop, add_props,
}

abbrev pub In : List Text → Text → Type 0
In ks k = includes ks k ≡ true

includes-append_left : (xs ys : List Text) (k : Text) → In xs k → In (xs ++ ys) k
unfolding includes
includes-append_left [] ys k h = cc
includes-append_left (x ∷ xs) ys k h = elim (Bool-cases (text_eq x k)) [
  | inl e ↦ rw e refl
  | inr e ↦ rw e (includes-append_left xs ys k (rw e at h))
]

includes-last : (xs : List Text) (k : Text) → In (xs ++ k ∷ []) k
unfolding includes
includes-last [] k = rw (text_eq_refl k) refl
includes-last (x ∷ xs) k = elim (Bool-cases (text_eq x k)) [
  | inl e ↦ rw e refl
  | inr e ↦ rw e (includes-last xs k)
]

pub add_prop-keeps : (ks : List Text) (p k : Text) → In ks k → In (add_prop ks p) k
unfolding add_prop
add_prop-keeps ks p k h = elim (Bool-cases (includes ks p)) [
  | inl e ↦ rw e h
  | inr e ↦ rw e (includes-append_left ks (p ∷ []) k h)
]

pub add_prop-has : (ks : List Text) (p : Text) → In (add_prop ks p) p
unfolding add_prop
add_prop-has ks p = elim (Bool-cases (includes ks p)) [
  | inl e ↦ rw e e
  | inr e ↦ rw e (includes-last ks p)
]

pub add_props-keeps : (ks ps : List Text) (k : Text) → In ks k → In (add_props ks ps) k
unfolding add_props
add_props-keeps ks [] k h = h
add_props-keeps ks (p ∷ ps) k h = add_props-keeps (add_prop ks p) ps k (add_prop-keeps ks p k h)

pub add_props-has : (ks ps : List Text) → All (In (add_props ks ps)) ps
unfolding add_props
add_props-has ks [] = tt
add_props-has ks (p ∷ ps) =
    (add_props-keeps (add_prop ks p) ps p (add_prop-has ks p), add_props-has (add_prop ks p) ps)

-- A predicate of all the members is kept by an insertion of one more that has it.
module _ (P : Text → Type 0) where
  pub All-add_prop : (ks : List Text) (p : Text) → All P ks → P p → All P (add_prop ks p)
  unfolding add_prop
  All-add_prop ks p h q = elim (Bool-cases (includes ks p)) [
    | inl e ↦ rw e h
    | inr e ↦ rw e (All-append P ks (p ∷ []) h (q, tt))
  ]

  pub All-add_props : (ks ps : List Text) → All P ks → All P ps → All P (add_props ks ps)
  unfolding add_props
  All-add_props ks [] h q = h
  All-add_props ks (p ∷ ps) h (x, q) = All-add_props (add_prop ks p) ps (All-add_prop ks p h x) q

module _ {A : Type 0} (P : A → Type 0) where
  pub All-find : (f : A → Bool) (xs : List A) (a : A) → All P xs → find f xs ≡ some a → P a
  All-find f [] a h e = cc
  All-find f (x ∷ xs) a (p, h) e = elim (Bool-cases (f x)) [
    | inl t ↦ subst P (some_inj x a (rw t at e)) p
    | inr t ↦ All-find f xs a h (rw t at e)
  ]
    where
      some_inj : (b c : A) → some b ≡ some c → b ≡ c
      some_inj b c k = cc

  All-insert :
      (le : A → A → Bool) (x : A) (xs : List A) → P x → All P xs → All P (insert_sorted le x xs)
  unfolding insert_sorted
  All-insert le x [] p h = (p, tt)
  All-insert le x (y ∷ ys) p (q, h) = elim (Bool-cases (le x y)) [
    | inl e ↦ rw e (p, (q, h))
    | inr e ↦ rw e (q, All-insert le x ys p h)
  ]

  pub All-sort_by : (le : A → A → Bool) (xs : List A) → All P xs → All P (sort_by le xs)
  unfolding sort_by
  All-sort_by le [] h = tt
  All-sort_by le (x ∷ xs) (p, h) = All-insert le x (sort_by le xs) p (All-sort_by le xs h)

-- What holds of all the columns holds of those of the groups.
module _ (P : ColumnMeta → Type 0) where
  abbrev Grouped : UniqueGroup → Type 0
  Grouped g = All P g.cols

  add_named-Grouped :
      (name : Text) (c : ColumnMeta) (gs : List UniqueGroup)
      → P c
      → All Grouped gs
      → All Grouped (add_named name c gs)
  unfolding add_named
  add_named-Grouped name c [] p h = ((p, tt), tt)
  add_named-Grouped name c (g ∷ gs) p (q, h) = elim (Bool-cases (text_eq g.name name)) [
    | inl e ↦ rw e (All-append P g.cols (c ∷ []) q (p, tt), h)
    | inr e ↦ rw e (q, add_named-Grouped name c gs p h)
  ]

  abbrev BothGrouped : Groups → Type 0
  BothGrouped (a, b) = All Grouped a × All Grouped b

  add_column-Grouped :
      (b : Bool) (name : Option Text) (c : ColumnMeta) (gs : Groups)
      → P c
      → BothGrouped gs
      → BothGrouped (add_column b name c gs)
  unfolding add_column
  add_column-Grouped false name c gs p h = h
  add_column-Grouped true none c (s, n) p (h, k) = (All-append Grouped s _ h ((p, tt), tt), k)
  add_column-Grouped true (some name) c (s, n) p (h, k) = (h, add_named-Grouped name c n p k)

  group_columns-Grouped :
      (cs : List ColumnMeta) (gs : Groups)
      → All P cs
      → BothGrouped gs
      → BothGrouped (group_columns cs gs)
  unfolding group_columns
  group_columns-Grouped [] gs h k = k
  group_columns-Grouped (c ∷ cs) gs (p, h) k =
      group_columns-Grouped cs _ h
        (add_column-Grouped c.is_unique (given c.unique_index_name) c gs p k)

  pub groups-Grouped :
      (meta : EntityMeta) → All P meta.columns → All Grouped (unique_conflict_groups meta)
  unfolding unique_conflict_groups
  groups-Grouped meta h =
      let (s, n) = group_columns-Grouped meta.columns ([], []) h (tt, tt) in
      All-append Grouped _ _ s (sorted _ n)
    where
      sorted : (gs : List UniqueGroup) → All Grouped gs → All Grouped (map sort_group gs)
      sorted [] k = tt
      sorted (g ∷ gs) (q, k) = (All-sort_by P order_le g.cols q, sorted gs k)
