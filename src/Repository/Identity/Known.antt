-- ===== src/Repository/Identity/Known.antt =====
-- Keys that identify a row, and the properties that are columns.
use primebrick_v3_dal.Base.{
  Bool, true, false, Option, none, some, List, [], ◌∷◌, ◌≡◌, ◌≢◌, ◌⊎◌, inl, inr, refl, sym, subst,
  Text, text_eq, text_eq_refl, includes, All, All-map, if◌then◌else◌,
}
use mathlib.Core.List.{Memᴰ}
use primebrick_v3_dal.Repository.Columns.{
  ColumnMeta, EntityMeta, Payload, payload_at, col_by_prop, find_pk_column, find_uuid_column, ok,
  err, WriteError,
}
use primebrick_v3_dal.Repository.Identity.{
  UniqueGroup, unique_conflict_groups, props_of, group_of, is_some,
}
use primebrick_v3_dal.Repository.Identity.Sets.{In}

abbrev pub Present : Payload → Text → Type 0
Present p k = is_some (payload_at k p) ≡ true

abbrev pub Known : List ColumnMeta → Text → Type 0
Known cs k = is_some (col_by_prop k cs) ≡ true

-- Keys that identify a row: the primary key, uuid, or all the properties of a unique group.
abbrev pub Identified : EntityMeta → List Text → Type 0
Identified meta ks =
    ((c : ColumnMeta) × (find_pk_column meta ≡ some c) × In ks c.property_key)
    ⊎ (((c : ColumnMeta) × (find_uuid_column meta ≡ some c) × In ks c.property_key)
        ⊎ ((g : UniqueGroup) × Memᴰ g (unique_conflict_groups meta)
            × (g.cols ≢ [])
            × All (In ks) (props_of g.cols)))

-- The sets of keys that a step may end with.
abbrev pub Grows : EntityMeta → List Text → List Text → Type 0
Grows meta ks ks' =
    ((k : Text) → In ks k → In ks' k) × (All (Known meta.columns) ks → All (Known meta.columns) ks')

pub Identified-Grows :
    (meta : EntityMeta) (ks ks' : List Text)
    → ((k : Text) → In ks k → In ks' k)
    → Identified meta ks
    → Identified meta ks'
Identified-Grows meta ks ks' g (inl (c, e, h)) = inl (c, e, g _ h)
Identified-Grows meta ks ks' g (inr (inl (c, e, h))) = inr (inl (c, e, g _ h))
Identified-Grows meta ks ks' g (inr (inr (u, m, n, h))) =
    inr (inr (u, m, n, All-map (In ks) (In ks') (props_of u.cols) (λ k i. g k i) h))

pub some_inj : {A : Type 0} {a b : A} → some a ≡ some b → a ≡ b
some_inj e = cc

pub err_not_ok : {A : Type 0} {a : A} {x : WriteError} → err x ≡ ok a → ⊥
err_not_ok e = cc

pub false_not_true : false ≡ true → ⊥
false_not_true h = cc

pub is_some_of : {A : Type 0} {o : Option A} {a : A} → o ≡ some a → is_some o ≡ true
is_some_of e = rw e refl

Known-cons :
    (c d : ColumnMeta) (cs : List ColumnMeta)
    → Known cs c.property_key
    → Known (d ∷ cs) c.property_key
unfolding col_by_prop
Known-cons c d cs h = by_rest (col_by_prop c.property_key cs) h
  where
    by_rest :
        (o : Option ColumnMeta)
        → is_some o ≡ true
        → is_some (elim o [
          | some e ↦ some e
          | none ↦ if text_eq d.property_key c.property_key then some d else none
        ])
          ≡ true
    by_rest (some e) k = refl
    by_rest none k = cc

Known-self : (c : ColumnMeta) (cs : List ColumnMeta) → Known (c ∷ cs) c.property_key
unfolding col_by_prop
Known-self c cs = by_rest (col_by_prop c.property_key cs)
  where
    by_rest :
        (o : Option ColumnMeta)
        → is_some (elim o [
          | some e ↦ some e
          | none ↦ if text_eq c.property_key c.property_key then some c else none
        ])
          ≡ true
    by_rest (some e) = refl
    by_rest none = rw (text_eq_refl c.property_key) refl

pub All-Known : (cs : List ColumnMeta) → All (λ c. Known cs c.property_key) cs
All-Known [] = tt
All-Known (c ∷ cs) = (
  Known-self c cs,
  All-map (λ d. Known cs d.property_key) _ cs (λ d h. Known-cons d c cs h) (All-Known cs),
)

pub group_of-found :
    (prop : Text) (gs : List UniqueGroup) (g : UniqueGroup)
    → group_of prop gs ≡ some g
    → Memᴰ g gs × In (props_of g.cols) prop
unfolding group_of
group_of-found prop [] g e = cc
group_of-found prop (h ∷ gs) g e =
    by_rest (group_of prop gs) (λ h' k. group_of-found prop gs h' k) e refl
  where
    by_here :
        (b : Bool)
        → includes (props_of h.cols) prop ≡ b
        → (if b then some h else none) ≡ some g
        → Memᴰ g (h ∷ gs) × In (props_of g.cols) prop
    by_here true i k =
        subst (λ u. Memᴰ u (h ∷ gs) × In (props_of u.cols) prop) (some_inj k) (Memᴰ.head refl, i)
    by_here false i k = cc

    by_rest :
        (o : Option UniqueGroup)
        → ((h' : UniqueGroup)
            → group_of prop gs ≡ some h'
            → Memᴰ h' gs × In (props_of h'.cols) prop)
        → elim o [
          | some u ↦ some u
          | none ↦ if includes (props_of h.cols) prop then some h else none
        ]
          ≡ some g
        → group_of prop gs ≡ o
        → Memᴰ g (h ∷ gs) × In (props_of g.cols) prop
    by_rest (some u) ih k o = let (m, i) = ih g (cc) in (Memᴰ.tail m, i)
    by_rest none ih k o = by_here (includes (props_of h.cols) prop) refl k

pub All-Mem :
    (P : UniqueGroup → Type 0) (gs : List UniqueGroup) (g : UniqueGroup)
    → All P gs
    → Memᴰ g gs
    → P g
All-Mem P (h ∷ gs) g (p, q) (Memᴰ.head e) = subst P (sym e) p
All-Mem P (h ∷ gs) g (p, q) (Memᴰ.tail m) = All-Mem P gs g q m
All-Mem P [] g q m = elim m [ ]

pub has_cols : (cs : List ColumnMeta) (k : Text) → In (props_of cs) k → cs ≢ []
unfolding includes
has_cols [] k h = λ e. cc
has_cols (c ∷ cs) k h = λ e. cc

pub Known-props :
    (cs all : List ColumnMeta)
    → All (λ c. Known all c.property_key) cs
    → All (Known all) (props_of cs)
Known-props [] all h = tt
Known-props (c ∷ cs) all (p, h) = (p, Known-props cs all h)
