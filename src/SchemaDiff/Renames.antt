-- ===== src/SchemaDiff/Renames.antt =====
-- src/schema-diff/schema-rename-heuristics.ts: the rule ladder, and the greedy matching over the
-- candidates in the order in which the tiers are processed.
pub mod Matching
use primebrick_v3_dal.Base.{
  ℕ, ◌+◌, ◌-◌, Bool, true, false, not, ◌&&◌, ◌||◌, ◌==◌, Option, none, some, List, [], ◌∷◌, ◌++◌,
  Text, codes, includes, is_empty, if◌then◌else◌,
}
use primebrick_v3_dal.SchemaDiff.Types.{
  SchemaColumnMeta, comparable_pg_type, types_compatible_for_rename,
}

-- ordinalDelta; on ℕ one of the two differences is 0.
unfoldable pub ordinal_delta : Option ℕ → Option ℕ → Option ℕ
ordinal_delta none d = none
ordinal_delta (some e) none = none
ordinal_delta (some e) (some d) = some ((e - d) + (d - e))

unfoldable pub weak_untyped_entity : SchemaColumnMeta → Bool
weak_untyped_entity e = is_empty e.typname && is_empty e.data_type

abbrev pub bool_eq : Bool → Bool → Bool
bool_eq true b = b
bool_eq false b = not b

unfoldable pub same_nullability : Option Bool → Option Bool → Bool
same_nullability (some a) (some b) = bool_eq a b
same_nullability _ _ = false

abbrev pub is_delta : ℕ → Option ℕ → Bool
is_delta n none = false
is_delta n (some d) = d == n

abbrev pub is_none : Option ℕ → Bool
is_none none = true
is_none (some d) = false

-- The ladder on its tests: compatible types, the weak rule's test, and the distance.
unfoldable pub tier_of : Bool → Bool → Option ℕ → Option ℕ
tier_of typ weak delta =
    if typ && is_delta 0 delta
    then some 0
    else if typ && is_delta 1 delta
    then some 1
    else if typ && is_delta 2 delta
    then some 2
    else if (not typ && weak) && is_delta 0 delta
    then some 3
    else if (not typ && weak) && is_delta 1 delta
    then some 4
    else if typ && is_none delta
    then some 5
    else none

-- classifyRenamePair, without the reasons
unfoldable pub classify_rename_pair : SchemaColumnMeta → SchemaColumnMeta → Option ℕ
unfolding tier_of ordinal_delta weak_untyped_entity same_nullability
classify_rename_pair e d =
    tier_of (types_compatible_for_rename e d)
      (weak_untyped_entity e && same_nullability e.is_nullable d.is_nullable)
      (ordinal_delta e.ordinal_position d.ordinal_position)

pub record Candidate : Type 0 where
  pub e : Text
  pub d : Text
  pub match_tier : ℕ

-- The greedy loop, with the columns used so far.
unfoldable pub match_greedily : List Text → List Text → List Candidate → List Candidate
match_greedily used_e used_d [] = []
match_greedily used_e used_d (p ∷ ps) =
    let taken = match_greedily (p.e ∷ used_e) (p.d ∷ used_d) ps in
    let passed = match_greedily used_e used_d ps in
    if includes used_e p.e || includes used_d p.d then passed else p ∷ taken
