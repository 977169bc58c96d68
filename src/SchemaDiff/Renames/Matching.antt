-- ===== src/SchemaDiff/Renames/Matching.antt =====
-- The greedy matching pairs columns one to one.
use primebrick_v3_dal.Base.{
  Bool, true, false, ◌||◌, List, [], ◌∷◌, ◌≡◌, refl, Text, text_eq, includes, All, All-map, arith,
  if◌then◌else◌,
}
use primebrick_v3_dal.SchemaDiff.Renames.{Candidate, match_greedily}

-- No two pairs share a column.
abbrev pub IsMatching : List Candidate → Type 0
IsMatching [] = Unit
IsMatching (p ∷ ps) =
    All (λ q. (text_eq p.e q.e ≡ false) × (text_eq p.d q.d ≡ false)) ps × IsMatching ps

-- Neither column of the pair is used.
abbrev pub IsFresh : List Text → List Text → Candidate → Type 0
IsFresh used_e used_d q = (includes used_e q.e ≡ false) × (includes used_d q.d ≡ false)

or_false : (a b : Bool) → (a || b) ≡ false → (a ≡ false) × (b ≡ false)
or_false a b h = ground arith

-- What is fresh beside one more pair is fresh, and shares no column with that pair.
IsFresh-beside :
    (used_e used_d : List Text) (p q : Candidate)
    → IsFresh (p.e ∷ used_e) (p.d ∷ used_d) q
    → ((text_eq p.e q.e ≡ false) × (text_eq p.d q.d ≡ false)) × IsFresh used_e used_d q
unfolding includes
IsFresh-beside used_e used_d p q (h, k) =
    let (a, b) = or_false (text_eq p.e q.e) (includes used_e q.e) h in
    let (c, d) = or_false (text_eq p.d q.d) (includes used_d q.d) k in ((a, c), (b, d))

match_greedily-IsFresh :
    (used_e used_d : List Text) (ps : List Candidate)
    → All (IsFresh used_e used_d) (match_greedily used_e used_d ps)
unfolding match_greedily
match_greedily-IsFresh used_e used_d [] = tt
match_greedily-IsFresh used_e used_d (p ∷ ps) =
    by_test (includes used_e p.e || includes used_d p.d) refl
      (match_greedily-IsFresh (p.e ∷ used_e) (p.d ∷ used_d) ps)
      (match_greedily-IsFresh used_e used_d ps)
  where
    by_test :
        (b : Bool)
        → (includes used_e p.e || includes used_d p.d) ≡ b
        → All
            (IsFresh (p.e ∷ used_e) (p.d ∷ used_d))
            (match_greedily (p.e ∷ used_e) (p.d ∷ used_d) ps)
        → All (IsFresh used_e used_d) (match_greedily used_e used_d ps)
        → All (IsFresh used_e used_d) (
            if b
            then match_greedily used_e used_d ps
            else p ∷ match_greedily (p.e ∷ used_e) (p.d ∷ used_d) ps)
    by_test true e taken passed = passed
    by_test false e taken passed =
        (or_false _ _ e, All-map _ _ _ (λ q h. (IsFresh-beside used_e used_d p q h).1) taken)

-- Whatever the candidates and the columns used before, no two pairs that are matched share an
-- entity column or a database column.
pub match_greedily-IsMatching :
    (used_e used_d : List Text) (ps : List Candidate) → IsMatching (match_greedily used_e used_d ps)
unfolding match_greedily
match_greedily-IsMatching used_e used_d [] = tt
match_greedily-IsMatching used_e used_d (p ∷ ps) =
    by_test (includes used_e p.e || includes used_d p.d)
      (match_greedily-IsMatching (p.e ∷ used_e) (p.d ∷ used_d) ps)
      (match_greedily-IsMatching used_e used_d ps)
  where
    by_test :
        (b : Bool)
        → IsMatching (match_greedily (p.e ∷ used_e) (p.d ∷ used_d) ps)
        → IsMatching (match_greedily used_e used_d ps)
        → IsMatching (
            if b
            then match_greedily used_e used_d ps
            else p ∷ match_greedily (p.e ∷ used_e) (p.d ∷ used_d) ps)
    by_test true taken passed = passed
    by_test false taken passed = (
      All-map _ _ _ (λ q h. (IsFresh-beside used_e used_d p q h).0)
          (match_greedily-IsFresh (p.e ∷ used_e) (p.d ∷ used_d) ps),
      taken,
    )
