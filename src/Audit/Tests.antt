-- ===== src/Audit/Tests.antt =====
-- The theorems on deltas at concrete records.
use primebrick_v3_dal.Base.{
  ◌<◌, false, none, some, Option, [], ◌∷◌, ◌++◌, ◌≡◌, refl, ◌&&◌, lookup, includes, Text, codes,
  arith,
}
use primebrick_v3_dal.Audit.Delta.{
  Js, bigint, scalar, Record, has_key, calculate_delta, force_fields, max_safe_integer,
}
use primebrick_v3_dal.Audit.Delta.Laws.{
  or_forced, forced_change, lookup-force_fields, calculate_delta-unsafe,
}

abbrev version_key : Text
version_key = codes "version"

abbrev label_key : Text
label_key = codes "label"

abbrev stored : Record
stored = (label_key, scalar (codes "one")) ∷ (version_key, bigint false 3) ∷ []

abbrev changed : Record
changed = (label_key, scalar (codes "two")) ∷ (version_key, bigint false 3) ∷ []

abbrev print_scalars : Js → Option (Option Text)
print_scalars (scalar t) = some (some t)
print_scalars (bigint b n) = none
print_scalars v = some none

lookup-force_fields_example :
    lookup version_key (force_fields stored changed (version_key ∷ []) [])
    ≡ or_forced
        (lookup version_key [])
        (includes (version_key ∷ []) version_key && has_key version_key changed)
        (forced_change stored changed version_key)
lookup-force_fields_example = lookup-force_fields stored changed (version_key ∷ []) [] version_key

is_large : max_safe_integer < 9007199254740992
is_large = omega arith

calculate_delta-unsafe_example :
    calculate_delta print_scalars stored
      ((label_key, scalar (codes "two")) ∷ [] ++ (version_key, bigint false 9007199254740992) ∷ [])
    ≡ none
calculate_delta-unsafe_example =
    calculate_delta-unsafe print_scalars stored ((label_key, scalar (codes "two")) ∷ []) []
      version_key false 9007199254740992 (λ c m. refl) is_large
