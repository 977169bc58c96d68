-- ===== src/Audit/Delta.antt =====
-- src/audit/delta-calculator.ts. The fields of a record stand in their order of insertion.
-- `JSON.stringify` is a parameter, which throws or returns a text or `undefined`.
pub mod Laws
use primebrick_v3_dal.Base.{
  ℕ, Bool, true, false, leb, ◌&&◌, not, Option, none, some, List, [], ◌∷◌, ◌++◌, Text, text_eq,
  if◌then◌else◌,
}

-- `scalar` stands for any value but the ones listed, `integer` for what `Number` makes of a bigint.
mutual
  pub data Js : Type 0 where
    undefined null : Js
    scalar : Text → Js
    integer bigint : Bool → ℕ → Js
    array : JsList → Js
    object : JsFields → Js

  pub data JsList : Type 0 where
    end : JsList
    item : Js → JsList → JsList

  pub data JsFields : Type 0 where
    no_field : JsFields
    field : Text → Js → JsFields → JsFields

-- Number.MAX_SAFE_INTEGER
abbrev pub max_safe_integer : ℕ
max_safe_integer = 9007199254740991

unfoldable mutual
  pub bigint_to_number : Js → Js
  bigint_to_number (bigint negative n) =
      if leb n max_safe_integer then integer negative n else bigint negative n
  bigint_to_number (array vs) = array (list_to_numbers vs)
  bigint_to_number (object fs) = object (fields_to_numbers fs)
  bigint_to_number v = v

  pub list_to_numbers : JsList → JsList
  list_to_numbers end = end
  list_to_numbers (item v vs) = item (bigint_to_number v) (list_to_numbers vs)

  pub fields_to_numbers : JsFields → JsFields
  fields_to_numbers no_field = no_field
  fields_to_numbers (field k v fs) = field k (bigint_to_number v) (fields_to_numbers fs)

abbrev pub Record : Type 0
Record = List (Text × Js)

abbrev pub Delta : Type 0
Delta = List (Text × (Js × Js))

unfoldable pub at_key : Text → Record → Js
at_key k [] = undefined
at_key k ((j, v) ∷ r) = if text_eq j k then v else at_key k r

-- `key in`
unfoldable pub has_key {ℓ} : {V : Type ℓ} → Text → List (Text × V) → Bool
has_key k [] = false
has_key k ((j, v) ∷ r) = if text_eq j k then true else has_key k r

abbrev pub same_text : Option Text → Option Text → Bool
same_text none none = true
same_text (some s) (some t) = text_eq s t
same_text _ _ = false

module _ (stringify : Js → Option (Option Text)) where
  -- Whether two values print alike; `none` where printing throws.
  abbrev pub alike : Option (Option Text) → Option (Option Text) → Option Bool
  alike (some s) (some t) = some (same_text s t)
  alike _ _ = none

  abbrev pub with_change : Option Bool → Text → Js × Js → Option Delta → Option Delta
  with_change (some true) k change rest = rest
  with_change (some false) k change (some d) = some ((k, change) ∷ d)
  with_change (some false) k change none = none
  with_change none k change rest = none

  unfoldable pub calculate_delta : Record → Record → Option Delta
  unfolding at_key bigint_to_number
  calculate_delta old [] = some []
  calculate_delta old ((k, v) ∷ new) =
      with_change
        (alike (stringify (bigint_to_number (at_key k old))) (stringify (bigint_to_number v))) k
        (bigint_to_number (at_key k old), bigint_to_number v) (calculate_delta old new)

-- `oldEntity[key] ?? null`
abbrev pub or_null : Js → Js
or_null undefined = null
or_null v = v

unfoldable pub force_fields : Record → Record → List Text → Delta → Delta
unfolding has_key at_key bigint_to_number
force_fields old new [] d = d
force_fields old new (k ∷ ks) d = force_fields old new ks (
    if not (has_key k d) && has_key k new
    then d ++ (k, (bigint_to_number (or_null (at_key k old)), bigint_to_number (at_key k new))) ∷ []
    else d)

unfoldable pub calculate_delta_with_forced_fields :
    (Js → Option (Option Text)) → Record → Record → List Text → Option Delta
unfolding calculate_delta force_fields
calculate_delta_with_forced_fields stringify old new forced =
    elim (calculate_delta stringify old new) [
      | none ↦ none
      | some d ↦ some (force_fields old new forced d)
    ]
