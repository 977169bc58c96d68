-- ===== src/Base/Decimal.antt =====
-- Decimal numerals, as JavaScript prints and reads natural numbers.
use Prim.Native.Nat.{ℕ, zero, suc, ◌+◌, ◌-◌, ◌*◌, ◌/◌, ◌%◌, ◌<◌}
use mathlib.Core.Path.{◌≡◌, refl, ◌∙◌}
use mathlib.Core.Bool.{Bool, ◌&&◌}
use mathlib.Core.Logic.{inl, inr}
use mathlib.Core.List.{[], ◌∷◌, ◌++◌}
use native.Mathlib.Omega.{arith}
use primebrick_v3_dal.Base.Tests.{ltb, leb, if◌then◌else◌, Bool-cases}
use primebrick_v3_dal.Base.Texts.{Text}

abbrev pub is_digit : ℕ → Bool
is_digit c = leb b'0' c && leb c b'9'

-- The number is below the fuel, so the fuel lasts.
unfoldable pub digits_from : ℕ → ℕ → Text
digits_from zero n = []
digits_from (suc fuel) n =
    let rest = digits_from fuel (n / 10) in
    if ltb n 10 then (48 + n) ∷ [] else rest ++ (48 + n % 10) ∷ []

unfoldable pub decimal : ℕ → Text
unfolding digits_from
decimal n = digits_from (suc n) n

-- `Number` of a run of digits
unfoldable pub number_from : ℕ → Text → ℕ
number_from acc [] = acc
number_from acc (c ∷ s) = number_from (acc * 10 + (c - 48)) s

number_from-append :
    (acc : ℕ) (s : Text) (c : ℕ) → number_from acc (s ++ c ∷ []) ≡ number_from acc s * 10 + (c - 48)
unfolding number_from
number_from-append acc [] c = refl
number_from-append acc (d ∷ s) c = number_from-append (acc * 10 + (d - 48)) s c

number_from-digits_from : (fuel n : ℕ) → n < fuel → number_from 0 (digits_from fuel n) ≡ n
unfolding digits_from
number_from-digits_from zero n h = absurd (omega arith)
number_from-digits_from (suc fuel) n h = elim (Bool-cases (ltb n 10)) [
  | inl e ↦ rw e (unfold number_from in ground arith)
  | inr e ↦ rw e (
      number_from-append 0 (digits_from fuel (n / 10)) (48 + n % 10)
      ∙ ground (arith, number_from-digits_from fuel (n / 10)))
]

-- A number that is printed and read again is the same.
pub number_from-decimal : (n : ℕ) → number_from 0 (decimal n) ≡ n
unfolding decimal
number_from-decimal n = number_from-digits_from (suc n) n (omega arith)
