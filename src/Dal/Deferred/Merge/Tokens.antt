-- ===== src/Dal/Deferred/Merge/Tokens.antt =====
-- The placeholders that a builder prints are those that the scan for `$n` finds.
use primebrick_v3_dal.Base.{
  ℕ, zero, suc, ◌+◌, ◌%◌, ◌/◌, true, false, ◌==◌, ltb, none, some, List, [], ◌∷◌, ◌++◌, ◌≡◌, refl,
  ap, ◌∙◌, append_assoc, append-nil, map, Text, decimal, digits_from, number_from,
  number_from-decimal, is_digit, All, All-append, Bool-cases, inl, inr, arith,
}
use primebrick_v3_dal.Query.Writer.{code, param, Sql}
use primebrick_v3_dal.Dal.Deferred.Merge.{
  Token, char, placeholder, starts_digit, tokens_from, tokens,
}

-- A placeholder is printed as `$n`, as ParamWriter.add returns it.
unfoldable pub print : Sql → Text
print [] = []
print (code s ∷ sql) = s ++ print sql
print (param n ∷ sql) = b'$' ∷ (decimal n ++ print sql)

abbrev pub tokens_of : Sql → List Token
tokens_of [] = []
tokens_of (code s ∷ sql) = map char s ++ tokens_of sql
tokens_of (param n ∷ sql) = placeholder n ∷ tokens_of sql

-- The code has no `$`, and none that follows a placeholder starts with a digit.
abbrev pub Readable : Sql → Type 0
Readable [] = Unit
Readable (code s ∷ sql) = All (λ c. (c == b'$') ≡ false) s × Readable sql
Readable (param n ∷ sql) = (starts_digit (print sql) ≡ false) × Readable sql

abbrev Digits : Text → Type 0
Digits s = All (λ c. is_digit c ≡ true) s

digit_of : (n : ℕ) → ltb n 10 ≡ true → is_digit (48 + n) ≡ true
digit_of n h = ground arith

digits_from-Digits : (fuel n : ℕ) → Digits (digits_from fuel n)
unfolding digits_from
digits_from-Digits zero n = tt
digits_from-Digits (suc fuel) n = elim (Bool-cases (ltb n 10)) [
  | inl e ↦ rw e (digit_of n e, tt)
  | inr e ↦ rw e (
      All-append _ (digits_from fuel (n / 10)) _ (digits_from-Digits fuel (n / 10))
        (digit_of (n % 10) (ground arith), tt))
]

starts_append :
    (s t u : Text) (c : ℕ)
    → Digits s
    → is_digit c ≡ true
    → starts_digit ((s ++ (c ∷ t)) ++ u) ≡ true
starts_append [] t u c h d = d
starts_append (x ∷ s) t u c (p, h) d = p

starts_digit-decimal : (n : ℕ) (t : Text) → starts_digit (decimal n ++ t) ≡ true
unfolding decimal digits_from
starts_digit-decimal n t = elim (Bool-cases (ltb n 10)) [
  | inl e ↦ rw e (digit_of n e)
  | inr e ↦ rw e (
      starts_append (digits_from n (n / 10)) [] t _ (digits_from-Digits n (n / 10))
        (digit_of (n % 10) (ground arith)))
]

scan_code :
    (s t : Text)
    → All (λ c. (c == b'$') ≡ false) s
    → tokens_from none (s ++ t) ≡ map char s ++ tokens_from none t
unfolding tokens_from
scan_code [] t h = refl
scan_code (c ∷ s) t (p, h) = rw p (ap (λ ts. char c ∷ ts) (scan_code s t h))

scan_run :
    (ds s t : Text) → Digits s → tokens_from (some ds) (s ++ t) ≡ tokens_from (some (ds ++ s)) t
unfolding tokens_from
scan_run ds [] t h = rw append-nil refl
scan_run ds (c ∷ s) t (p, h) = rw p (scan_run (ds ++ c ∷ []) s t h ∙ rw append_assoc refl)

scan_end :
    (ds t : Text)
    → starts_digit t ≡ false
    → tokens_from (some ds) t ≡ placeholder (number_from 0 ds) ∷ tokens_from none t
unfolding tokens_from
scan_end ds [] h = refl
scan_end ds (c ∷ t) h = rw h refl

scan_number :
    (s t : Text)
    → Digits s
    → starts_digit (s ++ t) ≡ true
    → starts_digit t ≡ false
    → tokens_from none (b'$' ∷ (s ++ t)) ≡ placeholder (number_from 0 s) ∷ tokens_from none t
unfolding tokens_from
scan_number s t d start h = rw start (scan_run [] s t d ∙ scan_end s t h)

decimal-Digits : (n : ℕ) → Digits (decimal n)
unfolding decimal
decimal-Digits n = digits_from-Digits (suc n) n

scan_param :
    (n : ℕ) (t : Text)
    → starts_digit t ≡ false
    → tokens_from none (b'$' ∷ (decimal n ++ t)) ≡ placeholder n ∷ tokens_from none t
scan_param n t h =
    scan_number (decimal n) t (decimal-Digits n) (starts_digit-decimal n t) h
    ∙ ap (λ k. placeholder k ∷ tokens_from none t) (number_from-decimal n)

-- Where the code of a text has no `$` and no placeholder is followed by a digit, the scan of the
-- printed text finds the placeholders of the text, and its code, in order.
pub tokens-print : (sql : Sql) → Readable sql → tokens (print sql) ≡ tokens_of sql
unfolding tokens print
tokens-print [] h = unfold tokens_from in refl
tokens-print (code s ∷ sql) (p, h) =
    scan_code s (print sql) p ∙ ap (λ ts. map char s ++ ts) (tokens-print sql h)
tokens-print (param n ∷ sql) (p, h) =
    scan_param n (print sql) p ∙ ap (λ ts. placeholder n ∷ ts) (tokens-print sql h)
