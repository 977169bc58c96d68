-- ===== src/Dal/Deferred/Scan/Laws.antt =====
-- Where the scan of a statement goes wrong.
use primebrick_v3_dal.Base.{
  ℕ, true, false, [], ◌∷◌, ◌++◌, ◌≡◌, refl, ap, ◌∙◌, Text, All, ◌==◌, text_eq, text_eq_refl,
  append-nil, append_assoc,
}
use primebrick_v3_dal.Dal.Deferred.Scan.{
  outside, in_literal, body, body_step, rename_from, is_word_char,
}

-- Inside a literal, an escaped quote ends the literal for the scan: what follows is read as text
-- outside of it, whatever of the literal is left.
pub body_misreads :
    (depth : ℕ) (a s : Text)
    → All (λ c. (c == b'\'') ≡ false) a
    → (body in_literal depth (a ++ (b'\'' ∷ b'\'' ∷ s))).1 ≡ (body outside depth s).1
unfolding body body_step
body_misreads depth [] s h = refl
body_misreads depth (c ∷ a) s (plain, h) = rw plain (body_misreads depth a s h)

-- A name between quotes that is spelled like a CTE gets the prefix too.
run_to_end :
    (name prefix run w s : Text)
    → All (λ c. is_word_char c ≡ true) w
    → rename_from name prefix run (w ++ s) ≡ rename_from name prefix (run ++ w) s
unfolding rename_from
run_to_end name prefix run [] s h = rw append-nil refl
run_to_end name prefix run (c ∷ w) s (word, h) =
    rw word (run_to_end name prefix (run ++ c ∷ []) w s h ∙ rw append_assoc refl)

pub rename_from_quoted :
    (name prefix : Text)
    → All (λ c. is_word_char c ≡ true) name
    → (text_eq [] name ≡ false)
    → rename_from name prefix [] (b'"' ∷ (name ++ (b'"' ∷ [])))
      ≡ b'"' ∷ (prefix ++ name ++ (b'"' ∷ []))
unfolding rename_from is_word_char
rename_from_quoted name prefix words named = rw named (
    ap (λ t. b'"' ∷ t)
      (run_to_end name prefix [] name (b'"' ∷ []) words ∙ rw (text_eq_refl name, named) refl))
