-- ===== src/Dal/Deferred/Scan.antt =====
-- `splitTopLevelCtes` and `renameCtes`: a statement is taken apart into its CTEs and its tail, and
-- the names of the CTEs get a prefix. Positions are rests of the text.
pub mod Laws
use primebrick_v3_dal.Base.{
  ℕ, zero, suc, ◌+◌, ◌-◌, take, Bool, true, false, not, ◌&&◌, ◌||◌, ◌==◌, leb, Option, none, some,
  List, [], ◌∷◌, ◌++◌, Text, codes, text_eq, to_lower, length, is_empty, strip_prefix, is_space,
  if◌then◌else◌,
}

unfoldable pub is_word_char : ℕ → Bool
is_word_char c =
    leb b'A' c && leb c b'Z' || leb b'a' c && leb c b'z' || leb b'0' c && leb c b'9' || c == b'_'

unfoldable pub starts_word : ℕ → Bool
unfolding is_word_char
starts_word c = is_word_char c && not (leb b'0' c && leb c b'9')

-- The longest start of a text all of whose characters pass, and the rest.
abbrev pub cons_first : ℕ → Text × Text → Text × Text
cons_first c (w, r) = (c ∷ w, r)

unfoldable pub span : (ℕ → Bool) → Text → Text × Text
span p [] = ([], [])
span p (c ∷ s) = let rest = span p s in if p c then cons_first c rest else ([], c ∷ s)

-- What follows a word of lower-case letters, in either case.
unfoldable pub word_case : Text → Text → Option Text
word_case [] s = some s
word_case (a ∷ w) [] = none
word_case (a ∷ w) (c ∷ s) =
    let rest = word_case w s in if text_eq (to_lower (c ∷ [])) (a ∷ []) then rest else none

-- A word and the white space that has to follow it.
abbrev pub past_space : Text × Text → Option Text
past_space ([], r) = none
past_space (c ∷ w, r) = some r

abbrev pub word_space : Text → Text → Option Text
word_space w s = elim (word_case w s) [ none ↦ none | some r ↦ past_space (span is_space r) ]

abbrev pub or_at : Option Text → Text → Text
or_at none s = s
or_at (some r) s = r

abbrev pub then_space : Text → Option Text → Option Text
then_space w none = none
then_space w (some r) = word_space w r

-- (?:NOT\s+MATERIALIZED\s+|MATERIALIZED\s+)?
unfoldable pub past_materialized : Text → Text
past_materialized s = elim (then_space (codes "materialized") (word_space (codes "not") s)) [
  | none ↦ or_at (word_space (codes "materialized") s) s
  | some r ↦ r
]

-- \(, where the match ends one character before
abbrev pub at_paren : Text → Option Text
at_paren [] = none
at_paren (c ∷ s) = if c == b'(' then some (c ∷ s) else none

abbrev pub after_as : Option Text → Option Text
after_as none = none
after_as (some r) = at_paren (past_materialized (span is_space r).1)

abbrev pub after_name : Text × Text → Option Text
after_name ([], r) = none
after_name (c ∷ w, r) =
    if starts_word c
    then elim (past_space (span is_space r)) [
      | none ↦ none
      | some r' ↦ after_as (word_case (codes "as") r')
    ]
    else none

-- CTE_HEAD_RE: the name, and the text from the opening parenthesis on.
unfoldable pub read_head : Text → Option (Text × Text)
unfolding past_materialized
read_head s =
    let (name, r) = span is_word_char (span is_space s).1 in
    elim (after_name (name, r)) [ none ↦ none | some p ↦ some (name, p) ]

-- Where the scan of a body stands: outside everything, in a literal, right behind the quote that
-- may end it, in a quoted name, in a line comment, in a block comment (before its `*`, inside, and
-- before its last `/`).
pub data Mode : Type 0 where
  outside in_literal behind_quote in_name in_line block_open in_block block_close : Mode

abbrev pub next_is : ℕ → Text → Bool
next_is c [] = false
next_is c (d ∷ s) = d == c

-- The next mode, the depth, and whether the body ends with this character.
unfoldable pub outside_step : ℕ → ℕ → Text → Mode × ℕ × Bool
outside_step depth c s =
    if c == b'\''
    then (in_literal, depth, false)
    else if c == b'"'
    then (in_name, depth, false)
    else if c == b'-' && next_is b'-' s
    then (in_line, depth, false)
    else if c == b'/' && next_is b'*' s
    then (block_open, depth, false)
    else if c == b'('
    then (outside, depth + 1, false)
    else if c == b')'
    then (outside, depth - 1, depth - 1 == 0)
    else (outside, depth, false)

unfoldable pub body_step : Mode → ℕ → ℕ → Text → Mode × ℕ × Bool
unfolding outside_step
body_step outside depth c s = outside_step depth c s
body_step behind_quote depth c s =
    if c == b'\'' then (outside, depth, false) else outside_step depth c s
body_step in_literal depth c s = (if c == b'\'' then behind_quote else in_literal, depth, false)
body_step in_name depth c s = (if c == b'"' then outside else in_name, depth, false)
body_step in_line depth c s = (if c == 10 then outside else in_line, depth, false)
body_step block_open depth c s = (in_block, depth, false)
body_step in_block depth c s =
    (if c == b'*' && next_is b'/' s then block_close else in_block, depth, false)
body_step block_close depth c s = (outside, depth, false)

-- The body of a CTE from its opening parenthesis: what belongs to it, and the rest.
unfoldable pub body : Mode → ℕ → Text → Text × Text
unfolding body_step
body mode depth [] = ([], [])
body mode depth (c ∷ s) =
    let (mode', depth', ends) = body_step mode depth c s in
    let rest = body mode' depth' s in if ends then (c ∷ [], s) else cons_first c rest

-- skipWs, whose modes are those of a body without literals and names.
unfoldable pub skip_mode : Mode → ℕ → Text → Mode
skip_mode in_line c s = if c == 10 then outside else in_line
skip_mode block_open c s = in_block
skip_mode in_block c s = if c == b'*' && next_is b'/' s then block_close else in_block
skip_mode block_close c s = outside
skip_mode mode c s =
    if c == b'-' && next_is b'-' s
    then in_line
    else if c == b'/' && next_is b'*' s
    then block_open
    else outside

abbrev pub is_outside : Mode → Bool
is_outside outside = true
is_outside _ = false

unfoldable pub stops_skip : Mode → ℕ → Text → Bool
stops_skip mode c s =
    is_outside mode
    && not (c == 32 || c == 9 || c == 10 || c == 13)
    && not (c == b'-' && next_is b'-' s)
    && not (c == b'/' && next_is b'*' s)

unfoldable pub skip_ws : Mode → Text → Text
unfolding skip_mode stops_skip
skip_ws mode [] = []
skip_ws mode (c ∷ s) =
    let rest = skip_ws (skip_mode mode c s) s in if stops_skip mode c s then c ∷ s else rest

pub record Cte : Type 0 where
  pub name : Text
  pub sql : Text

-- The text from one rest to a later one.
abbrev pub slice : Text → Text → Text
slice s r = take (length s - length r) s

abbrev pub add_cte : Cte → List Cte × Text → List Cte × Text
add_cte c (cs, tail) = (c ∷ cs, tail)

abbrev pub past_comma : Text → Option Text
past_comma [] = none
past_comma (c ∷ s) = if c == b',' then some s else none

-- The loop: the text from `pos` on, and what each round finds.
unfoldable pub split_from : ℕ → Text → List Cte × Text
unfolding skip_ws read_head body
split_from zero s = ([], s)
split_from (suc fuel) s =
    let start = skip_ws outside s in
    elim (read_head start) [
      | none ↦ ([], start)
      | some (name, p) ↦
          let (inside, r) = body outside 0 p in
          let c : Cte = record { name = name; sql = slice start p ++ inside } in
          let tail = skip_ws outside r in
          elim (past_comma tail) [
            | none ↦ (c ∷ [], tail)
            | some r' ↦ add_cte c (split_from fuel r')
          ]
    ]

-- /^\s*WITH\s/i
unfoldable pub after_with : Text → Option Text
after_with s = elim (word_case (codes "with") (span is_space s).1) [
  | none ↦ none
  | some [] ↦ none
  | some (c ∷ r) ↦ if is_space c then some r else none
]

-- splitTopLevelCtes
unfoldable pub split_top_level_ctes : Text → List Cte × Text
unfolding split_from after_with
split_top_level_ctes text = elim (after_with text) [
  | none ↦ ([], text)
  | some r ↦ split_from (suc (length r)) r
]

-- \bname\b: the runs of word characters that are the name.
abbrev pub flush_run : Text → Text → Text → Text
flush_run name prefix run = if text_eq run name then prefix ++ name else run

unfoldable pub rename_from : Text → Text → Text → Text → Text
rename_from name prefix run [] = flush_run name prefix run
rename_from name prefix run (c ∷ s) =
    let longer = rename_from name prefix (run ++ c ∷ []) s in
    let ended = flush_run name prefix run ++ (c ∷ rename_from name prefix [] s) in
    if is_word_char c then longer else ended

-- renameCtes
unfoldable pub rename_ctes : Text → List Text → Text → Text
unfolding rename_from
rename_ctes fragment [] prefix = fragment
rename_ctes fragment (n ∷ ns) prefix = rename_ctes (rename_from n prefix [] fragment) ns prefix
