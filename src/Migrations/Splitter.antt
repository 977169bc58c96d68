-- ===== src/Migrations/Splitter.antt =====
-- src/migrations/sql-splitter.ts and the pragma parser of src/migrations/engine.ts. A text is the
-- list of its UTF-16 code units; a regular expression is written out as a function on texts.
use primebrick_v3_dal.Base.{
  ℕ, zero, suc, ◌+◌, map, drop, Bool, true, false, not, ◌&&◌, ◌||◌, Option, none, some, List, [],
  ◌∷◌, ◌++◌, Text, codes, leb, ◌==◌, if◌then◌else◌, any, all, keep, take, length, is_empty,
  is_space, trim, trim_start, strip_prefix, starts_with, split_on, join, index_of, to_lower,
  text_eq,
}

pub data Kind : Type 0 where
  tx notx : Kind

pub record PatchSegment : Type 0 where
  pub kind : Kind
  pub sql : Text

-- `--`, white space, then the text behind it: the part of a pragma before its name.
unfoldable pub after_dashes : Text → Option Text
after_dashes s = elim (strip_prefix (codes "--") s) [ none ↦ none | some r ↦ some (trim_start r) ]

-- /^\s*--\s*MARK\s*$/ on one line
unfoldable pub is_marker : Text → Text → Bool
unfolding after_dashes
is_marker mark line = elim (after_dashes (trim_start line)) [
  | none ↦ false
  | some r ↦ elim (strip_prefix mark r) [ none ↦ false | some rest ↦ all is_space rest ]
]

abbrev pub begin_mark : Text
begin_mark = codes "pb:begin-no-transaction"

abbrev pub end_mark : Text
end_mark = codes "pb:end-no-transaction"

is_line_end : ℕ → Bool
is_line_end c = c == 10 || c == 13 || c == 0x2028 || c == 0x2029

-- \s*$ with the flag `m`
ends_line : Text → Bool
ends_line [] = true
ends_line (c ∷ s) = is_line_end c || (is_space c && ends_line s)

-- The text at each position where `^` matches under the flag `m`, but for the first.
line_starts : Text → List Text
line_starts [] = []
line_starts (c ∷ s) = let rest = line_starts s in if is_line_end c then s ∷ rest else rest

pragma_at : Text → Bool
pragma_at s = elim (after_dashes (trim_start s)) [
  | none ↦ false
  | some r ↦ elim (strip_prefix (codes "pb:no-transaction") r) [
    | none ↦ false
    | some rest ↦ ends_line rest
  ]
]

-- /^\s*--\s*pb:no-transaction\s*$/m
unfoldable pub has_pragma : Text → Bool
unfolding is_line_end ends_line line_starts pragma_at after_dashes
has_pragma raw = any pragma_at (raw ∷ line_starts raw)

marker_at : Text → Bool
marker_at s = elim (after_dashes s) [ none ↦ false | some r ↦ starts_with r begin_mark ]

-- /--\s*pb:begin-no-transaction/
unfoldable pub has_markers : Text → Bool
unfolding marker_at after_dashes
has_markers [] = false
has_markers (c ∷ s) = marker_at (c ∷ s) || has_markers s

-- `flush` of parsePatchSegments: what it appends to `segments`.
unfoldable pub flush_segment : Kind → List Text → List PatchSegment
flush_segment kind cur =
    let sql = trim (join (codes "\n") cur) in
    if is_empty sql then [] else record { kind = kind; sql = sql } ∷ []

-- The loop over the lines; `cur` holds the lines since the last flush.
unfoldable pub segment_lines : Kind → List Text → List Text → List PatchSegment
unfolding flush_segment is_marker
segment_lines kind cur [] = flush_segment kind cur
segment_lines kind cur (line ∷ lines) = elim (is_marker begin_mark line) [
  | true ↦ flush_segment kind cur ++ segment_lines notx [] lines
  | false ↦ elim (is_marker end_mark line) [
    | true ↦ flush_segment kind cur ++ segment_lines tx [] lines
    | false ↦ segment_lines kind (cur ++ line ∷ []) lines
  ]
]

unfoldable pub parse_patch_segments : Text → List PatchSegment
unfolding has_pragma has_markers segment_lines
parse_patch_segments raw =
    if has_pragma raw && not (has_markers raw)
    then record { kind = notx; sql = raw } ∷ []
    else if not (has_markers raw)
    then record { kind = tx; sql = raw } ∷ []
    else segment_lines tx [] (split_on 10 raw)

-- s.replace(/--[^\n]*/g, ""); the flag says that a comment is open.
strip_line_from : Bool → Text → Text
strip_line_from true [] = []
strip_line_from true (c ∷ s) = elim (c == 10) [
  | true ↦ c ∷ strip_line_from false s
  | false ↦ strip_line_from true s
]
strip_line_from false [] = []
strip_line_from false (c ∷ []) = c ∷ []
strip_line_from false (c ∷ d ∷ s) = elim (c == b'-' && d == b'-') [
  | true ↦ strip_line_from true s
  | false ↦ c ∷ strip_line_from false (d ∷ s)
]

unfoldable pub strip_line_comments : Text → Text
unfolding strip_line_from
strip_line_comments s = strip_line_from false s

-- s.replace(/\/\*[\s\S]*?\*\//g, ""); the number counts what is still to be dropped.
strip_block_from : ℕ → Text → Text
strip_block_from n [] = []
strip_block_from (suc n) (c ∷ s) = strip_block_from n s
strip_block_from zero (c ∷ []) = c ∷ []
strip_block_from zero (c ∷ d ∷ s) = elim (c == b'/' && d == b'*') [
  | true ↦ elim (index_of (codes "*/") s) [
    | none ↦ c ∷ strip_block_from zero (d ∷ s)
    | some k ↦ strip_block_from (k + 3) (d ∷ s)
  ]
  | false ↦ c ∷ strip_block_from zero (d ∷ s)
]

unfoldable pub strip_block_comments : Text → Text
unfolding strip_block_from
strip_block_comments s = strip_block_from zero s

-- \s*;?\s*$
ends_statement : Text → Bool
ends_statement s = elim (trim_start s) [ [] ↦ true | c ∷ r ↦ c == b';' && all is_space r ]

-- \s+ and what follows it
after_space : Text → Option Text
after_space [] = none
after_space (c ∷ s) = if is_space c then some (trim_start s) else none

-- a word, then white space, then one of the continuations
word_then : Text → (Text → Bool) → Text → Bool
word_then w next s = elim (strip_prefix w s) [ none ↦ false | some r ↦ next r ]

spaced : (Text → Bool) → Text → Bool
spaced next s = elim (after_space s) [ none ↦ false | some r ↦ next r ]

chain_tail : Text → Bool
unfolding word_then spaced
chain_tail s =
    word_then (codes "chain") ends_statement s
    || word_then (codes "no") (spaced (word_then (codes "chain") ends_statement)) s

-- (\s+(WORK|TRANSACTION|AND\s+(NO\s+)?CHAIN))?\s*;?\s*$
control_tail : Text → Bool
unfolding ends_statement after_space word_then spaced chain_tail
control_tail s =
    spaced (word_then (codes "work") ends_statement) s
    || spaced (word_then (codes "transaction") ends_statement) s
    || spaced (word_then (codes "and") (spaced chain_tail)) s
    || ends_statement s

-- TX_CONTROL_RE, on a text in lower case
unfoldable pub matches_tx_control : Text → Bool
unfolding control_tail
matches_tx_control t =
    let s = trim_start t in
    word_then (codes "begin") control_tail s
    || word_then (codes "start") (spaced (word_then (codes "transaction") control_tail)) s
    || word_then (codes "commit") control_tail s
    || word_then (codes "end") control_tail s
    || word_then (codes "rollback") control_tail s
    || word_then (codes "abort") control_tail s

unfoldable pub is_tx_control_statement : Text → Bool
unfolding strip_line_comments strip_block_comments matches_tx_control
is_tx_control_statement stmt =
    matches_tx_control (to_lower (trim (strip_block_comments (strip_line_comments stmt))))

-- What `flush` of splitSqlStatements appends. A text that matches /^(--[^\n]*\n?|\s)*$/ is one of
-- which the line comments leave white space only.
unfoldable pub flush_statement : Text → List Text
unfolding strip_line_comments strip_block_comments
flush_statement cur =
    let s = trim cur in
    let code = strip_line_comments s in
    if is_empty s
      || all is_space code
      || all (λ c. c == b'-' || is_space c) code
      || is_empty (trim (strip_block_comments code))
    then []
    else s ∷ []

-- The characters of a quoted text behind the opening quote, the closing one included; a doubled
-- quote does not close it.
unfoldable pub quoted : ℕ → Text → ℕ
quoted q [] = 0
quoted q (c ∷ []) = 1
quoted q (c ∷ d ∷ s) = elim (c == q) [
  | true ↦ elim (d == q) [ true ↦ quoted q s + 2 | false ↦ 1 ]
  | false ↦ quoted q (d ∷ s) + 1
]

is_letter : ℕ → Bool
is_letter c = leb b'a' c && leb c b'z' || leb b'A' c && leb c b'Z' || c == b'_'

-- [a-zA-Z0-9_]*\$, with the length of what it matches
tag_rest : Text → Option ℕ
tag_rest [] = none
tag_rest (c ∷ s) =
    let rest = tag_rest s in
    if c == b'$'
    then some 1
    else if is_letter c || leb b'0' c && leb c b'9'
    then elim rest [ none ↦ none | some n ↦ some (n + 1) ]
    else none

-- /^\$([a-zA-Z_][a-zA-Z0-9_]*)?\$/ behind its first `$`: the length of the match there
unfoldable pub dollar_tag : Text → Option ℕ
unfolding tag_rest is_letter
dollar_tag [] = none
dollar_tag (c ∷ s) = if c == b'$' || is_letter c then tag_rest (c ∷ s) else none

abbrev or_all : Text → Option ℕ → ℕ → ℕ
or_all s none extra = length s
or_all s (some k) extra = k + extra

-- The length of `$tag$ … $tag$`, behind its first `$`, where `n` is the length of `tag$`.
dollar_body : Text → ℕ → ℕ
dollar_body s n =
    let tag = b'$' ∷ take n s in let body = drop n s in n + or_all body (index_of tag body) (n + 1)

-- What one round of the loop does at a character: how many characters after it the round takes
-- too, and whether they are copied to `cur`.
pub data Round : Type 0 where
  skip copy : ℕ → Round
  cut : Round

unfoldable pub round : ℕ → Text → Round
unfolding quoted dollar_tag dollar_body
round c s =
    if c == b'-' && starts_with s (codes "-")
    then skip (or_all s (index_of (codes "\n") s) 0)
    else if c == b'/' && starts_with s (codes "*")
    then copy (1 + or_all (drop 1 s) (index_of (codes "*/") (drop 1 s)) 2)
    else if c == 39 || c == 34
    then copy (quoted c s)
    else if c == b'$'
    then elim (dollar_tag s) [ none ↦ copy 0 | some n ↦ copy (dollar_body s n) ]
    else if c == b';'
    then cut
    else copy 0

-- The main loop, `cur` being what the current statement holds so far. `skip` and `copy` say what
-- is left of a round that takes more than one character.
unfoldable pub split_statements_from : Round → Text → Text → List Text
unfolding round flush_statement
split_statements_from mode cur [] = flush_statement cur
split_statements_from (skip (suc n)) cur (c ∷ s) = split_statements_from (skip n) cur s
split_statements_from (copy (suc n)) cur (c ∷ s) = split_statements_from (copy n) (cur ++ c ∷ []) s
split_statements_from mode cur (c ∷ s) = elim (round c s) [
  | skip n ↦ split_statements_from (skip n) cur s
  | copy n ↦ split_statements_from (copy n) (cur ++ c ∷ []) s
  | cut ↦ flush_statement cur ++ split_statements_from cut [] s
]

unfoldable pub split_sql_statements : Text → List Text
unfolding split_statements_from
split_sql_statements sql = split_statements_from cut [] sql

unfoldable pub strip_tx_control : Text → Text
strip_tx_control sql =
    join (codes ";\n") (keep (λ s. not (is_tx_control_statement s)) (split_sql_statements sql))

-- The name of /^\s*--\s*pb:([a-z-]+)/
name_run : Text → Text
name_run [] = []
name_run (c ∷ s) = if leb b'a' c && leb c b'z' || c == b'-' then c ∷ name_run s else []

pragma_name : Text → Text
unfolding after_dashes name_run
pragma_name line = elim (after_dashes (trim_start line)) [
  | none ↦ []
  | some r ↦ elim (strip_prefix (codes "pb:") r) [ none ↦ [] | some rest ↦ name_run rest ]
]

pub record PatchPragmas : Type 0 where
  pub requires_review : Bool
  pub no_transaction : Bool

unfoldable pub parse_patch_pragmas : Text → PatchPragmas
unfolding pragma_name
parse_patch_pragmas raw =
    let names = map pragma_name (take 40 (split_on 10 raw)) in
    record {
      requires_review = any (text_eq (codes "requires-review")) names;
      no_transaction = any (text_eq (codes "no-transaction")) names;
    }
