-- ===== src/Query/Writer.antt =====
-- The parts of src/query/query-builder.ts below the clauses: identifiers, tables and columns, the
-- parameter writer and `?` markers. A text with placeholders is a list of pieces.
use primebrick_v3_dal.Base.{
  ℕ, ◌+◌, ◌==◌, Bool, true, false, ◌&&◌, ◌||◌, Option, none, some, List, [], ◌∷◌, ◌++◌, Text, codes,
  leb, all, length, String, if◌then◌else◌,
}
use primebrick_v3_dal.Query.Dsl.{
  Entity, get_column_name, Value, null, boolean, text, number, array, Values, end, item,
  ExprOperand,
}

pub data Piece : Type 0 where
  code : Text → Piece
  param : ℕ → Piece

abbrev pub Sql : Type 0
Sql = List Piece

abbrev pub txt : Text → Sql
txt s = code s ∷ []

abbrev pub lit : String → Sql
lit s = txt (codes s)

pub data BuildError : Type 0 where
  invalid_identifier : Text → BuildError
  too_many_markers : Text → BuildError
  between_needs_two : ℕ → BuildError
  is_needs_boolean : BuildError

pub data Built (A : Type 0) : Type 0 where
  ok : A → Built A
  err : BuildError → Built A

-- Code that renders with the parameter writer `w`: its `values` before and after.
abbrev pub Render : Type 0 → Type 0
Render A = List Value → Built (A × List Value)

infixl 5 ◌>>=◌
abbrev pub ◌>>=◌ : {A B : Type 0} → Built A → (A → Built B) → Built B
ok a >>= f = f a
err e >>= f = err e

is_ident_start : ℕ → Bool
is_ident_start c = leb b'A' c && leb c b'Z' || leb b'a' c && leb c b'z' || c == b'_'

is_ident_char : ℕ → Bool
unfolding is_ident_start
is_ident_char c = is_ident_start c || leb b'0' c && leb c b'9'

-- /^[A-Za-z_][A-Za-z0-9_]*$/
unfoldable pub is_valid_ident : Text → Bool
unfolding is_ident_start is_ident_char
is_valid_ident [] = false
is_valid_ident (c ∷ s) = is_ident_start c && all is_ident_char s

unfoldable pub quote_ident : Text → Built Text
quote_ident ident =
    if is_valid_ident ident
    then ok (codes "\"" ++ ident ++ codes "\"")
    else err (invalid_identifier ident)

unfoldable pub assert_ident : Text → Built Text
assert_ident ident = if is_valid_ident ident then ok ident else err (invalid_identifier ident)

-- qTable
unfoldable pub q_table : Entity → Option Text → Built Text
q_table e none = ok e.qualified_name
q_table e (some []) = ok e.qualified_name
q_table e (some (c ∷ t)) =
    quote_ident e.table_schema >>= λ s. quote_ident (c ∷ t) >>= λ n. ok (s ++ codes "." ++ n)

-- qCol
unfoldable pub q_col : Entity → Text → Built Text
q_col e key = quote_ident (get_column_name e key)

-- qQualifiedField
unfoldable pub q_qualified_field : Entity → Text → Option Text → Built Text
q_qualified_field e key override =
    q_table e override >>= λ t. q_col e key >>= λ c. ok (t ++ codes "." ++ c)

-- The override applies to the base entity alone; an empty name is no override.
unfoldable pub override_for : Option Text → Entity → Entity → Option Text
override_for none e base = none
override_for (some []) e base = none
override_for (some (c ∷ t)) e base = if e.id == base.id then some (c ∷ t) else none

-- ParamWriter.add
unfoldable pub add_param : Value → List Value → Sql × List Value
add_param v w = (param (length w + 1) ∷ [], w ++ v ∷ [])

-- renderExprOperand: the marker `?` is replaced from left to right.
unfoldable pub on_char :
    Bool
    → Text
    → ℕ
    → (List Value → List Value → Built (Sql × List Value))
    → List Value
    → List Value
    → Built (Sql × List Value)
on_char true whole c rest [] w = err (too_many_markers whole)
on_char true whole c rest (p ∷ ps) w =
    rest ps (w ++ p ∷ []) >>= λ (sql, w'). ok (param (length w + 1) ∷ sql, w')
on_char false whole c rest params w = rest params w >>= λ (sql, w'). ok (code (c ∷ []) ∷ sql, w')

unfoldable pub render_markers : Text → Text → List Value → List Value → Built (Sql × List Value)
unfolding on_char
render_markers whole [] params w = ok ([], w)
render_markers whole (c ∷ s) params w =
    on_char (c == b'?') whole c (render_markers whole s) params w

unfoldable pub render_expr_operand : ExprOperand → List Value → Built (Sql × List Value)
render_expr_operand o w = render_markers o.sql o.sql o.params w

-- An element in `v.join(",")`, where null counts as the empty text; `String` of an array is its
-- `join`.
unfoldable mutual
  pub element_text : Value → Text
  element_text null = []
  element_text (boolean true) = codes "true"
  element_text (boolean false) = codes "false"
  element_text (text s) = s
  element_text (number s) = s
  element_text (array vs) = join_values vs

  pub join_values : Values → Text
  join_values end = []
  join_values (item v end) = element_text v
  join_values (item v (item u vs)) = element_text v ++ codes "," ++ join_values (item u vs)

-- toVectorLiteral
unfoldable pub to_vector_literal : Value → Text
unfolding element_text join_values
to_vector_literal (array vs) = codes "[" ++ join_values vs ++ codes "]"
to_vector_literal null = codes "null"
to_vector_literal v = element_text v
