-- ===== src/Dal/Deferred/Merge.antt =====
-- `remapParams`, `abortSpec` and the compilation in `commit`: the captured statements of the
-- buffered operations become one statement. A text with placeholders is a list of pieces, as in the
-- query builder; `quoteIdent` of a generated name such as `__r3` is written out.
pub mod Preserves
pub mod Compiled
pub mod Tokens
use primebrick_v3_dal.Base.{
  ℕ, zero, suc, ◌+◌, Bool, true, false, ◌&&◌, ◌||◌, ◌==◌, leb, Option, none, some, List, [], ◌∷◌,
  ◌++◌, map, Text, codes, String, includes, decimal, number_from, is_digit, is_empty, length,
  get_elem?, if◌then◌else◌,
}
use primebrick_v3_dal.Query.Dsl.{Value}
use primebrick_v3_dal.Query.Writer.{Piece, code, param, Sql, txt, lit, Built, quote_ident}
use primebrick_v3_dal.Query.Writer
use primebrick_v3_dal.Dal.Deferred.Scan.{Cte, split_top_level_ctes, rename_ctes}

pub data OpKind : Type 0 where
  add update delete restore hard_delete find find_by_uuid find_by_id find_all find_by_page : OpKind
  count vector_search : OpKind

abbrev pub kind_text : OpKind → Text
kind_text add = codes "add"
kind_text update = codes "update"
kind_text delete = codes "delete"
kind_text restore = codes "restore"
kind_text hard_delete = codes "hardDelete"
kind_text find = codes "find"
kind_text find_by_uuid = codes "findByUUID"
kind_text find_by_id = codes "findById"
kind_text find_all = codes "findAll"
kind_text find_by_page = codes "findByPage"
kind_text count = codes "count"
kind_text vector_search = codes "vectorSearch"

pub data Abort : Type 0 where
  no_abort matched : Abort
  fixed : Text → Abort

-- What a later operation and the compilation read of an operation.
pub record OpInfo : Type 0 where
  pub kind : OpKind
  pub entity_name : Text
  pub emitted_keys : List Text
  pub abort : Abort

-- A bound value, a DeferredFieldRef, or what an array holds outside its bounds.
pub data Param : Type 0 where
  bound : Value → Param
  field_ref : ℕ → Text → Param
  undefined : Param

pub record CapturedSql : Type 0 where
  pub text : Text
  pub values : List Param

pub data MergeError : Type 0 where
  forward_ref : Text → ℕ → MergeError
  not_emitted : Text → ℕ → MergeError
  invalid_identifier : Text → MergeError
  no_such_op : ℕ → MergeError

pub data Merged (A : Type 0) : Type 0 where
  ok : A → Merged A
  err : MergeError → Merged A

infixl 5 ◌>>=◌
abbrev pub ◌>>=◌ : {A B : Type 0} → Merged A → (A → Merged B) → Merged B
ok a >>= f = f a
err e >>= f = err e

-- values[n - 1]
abbrev pub value_at : List Param → ℕ → Param
value_at values zero = undefined
value_at [] (suc n) = undefined
value_at (v ∷ values) (suc zero) = v
value_at (v ∷ values) (suc (suc n)) = value_at values (suc n)

-- A text as /\$(\d+)/g finds it.
pub data Token : Type 0 where
  char : ℕ → Token
  placeholder : ℕ → Token

abbrev pub starts_digit : Text → Bool
starts_digit [] = false
starts_digit (c ∷ s) = is_digit c

-- The digits read so far of a placeholder, `none` outside of one.
unfoldable pub tokens_from : Option Text → Text → List Token
tokens_from none [] = []
tokens_from (some ds) [] = placeholder (number_from 0 ds) ∷ []
tokens_from none (c ∷ s) =
    let number = tokens_from (some []) s in
    let other = char c ∷ tokens_from none s in if c == b'$' && starts_digit s then number else other
tokens_from (some ds) (c ∷ s) =
    let longer = tokens_from (some (ds ++ c ∷ [])) s in
    let number = tokens_from (some []) s in
    let other = char c ∷ tokens_from none s in
    if is_digit c
    then longer
    else placeholder (number_from 0 ds) ∷ (if c == b'$' && starts_digit s then number else other)

unfoldable pub tokens : Text → List Token
unfolding tokens_from
tokens s = tokens_from none s

-- `mergedValues` and the `indexMap` of the operation at hand.
pub record Remap : Type 0 where
  pub merged : List Param
  pub index : List (ℕ × ℕ)

unfoldable pub index_of_local : ℕ → List (ℕ × ℕ) → Option ℕ
index_of_local n [] = none
index_of_local n ((m, g) ∷ index) = if m == n then some g else index_of_local n index

abbrev pub subquery : Text → ℕ → Text
subquery quoted k =
    codes "(SELECT " ++ quoted ++ codes " FROM \"__r" ++ decimal k ++ codes "\" LIMIT 1)"

abbrev pub quoted_or : {A : Type 0} → Built Text → MergeError → (Text → Merged A) → Merged A
quoted_or (Writer.ok q) e f = f q
quoted_or (Writer.err x) e f = err e

-- A reference to an earlier operation that emits the field.
unfoldable pub resolve_ref : ℕ → Text → Option OpInfo → Merged Text
resolve_ref k field none = err (no_such_op k)
resolve_ref k field (some src) =
    if includes src.emitted_keys field
    then quoted_or (quote_ident field) (invalid_identifier field) (λ q. ok (subquery q k))
    else err (not_emitted field k)

-- The global index of a local one: the one it has, or that of a value pushed.
unfoldable pub share_index : ℕ → Param → Remap → Option ℕ → Piece × Remap
share_index n v st (some g) = (param g, st)
share_index n v st none =
    let g = length st.merged + 1 in
    (param g, record { merged = st.merged ++ v ∷ []; index = (n, g) ∷ st.index })

module _ (op_index : ℕ) (ops : List OpInfo) where
  unfoldable pub remap_value : ℕ → Param → Remap → Merged (Piece × Remap)
  unfolding resolve_ref share_index index_of_local
  remap_value n (field_ref k field) st =
      if leb op_index k
      then err (forward_ref field k)
      else (resolve_ref k field (get_elem? ops k) >>= λ q. ok (code q, st))
  remap_value n v st = ok (share_index n v st (index_of_local n st.index))

  unfoldable pub remap_token : List Param → Token → Remap → Merged (Piece × Remap)
  remap_token values (char c) st = ok (code (c ∷ []), st)
  remap_token values (placeholder n) st = remap_value n (value_at values n) st

  -- remapParams, on the tokens of its text
  unfoldable pub remap_params : List Param → List Token → Remap → Merged (Sql × Remap)
  remap_params values [] st = ok ([], st)
  remap_params values (t ∷ ts) st = remap_token values t st >>= λ (p, st').
      remap_params values ts st' >>= λ (sql, st''). ok (p ∷ sql, st'')

  -- The CTEs of one operation, which share the index map.
  unfoldable pub remap_all : List Param → List Text → Remap → Merged (List Sql × Remap)
  unfolding tokens
  remap_all values [] st = ok ([], st)
  remap_all values (s ∷ ss) st = remap_params values (tokens s) st >>= λ (p, st').
      remap_all values ss st' >>= λ (ps, st''). ok (p ∷ ps, st'')

-- What an operation contributes: its CTEs, its terminal statement, and its abort branch.
pub record Branches : Type 0 where
  pub ctes : List Sql
  pub tail : Sql
  pub abort : Option Text

abbrev pub sql_lit_body : Text → Text
sql_lit_body [] = []
sql_lit_body (c ∷ s) = if c == b'\'' then c ∷ c ∷ sql_lit_body s else c ∷ sql_lit_body s

-- `lit`
abbrev pub sql_lit : Text → Text
sql_lit s = codes "'" ++ sql_lit_body s ++ codes "'"

-- The error code that the abort branch raises.
unfoldable pub code_expr : Abort → Bool → Text → Text
code_expr (fixed c) has_matched ns = sql_lit c
code_expr matched true ns =
    codes "(CASE WHEN EXISTS (SELECT 1 FROM \""
    ++ ns
    ++ codes "matched\") THEN 'ERR01' ELSE 'ERR03' END)"
code_expr matched false ns = sql_lit (codes "ERR03")
code_expr no_abort has_matched ns = sql_lit (codes "ERR03")

unfoldable pub abort_text : OpInfo → Bool → Text → ℕ → Text
unfolding code_expr
abort_text op has_matched ns i =
    codes "\"__ab"
    ++ decimal i
    ++ codes "\" AS (\n  SELECT public.pg_raise(\n    "
    ++ code_expr op.abort has_matched ns
    ++ codes ",\n    "
    ++ sql_lit (
        kind_text op.kind
        ++ codes ": required row not written for "
        ++ op.entity_name
        ++ codes " (deferred tx op "
        ++ decimal i
        ++ codes ")")
    ++ codes ",\n    jsonb_build_object('entity', "
    ++ sql_lit op.entity_name
    ++ codes ", 'op', "
    ++ sql_lit (kind_text op.kind)
    ++ codes ", 'deferred_index', "
    ++ decimal i
    ++ codes ")::text\n  ) AS _raised\n  WHERE NOT EXISTS (SELECT 1 FROM \"__r"
    ++ decimal i
    ++ codes "\")\n)"

-- abortSpec
unfoldable pub abort_spec : OpInfo → Abort → List Text → Text → ℕ → Option Text
unfolding abort_text
abort_spec op no_abort names ns i = none
abort_spec op matched names ns i = some (abort_text op (includes names (codes "matched")) ns i)
abort_spec op (fixed c) names ns i = some (abort_text op (includes names (codes "matched")) ns i)

abbrev pub prefix_of : ℕ → Text
prefix_of i = codes "s" ++ decimal i ++ codes "_"

abbrev pub names_of : List Cte → List Text
names_of cs = map (λ c. c.name) cs

-- The texts of the CTEs of an operation, and of its tail, under the names of the whole statement.
unfoldable pub renamed_ctes : ℕ → CapturedSql → List Text
renamed_ctes i cap =
    let (ctes, tail) = split_top_level_ctes cap.text in
    map (λ c. rename_ctes c.sql (names_of ctes) (prefix_of i)) ctes

unfoldable pub renamed_tail : ℕ → CapturedSql → Text
renamed_tail i cap =
    let (ctes, tail) = split_top_level_ctes cap.text in
    rename_ctes tail (names_of ctes) (prefix_of i)

module _ (ops : List OpInfo) where
  -- One round of the `forEach` over the captured statements.
  unfoldable pub compile_op : ℕ → OpInfo → CapturedSql → List Param → Merged (Branches × List Param)
  unfolding tokens abort_spec
  compile_op i op cap merged =
      remap_all i ops cap.values (renamed_ctes i cap) (record { merged = merged; index = [] })
      >>= λ (ctes, st).
          remap_params i ops cap.values (tokens (renamed_tail i cap)) st >>= λ (tail, st'). ok (
            record {
              ctes = ctes;
              tail = tail;
              abort =
                  abort_spec op op.abort (names_of (split_top_level_ctes cap.text).0) (prefix_of i)
                    i;
            },
            st'.merged,
          )

  unfoldable pub compile_ops :
      ℕ → List (OpInfo × CapturedSql) → List Param → Merged (List Branches × List Param)
  compile_ops i [] merged = ok ([], merged)
  compile_ops i ((op, cap) ∷ rest) merged = compile_op i op cap merged >>= λ (b, merged').
      compile_ops (i + 1) rest merged' >>= λ (bs, merged''). ok (b ∷ bs, merged'')

-- The parts of the WITH list, in order.
unfoldable pub cte_parts : ℕ → List Branches → List Sql
cte_parts i [] = []
cte_parts i (b ∷ bs) =
    b.ctes
    ++ ((lit "\"__r" ++ txt (decimal i) ++ lit "\" AS (\n" ++ b.tail ++ lit "\n)")
        ∷ (elim b.abort [ none ↦ [] | some a ↦ txt a ∷ [] ] ++ cte_parts (i + 1) bs))

unfoldable pub join_sql : String → List Sql → Sql
join_sql sep [] = []
join_sql sep (p ∷ []) = p
join_sql sep (p ∷ q ∷ ps) = p ++ (lit sep ++ join_sql sep (q ∷ ps))

unfoldable pub select_cols : ℕ → List Branches → List Sql
select_cols i [] = []
select_cols i (b ∷ bs) =
    txt (
      codes "(SELECT COALESCE(jsonb_agg(to_jsonb(t)), '[]'::jsonb) FROM \"__r"
      ++ decimal i
      ++ codes "\" t) AS \"__r"
      ++ decimal i
      ++ codes "\"")
    ∷ select_cols (i + 1) bs

-- The conditions of the final SELECT, one for each abort branch.
unfoldable pub abort_conditions : ℕ → List Branches → List Sql
abort_conditions i [] = []
abort_conditions i (b ∷ bs) =
    elim b.abort [
      | none ↦ []
      | some a ↦ txt (codes "NOT EXISTS (SELECT 1 FROM \"__ab" ++ decimal i ++ codes "\")") ∷ []
    ]
    ++ abort_conditions (i + 1) bs

abbrev pub where_clause : List Sql → Sql
where_clause [] = []
where_clause (p ∷ ps) = lit "\nWHERE " ++ join_sql "\n  AND " (p ∷ ps)

pub record Statement : Type 0 where
  pub text : Sql
  pub values : List Param

unfoldable pub assemble : List Branches → List Param → Statement
unfolding cte_parts join_sql select_cols abort_conditions
assemble bs merged = record {
  text =
      lit "WITH "
      ++ join_sql ",\n" (cte_parts 0 bs)
      ++ lit "\nSELECT "
      ++ join_sql ",\n       " (select_cols 0 bs)
      ++ where_clause (abort_conditions 0 bs);
  values = merged;
}

-- From the captured statements to the one that is sent.
unfoldable pub compile : List (OpInfo × CapturedSql) → Merged Statement
unfolding compile_ops assemble
compile caps =
    compile_ops (map (λ p. p.0) caps) 0 caps [] >>= λ (bs, merged). ok (assemble bs merged)
