-- ===== src/Dal/Tests.antt =====
-- The theorems on buffered transactions at concrete calls.
use primebrick_v3_dal.Base.{
  Text, Option, ◌+◌, ℕ, ◌≤◌, true, false, none, some, List, [], ◌∷◌, ◌++◌, ◌≡◌, refl, All, map,
  length, codes, is_space, text_eq, to_lower, decimal, digits_from, number_from, includes,
}
use primebrick_v3_dal.Query.Dsl
use primebrick_v3_dal.Query.Dsl.{Entity}
use primebrick_v3_dal.Query.Writer.{Sql, code, param}
use primebrick_v3_dal.Dal.Deferred.Merge.Tokens.{print, tokens_of, tokens-print}
use primebrick_v3_dal.Dal.Client.{
  ClientQuery, commit_tx, Outcome, returned, Pool, done_work, with_client, transaction,
}
use primebrick_v3_dal.Dal.Client.Released.{
  Settled, releases, transaction-Released, with_client_leaks,
}
use primebrick_v3_dal.Dal.Deferred.Scan.{
  split_top_level_ctes, word_case, span, is_word_char, starts_word, rename_ctes, after_with,
  body_step, outside_step, past_materialized, read_head, skip_mode, skip_ws, split_from, stops_skip,
  body, outside, in_literal, rename_from,
}
use primebrick_v3_dal.Dal.Deferred.Scan.Laws.{body_misreads, rename_from_quoted}
use primebrick_v3_dal.Query.Writer.{is_valid_ident, quote_ident}
use primebrick_v3_dal.Dal.Deferred.Merge
use primebrick_v3_dal.Dal.Deferred.Merge.{
  compile_ops, compile_op, remap_all, renamed_ctes, renamed_tail, remap_params, remap_token,
  remap_value, abort_spec, abort_text, code_expr, index_of_local, resolve_ref, share_index, tokens,
  tokens_from, add, find, OpInfo, CapturedSql, bound, field_ref, Branches, Statement, assemble,
  compile,
}
use primebrick_v3_dal.Dal.Deferred.Merge.Compiled.{AllOps, compile-Means}
use primebrick_v3_dal.Dal.Deferred.Tx.{
  committed, Request, signal, Tx, Answer, answered, refused, ok, discarded_first, commit, discard,
}
use primebrick_v3_dal.Dal.Deferred.Tx.Commit.{Committed, commit-settles, Returned, Throws}
use primebrick_v3_dal.Dal.Deferred.Tx.Lifecycle.{
  Call, buffer_call, commit_call, new_tx, run_calls, closed_absorbs, sent_at_most_once,
}
use primebrick_v3_dal.Dal.Deferred.Tx.Handles.{
  IsSound, run_calls-IsSound, commit_after_calls, discard_voids,
}

head_not_alone : read_head (codes "a AS NOT (b") ≡ none
unfolding read_head past_materialized span word_case is_word_char starts_word to_lower is_space
    text_eq
head_not_alone = refl

head_not_materialized : read_head (codes "a AS NOT MATERIALIZED (b") ≡ some (codes "a", codes "(b")
unfolding read_head past_materialized span word_case is_word_char starts_word to_lower is_space
    text_eq
head_not_materialized = refl

body_misreads_example :
    (body in_literal 1 (codes "it''s :)'), x")).1 ≡ (body outside 1 (codes "s :)'), x")).1
body_misreads_example = body_misreads 1 (codes "it") (codes "s :)'), x") (refl, (refl, tt))

rename_from_quoted_example :
    rename_from (codes "upd") (codes "s0_") [] (b'"' ∷ (codes "upd" ++ (b'"' ∷ [])))
    ≡ codes "\"s0_upd\""
unfolding rename_from is_word_char text_eq
rename_from_quoted_example =
    rename_from_quoted (codes "upd") (codes "s0_") (refl, (refl, (refl, tt))) refl

abbrev orders : Entity
orders = record {
  id = 0;
  table_schema = codes "sales";
  qualified_name = codes "\"sales\".\"orders\"";
  columns = record { property_key = codes "id"; sql_name = codes "id"; cast_in_join = none } ∷ [];
}

abbrev insert_sql : CapturedSql
insert_sql = record {
  text = codes "WITH w AS (SELECT $1) SELECT w";
  values = bound (Dsl.number (codes "7")) ∷ [];
}

abbrev lookup_sql : CapturedSql
lookup_sql = record {
  text = codes "SELECT $1";
  values = field_ref 0 (codes "id") ∷ bound (Dsl.number (codes "9")) ∷ [];
}

abbrev request : Merge.OpKind → CapturedSql → Request ℕ ℕ
request kind sql = record {
  kind = kind;
  entity = orders;
  entity_name = codes "Order";
  audit = false;
  ignore = false;
  throws = true;
  stream = false;
  returning = codes "id" ∷ [];
  read_fields = [];
  invoked = signal sql;
  finalize = λ rows. ok (length rows);
}

abbrev server : Statement → Answer ℕ
server s = answered (((codes "__r0", some (3 ∷ [])) ∷ []) ∷ [])

abbrev down : Statement → Answer ℕ
down s = refused (codes "timeout")

abbrev calls : List (Call ℕ ℕ)
calls = buffer_call (request add insert_sql) ∷ buffer_call (request find lookup_sql) ∷ []

abbrev infos : List (OpInfo × CapturedSql)
infos =
    (
      record {
        kind = add;
        entity_name = codes "Order";
        emitted_keys = codes "id" ∷ [];
        abort = Merge.matched;
      },
      insert_sql,
    )
    ∷ (
      record {
        kind = find;
        entity_name = codes "Order";
        emitted_keys = [];
        abort = Merge.no_abort;
      },
      lookup_sql,
    )
    ∷ []

statement_of : Merge.Merged Statement → Statement
statement_of (Merge.ok s) = s
statement_of (Merge.err e) = record { text = []; values = [] }

compile-Means_example :
    (bs : List Branches) × (statement_of (compile infos)
      ≡ assemble bs (statement_of (compile infos)).values)
    × AllOps (map (λ p. p.0) infos) 0 infos (statement_of (compile infos)).values bs
unfolding compile statement_of compile_ops compile_op remap_all renamed_ctes renamed_tail
    split_top_level_ctes word_case span is_space text_eq to_lower is_word_char starts_word
    remap_params rename_ctes rename_from remap_token remap_value decimal digits_from number_from
    includes abort_spec abort_text code_expr index_of_local resolve_ref share_index tokens
    tokens_from after_with body body_step outside_step past_materialized read_head skip_mode skip_ws
    split_from stops_skip is_valid_ident quote_ident
compile-Means_example = compile-Means infos (statement_of (compile infos)) refl

sent_at_most_once_example :
    length (run_calls (calls ++ commit_call server ∷ commit_call server ∷ []) new_tx).0 ≤ 1
sent_at_most_once_example =
    sent_at_most_once (calls ++ commit_call server ∷ commit_call server ∷ []) new_tx

run_calls-IsSound_example : IsSound (run_calls (calls ++ commit_call down ∷ []) new_tx).1
run_calls-IsSound_example = run_calls-IsSound (calls ++ commit_call down ∷ [])

abbrev buffered : Tx ℕ ℕ
buffered = (run_calls calls new_tx).1

commit-settles_example : Committed (commit down buffered)
unfolding run_calls new_tx
commit-settles_example = commit-settles down buffered refl

commit_after_calls_example :
    Returned server buffered.ops (commit server buffered) (commit server buffered).result
unfolding run_calls new_tx
commit_after_calls_example = commit_after_calls calls server refl

discard_voids_example :
    All (Throws discarded_first) (discard buffered).tx.ops
    × (run_calls (commit_call server ∷ []) (discard buffered).tx ≡ ([], (discard buffered).tx))
unfolding run_calls new_tx
discard_voids_example = discard_voids (commit_call server ∷ []) buffered refl

abbrev closed : Tx ℕ ℕ
closed = record { ops = []; state = committed }

closed_absorbs_example : run_calls calls closed ≡ ([], closed)
closed_absorbs_example = closed_absorbs calls closed (λ e. cc)

-- A pool whose server fails the COMMIT, and one that fails to reset the timeout.
abbrev flaky : ClientQuery → ℕ → Option Text × ℕ
flaky commit_tx n = (some (codes "connection lost"), n + 1)
flaky q n = (none, n + 1)

abbrev flaky_pool : Pool ℕ
flaky_pool = record { connect = λ n. (none, n); send = flaky; statement_timeout_ms = 0 }

abbrev stuck : ClientQuery → ℕ → Option Text × ℕ
stuck q n = (some (codes "connection lost"), n)

abbrev stuck_pool : Pool ℕ
stuck_pool = record { connect = λ n. (none, n); send = stuck; statement_timeout_ms = 0 }

abbrev work : ℕ → Outcome ℕ × ℕ
work n = (returned n, n + 1)

transaction-Released_example :
    Settled (transaction flaky_pool (some 50) work 0).0 (transaction flaky_pool (some 50) work 0).1
    × (releases (transaction flaky_pool (some 50) work 0).1 ≡ 1)
transaction-Released_example = transaction-Released flaky_pool work (some 50) 0 refl

with_client_leaks_example :
    releases (with_client stuck_pool (some 50) (λ d. done_work (work d)) 0).1 ≡ 0
with_client_leaks_example = with_client_leaks stuck_pool work 50 0 (λ d e. cc)

abbrev printed : Sql
printed = code (codes "a = ") ∷ param 12 ∷ code (codes " AND b = ") ∷ param 3 ∷ []

tokens-print_example : tokens (print printed) ≡ tokens_of printed
unfolding print decimal digits_from
tokens-print_example = tokens-print printed (
  (refl, (refl, (refl, (refl, tt)))),
  (refl, ((refl, (refl, (refl, (refl, (refl, (refl, (refl, (refl, (refl, tt))))))))), (refl, tt))),
)
