-- ===== src/Dal/Deferred/Tx.antt =====
-- Handles and the state machine of DeferredTransaction. What the repository builds for an operation
-- (the statement it captures, the keys of its RETURNING clause, the reading of its rows) is data of
-- the request, as are the answer of the server and the types of a row and of a result. The first
-- rejection of `Promise.all` is the first in the order of the operations.
pub mod Commit
pub mod Lifecycle
pub mod Handles
use primebrick_v3_dal.Base.{
  ℕ, ◌+◌, Bool, true, false, Option, none, some, List, [], ◌∷◌, ◌++◌, map, Text, codes, String,
  length, text_eq, decimal, is_empty, if◌then◌else◌,
}
use primebrick_v3_dal.Query.Dsl.{
  Column, Entity, get_column_name, FieldProjector, project_field, project_expr,
}
use primebrick_v3_dal.Query.Clauses.{alias_of}
use primebrick_v3_dal.Dal.Deferred.Merge.{
  OpKind, add, update, delete, restore, hard_delete, find, find_by_uuid, find_by_id, find_all,
  Abort, no_abort, matched, fixed, OpInfo, CapturedSql, MergeError, Statement, compile,
}
use primebrick_v3_dal.Dal.Deferred.Merge

pub data State : Type 0 where
  opened committed discarded : State

-- The errors thrown; `thrown` is one of the repository, the server or a row's reading.
pub data TxError : Type 0 where
  not_open : Option OpKind → State → TxError
  audited : OpKind → TxError
  streamed : TxError
  not_emitted : OpKind → TxError
  not_merged : MergeError → TxError
  before_commit : TxError
  discarded_first : TxError
  thrown : Text → TxError

pub data Result (A : Type 0) : Type 0 where
  ok : A → Result A
  err : TxError → Result A

pub record Deferred (R : Type 0) : Type 0 where
  pub op_index : ℕ
  pub settled : Bool
  pub value : Option R
  pub error : Option TxError

-- What `invoke` comes to: the statement, a return without one, or an error.
pub data Invoked : Type 0 where
  signal : CapturedSql → Invoked
  completed : Invoked
  failed : Text → Invoked

-- `captured`
abbrev pub captured_of : OpKind → Invoked → Result CapturedSql
captured_of method (signal sql) = ok sql
captured_of method completed = err (not_emitted method)
captured_of method (failed e) = err (thrown e)

abbrev pub is_write : OpKind → Bool
is_write add = true
is_write update = true
is_write delete = true
is_write restore = true
is_write hard_delete = true
is_write _ = false

abbrev pub not_found_abort : Bool → Abort
not_found_abort true = fixed (codes "ERR03")
not_found_abort false = no_abort

-- The abort branch that each method asks for.
unfoldable pub abort_of : OpKind → Bool → Bool → Abort
abort_of add true throws = no_abort
abort_of add false throws = fixed (codes "ERR04")
abort_of update ignore throws = matched
abort_of delete ignore throws = matched
abort_of restore ignore throws = matched
abort_of hard_delete ignore throws = matched
abort_of find ignore throws = not_found_abort throws
abort_of find_by_uuid ignore throws = not_found_abort throws
abort_of find_by_id ignore throws = not_found_abort throws
abort_of _ ignore throws = no_abort

abbrev pub projected_key : FieldProjector → Text
projected_key (project_expr e alias) = alias
projected_key (project_field f alias) = alias_of alias (get_column_name f.entity f.key)

abbrev pub column_keys : List Column → List Text
column_keys [] = []
column_keys (c ∷ cs) = c.property_key ∷ c.sql_name ∷ column_keys cs

abbrev pub extra_keys : List Text
extra_keys = codes "_total_records" ∷ codes "similarity" ∷ codes "distance" ∷ codes "n" ∷ []

-- `emittedKeys`
unfoldable pub emitted_by : Bool → List Text → List FieldProjector → Entity → List Text
emitted_by true returning read_fields e = returning
emitted_by false returning (f ∷ fs) e = map projected_key (f ∷ fs)
emitted_by false returning [] e = column_keys e.columns ++ extra_keys

-- The arguments of a method: `ignore` where onConflict is "ignore", `throws` unless
-- throwIfNotFound is false.
pub record Request (Row R : Type 0) : Type 0 where
  pub kind : OpKind
  pub entity : Entity
  pub entity_name : Text
  pub audit : Bool
  pub ignore : Bool
  pub throws : Bool
  pub stream : Bool
  pub returning : List Text
  pub read_fields : List FieldProjector
  pub invoked : Invoked
  pub finalize : List Row → Result R

pub record Op (Row R : Type 0) : Type 0 where
  pub info : OpInfo
  pub captured : Result CapturedSql
  pub deferred : Deferred R
  pub finalize : List Row → Result R

pub record Tx (Row R : Type 0) : Type 0 where
  pub ops : List (Op Row R)
  pub state : State

-- The rows of the single answer, a JSON object with an array or null under a name.
abbrev pub Payload : Type 0 → Type 0
Payload Row = List (Text × Option (List Row))

pub data Answer (Row : Type 0) : Type 0 where
  answered : List (Payload Row) → Answer Row
  refused : Text → Answer Row

-- What a call throws or returns, and the statement it sends.
pub record Outcome (Row R : Type 0) : Type 0 where
  pub tx : Tx Row R
  pub result : Result Unit
  pub sent : Option Statement

module _ {R : Type 0} where
  abbrev pub new_deferred : ℕ → Deferred R
  new_deferred i = record { op_index = i; settled = false; value = none; error = none }

  -- _resolve
  unfoldable pub resolve : R → Deferred R → Deferred R
  resolve v d = record d { settled = true; value = some v }

  -- _reject
  unfoldable pub reject : TxError → Deferred R → Deferred R
  reject e d = record d { settled = true; error = some e }

  unfoldable pub settle : Result R → Deferred R → Deferred R
  unfolding resolve reject
  settle (ok v) d = resolve v d
  settle (err e) d = reject e d

  -- The getter `value`.
  unfoldable pub read : Deferred R → Result (Option R)
  read d =
      if d.settled then elim d.error [ none ↦ ok d.value | some e ↦ err e ] else err before_commit

module _ {Row : Type 0} where
  abbrev pub payload_of : List (Payload Row) → Payload Row
  payload_of [] = []
  payload_of (p ∷ ps) = p

  unfoldable pub rows_at : Text → Payload Row → List Row
  rows_at name [] = []
  rows_at name ((key, rows) ∷ p) =
      if text_eq key name then elim rows [ none ↦ [] | some rs ↦ rs ] else rows_at name p

module _ {Row R : Type 0} where
  unfoldable pub reject_op : TxError → Op Row R → Op Row R
  unfolding reject
  reject_op e op = record op { deferred = reject e op.deferred }

  unfoldable pub reject_all : TxError → List (Op Row R) → List (Op Row R)
  unfolding reject_op
  reject_all e ops = map (reject_op e) ops

  -- Promise.all over `captured`
  unfoldable pub all_captured : List (Op Row R) → Result (List (OpInfo × CapturedSql))
  all_captured [] = ok []
  all_captured (op ∷ ops) = elim op.captured [
    | err e ↦ err e
    | ok cap ↦ elim (all_captured ops) [ err e ↦ err e | ok caps ↦ ok ((op.info, cap) ∷ caps) ]
  ]

  unfoldable pub finalize_op : ℕ → Payload Row → Op Row R → Op Row R
  unfolding rows_at settle
  finalize_op i payload op = record op {
    deferred = settle (op.finalize (rows_at (codes "__r" ++ decimal i) payload)) op.deferred;
  }

  unfoldable pub finalize_from : ℕ → Payload Row → List (Op Row R) → List (Op Row R)
  unfolding finalize_op
  finalize_from i payload [] = []
  finalize_from i payload (op ∷ ops) = finalize_op i payload op ∷ finalize_from (i + 1) payload ops

  -- The `catch` of `commit`.
  unfoldable pub fail_commit : List (Op Row R) → TxError → Option Statement → Outcome Row R
  unfolding reject_all
  fail_commit ops e sent = record {
    tx = record { ops = reject_all e ops; state = committed };
    result = err e;
    sent = sent;
  }

  unfoldable pub on_answer : List (Op Row R) → Statement → Answer Row → Outcome Row R
  unfolding fail_commit finalize_from
  on_answer ops s (refused e) = fail_commit ops (thrown e) (some s)
  on_answer ops s (answered rows) = record {
    tx = record { ops = finalize_from 0 (payload_of rows) ops; state = committed };
    result = ok tt;
    sent = some s;
  }

  unfoldable pub on_compiled :
      (Statement → Answer Row) → List (Op Row R) → Merge.Merged Statement → Outcome Row R
  unfolding on_answer fail_commit
  on_compiled run ops (Merge.ok s) = on_answer ops s (run s)
  on_compiled run ops (Merge.err e) = fail_commit ops (not_merged e) none

  unfoldable pub on_captured :
      (Statement → Answer Row)
      → List (Op Row R)
      → Result (List (OpInfo × CapturedSql))
      → Outcome Row R
  unfolding on_compiled fail_commit compile
  on_captured run ops (err e) = fail_commit ops e none
  on_captured run ops (ok []) = record {
    tx = record { ops = ops; state = committed };
    result = ok tt;
    sent = none;
  }
  on_captured run ops (ok (c ∷ caps)) = on_compiled run ops (compile (c ∷ caps))

  abbrev pub throws_only : Tx Row R → TxError → Outcome Row R
  throws_only tx e = record { tx = tx; result = err e; sent = none }

  unfoldable pub commit : (Statement → Answer Row) → Tx Row R → Outcome Row R
  unfolding on_captured all_captured
  commit run tx = elim tx.state [
    | opened ↦ on_captured run tx.ops (all_captured tx.ops)
    | _ ↦ throws_only tx (not_open none tx.state)
  ]

  unfoldable pub discard : Tx Row R → Outcome Row R
  unfolding reject_all
  discard tx = elim tx.state [
    | opened ↦ record {
      tx = record { ops = reject_all discarded_first tx.ops; state = discarded };
      result = ok tt;
      sent = none;
    }
    | _ ↦ record { tx = tx; result = ok tt; sent = none }
  ]

  unfoldable pub new_op : Request Row R → ℕ → Op Row R
  unfolding abort_of emitted_by
  new_op r i = record {
    info = record {
      kind = r.kind;
      entity_name = r.entity_name;
      emitted_keys = emitted_by (is_write r.kind) r.returning r.read_fields r.entity;
      abort = abort_of r.kind r.ignore r.throws;
    };
    captured = captured_of r.kind r.invoked;
    deferred = new_deferred i;
    finalize = r.finalize;
  }

  unfoldable pub on_audit : Bool → Request Row R → Tx Row R → Outcome Row R
  unfolding new_op
  on_audit true r tx = throws_only tx (audited r.kind)
  on_audit false r tx = record {
    tx = record tx { ops = tx.ops ++ new_op r (length tx.ops) ∷ [] };
    result = ok tt;
    sent = none;
  }

  unfoldable pub register : Request Row R → Tx Row R → Outcome Row R
  unfolding on_audit
  register r tx = elim tx.state [
    | opened ↦ on_audit r.audit r tx
    | _ ↦ throws_only tx (not_open (some r.kind) tx.state)
  ]

  -- A method that buffers: `findAll` looks at its own option before the state.
  unfoldable pub buffer : Request Row R → Tx Row R → Outcome Row R
  unfolding register
  buffer r tx = elim r.kind [
    | find_all ↦ if r.stream then throws_only tx streamed else register r tx
    | _ ↦ register r tx
  ]
