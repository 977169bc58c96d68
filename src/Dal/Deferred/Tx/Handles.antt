-- ===== src/Dal/Deferred/Tx/Handles.antt =====
-- The handles of a transaction over any list of calls.
use primebrick_v3_dal.Base.{
  ℕ, ◌+◌, Bool, true, false, List, [], ◌∷◌, ◌++◌, ◌≡◌, inl, inr, refl, sym, subst, All, All-append,
  length, arith,
}
use primebrick_v3_dal.Dal.Deferred.Merge.{OpInfo, CapturedSql, Statement, compile}
use primebrick_v3_dal.Dal.Deferred.Merge
use primebrick_v3_dal.Dal.Deferred.Tx.{
  State, opened, TxError, discarded_first, Request, Op, Tx, Payload, Answer, answered, refused,
  Result, ok, err, reject, resolve, settle, fail_commit, on_answer, on_compiled, on_captured,
  finalize_op, finalize_from, reject_all, commit, discard, new_op, on_audit, register, buffer,
}
use primebrick_v3_dal.Dal.Deferred.Tx.Commit.{
  IsSettled, IsFresh, Throws, commit-settles, reject_all-IsSettled, reject_all-Throws, Returned,
  commit-Returned,
}
use primebrick_v3_dal.Dal.Deferred.Tx.Lifecycle.{
  closed_absorbs, state_cases, call-Kept, Call, buffer_call, commit_call, discard_call, new_tx,
  call, run_calls,
}

module _ {Row R : Type 0} where
  abbrev pub Numbered : ℕ → List (Op Row R) → Type 0
  Numbered i [] = Unit
  Numbered i (op ∷ ops) = (op.deferred.op_index ≡ i) × Numbered (i + 1) ops

  abbrev pub Handles : State → List (Op Row R) → Type 0
  Handles opened ops = All IsFresh ops
  Handles _ ops = All IsSettled ops

  -- The handles are fresh before the commit or the discarding and settled after it, and each has
  -- the position of its operation.
  abbrev pub IsSound : Tx Row R → Type 0
  IsSound tx = Handles tx.state tx.ops × Numbered 0 tx.ops

  Numbered-reject_all :
      (i : ℕ) (e : TxError) (ops : List (Op Row R)) → Numbered i ops → Numbered i (reject_all e ops)
  unfolding reject_all reject
  Numbered-reject_all i e [] h = tt
  Numbered-reject_all i e (op ∷ ops) (p, h) = (p, Numbered-reject_all (i + 1) e ops h)

  settle_index :
      (op : Op Row R) (r : Result R) → (settle r op.deferred).op_index ≡ op.deferred.op_index
  unfolding settle resolve reject
  settle_index op (ok v) = refl
  settle_index op (err e) = refl

  Numbered-finalize_from :
      (i j : ℕ) (payload : Payload Row) (ops : List (Op Row R))
      → Numbered i ops
      → Numbered i (finalize_from j payload ops)
  unfolding finalize_from finalize_op
  Numbered-finalize_from i j payload [] h = tt
  Numbered-finalize_from i j payload (op ∷ ops) (p, h) =
      (rw (settle_index op _) p, Numbered-finalize_from (i + 1) (j + 1) payload ops h)

  Numbered-append :
      (i : ℕ) (ops : List (Op Row R)) (op : Op Row R)
      → Numbered i ops
      → op.deferred.op_index ≡ i + length ops
      → Numbered i (ops ++ op ∷ [])
  Numbered-append i [] op h e = (omega (arith, e), tt)
  Numbered-append i (o ∷ ops) op (p, h) e = (p, Numbered-append (i + 1) ops op h (omega (arith, e)))

  module _ (run : Statement → Answer Row) (ops : List (Op Row R)) (n : Numbered 0 ops) where
    on_answer-Numbered : (s : Statement) (a : Answer Row) → Numbered 0 (on_answer ops s a).tx.ops
    unfolding on_answer fail_commit
    on_answer-Numbered s (answered rows) = Numbered-finalize_from 0 0 _ ops n
    on_answer-Numbered s (refused x) = Numbered-reject_all 0 _ ops n

    on_compiled-Numbered : (m : Merge.Merged Statement) → Numbered 0 (on_compiled run ops m).tx.ops
    unfolding on_compiled fail_commit
    on_compiled-Numbered (Merge.ok s) = on_answer-Numbered s (run s)
    on_compiled-Numbered (Merge.err e) = Numbered-reject_all 0 _ ops n

    on_captured-Numbered :
        (r : Result (List (OpInfo × CapturedSql))) → Numbered 0 (on_captured run ops r).tx.ops
    unfolding on_captured fail_commit
    on_captured-Numbered (err e) = Numbered-reject_all 0 e ops n
    on_captured-Numbered (ok []) = n
    on_captured-Numbered (ok (c ∷ caps)) = on_compiled-Numbered (compile (c ∷ caps))

  commit-IsSound :
      (run : Statement → Answer Row) (tx : Tx Row R)
      → tx.state ≡ opened
      → IsSound tx
      → IsSound (commit run tx).tx
  unfolding commit
  commit-IsSound run tx e (h, n) =
      let (c, settled, _) = commit-settles run tx e in
      (rw c settled, rw e (on_captured-Numbered run tx.ops n _))

  discard-IsSound : (tx : Tx Row R) → tx.state ≡ opened → IsSound tx → IsSound (discard tx).tx
  unfolding discard
  discard-IsSound tx e (h, n) =
      rw e (
        reject_all-IsSettled discarded_first tx.ops,
        Numbered-reject_all 0 discarded_first tx.ops n,
      )

  IsSound-opened : (tx : Tx Row R) → tx.state ≡ opened → IsSound tx → All IsFresh tx.ops
  IsSound-opened tx e (h, n) = subst (λ s. Handles s tx.ops) e h

  on_audit-IsSound :
      (b : Bool) (r : Request Row R) (tx : Tx Row R)
      → tx.state ≡ opened
      → IsSound tx
      → IsSound (on_audit b r tx).tx
  unfolding on_audit new_op
  on_audit-IsSound true r tx e s = s
  on_audit-IsSound false r tx e s = (
    rw e (All-append IsFresh tx.ops _ (IsSound-opened tx e s) ((refl, refl), tt)),
    Numbered-append 0 tx.ops _ s.1 (omega arith),
  )

  register-IsSound :
      (r : Request Row R) (tx : Tx Row R)
      → tx.state ≡ opened
      → IsSound tx
      → IsSound (register r tx).tx
  unfolding register
  register-IsSound r tx e s =
      rw e (
        on_audit-IsSound r.audit r (record tx { state = opened }) refl (IsSound-opened tx e s, s.1))

  buffer-IsSound :
      (r : Request Row R) (tx : Tx Row R)
      → tx.state ≡ opened
      → IsSound tx
      → IsSound (buffer r tx).tx
  unfolding buffer
  buffer-IsSound r tx e s = ground (arith, register-IsSound r tx e s)

  open_call-IsSound :
      (c : Call Row R) (tx : Tx Row R) → tx.state ≡ opened → IsSound tx → IsSound (call c tx).tx
  unfolding call
  open_call-IsSound (buffer_call r) tx e s = buffer-IsSound r tx e s
  open_call-IsSound (commit_call run) tx e s = commit-IsSound run tx e s
  open_call-IsSound discard_call tx e s = discard-IsSound tx e s

  call-IsSound : (c : Call Row R) (tx : Tx Row R) → IsSound tx → IsSound (call c tx).tx
  call-IsSound c tx s = elim (state_cases tx.state) [
    | inl e ↦ open_call-IsSound c tx e s
    | inr n ↦ subst IsSound (sym (call-Kept c tx n).0) s
  ]

  run_calls_from-IsSound :
      (cs : List (Call Row R)) (tx : Tx Row R) → IsSound tx → IsSound (run_calls cs tx).1
  unfolding run_calls
  run_calls_from-IsSound [] tx s = s
  run_calls_from-IsSound (c ∷ cs) tx s =
      run_calls_from-IsSound cs (call c tx).tx (call-IsSound c tx s)

  -- After any calls on a new transaction, every handle is fresh while the transaction is open, and
  -- settled once it is committed or discarded; the handle of each operation has its position.
  pub run_calls-IsSound : (cs : List (Call Row R)) → IsSound (run_calls cs new_tx).1
  unfolding new_tx
  run_calls-IsSound cs = run_calls_from-IsSound cs new_tx (tt, tt)

  -- Where the calls on a new transaction leave it open and the commit then returns, either there is
  -- no operation and nothing was sent, or it sent the one statement that the captures compile to,
  -- the server answered it, and each handle reads what its operation makes of its own rows.
  pub commit_after_calls :
      (cs : List (Call Row R)) (run : Statement → Answer Row)
      → (run_calls cs new_tx).1.state ≡ opened
      → let tx = (run_calls cs new_tx).1 in
        Returned run tx.ops (commit run tx) (commit run tx).result
  commit_after_calls cs run h = commit-Returned run _ h (IsSound-opened _ h (run_calls-IsSound cs))

  -- After the discarding of an open transaction every handle throws that it was discarded, and no
  -- later calls change the transaction or send a statement.
  pub discard_voids :
      (cs : List (Call Row R)) (tx : Tx Row R)
      → tx.state ≡ opened
      → All (Throws discarded_first) (discard tx).tx.ops
        × (run_calls cs (discard tx).tx ≡ ([], (discard tx).tx))
  unfolding discard
  discard_voids cs tx h =
      rw h (reject_all-Throws discarded_first tx.ops, closed_absorbs cs _ (λ e. cc))
