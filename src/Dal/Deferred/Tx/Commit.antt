-- ===== src/Dal/Deferred/Tx/Commit.antt =====
-- What a commit makes of the handles.
use primebrick_v3_dal.Base.{
  ℕ, decimal, codes, ◌⊎◌, inl, inr, ◌+◌, true, false, Option, none, some, List, [], ◌∷◌, ◌++◌, ◌≡◌,
  refl, sym, subst, All,
}
use primebrick_v3_dal.Dal.Deferred.Merge.{OpInfo, CapturedSql, Statement, compile}
use primebrick_v3_dal.Dal.Deferred.Merge
use primebrick_v3_dal.Dal.Deferred.Tx.{
  opened, committed, TxError, thrown, not_merged, Result, ok, err, Deferred, Op, Tx, Payload,
  Answer, answered, refused, Outcome, resolve, reject, settle, read, payload_of, rows_at,
  reject_all, finalize_op, finalize_from, fail_commit, on_answer, on_compiled, on_captured,
  all_captured, commit,
}

module _ {R : Type 0} where
  settle-settled : (r : Result R) (d : Deferred R) → (settle r d).settled ≡ true
  unfolding settle
  settle-settled (ok v) d = refl
  settle-settled (err e) d = refl

  abbrev pub as_read : Result R → Result (Option R)
  as_read (ok v) = ok (some v)
  as_read (err e) = err e

  read-settle : (r : Result R) (d : Deferred R) → d.error ≡ none → read (settle r d) ≡ as_read r
  unfolding read settle resolve reject
  read-settle (ok v) d h = rw h refl
  read-settle (err e) d h = refl

module _ {Row R : Type 0} where
  abbrev pub IsSettled : Op Row R → Type 0
  IsSettled op = op.deferred.settled ≡ true

  abbrev pub Throws : TxError → Op Row R → Type 0
  Throws e op = read op.deferred ≡ err e

  pub reject_all-Throws : (e : TxError) (ops : List (Op Row R)) → All (Throws e) (reject_all e ops)
  unfolding reject_all reject read
  reject_all-Throws e [] = tt
  reject_all-Throws e (op ∷ ops) = (refl, reject_all-Throws e ops)

  pub reject_all-IsSettled :
      (e : TxError) (ops : List (Op Row R)) → All IsSettled (reject_all e ops)
  unfolding reject_all reject
  reject_all-IsSettled e [] = tt
  reject_all-IsSettled e (op ∷ ops) = (refl, reject_all-IsSettled e ops)

  finalize_from-IsSettled :
      (i : ℕ) (payload : Payload Row) (ops : List (Op Row R))
      → All IsSettled (finalize_from i payload ops)
  unfolding finalize_from
  finalize_from-IsSettled i payload [] = tt
  finalize_from-IsSettled i payload (op ∷ ops) =
      (settle-settled _ op.deferred, finalize_from-IsSettled (i + 1) payload ops)

  -- An error that the commit throws is the one of every handle.
  abbrev pub Blames : Result Unit → List (Op Row R) → Type 0
  Blames (ok _) ops = Unit
  Blames (err e) ops = All (Throws e) ops

  abbrev pub Committed : Outcome Row R → Type 0
  Committed o = (o.tx.state ≡ committed) × All IsSettled o.tx.ops × Blames o.result o.tx.ops

  fail_commit-Committed :
      (ops : List (Op Row R)) (e : TxError) (s : Option Statement) → Committed (fail_commit ops e s)
  unfolding fail_commit
  fail_commit-Committed ops e s = (refl, reject_all-IsSettled e ops, reject_all-Throws e ops)

  on_answer-Committed :
      (ops : List (Op Row R)) (s : Statement) (a : Answer Row) → Committed (on_answer ops s a)
  unfolding on_answer
  on_answer-Committed ops s (answered rows) = (refl, finalize_from-IsSettled 0 _ ops, tt)
  on_answer-Committed ops s (refused e) = fail_commit-Committed ops (thrown e) (some s)

  on_compiled-Committed :
      (run : Statement → Answer Row) (ops : List (Op Row R)) (m : Merge.Merged Statement)
      → Committed (on_compiled run ops m)
  unfolding on_compiled
  on_compiled-Committed run ops (Merge.ok s) = on_answer-Committed ops s (run s)
  on_compiled-Committed run ops (Merge.err e) = fail_commit-Committed ops (not_merged e) none

  none_captured : (ops : List (Op Row R)) → all_captured ops ≡ ok [] → ops ≡ []
  unfolding all_captured
  none_captured [] h = refl
  none_captured (op ∷ ops) h = by_first op.captured h
    where
      by_rest :
          (cap : CapturedSql) (r : Result (List (OpInfo × CapturedSql)))
          → elim r [ err e ↦ err e | ok caps ↦ ok ((op.info, cap) ∷ caps) ] ≡ ok []
          → op ∷ ops ≡ []
      by_rest cap (err e) k = cc
      by_rest cap (ok caps) k = cc

      by_first :
          (c : Result CapturedSql)
          → elim c [
            | err e ↦ err e
            | ok cap ↦ elim (all_captured ops) [
              | err e ↦ err e
              | ok caps ↦ ok ((op.info, cap) ∷ caps)
            ]
          ]
            ≡ ok []
          → op ∷ ops ≡ []
      by_first (err e) k = cc
      by_first (ok cap) k = by_rest cap (all_captured ops) k

  on_captured-Committed :
      (run : Statement → Answer Row) (ops : List (Op Row R))
      (r : Result (List (OpInfo × CapturedSql)))
      → all_captured ops ≡ r
      → Committed (on_captured run ops r)
  unfolding on_captured
  on_captured-Committed run ops (err e) h = fail_commit-Committed ops e none
  on_captured-Committed run ops (ok (c ∷ caps)) h =
      on_compiled-Committed run ops (compile (c ∷ caps))
  on_captured-Committed run ops (ok []) h =
      (refl, subst (All IsSettled) (sym (none_captured ops h)) tt, tt)

  -- The commit of an open transaction ends with the transaction committed and every handle settled,
  -- whatever the captures, the compilation, the server and the reading of the rows come to. Where it
  -- throws, every handle throws that same error.
  pub commit-settles :
      (run : Statement → Answer Row) (tx : Tx Row R) → tx.state ≡ opened → Committed (commit run tx)
  unfolding commit
  commit-settles run tx h = rw h (on_captured-Committed run tx.ops (all_captured tx.ops) refl)

  abbrev pub IsFresh : Op Row R → Type 0
  IsFresh op = (op.deferred.settled ≡ false) × (op.deferred.error ≡ none)

  abbrev pub Reads : ℕ → Payload Row → List (Op Row R) → List (Op Row R) → Type 0
  Reads i payload [] [] = Unit
  Reads i payload (op ∷ ops) (op' ∷ ops') =
      (read op'.deferred ≡ as_read (op.finalize (rows_at (codes "__r" ++ decimal i) payload)))
      × Reads (i + 1) payload ops ops'
  Reads i payload _ _ = ⊥

  finalize_from-Reads :
      (i : ℕ) (payload : Payload Row) (ops : List (Op Row R))
      → All IsFresh ops
      → Reads i payload ops (finalize_from i payload ops)
  unfolding finalize_from finalize_op
  finalize_from-Reads i payload [] h = tt
  finalize_from-Reads i payload (op ∷ ops) ((s, e), h) =
      (read-settle _ op.deferred e, finalize_from-Reads (i + 1) payload ops h)

  -- The one statement was compiled from the captures of all the operations, the server answered it,
  -- and every handle reads what its finalizer makes of its own rows.
  abbrev pub Answered : (Statement → Answer Row) → List (Op Row R) → Outcome Row R → Type 0
  Answered run ops o =
      (caps : List (OpInfo × CapturedSql)) × (s : Statement) × (rows : List (Payload Row))
      × (all_captured ops ≡ ok caps)
      × (compile caps ≡ Merge.ok s)
      × (run s ≡ answered rows)
      × (o.sent ≡ some s)
      × Reads 0 (payload_of rows) ops o.tx.ops

  abbrev pub Returned :
      (Statement → Answer Row) → List (Op Row R) → Outcome Row R → Result Unit → Type 0
  Returned run ops o (ok _) = ((ops ≡ []) × (o.sent ≡ none)) ⊎ Answered run ops o
  Returned run ops o (err e) = Unit

  abbrev Returns : (Statement → Answer Row) → List (Op Row R) → Outcome Row R → Type 0
  Returns run ops o = Returned run ops o o.result

  on_answer-Returns :
      (run : Statement → Answer Row) (ops : List (Op Row R)) (caps : List (OpInfo × CapturedSql))
      (s : Statement) (a : Answer Row)
      → All IsFresh ops
      → all_captured ops ≡ ok caps
      → compile caps ≡ Merge.ok s
      → run s ≡ a
      → Returns run ops (on_answer ops s a)
  unfolding on_answer fail_commit
  on_answer-Returns run ops caps s (answered rows) f h c e =
      inr (caps, s, rows, h, c, e, refl, finalize_from-Reads 0 _ ops f)
  on_answer-Returns run ops caps s (refused x) f h c e = tt

  on_compiled-Returns :
      (run : Statement → Answer Row) (ops : List (Op Row R)) (caps : List (OpInfo × CapturedSql))
      (m : Merge.Merged Statement)
      → All IsFresh ops
      → all_captured ops ≡ ok caps
      → compile caps ≡ m
      → Returns run ops (on_compiled run ops m)
  unfolding on_compiled fail_commit
  on_compiled-Returns run ops caps (Merge.ok s) f h c =
      on_answer-Returns run ops caps s (run s) f h c refl
  on_compiled-Returns run ops caps (Merge.err e) f h c = tt

  on_captured-Returns :
      (run : Statement → Answer Row) (ops : List (Op Row R))
      (r : Result (List (OpInfo × CapturedSql)))
      → All IsFresh ops
      → all_captured ops ≡ r
      → Returns run ops (on_captured run ops r)
  unfolding on_captured fail_commit
  on_captured-Returns run ops (err e) f h = tt
  on_captured-Returns run ops (ok []) f h = inl (none_captured ops h, refl)
  on_captured-Returns run ops (ok (c ∷ caps)) f h =
      on_compiled-Returns run ops (c ∷ caps) (compile (c ∷ caps)) f h refl

  -- Where the commit of an open transaction with fresh handles returns, either there is no
  -- operation and nothing was sent, or it sent the one statement that the captures compile to, the
  -- server answered it, and each handle reads what its operation makes of its own rows.
  pub commit-Returned :
      (run : Statement → Answer Row) (tx : Tx Row R)
      → tx.state ≡ opened
      → All IsFresh tx.ops
      → Returned run tx.ops (commit run tx) (commit run tx).result
  unfolding commit
  commit-Returned run tx h f = rw h (on_captured-Returns run tx.ops (all_captured tx.ops) f refl)
