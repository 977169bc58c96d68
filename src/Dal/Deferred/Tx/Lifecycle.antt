-- ===== src/Dal/Deferred/Tx/Lifecycle.antt =====
-- The life of a buffered transaction over any list of calls of its methods.
use primebrick_v3_dal.Base.{
  ◌≤◌, Option, none, some, List, [], ◌∷◌, ◌≡◌, ◌≢◌, ◌⊎◌, inl, inr, refl, length, arith,
}
use primebrick_v3_dal.Dal.Deferred.Merge.{Statement}
use primebrick_v3_dal.Dal.Deferred.Tx.{
  State, opened, committed, discarded, Request, Tx, Answer, Outcome, commit, discard, register,
  on_audit, buffer,
}
use primebrick_v3_dal.Dal.Deferred.Tx.Commit.{commit-settles}

-- A call of a method, the commit with the server that answers it.
pub data Call (Row R : Type 0) : Type 0 where
  buffer_call : Request Row R → Call Row R
  commit_call : (Statement → Answer Row) → Call Row R
  discard_call : Call Row R

abbrev pub with_sent : Option Statement → List Statement → List Statement
with_sent none ss = ss
with_sent (some s) ss = s ∷ ss

pub state_cases : (s : State) → (s ≡ opened) ⊎ (s ≢ opened)
state_cases opened = inl refl
state_cases committed = inr (λ h. cc)
state_cases discarded = inr (λ h. cc)

closed : (s : State) → s ≡ committed → s ≢ opened
closed s e h = cc

one_sent : (s : Option Statement) → length (with_sent s []) ≤ 1
one_sent none = omega arith
one_sent (some s) = omega arith

closed_cases : (s : State) → s ≢ opened → (s ≡ committed) ⊎ (s ≡ discarded)
closed_cases opened h = elim (h refl) [ ]
closed_cases committed h = inl refl
closed_cases discarded h = inr refl

module _ {Row R : Type 0} where
  unfoldable pub new_tx : Tx Row R
  new_tx = record { ops = []; state = opened }

  unfoldable pub call : Call Row R → Tx Row R → Outcome Row R
  unfolding buffer commit discard
  call (buffer_call r) tx = buffer r tx
  call (commit_call run) tx = commit run tx
  call discard_call tx = discard tx

  -- The statements sent, in order, and the transaction that is left.
  unfoldable pub run_calls : List (Call Row R) → Tx Row R → List Statement × Tx Row R
  unfolding call
  run_calls [] tx = ([], tx)
  run_calls (c ∷ cs) tx =
      let (ss, tx') = run_calls cs (call c tx).tx in (with_sent (call c tx).sent ss, tx')

  abbrev pub Kept : Tx Row R → Outcome Row R → Type 0
  Kept tx o = (o.tx ≡ tx) × (o.sent ≡ none)

  register-Kept : (r : Request Row R) (tx : Tx Row R) → tx.state ≢ opened → Kept tx (register r tx)
  unfolding register
  register-Kept r tx h = elim (closed_cases tx.state h) [
    | inl e ↦ rw e (refl, refl)
    | inr e ↦ rw e (refl, refl)
  ]

  buffer-Kept : (r : Request Row R) (tx : Tx Row R) → tx.state ≢ opened → Kept tx (buffer r tx)
  unfolding buffer
  buffer-Kept r tx h = ground (arith, register-Kept r tx h)

  commit-Kept :
      (run : Statement → Answer Row) (tx : Tx Row R) → tx.state ≢ opened → Kept tx (commit run tx)
  unfolding commit
  commit-Kept run tx h = elim (closed_cases tx.state h) [
    | inl e ↦ rw e (refl, refl)
    | inr e ↦ rw e (refl, refl)
  ]

  discard-Kept : (tx : Tx Row R) → tx.state ≢ opened → Kept tx (discard tx)
  unfolding discard
  discard-Kept tx h = elim (closed_cases tx.state h) [
    | inl e ↦ rw e (refl, refl)
    | inr e ↦ rw e (refl, refl)
  ]

  pub call-Kept : (c : Call Row R) (tx : Tx Row R) → tx.state ≢ opened → Kept tx (call c tx)
  unfolding call
  call-Kept (buffer_call r) tx h = buffer-Kept r tx h
  call-Kept (commit_call run) tx h = commit-Kept run tx h
  call-Kept discard_call tx h = discard-Kept tx h

  -- Once a transaction is committed or discarded, no calls change it or send a statement.
  pub closed_absorbs :
      (cs : List (Call Row R)) (tx : Tx Row R) → tx.state ≢ opened → run_calls cs tx ≡ ([], tx)
  unfolding run_calls
  closed_absorbs [] tx h = refl
  closed_absorbs (c ∷ cs) tx h =
      let (t, s) = call-Kept c tx h in rw (t, s, closed_absorbs cs tx h) refl

  closed_silent :
      (cs : List (Call Row R)) (tx : Tx Row R) → tx.state ≢ opened → length (run_calls cs tx).0 ≤ 1
  closed_silent cs tx h = rw (closed_absorbs cs tx h) (omega arith)

  buffer_quiet : (r : Request Row R) (tx : Tx Row R) → (buffer r tx).sent ≡ none
  unfolding buffer register on_audit
  buffer_quiet r tx = ground arith

  discard_quiet : (tx : Tx Row R) → (discard tx).sent ≡ none
  unfolding discard
  discard_quiet tx = ground arith

  -- Over any calls, whatever the captures and the server do, at most one statement is sent.
  pub sent_at_most_once : (cs : List (Call Row R)) (tx : Tx Row R) → length (run_calls cs tx).0 ≤ 1
  unfolding run_calls call
  sent_at_most_once [] tx = omega arith
  sent_at_most_once (c ∷ cs) tx = elim (state_cases tx.state) [
    | inr h ↦ closed_silent (c ∷ cs) tx h
    | inl h ↦ by_call c h (λ tx'. sent_at_most_once cs tx')
  ]
    where
      by_call :
          (d : Call Row R)
          → tx.state ≡ opened
          → ((tx' : Tx Row R) → length (run_calls cs tx').0 ≤ 1)
          → length (run_calls (d ∷ cs) tx).0 ≤ 1
      by_call (buffer_call r) h ih = rw (buffer_quiet r tx) (ih (buffer r tx).tx)
      by_call discard_call h ih = rw (discard_quiet tx) (ih (discard tx).tx)
      by_call (commit_call run) h ih =
          rw
            (closed_absorbs cs (commit run tx).tx
              (closed (commit run tx).tx.state (commit-settles run tx h).0))
            (one_sent (commit run tx).sent)
