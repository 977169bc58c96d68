-- ===== src/Dal/Client/Released.antt =====
-- What a transaction over a client of the pool leaves behind.
use primebrick_v3_dal.Base.{
  ℕ, ◌+◌, ◌≤◌, Bool, true, false, Option, none, some, List, [], ◌∷◌, ◌≡◌, ◌≢◌, any, arith,
}
use primebrick_v3_dal.Dal.Client.{
  begin_tx, commit_tx, rollback_tx, set_timeout, ClientEvent, sent, worked, released, Outcome,
  returned, threw, Pool, query, set_session_timeout, reset_timeout, with_client, done_work,
  set_local, roll_back, attempt, transaction, ◌>>=◌,
}

abbrev pub is_commit : ClientEvent → Bool
is_commit (sent commit_tx true) = true
is_commit _ = false

abbrev pub is_begin : ClientEvent → Bool
is_begin (sent begin_tx true) = true
is_begin _ = false

abbrev pub is_rollback : ClientEvent → Bool
is_rollback (sent rollback_tx b) = true
is_rollback _ = false

abbrev pub releases : List ClientEvent → ℕ
releases [] = 0
releases (released ∷ log) = releases log + 1
releases (sent q b ∷ log) = releases log
releases (worked b ∷ log) = releases log

-- A transaction that returns was committed; one that throws was not, and was rolled back if begun.
abbrev pub Settled : {A : Type 0} → Outcome A → List ClientEvent → Type 0
Settled (returned a) log =
    (any is_commit log ≡ true) × (any is_rollback log ≡ false) × (releases log ≡ 1)
Settled (threw e) log =
    (any is_commit log ≡ false) × (any is_rollback log ≡ any is_begin log) × (releases log ≤ 1)

module _ {C A : Type 0} (pool : Pool C) (work : C → Outcome A × C) where
  transaction-Settled :
      (timeout : Option ℕ) (c : C)
      → Settled (transaction pool timeout work c).0 (transaction pool timeout work c).1
  unfolding transaction with_client attempt roll_back query set_local set_session_timeout
      reset_timeout
  transaction-Settled timeout c = ground arith

  -- A transaction over a client that was connected: whatever the server answers and the caller's work
  -- does, one that returns has committed and not rolled back, one that throws has not committed and
  -- has sent ROLLBACK just if its BEGIN succeeded, and the client is released once.
  pub transaction-Released :
      (timeout : Option ℕ) (c : C)
      → (pool.connect c).0 ≡ none
      → Settled (transaction pool timeout work c).0 (transaction pool timeout work c).1
        × (releases (transaction pool timeout work c).1 ≡ 1)
  unfolding transaction with_client attempt roll_back query set_local set_session_timeout
      reset_timeout
  transaction-Released timeout c h = ground arith

module _ {C A : Type 0} (pool : Pool C) (work : C → Outcome A × C) where
  -- With an override of the timeout, a client that the reset of the timeout fails on is never
  -- released.
  pub with_client_leaks :
      (ms : ℕ) (c : C)
      → ((d : C) → (pool.send (set_timeout pool.statement_timeout_ms) d).0 ≢ none)
      → releases (with_client pool (some ms) (λ d. done_work (work d)) c).1 ≡ 0
  unfolding with_client query set_session_timeout reset_timeout
  with_client_leaks ms c h = ground (
    arith,
    h ((set_session_timeout pool (some ms) >>= λ _ d. done_work (work d)) (pool.connect c).1).2,
  )
