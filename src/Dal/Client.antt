-- ===== src/Dal/Client.antt =====
-- `withClient` and `transaction` of src/dal/dal.ts, over a client of the pool. The pool, the answers
-- of the server and the caller's work are parameters; what is sent and released is logged.
pub mod Released
use primebrick_v3_dal.Base.{ℕ, Bool, true, false, Option, none, some, List, [], ◌∷◌, ◌++◌, Text}

pub data ClientQuery : Type 0 where
  begin_tx commit_tx rollback_tx : ClientQuery
  set_timeout set_local_timeout : ℕ → ClientQuery

pub data ClientEvent : Type 0 where
  sent : ClientQuery → Bool → ClientEvent
  worked : Bool → ClientEvent
  released : ClientEvent

pub data Outcome (A : Type 0) : Type 0 where
  returned : A → Outcome A
  threw : Text → Outcome A

abbrev pub Io : Type 0 → Type 0 → Type 0
Io C A = C → Outcome A × List ClientEvent × C

abbrev pub Done : Type 0 → Type 0 → Type 0
Done C A = Outcome A × List ClientEvent × C

module _ {C : Type 0} where
  abbrev pub pure : {A : Type 0} → A → Io C A
  pure a c = (returned a, [], c)

  abbrev pub throw : {A : Type 0} → Text → Io C A
  throw e c = (threw e, [], c)

  abbrev pub logged : {A : Type 0} → List ClientEvent → Done C A → Done C A
  logged log (r, log', c) = (r, log ++ log', c)

  abbrev pub continue : {A B : Type 0} → Done C A → (A → Io C B) → Done C B
  continue (returned a, log, c) f = logged log (f a c)
  continue (threw e, log, c) f = (threw e, log, c)

  infixl 5 ◌>>=◌
  abbrev pub ◌>>=◌ : {A B : Type 0} → Io C A → (A → Io C B) → Io C B
  (m >>= f) c = continue (m c) f

  abbrev pub caught : {A : Type 0} → Done C A → (Text → Io C A) → Done C A
  caught (returned a, log, c) f = (returned a, log, c)
  caught (threw e, log, c) f = logged log (f e c)

  -- try … catch
  abbrev pub try_catch : {A : Type 0} → Io C A → (Text → Io C A) → Io C A
  try_catch m f c = caught (m c) f

  abbrev pub after_last : {A : Type 0} → Outcome A → Done C Unit → Done C A
  after_last r (returned _, log, c) = (r, log, c)
  after_last r (threw e, log, c) = (threw e, log, c)

  abbrev pub at_last : {A : Type 0} → Done C A → Io C Unit → Done C A
  at_last (r, log, c) f = logged log (after_last r (f c))

  -- try … finally: an error of the last part takes the place of what there was.
  abbrev pub try_finally : {A : Type 0} → Io C A → Io C Unit → Io C A
  try_finally m f c = at_last (m c) f

  -- What the caller does with the repository of the transaction.
  abbrev pub done_work : {A : Type 0} → Outcome A × C → Done C A
  done_work (returned a, c) = (returned a, worked true ∷ [], c)
  done_work (threw e, c) = (threw e, worked false ∷ [], c)

  -- client.release()
  abbrev pub release : Io C Unit
  release c = (returned tt, released ∷ [], c)

-- `pool.connect()` and the server: an error, or nothing.
pub record Pool (C : Type 0) : Type 0 where
  pub connect : C → Option Text × C
  pub send : ClientQuery → C → Option Text × C
  pub statement_timeout_ms : ℕ

module _ {C : Type 0} (pool : Pool C) where
  abbrev pub answer : ClientQuery → Option Text × C → Done C Unit
  answer q (none, c) = (returned tt, sent q true ∷ [], c)
  answer q (some e, c) = (threw e, sent q false ∷ [], c)

  unfoldable pub query : ClientQuery → Io C Unit
  query q c = answer q (pool.send q c)

  abbrev pub on_connect : {A : Type 0} → Option Text × C → Io C A → Done C A
  on_connect (none, c) m = m c
  on_connect (some e, c) m = (threw e, [], c)

  unfoldable pub set_session_timeout : Option ℕ → Io C Unit
  unfolding query
  set_session_timeout none = pure tt
  set_session_timeout (some ms) = query (set_timeout ms)

  -- The default of the session, where an override was set.
  unfoldable pub reset_timeout : Option ℕ → Io C Unit
  unfolding query
  reset_timeout none = pure tt
  reset_timeout (some ms) = query (set_timeout pool.statement_timeout_ms)

  unfoldable pub with_client : {A : Type 0} → Option ℕ → Io C A → Io C A
  unfolding set_session_timeout reset_timeout
  with_client timeout fn c = on_connect (pool.connect c) (
      try_finally (set_session_timeout timeout >>= λ _. fn)
        (reset_timeout timeout >>= λ _. release))

  unfoldable pub set_local : Option ℕ → Io C Unit
  unfolding query
  set_local none = pure tt
  set_local (some ms) = query (set_local_timeout ms)

  -- ROLLBACK, whose error is dropped, and the error of before.
  unfoldable pub roll_back : {A : Type 0} → Text → Io C A
  unfolding query
  roll_back e = try_catch (query rollback_tx) (λ _. pure tt) >>= λ _. throw e

  unfoldable pub attempt : {A : Type 0} → Option ℕ → (C → Outcome A × C) → Io C A
  unfolding set_local query
  attempt timeout work =
      set_local timeout >>= λ _. (λ c. done_work (work c)) >>= λ a. query commit_tx >>= λ _. pure a

  unfoldable pub transaction : {A : Type 0} → Option ℕ → (C → Outcome A × C) → Io C A
  unfolding with_client query attempt roll_back
  transaction timeout work =
      with_client none (query begin_tx >>= λ _. try_catch (attempt timeout work) roll_back)
