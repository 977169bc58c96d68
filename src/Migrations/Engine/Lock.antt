-- ===== src/Migrations/Engine/Lock.antt =====
-- The wait for the advisory lock ends.
use primebrick_v3_dal.Base.{
  ℕ, zero, suc, ◌-◌, ◌≤◌, ◌<◌, Bool, true, false, ◌≡◌, ◌≢◌, Text, arith, leb, List, [], ◌∷◌,
  Bool-cases, inl, inr,
}
use primebrick_v3_dal.Migrations.Io.{
  Query, try_lock, Reply, rejected, returned, Rows, Out, ok, thrown, Io, ◌>>=◌, resume, Host,
  out_of_fuel, Event, query_failed,
}
use primebrick_v3_dal.Migrations.Engine.Defs.{
  query, clock, pause, on_try, lock_loop, acquire_advisory_lock, is_locked,
}

-- `Date.now()` reads a time that never goes back, and that a pause moves on.
pub record Ticks (host : Host) (time : host.Conn → ℕ) : Type 0 where
  pub reads : (c : host.Conn) → (host.now c).0 ≡ time c
  pub now_keeps : (c : host.Conn) → time c ≤ time (host.now c).1
  pub send_keeps : (q : Query) (c : host.Conn) → time c ≤ time (host.send q c).1
  pub sleep_moves : (c : host.Conn) → time c < time (host.sleep c)

module _ (host : Host) (time : host.Conn → ℕ) (ticks : Ticks host time) where
  abbrev Ends : {A : Type 0} → Io host.Conn A → host.Conn → Type 0
  Ends m c = (m c).0 ≢ thrown out_of_fuel

  on_try-Ends :
      (b : Bool) (deadline fuel : ℕ) (again : Io host.Conn Bool) (c : host.Conn)
      → ((c : host.Conn) → deadline - time c < fuel → Ends again c)
      → deadline - time c < suc fuel
      → Ends (on_try host b deadline again) c
  unfolding on_try ◌>>=◌ clock pause
  on_try-Ends true deadline fuel again c h fits = cc
  on_try-Ends false deadline fuel again c h fits = elim (Bool-cases (leb deadline (host.now c).0)) [
    | inl late ↦ rw late (cc)
    | inr early ↦ rw early (
        h (host.sleep (host.now c).1)
          (ground (arith, ticks.reads c, ticks.now_keeps c, ticks.sleep_moves (host.now c).1)))
  ]

  lock_loop-Ends :
      (fuel deadline : ℕ) (schema : Text) (c : host.Conn)
      → deadline - time c < fuel
      → Ends (lock_loop host fuel schema deadline) c
  unfolding lock_loop ◌>>=◌ query
  lock_loop-Ends zero deadline schema c fits = absurd (omega arith)
  lock_loop-Ends (suc fuel) deadline schema c fits =
      by_reply (host.send (try_lock schema) c).0 (host.send (try_lock schema) c).1
        (ticks.send_keeps (try_lock schema) c) (λ c. lock_loop-Ends fuel deadline schema c)
    where
      q : Query
      q = try_lock schema

      by_reply :
          (reply : Reply) (c' : host.Conn)
          → time c ≤ time c'
          → ((c : host.Conn)
              → deadline - time c < fuel
              → Ends (lock_loop host fuel schema deadline) c)
          → let r : Out Rows × List Event × host.Conn = elim reply [
            | rejected m ↦ (thrown (query_failed m), (q, false) ∷ [], c')
            | returned rows ↦ (ok rows, (q, true) ∷ [], c')
          ] in
            (resume r.0
              (λ rows. on_try host (is_locked rows) deadline (lock_loop host fuel schema deadline))
              r.1
              r.2).0
            ≢ thrown out_of_fuel
      by_reply (rejected m) c' later ih = cc
      by_reply (returned rows) c' later ih =
          on_try-Ends (is_locked rows) deadline fuel (lock_loop host fuel schema deadline) c' ih
            (omega arith)

  -- If the clock never goes back and a pause moves it on, one round for each millisecond of the
  -- wait budget and one more are fuel enough: the lock is taken, found held, or a query failed.
  pub acquire_advisory_lock-ends :
      (fuel wait_ms : ℕ) (schema : Text) (c : host.Conn)
      → wait_ms < fuel
      → (acquire_advisory_lock host fuel schema wait_ms c).0 ≢ thrown out_of_fuel
  unfolding acquire_advisory_lock ◌>>=◌ clock
  acquire_advisory_lock-ends fuel wait_ms schema c enough =
      lock_loop-Ends fuel _ schema (host.now c).1 (omega (arith, ticks.reads c, ticks.now_keeps c))
