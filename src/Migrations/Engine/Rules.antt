-- ===== src/Migrations/Engine/Rules.antt =====
-- The rules for the smallest programs of the engine.
use primebrick_v3_dal.Base.{ℕ, true, false, List, [], ◌∷◌, Text}
use primebrick_v3_dal.Migrations.Io.{
  Query, Reply, rejected, returned, Rows, query_failed, Out, ok, thrown, Event, Host,
}
use primebrick_v3_dal.Migrations.Io.Triple.{Triple, observe_all}
use primebrick_v3_dal.Migrations.Engine.Defs.{query, clock, pause}

module _ {S : Type 0} (step : S → Event → S) (host : Host) where
  reply_lem :
      (q : Query) (reply : Reply) (c : host.Conn) (s : S) (Q : Out Rows → S → Type 0)
      → ((r : Rows) → Q (ok r) (step s (q, true)))
      → ((m : Text) → Q (thrown (query_failed m)) (step s (q, false)))
      → let r : Out Rows × List Event × host.Conn = elim reply [
        | rejected m ↦ (thrown (query_failed m), (q, false) ∷ [], c)
        | returned rows ↦ (ok rows, (q, true) ∷ [], c)
      ] in
        Q r.0 (observe_all step s r.1)
  unfolding observe_all
  reply_lem q (rejected m) c s Q h k = k m
  reply_lem q (returned r) c s Q h k = h r

  pub Triple-query :
      {P : S → Type 0} (q : Query) (Q : Out Rows → S → Type 0)
      → ((r : Rows) (s : S) → P s → Q (ok r) (step s (q, true)))
      → ((m : Text) (s : S) → P s → Q (thrown (query_failed m)) (step s (q, false)))
      → Triple step P (query host q) Q
  unfolding query
  Triple-query q Q h k = record {
    at = λ c s p. reply_lem q (host.send q c).0 (host.send q c).1 s Q (λ r. h r s p) (λ m. k m s p);
  }

  pub Triple-clock :
      {P : S → Type 0} (Q : Out ℕ → S → Type 0)
      → ((n : ℕ) (s : S) → P s → Q (ok n) s)
      → Triple step P (clock host) Q
  unfolding clock observe_all
  Triple-clock Q h = record { at = λ c s p. h (host.now c).0 s p }

  pub Triple-pause :
      {P : S → Type 0} (Q : Out Unit → S → Type 0)
      → ((s : S) → P s → Q (ok tt) s)
      → Triple step P (pause host) Q
  unfolding pause observe_all
  Triple-pause Q h = record { at = λ c s p. h s p }
