-- ===== src/Migrations/Io/Triple.antt =====
-- Rules for the outcome of a program and for what an observer makes of the queries that it sends.
use primebrick_v3_dal.Base.{List, [], ◌∷◌, ◌++◌, ◌≡◌, refl}
use primebrick_v3_dal.Migrations.Io.{
  EngineError, Out, ok, thrown, Event, Io, pure, raise, resume, recover, ◌>>=◌, try_catch,
  finally_ignore,
}

module _ {S : Type 0} (step : S → Event → S) where
  unfoldable pub observe_all : S → List Event → S
  observe_all s [] = s
  observe_all s (e ∷ t) = observe_all (step s e) t

  pub observe_all-append :
      (s : S) (t u : List Event) → observe_all s (t ++ u) ≡ observe_all (observe_all s t) u
  unfolding observe_all
  observe_all-append s [] u = refl
  observe_all-append s (e ∷ t) u = observe_all-append (step s e) t u

  module _ {C : Type 0} where
    -- From an observation in `P`, the program ends with an outcome and an observation in `Q`.
    pub record Triple {A : Type 0} (P : S → Type 0) (m : Io C A) (Q : Out A → S → Type 0)
        : Type 0 where
      pub at : (c : C) (s : S) → P s → Q (m c).0 (observe_all s (m c).1)

    pub Triple-pure :
        {A : Type 0} {P : S → Type 0} (a : A) (Q : Out A → S → Type 0)
        → ((s : S) → P s → Q (ok a) s)
        → Triple P (pure a) Q
    unfolding observe_all
    Triple-pure a Q h = record { at = λ c s p. h s p }

    pub Triple-raise :
        {A : Type 0} {P : S → Type 0} (e : EngineError) (Q : Out A → S → Type 0)
        → ((s : S) → P s → Q (thrown e) s)
        → Triple P (raise e) Q
    unfolding observe_all
    Triple-raise e Q h = record { at = λ c s p. h s p }

    module _ {A B : Type 0} (Q : Out B → S → Type 0) where
      resume_lem :
          (f : A → Io C B) (o : Out A) (t : List Event) (c : C) (s : S) (R : Out A → S → Type 0)
          → R o (observe_all s t)
          → ((a : A) → Triple (R (ok a)) (f a) Q)
          → ((e : EngineError) (s : S) → R (thrown e) s → Q (thrown e) s)
          → Q (resume o f t c).0 (observe_all s (resume o f t c).1)
      unfolding resume
      resume_lem f (ok a) t c s R r h k = rw observe_all-append ((h a).at c (observe_all s t) r)
      resume_lem f (thrown e) t c s R r h k = k e (observe_all s t) r

      pub Triple-bind :
          {P : S → Type 0} (R : Out A → S → Type 0) (m : Io C A) (f : A → Io C B)
          → Triple P m R
          → ((a : A) → Triple (R (ok a)) (f a) Q)
          → ((e : EngineError) (s : S) → R (thrown e) s → Q (thrown e) s)
          → Triple P (m >>= f) Q
      unfolding ◌>>=◌
      Triple-bind R m f hm hf k = record {
        at = λ c s p. resume_lem f (m c).0 (m c).1 (m c).2 s R (hm.at c s p) hf k;
      }

    module _ {A : Type 0} (Q : Out A → S → Type 0) where
      recover_lem :
          (h : EngineError → Io C A) (o : Out A) (t : List Event) (c : C) (s : S)
          (R : Out A → S → Type 0)
          → R o (observe_all s t)
          → ((e : EngineError) → Triple (R (thrown e)) (h e) Q)
          → ((a : A) (s : S) → R (ok a) s → Q (ok a) s)
          → Q (recover o h t c).0 (observe_all s (recover o h t c).1)
      unfolding recover
      recover_lem h (ok a) t c s R r k l = l a (observe_all s t) r
      recover_lem h (thrown e) t c s R r k l =
          rw observe_all-append ((k e).at c (observe_all s t) r)

      pub Triple-try_catch :
          {P : S → Type 0} (R : Out A → S → Type 0) (m : Io C A) (h : EngineError → Io C A)
          → Triple P m R
          → ((e : EngineError) → Triple (R (thrown e)) (h e) Q)
          → ((a : A) (s : S) → R (ok a) s → Q (ok a) s)
          → Triple P (try_catch m h) Q
      unfolding try_catch
      Triple-try_catch R m h hm k l = record {
        at = λ c s p. recover_lem h (m c).0 (m c).1 (m c).2 s R (hm.at c s p) k l;
      }

      pub Triple-finally_ignore :
          {B : Type 0} {P : S → Type 0} (R : Out A → S → Type 0) (m : Io C A) (n : Io C B)
          → Triple P m R
          → ((o : Out A) → Triple (R o) n (λ _. Q o))
          → Triple P (finally_ignore m n) Q
      unfolding finally_ignore
      Triple-finally_ignore R m n hm k = record {
        at = λ c s p.
            rw observe_all-append ((k (m c).0).at (m c).2 (observe_all s (m c).1) (hm.at c s p));
      }

    pub Triple-weaken :
        {A : Type 0} {P P' : S → Type 0} {m : Io C A} {Q : Out A → S → Type 0}
        → ((s : S) → P s → P' s)
        → Triple P' m Q
        → Triple P m Q
    Triple-weaken h t = record { at = λ c s p. t.at c s (h s p) }

    pub Triple-strengthen :
        {A : Type 0} {P : S → Type 0} {m : Io C A} {Q Q' : Out A → S → Type 0}
        → ((o : Out A) (s : S) → Q o s → Q' o s)
        → Triple P m Q
        → Triple P m Q'
    Triple-strengthen {m} h t = record { at = λ c s p. h (m c).0 _ (t.at c s p) }

    -- The observation before may be taken as known.
    pub Triple-fix :
        {A : Type 0} {P : S → Type 0} {m : Io C A} {Q : Out A → S → Type 0}
        → ((s : S) → P s → Triple (λ s'. s' ≡ s) m Q)
        → Triple P m Q
    Triple-fix h = record { at = λ c s p. (h s p).at c s refl }
