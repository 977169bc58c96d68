-- ===== src/Migrations/Engine/Order.antt =====
-- The order of the loop: the files are handled in order, and it stops at the first that blocks.
use primebrick_v3_dal.Base.{
  false, List, [], ◌∷◌, ◌++◌, ◌≡◌, refl, ◌⊎◌, inl, inr, some, none, Text, Option, map, is_empty,
  not, append_assoc,
}
use primebrick_v3_dal.Migrations.Registry.{Registry}
use primebrick_v3_dal.Migrations.Manifest.{TrustedKey}
use primebrick_v3_dal.Migrations.Io.{Out, ok, thrown, Io, Host, Event}
use primebrick_v3_dal.Migrations.Io.Triple.{Triple, Triple-bind, Triple-pure}
use primebrick_v3_dal.Migrations.Engine.Defs.{
  PatchFile, Options, MigrationRunResult, Verdict, skip, review, run, verdict,
}
use primebrick_v3_dal.Migrations.Engine.Run.{
  after_attempt, on_verdict, apply_files, add_skipped, add_applied, add_failed, add_review,
}

-- Two lists of names taken from one list, each in its order.
pub data Merged : List Text → List Text → List Text → Type 0 where
  start : Merged [] [] []
  skipped_next :
      {s a h : List Text} (n : Text) → Merged s a h → Merged (s ++ n ∷ []) a (h ++ n ∷ [])
  applied_next :
      {s a h : List Text} (n : Text) → Merged s a h → Merged s (a ++ n ∷ []) (h ++ n ∷ [])

-- The names that a report gives as failed or as waiting for a review.
abbrev pub blocked : MigrationRunResult → List Text
blocked r = map (λ p. p.0) r.failed_patches ++ r.pending_reviews

-- A report on the files `all`: those before the first that blocks were skipped or applied, in
-- order; that one, if there is one, is the one reported as blocked, and the run is degraded just
-- then. Mode and security events are those of `r0`.
pub record Reports (all : List Text) (r0 r : MigrationRunResult) : Type 0 where
  pub handled : List Text
  pub rest : List Text
  pub split : all ≡ handled ++ rest
  pub merged : Merged r.skipped r.applied_patches handled
  pub stops :
      ((rest ≡ []) × (blocked r ≡ []))
      ⊎ ((n : Text) × (later : List Text) × (rest ≡ n ∷ later) × (blocked r ≡ n ∷ []))
  pub degraded : r.degraded ≡ not (is_empty (blocked r))
  pub mode : r.mode ≡ r0.mode
  pub events : r.security_events ≡ r0.security_events

-- The loop with `handled` behind it and nothing blocked.
pub record Walking (handled : List Text) (r0 r : MigrationRunResult) : Type 0 where
  pub merged : Merged r.skipped r.applied_patches handled
  pub no_failure : r.failed_patches ≡ []
  pub no_review : r.pending_reviews ≡ []
  pub healthy : r.degraded ≡ false
  pub mode : r.mode ≡ r0.mode
  pub events : r.security_events ≡ r0.security_events

-- A fact about the value returned, whatever was observed.
abbrev pub Returns : {S A : Type 0} → (A → Type 0) → Out A → S → Type 0
Returns P (ok a) s = P a
Returns P (thrown e) s = Unit

abbrev pub names : List PatchFile → List Text
names fs = map (λ f. f.patch_name) fs

module _ (all : List Text) (r0 : MigrationRunResult) (handled : List Text) (n : Text)
    (later : List Text) (split : all ≡ handled ++ n ∷ later) (r : MigrationRunResult)
    (w : Walking handled r0 r) where
  Reports-review : Reports all r0 (add_review n r)
  Reports-review = record {
    handled = handled;
    rest = n ∷ later;
    split = split;
    merged = w.merged;
    stops = inr (n, later, refl, rw (w.no_failure, w.no_review) refl);
    degraded = rw (w.no_failure, w.no_review) refl;
    mode = w.mode;
    events = w.events;
  }

  Reports-failed : (e : Text) → Reports all r0 (add_failed n e r)
  Reports-failed e = record {
    handled = handled;
    rest = n ∷ later;
    split = split;
    merged = w.merged;
    stops = inr (n, later, refl, rw (w.no_failure, w.no_review) refl);
    degraded = rw w.no_failure refl;
    mode = w.mode;
    events = w.events;
  }

  Walking-skipped : Walking (handled ++ n ∷ []) r0 (add_skipped n r)
  Walking-skipped = record {
    merged = skipped_next n w.merged;
    no_failure = w.no_failure;
    no_review = w.no_review;
    healthy = w.healthy;
    mode = w.mode;
    events = w.events;
  }

  Walking-applied : Walking (handled ++ n ∷ []) r0 (add_applied n r)
  Walking-applied = record {
    merged = applied_next n w.merged;
    no_failure = w.no_failure;
    no_review = w.no_review;
    healthy = w.healthy;
    mode = w.mode;
    events = w.events;
  }

  split_next : all ≡ (handled ++ n ∷ []) ++ later
  split_next = rw append_assoc split

Reports-end :
    (all handled : List Text) (r0 r : MigrationRunResult)
    → all ≡ handled ++ []
    → Walking handled r0 r
    → Reports all r0 r
Reports-end all handled r0 r split w = record {
  handled = handled;
  rest = [];
  split = split;
  merged = w.merged;
  stops = inl (refl, rw (w.no_failure, w.no_review) refl);
  degraded = rw (w.no_failure, w.no_review, w.healthy) refl;
  mode = w.mode;
  events = w.events;
}

module _ {S : Type 0} (step : S → Event → S) (host : Host) (opts : Options) (key : TrustedKey)
    (all : List Text) (r0 : MigrationRunResult) where
  anything : {A : Type 0} (m : Io host.Conn A) → Triple step (λ _. Unit {0}) m (λ _ _. Unit {0})
  anything m = record { at = λ c s p. tt }

  abbrev Loop : Io host.Conn MigrationRunResult → Type 0
  Loop m = Triple step (λ _. Unit {0}) m (Returns (Reports all r0))

  on_verdict-Reports :
      (d : Verdict) (handled : List Text) (f : PatchFile) (later : List Text)
      (rest : MigrationRunResult → Io host.Conn MigrationRunResult) (r : MigrationRunResult)
      → all ≡ handled ++ f.patch_name ∷ later
      → Walking handled r0 r
      → ((r : MigrationRunResult) → Walking (handled ++ f.patch_name ∷ []) r0 r → Loop (rest r))
      → Loop (on_verdict host opts key d f rest r)
  unfolding on_verdict
  on_verdict-Reports skip handled f later rest r split w h =
      h _ (Walking-skipped all r0 handled f.patch_name later split r w)
  on_verdict-Reports review handled f later rest r split w h =
      Triple-bind step _ (λ _ _. Unit {0}) _ _ (anything _)
        (λ a.
          Triple-pure step _ _ (λ u x. Reports-review all r0 handled f.patch_name later split r w))
        (λ e u x. tt)
  on_verdict-Reports run handled f later rest r split w h =
      Triple-bind step _ (λ _ _. Unit {0}) _ _ (anything _) continue (λ e u x. tt)
    where
      continue : (o : Option Text) → Loop (after_attempt host opts key f rest r o)
      continue none =
          unfold after_attempt in h _ (Walking-applied all r0 handled f.patch_name later split r w)
      continue (some e) =
          unfold after_attempt in
          Triple-pure step _ _ (λ u x. Reports-failed all r0 handled f.patch_name later split r w e)

  pub apply_files-Reports :
      (reg : Registry) (files : List PatchFile) (handled : List Text) (r : MigrationRunResult)
      → all ≡ handled ++ names files
      → Walking handled r0 r
      → Loop (apply_files host opts key reg files r)
  unfolding apply_files
  apply_files-Reports reg [] handled r split w =
      Triple-pure step r _ (λ u x. Reports-end all handled r0 r split w)
  apply_files-Reports reg (f ∷ fs) handled r split w =
      on_verdict-Reports (verdict reg opts.approved_reviews f) handled f (names fs)
        (apply_files host opts key reg fs) r split w
        (λ r' w'.
          apply_files-Reports reg fs (handled ++ f.patch_name ∷ []) r'
            (split_next all r0 handled f.patch_name (names fs) split r w) w')
