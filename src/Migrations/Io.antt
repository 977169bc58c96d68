-- ===== src/Migrations/Io.antt =====
-- Code that awaits queries on one connection and may throw: it takes the state of the server and
-- returns an outcome, the queries sent with whether each succeeded, and the state afterwards.
pub mod Triple
use primebrick_v3_dal.Base.{ℕ, Bool, Option, List, [], ◌∷◌, ◌++◌, Text}
use primebrick_v3_dal.Migrations.Registry.{Registry, Upsert}

-- The statements that the engine sends, one constructor for each text in the source; the text is
-- the schema name.
pub data Query : Type 0 where
  try_lock unlock bootstrap find_config read_config select_registry : Text → Query
  set_lock_timeout set_idle_timeout set_statement_timeout : Query
  begin_tx commit_tx rollback_tx : Query
  patch_sql : Text → Query
  upsert : Text → Upsert → Query

-- The rows of a reply, of the shape that the query asks for.
pub data Rows : Type 0 where
  no_rows : Rows
  locked : Bool → Rows
  text_cell : Option Text → Rows
  registry : Registry → Rows

pub data Reply : Type 0 where
  rejected : Text → Reply
  returned : Rows → Reply

pub data EngineError : Type 0 where
  query_failed : Text → EngineError
  lock_not_acquired : EngineError
  manifest_missing : EngineError
  manifest_unreadable : EngineError
  manifest_refused : EngineError
  file_unreadable : Text → EngineError
  patch_unknown : Text → EngineError
  patch_sha_mismatch : Text → EngineError
  patch_changed : Text → EngineError
  out_of_fuel : EngineError

-- `e.message`; only a failed query is ever asked for it.
abbrev pub message : EngineError → Text
message (query_failed m) = m
message _ = []

pub data Out (A : Type 0) : Type 0 where
  ok : A → Out A
  thrown : EngineError → Out A

abbrev pub Event : Type 0
Event = Query × Bool

abbrev pub Io : Type 0 → Type 0 → Type 0
Io C A = C → Out A × List Event × C

module _ {C : Type 0} where
  abbrev pub pure : {A : Type 0} → A → Io C A
  pure a c = (ok a, [], c)

  abbrev pub raise : {A : Type 0} → EngineError → Io C A
  raise e c = (thrown e, [], c)

  module _ {A B : Type 0} where
    unfoldable pub resume : Out A → (A → Io C B) → List Event → C → Out B × List Event × C
    resume (ok a) f t c = let (o, t', c') = f a c in (o, t ++ t', c')
    resume (thrown e) f t c = (thrown e, t, c)

    infixl 5 ◌>>=◌ ◌>>◌
    unfoldable pub ◌>>=◌ : Io C A → (A → Io C B) → Io C B
    unfolding resume
    ◌>>=◌ m f c = let (o, t, c') = m c in resume o f t c'

    abbrev pub ◌>>◌ : Io C A → Io C B → Io C B
    m >> n = m >>= λ _. n

  module _ {A : Type 0} where
    unfoldable pub recover :
        Out A → (EngineError → Io C A) → List Event → C → Out A × List Event × C
    recover (ok a) h t c = (ok a, t, c)
    recover (thrown e) h t c = let (o, t', c') = h e c in (o, t ++ t', c')

    -- try { m } catch (e) { h(e) }
    unfoldable pub try_catch : Io C A → (EngineError → Io C A) → Io C A
    unfolding recover
    try_catch m h c = let (o, t, c') = m c in recover o h t c'

    -- try { m } finally { await n.catch(() => {}) }
    unfoldable pub finally_ignore : {B : Type 0} → Io C A → Io C B → Io C A
    finally_ignore m n c = let (o, t, c') = m c in let (o', t', c'') = n c' in (o, t ++ t', c'')

-- What the engine finds outside: the server and the clock, the files of the service, node's
-- hashing and signature check.
pub record Host : Type 1 where
  pub Conn : Type 0
  pub send : Query → Conn → Reply × Conn
  pub now : Conn → ℕ × Conn
  pub sleep : Conn → Conn
  pub sha256_hex : Text → Text
  pub read_file : Text → Option Text
