-- ===== src/Lib.antt =====
-- Verification of the data access layer of primebrick.
--
-- The program is a TypeScript library over PostgreSQL. Modelled here are the parts that decide
-- what reaches the database, as functions on explicit state:
--
-- * Migrations models src/migrations/. Migrations.Engine is engine.ts: `runMigrations` is
--   `run_migrations`, a program over one connection (Migrations.Io), composed of
--   `acquire_advisory_lock`, `locked_phase`, `with_files`, `provenance` (the manifest and file
--   gate), `registry_phase`, `find_changed`, `apply_files` and `apply_file`. A program returns a
--   value or an error, with the queries it sent and whether each succeeded. Splitter is
--   sql-splitter.ts and `parsePatchPragmas`; Registry is patch-registry.ts, the SQL of
--   `upsertStatus` and status.ts; Manifest is manifest.ts.
-- * SchemaDiff models part of src/schema-diff/: Naming is patch-naming.ts, as far as the engine uses
--   it; Types is schema-type-normalize.ts; Renames is the rule ladder and the greedy matching of
--   schema-rename-heuristics.ts; Drift is the result type of schema-snapshot.ts and the drift test
--   of src/migrations/drift.ts.
-- * Query models src/query/: Dsl is dsl.ts; Writer and Render are query-builder.ts up to
--   `renderOrderBy`, with `renderHaving`; Clauses is its projection and joins; ListFilters is
--   list-filters.ts. The text of a query is a list of pieces, of which a placeholder is one.
-- * Dal.Client models `withClient` and `transaction` of src/dal/dal.ts, Dal.Deferred
--   src/dal/deferred-transaction.ts: Scan is `splitTopLevelCtes` and `renameCtes`; Merge is
--   `remapParams`, `abortSpec` and the compilation in `commit`; Tx is the class, whose methods are
--   `buffer`, `commit` and `discard` on a Tx, each with what it throws and the statement it sends.
-- * Repository models the single-row writes of src/repository/repository.ts: Columns is what they
--   read of the metadata (src/meta/entity-decorators.ts) and `extractVersion`; Identity is
--   `uniqueConflictGroups`, `resolveSelectorProps` and `resolveMatchConditions`; Draft, Statement,
--   Update and Remove build the statements of `update`, `delete`, `restore` and `hardDelete`, with the
--   values they bind; Write is what those send over one connection and make of the answers, with
--   `disambiguateZeroRows` and `assertNoPartialIdentity`. `jsValueToPgParam` of a value is named by
--   a WriteParam and not applied.
-- * Audit.Delta models src/audit/delta-calculator.ts; `JSON.stringify` is a parameter of it.
-- * Meta.SchemaDomain models src/meta/schema-domain.ts and schema-domain-assert.ts.
-- * Base holds what they share. A string is the list of its UTF-16 code units.
--
-- The engine calls the splitter for the segments of a file and the naming for its patch name; its
-- registry is that of Registry. List filters produce expressions that the builder renders. The
-- deferred transaction merges statements written by the repository with that builder.
--
-- Parameters. A Host stands for the server (`send`), the clock, the pause, SHA-256 and the reading
-- of files; every answer of the server is allowed. In Repository.Write and Dal.Client a function
-- answers the queries, from any state of its own, and in Dal.Deferred the server is a function of
-- the statement. `check_signature` stands for the canonical JSON and the ed25519 check of node. How
-- the server takes a patch's text apart into statements, and which of them are transaction control
-- to it, are parameters of the theorem on atomic patches, which says what it asks of them; elsewhere
-- the texts of patches are taken to hold no control but what is stripped. The only hypothesis on a
-- Host is Ticks: the clock never goes back, and a pause moves it on.
--
-- Fuel and bounds. Only the wait for the lock runs on fuel; a round for each millisecond of the
-- wait budget and one more are enough. The split of a statement into its CTEs has a round for each
-- of its characters, and a CTE takes more than one. All other loops are structural. A duration is a
-- difference of natural numbers, which stops at 0. `toLowerCase` acts on ASCII letters.
--
-- Left out: log lines and the texts of errors; the shape of a reply other than the one asked for is
-- read as no row. The names of one registry are taken in order where the engine builds a Map; they
-- are a primary key. Metadata of an entity is data of the model, not derived from decorators. Not
-- modelled are the finders, `add`, `clone` and the bulk writes of the repository, its audit entries,
-- the pools, the comparison of snapshots, GROUP BY and the whole SELECT of the builder, and the
-- command line.
pub mod Base
pub mod Migrations
pub mod SchemaDiff
pub mod Query
pub mod Meta
pub mod Dal
pub mod Repository
pub mod Audit
