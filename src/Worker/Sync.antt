-- ===== src/Worker/Sync.antt =====
-- Syncing the MotherDuck catalog to Postgres, src/pgduckdb_background_worker.cpp: the commands run in
-- subtransactions, `CreateTable`, `CreateView`, `DropRelation`, `GrantAccessToSchema`,
-- `CreateSchemaIfNotExists`, and the loop over databases, schemas and tables. The catalog of
-- Postgres and its execution of a command are parameters; logging is left out.
use pg_duckdb.Common.{
  ℕ, zero, suc, ◌+◌, Bool, true, false, not, ◌&&◌, ◌||◌, Option, none, some, List, [], ◌∷◌, ltb,
  ◌==◌, length, take, drop, if◌then◌else◌,
}
pub mod Atomic
pub mod Schemas
pub mod Loop

abbrev pub Text : Type 0
Text = List ℕ

pub data RelKind : Type 0 where
  table view : RelKind

-- What `pg_class` says of a relation: its kind, and whether it is a table or view of MotherDuck.
pub record Relation : Type 0 where
  pub kind : RelKind
  pub motherduck : Bool

pub data Query : Type 0 where
  drop_relation : Text → Text → RelKind → Bool → Query
  create_relation : Text → Query
  create_schema : Text → Query
  grant_all : Text → ℕ → Query
  grant_usage : Text → ℕ → Query
  drop_qualified : Text → RelKind → Bool → Query

-- Postgres: its catalog `C`, and what is asked of it. `exec user query` is SPI_exec; `none` is an
-- error, or a result that is not SPI_OK_UTILITY.
pub record Postgres (C : Type 0) : Type 0 where
  pub exec : ℕ → Query → C → Option C
  pub relation : C → Text → Text → Option Relation
  pub namespace_oid : C → Text → Option ℕ
  pub has_create_access : C → ℕ → ℕ → Bool
  -- RecordDependencyOnMDServer
  pub record_dependency : ℕ → C → C
  -- NAMEDATALEN - 1
  pub max_name : ℕ
  -- MotherDuckPostgresUserOid
  pub motherduck_user : ℕ
  -- duckdb.postgres_role, where it is set and is another role than that user
  pub other_role : Option ℕ
  -- CacheVersion() is still the one at the start of the sync
  pub same_cache_version : C → Bool
  -- the query on duckdb.tables: the relations of a database with another catalog version or another
  -- default database
  pub stale_relations : C → Text → Text → Text → List (Text × RelKind)
  -- KeywordHelper::EscapeQuotes(text, '$')
  pub escape_quotes : Text → Text

-- `saved` is the stack of open subtransactions, each with the catalog at its start.
pub record Session (C : Type 0) : Type 0 where
  pub catalog : C
  pub saved : List C
  pub user : ℕ
  pub commits : ℕ

-- `raised` is an elog(ERROR) that leaves the sync.
pub data Outcome (C : Type 0) : Type 0 where
  done : Bool → Session C → Outcome C
  raised : Session C → Outcome C

module _ {C : Type 0} (pg : Postgres C) where
  open pg use {
    exec, relation, namespace_oid, has_create_access, record_dependency, max_name, motherduck_user,
    other_role, same_cache_version,
  }

  -- BeginInternalSubTransaction
  abbrev pub begin_sub : Session C → Session C
  begin_sub s = record s { saved = s.catalog ∷ s.saved }

  -- ReleaseCurrentSubTransaction
  abbrev pub release_sub : Session C → Session C
  release_sub s = record s { saved = drop 1 s.saved }

  abbrev top_or : C → List C → C
  top_or c [] = c
  top_or c (d ∷ ds) = d

  -- RollbackAndReleaseCurrentSubTransaction
  abbrev pub rollback_sub : Session C → Session C
  rollback_sub s = record s { catalog = top_or s.catalog s.saved; saved = drop 1 s.saved }

  -- SPI_run_utility_command
  unfoldable pub run_utility_command : Query → Session C → Session C × Bool
  run_utility_command q s =
      let t = begin_sub s in
      elim (exec t.user q t.catalog) [
        | none ↦ (rollback_sub t, false)
        | some c ↦ (release_sub (record t { catalog = c }), true)
      ]

  -- SPI_commit_that_works_in_bgworker: the transaction is committed and a new one begun.
  unfoldable pub commit_session : Session C → Outcome C
  commit_session s =
      let t = record s { commits = s.commits + 1 } in
      if same_cache_version t.catalog then done true t else raised t

  -- The second half of CreateTable and CreateView, after the drop.
  unfoldable pub create_after_drop : Bool → Text → Session C → Outcome C
  unfolding run_utility_command commit_session
  create_after_drop did_delete create_query s =
      let (created, succeeded) =
        run_utility_command (create_relation create_query) (record s { user = motherduck_user }) in
      let restored = record created { user = s.user } in
      if not succeeded
      then done false (if did_delete then rollback_sub restored else restored)
      else commit_session (if did_delete then release_sub restored else restored)

  -- CreateTable and CreateView, which differ in the words of their warnings.
  unfoldable pub create_table : Text → Text → Text → Bool → Session C → Outcome C
  unfolding run_utility_command create_after_drop
  create_table schema name create_query cascade s =
      if ltb max_name (length name) then done false s else elim (namespace_oid s.catalog schema) [
        | none ↦ raised s
        | some oid ↦ elim (relation s.catalog schema name) [
          | none ↦ create_after_drop false create_query s
          | some r ↦
              if not r.motherduck
              then done false s
              else (let (dropped, succeeded) =
                    run_utility_command (drop_relation schema name r.kind cascade) (begin_sub s) in
                  if not succeeded
                  then done false (rollback_sub dropped)
                  else create_after_drop true create_query dropped)
        ]
      ]

  abbrev pub create_view : Text → Text → Text → Bool → Session C → Outcome C
  create_view = create_table

  -- DropRelation
  unfoldable pub drop_qualified_relation : Text → RelKind → Bool → Session C → Session C × Bool
  unfolding run_utility_command
  drop_qualified_relation qualified kind cascade s =
      run_utility_command (drop_qualified qualified kind cascade) s

  -- GrantAccessToSchema
  unfoldable pub grant_access : Text → Session C → Session C × Bool
  unfolding run_utility_command
  grant_access schema s =
      let (t, granted) = run_utility_command (grant_all schema motherduck_user) s in
      if not granted then (t, false) else elim other_role [
        | none ↦ (t, true)
        | some role ↦ run_utility_command (grant_usage schema role) t
      ]

  -- The end of CreateSchemaIfNotExists, inside its subtransaction.
  unfoldable pub finish_schema : Text → Bool → Session C → Outcome C
  unfolding commit_session
  finish_schema schema is_default_db s =
      if is_default_db
      then commit_session (release_sub s)
      else elim (namespace_oid s.catalog schema) [
        | none ↦ done false (rollback_sub s)
        | some oid ↦
            commit_session (release_sub (record s { catalog = record_dependency oid s.catalog }))
      ]

  unfoldable pub create_new_schema : Text → Bool → Session C → Outcome C
  unfolding run_utility_command grant_access finish_schema
  create_new_schema schema is_default_db s =
      let (t, created) = run_utility_command (create_schema schema) (begin_sub s) in
      let (u, granted) = grant_access schema t in
      if not created
      then done false (rollback_sub t)
      else if not granted
      then done false (rollback_sub u)
      else finish_schema schema is_default_db u

  abbrev finished : Session C × Bool → Outcome C
  finished (s, b) = done b s

  -- CreateSchemaIfNotExists
  unfoldable pub create_schema_if_not_exists : Text → Bool → Session C → Outcome C
  unfolding grant_access create_new_schema
  create_schema_if_not_exists schema is_default_db s =
      if ltb max_name (length schema) then done false s else elim (namespace_oid s.catalog schema) [
        | none ↦ create_new_schema schema is_default_db s
        | some oid ↦
            if has_create_access s.catalog oid motherduck_user
            then done true s
            else if is_default_db
            then done false s
            else finished (grant_access schema s)
      ]
