-- ===== src/Ddl/Triggers.antt =====
-- The event triggers of src/pgduckdb_ddl.cpp, on the rows that their queries to Postgres give.
use pg_duckdb.Common.{
  ℕ, suc, ◌+◌, Bool, true, false, not, ◌&&◌, ◌||◌, Option, none, some, List, [], ◌∷◌, ◌++◌, ltb,
  ◌==◌, length, if◌then◌else◌,
}
use pg_duckdb.Xact
use pg_duckdb.Xact.{
  DdlType, no_ddl, create_table, alter_table, contains, mixed_writes_allowed, register_temp_table,
  unregister_temp_table, is_duckdb_temp_table,
}
use pg_duckdb.Query.{Query}
use pg_duckdb.Worker.Sync.{Text}
use pg_duckdb.Ruleutils.{
  Relation, duckdb_am, relation_of, relation_name, db_and_schema, db_and_schema_string,
  is_duckdb_schema_name,
}
use pg_duckdb.Ruleutils.Definitions.{
  RangeVar, RenameStmt, is_permanent, get_tabledef, get_rename_relationdef,
}
use pg_duckdb.Sql.{
  Error, lit, Result, ok, err, on_commit, no_motherduck, wrong_statement, several_tables,
  mixed_drop, ddb_schema, not_create_table, not_alter_table, other_grant,
}
use pg_duckdb.Ddl.{
  Env, State, M, CreateStmt, CreateTableAsStmt, OnCommit, noop, preserve_rows, delete_rows,
  drop_table, future_action, Statement, create_stmt, create_table_as_stmt, ◌>>=◌, ◌>>◌, pure, raise,
  lift, modify, gets, refuse_if, when, with_xact, set_ddl_type, claim, connect, duckdb_query,
  registered, spi_select, spi_write, get_relid, is_table_of_duckdb,
}
use pg_duckdb.Ddl.Views.{track_relation}
pub mod Created
pub mod Drop
pub mod Dropped
pub mod Forwarded
pub mod Mixed
pub mod Syncing
pub mod Alter

-- CheckOnCommitSupport
unfoldable pub check_on_commit_support : OnCommit → M (Unit {0})
check_on_commit_support noop = pure tt
check_on_commit_support preserve_rows = pure tt
check_on_commit_support delete_rows = pure tt
check_on_commit_support drop_table = raise on_commit
check_on_commit_support future_action = raise on_commit

abbrev pub check_tree : Statement → M (Unit {0})
check_tree (create_stmt c) = check_on_commit_support c.on_commit
check_tree (create_table_as_stmt c) = check_on_commit_support c.on_commit
check_tree stmt = raise wrong_statement

abbrev pub is_create_table : DdlType → Bool
is_create_table create_table = true
is_create_table _ = false

abbrev schema_of : Env → Result Relation → Result (Text × Text)
schema_of e (err error) = err error
schema_of e (ok r) = db_and_schema e.copy.names r.schema (some duckdb_am)

-- The database and schema of a table that is not temporary.
abbrev pub permanent_schema : Env → ℕ → Result (Text × Text)
permanent_schema e o =
    if not e.copy.names.motherduck_enabled
    then err no_motherduck
    else schema_of e (relation_of (e.copy.names.relation o))

-- The table is remembered, as a temporary one or in duckdb.tables.
unfoldable pub remember_table : Env → ℕ → Bool → M (Unit {0})
unfolding track_relation
remember_table e o true = modify (λ s. with_xact (register_temp_table o s.hooks.xact) s)
remember_table e o false = lift (permanent_schema e o) >>= λ parts. track_relation e o

-- The query of CREATE TABLE AS, unless it has no data.
abbrev pub insert_query : Statement → Bool → Option Query
insert_query (create_table_as_stmt c) skip_data = if skip_data then none else some c.query
insert_query stmt skip_data = none

unfoldable pub insert_data : Env → ℕ → Option Query → M (Unit {0})
insert_data e o none = pure tt
insert_data e o (some q) = do
  name ← lift (relation_name e.copy.names o)
  duckdb_query e (lit "INSERT INTO " ++ name ++ lit " " ++ e.copy.get_querydef q)

-- The table and its data in DuckDB.
unfoldable pub load_table : Env → Statement → ℕ → Text → M (Unit {0})
unfolding insert_data
load_table e tree o text s =
    (duckdb_query e text >> insert_data e o (insert_query tree s.skip_data)) s

unfoldable pub define_table : Env → Statement → ℕ → Text → M (Unit {0})
unfolding load_table
define_table e tree o text = connect e >> load_table e tree o text

unfoldable pub create_in_duckdb : Env → Statement → ℕ → M (Unit {0})
unfolding check_on_commit_support define_table
create_in_duckdb e tree o =
    claim e true
    >> check_tree tree
    >> (lift (get_tabledef e.copy.names e.types e.table o) >>= λ text. define_table e tree o text)

-- The trigger, once it has its rows: each DuckDB table that was created, and whether it is temporary.
unfoldable pub created_rows : Env → Statement → DdlType → List (ℕ × Bool) → M (Unit {0})
unfolding remember_table create_in_duckdb
created_rows e tree original [] = pure tt
created_rows e tree original ((o, is_temporary) ∷ []) =
    refuse_if (not (is_create_table original)) not_create_table
    >> remember_table e o is_temporary
    >> when (not e.copy.hooks.xact.motherduck_sync) (create_in_duckdb e tree o)
created_rows e tree original (r ∷ t ∷ rows) = raise several_tables

-- The type of the DDL is read and reset before anything else.
unfoldable pub handle_created : Env → Statement → List (ℕ × Bool) → M (Unit {0})
unfolding created_rows
handle_created e tree rows s =
    created_rows e tree s.hooks.xact.top_level_ddl_type rows (spi_select (set_ddl_type no_ddl s))

-- duckdb_create_table_trigger
unfoldable pub create_table_trigger : Env → Statement → List (ℕ × Bool) → M (Unit {0})
unfolding handle_created
create_table_trigger e tree rows = registered e >>= λ ours. when ours (handle_created e tree rows)

-- IsMotherDuckTable
unfoldable pub is_table_of_motherduck : Env → ℕ → Bool
is_table_of_motherduck e o = is_table_of_duckdb e o && is_permanent (e.table o).persistence

unfoldable pub refuse_grants : Env → List RangeVar → M (Unit {0})
unfolding is_table_of_motherduck
refuse_grants e [] = pure tt
refuse_grants e (rv ∷ rvs) =
    let rest = refuse_grants e rvs in
    do o ← get_relid e rv; refuse_if (is_table_of_motherduck e o) other_grant; rest

-- duckdb_grant_trigger; the flags say that the statement grants on tables, and on named ones.
unfoldable pub grant_trigger : Env → Bool → Bool → List RangeVar → M (Unit {0})
unfolding refuse_grants
grant_trigger e on_tables on_objects objects = do
  ours ← registered e
  when (ours && (on_tables && on_objects)) (refuse_grants e objects)
