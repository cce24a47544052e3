-- ===== src/Ddl/Views.antt =====
-- Views of MotherDuck: `NeedsToBeMotherDuckView` with `ContainsMotherDuckRelation`,
-- `DuckdbHandleViewStmtPre` and `DuckdbHandleViewStmtPost`.
use pg_duckdb.Common.{
  ℕ, ◌+◌, Bool, true, false, not, ◌||◌, Option, none, some, List, [], ◌∷◌, ◌++◌, ◌==◌,
  if◌then◌else◌,
}
use pg_duckdb.Xact.{DdlType, rename_view, insert}
use pg_duckdb.Query.{Query, info, view_kind}
use pg_duckdb.Hooks.{is_select}
use pg_duckdb.Worker.Sync.{Text}
use pg_duckdb.Ruleutils.{is_duckdb_schema_name, duckdb_am, db_and_schema}
use pg_duckdb.Ruleutils.Definitions.{
  RangeVar, CheckOption, no_check_option, ViewStmt, is_permanent, get_viewdef,
}
use pg_duckdb.Sql.{
  lit, ok, view_check_option, view_options, temporary_view, select_into, modifying_cte,
  wrong_statement,
}
use pg_duckdb.Ddl.{
  Env, State, M, ◌>>=◌, ◌>>◌, pure, lift, modify, gets, refuse_if, with_xact, claim, connect,
  duckdb_query, spi_write, missing_ok_relid, get_relid, is_table_of_duckdb, is_motherduck_view,
}
use pg_duckdb.Ddl.Tables.{entrench_columns_from_call}

abbrev pub is_rename_view : DdlType → Bool
is_rename_view rename_view = true
is_rename_view _ = false

-- RELKIND_RELATION, 'r'
abbrev table_kind : ℕ
table_kind = 114

abbrev motherduck_or_duckdb : Env → ℕ → M Bool
motherduck_or_duckdb e o = is_motherduck_view e o >>= λ ours. pure (ours || is_table_of_duckdb e o)

-- The test of the walker on one relation.
unfoldable pub is_motherduck_relation : Env → Option ℕ → M Bool
is_motherduck_relation e none = pure false
is_motherduck_relation e (some o) =
    if (e.copy.hooks.relkind_of o == view_kind) || (e.copy.hooks.relkind_of o == table_kind)
    then motherduck_or_duckdb e o
    else pure false

-- ContainsMotherDuckRelation, on the RangeVars of the parse tree
unfoldable pub contains_motherduck_relation : Env → List RangeVar → M Bool
unfolding is_motherduck_relation
contains_motherduck_relation e [] = pure false
contains_motherduck_relation e (rv ∷ rvs) =
    let rest = contains_motherduck_relation e rvs in
    is_motherduck_relation e (missing_ok_relid e rv) >>= λ found. if found then pure true else rest

-- NeedsToBeMotherDuckView
unfoldable pub needs_to_be_motherduck_view : Env → ViewStmt → Text → M Bool
needs_to_be_motherduck_view e stmt schema_name s =
    if not e.copy.names.motherduck_enabled
    then (s, ok false)
    else if e.force_motherduck_views
        || e.copy.hooks.is_background_worker
        || is_rename_view s.hooks.xact.top_level_ddl_type
        || is_duckdb_schema_name schema_name
    then (s, ok true)
    else contains_motherduck_relation e (e.range_vars stmt.query) s

abbrev is_checked : CheckOption → Bool
is_checked no_check_option = false
is_checked _ = true

-- The tests on the statement and on its query.
unfoldable pub check_view : Env → ViewStmt → M Query
check_view e stmt = do
  refuse_if (is_checked stmt.check_option) view_check_option
  refuse_if stmt.has_options view_options
  refuse_if (not (is_permanent stmt.persistence)) temporary_view
  let q = e.parse_analyze stmt.query
  refuse_if (e.is_select_into stmt.query) select_into
  refuse_if (not (is_select (info q).command_type)) wrong_statement
  refuse_if (info q).has_modifying_cte modifying_cte
  pure q

abbrev view_call : Env → Text × Text → Text → Text → Text
view_call e (db, schema) name query =
    lit "duckdb.view("
    ++ e.copy.quote_literal db
    ++ lit ", "
    ++ e.copy.quote_literal schema
    ++ lit ", "
    ++ e.copy.quote_literal name
    ++ lit ", "
    ++ e.copy.quote_literal query
    ++ lit ")"

-- The view is created in DuckDB, and its query in Postgres calls duckdb.view.
unfoldable pub create_motherduck_view : Env → ViewStmt → Text → M (ViewStmt × Bool)
unfolding check_view
create_motherduck_view e stmt schema_name = do
  claim e false
  q ← check_view e stmt
  let query = e.copy.get_querydef q
  parts ← lift (db_and_schema e.copy.names schema_name (some duckdb_am))
  wrapped ← entrench_columns_from_call e q (view_call e parts stmt.view.relname query)
  let created = record stmt { query = wrapped }
  text ← lift (get_viewdef e.copy.names created schema_name stmt.view.relname query)
  connect e
  duckdb_query e text
  pure (created, true)

-- DuckdbHandleViewStmtPre
unfoldable pub handle_view : Env → ViewStmt → M (ViewStmt × Bool)
unfolding needs_to_be_motherduck_view create_motherduck_view
handle_view e stmt = do
  renaming ← gets (λ s. is_rename_view s.hooks.xact.top_level_ddl_type)
  (if e.copy.hooks.is_background_worker || renaming then claim e false >> pure (stmt, true) else do
    needed ← needs_to_be_motherduck_view e stmt (e.creation_schema stmt.view)
    (if needed
        then create_motherduck_view e stmt (e.creation_schema stmt.view)
        else pure (stmt, false)))

-- The rows of pg_depend and the new owner take command ids.
unfoldable pub change_owner : Env → State → State
change_owner e s =
    with_xact (record s.hooks.xact { command_id = s.hooks.xact.command_id + e.owner_commands }) s

-- The row of a relation in duckdb.tables, there or not before.
unfoldable pub track_relation : Env → ℕ → M (Unit {0})
unfolding spi_write change_owner
track_relation e o = modify (λ s. change_owner e (spi_write (insert o s.tables) s))

-- DuckdbHandleViewStmtPost
unfoldable pub handle_view_post : Env → ViewStmt → M (Unit {0})
unfolding track_relation
handle_view_post e stmt = do
  o ← get_relid e stmt.view
  parts ← lift (db_and_schema e.copy.names (e.table o).relation_schema (some duckdb_am))
  track_relation e o
  claim e true
