-- ===== src/Ddl/Hook.antt =====
-- `DuckdbHandleDDLPre` and `DuckdbHandleDDLPost`, and the utility hook around them. The hook before
-- this one, which runs the statement with its event triggers, is a parameter.
use pg_duckdb.Common.{Bool, true, false, not, ◌&&◌, if◌then◌else◌}
use pg_duckdb.Xact.{refresh_materialized_view}
use pg_duckdb.Hooks
use pg_duckdb.Ruleutils.{has_prefix}
use pg_duckdb.Ruleutils.Definitions.{ViewStmt}
use pg_duckdb.Sql.{lit, Result, err}
use pg_duckdb.Copy.Make.{Made, left, rewritten, failed, make_duckdb_copy_query}
use pg_duckdb.Ddl.{
  Env, State, M, Statement, copy_stmt, create_stmt, create_table_as_stmt, refresh_mat_view_stmt,
  create_schema_stmt, view_stmt, rename_stmt, drop_stmt, alter_table_stmt, alter_object_schema_stmt,
  create_foreign_server_stmt, alter_foreign_server_stmt, create_user_mapping_stmt,
  alter_user_mapping_stmt, transaction_stmt, variable_set_stmt, ◌>>=◌, ◌>>◌, pure, modify, gets,
  when, with_xact, set_ddl_type, claim, connect_once, duckdb_query, registered,
}
use pg_duckdb.Ddl.Tables.{handle_create, handle_create_as}
use pg_duckdb.Ddl.Views.{handle_view, handle_view_post}
use pg_duckdb.Ddl.Changes.{
  handle_drop, handle_create_schema, handle_rename, handle_alter_table, handle_alter_schema,
}
use pg_duckdb.Ddl.Servers.{
  handle_create_server, handle_alter_server, handle_create_mapping, handle_alter_mapping,
}

abbrev as_view : ViewStmt × Bool → Statement × Bool
as_view (v, post) = (view_stmt v, post)

-- DuckdbHandleDDLPre: the statement that is left to Postgres, and whether the post hook is to run.
unfoldable pub handle_ddl_pre : Env → Statement → M (Statement × Bool)
handle_ddl_pre e (create_stmt c) = handle_create e c
handle_ddl_pre e (create_table_as_stmt c) = handle_create_as e c
handle_ddl_pre e refresh_mat_view_stmt =
    modify (set_ddl_type refresh_materialized_view) >> pure (refresh_mat_view_stmt, false)
handle_ddl_pre e (create_schema_stmt name role) =
    when (not e.copy.hooks.xact.motherduck_sync) (handle_create_schema name role)
    >> pure (create_schema_stmt name role, false)
handle_ddl_pre e (view_stmt v) = handle_view e v >>= λ r. pure (as_view r)
handle_ddl_pre e (rename_stmt r) =
    handle_rename e r r.rename_type >>= λ post. pure (rename_stmt r, post)
handle_ddl_pre e (drop_stmt d) = handle_drop e d.remove_type d.objects >> pure (drop_stmt d, false)
handle_ddl_pre e (alter_table_stmt a) = handle_alter_table e a >> pure (alter_table_stmt a, false)
handle_ddl_pre e (alter_object_schema_stmt a) =
    handle_alter_schema e a.relation a.object_type >> pure (alter_object_schema_stmt a, false)
handle_ddl_pre e (create_foreign_server_stmt name type) =
    modify (handle_create_server name type) >> pure (create_foreign_server_stmt name type, false)
handle_ddl_pre e (alter_foreign_server_stmt name) =
    handle_alter_server e name >> pure (alter_foreign_server_stmt name, false)
handle_ddl_pre e (create_user_mapping_stmt name) =
    handle_create_mapping e name >> pure (create_user_mapping_stmt name, false)
handle_ddl_pre e (alter_user_mapping_stmt name) =
    handle_alter_mapping e name >> pure (alter_user_mapping_stmt name, false)
handle_ddl_pre e stmt = pure (stmt, false)

-- DuckdbHandleDDLPost
unfoldable pub handle_ddl_post : Env → Statement → M (Unit {0})
handle_ddl_post e (view_stmt v) = handle_view_post e v
handle_ddl_post e stmt = claim e true

abbrev pub set_top_level : Bool → State → State
set_top_level b s = with_xact (record s.hooks.xact { top_level_statement = b }) s

-- The hook's body for a statement that DuckDB does not run as a COPY.
unfoldable pub run_ddl : Env → (Statement → M (Unit {0})) → Bool → Statement → M (Unit {0})
unfolding handle_ddl_pre handle_ddl_post
run_ddl e postgres is_top_level stmt = do
  previous ← gets (λ s. s.hooks.xact.top_level_statement)
  modify (set_top_level is_top_level)
  handled ← handle_ddl_pre e stmt
  postgres handled.0
  when handled.1 (handle_ddl_post e handled.0)
  modify (set_top_level previous)

abbrev copied :
    Env → (Statement → M (Unit {0})) → Bool → State → Hooks.State × Made → State × Result (Unit {0})
copied e postgres is_top_level s (hooks, failed error) = (record s { hooks = hooks }, err error)
copied e postgres is_top_level s (hooks, rewritten text) =
    (connect_once e >> duckdb_query e text) (record s { hooks = hooks })
copied e postgres is_top_level s (hooks, left stmt) =
    run_ddl e postgres is_top_level (copy_stmt stmt) (record s { hooks = hooks })

-- DuckdbUtilityHook_Cpp
unfoldable pub utility_hook_body :
    Env → (Statement → M (Unit {0})) → Bool → Statement → M (Unit {0})
utility_hook_body e postgres is_top_level (copy_stmt c) s =
    copied e postgres is_top_level s (make_duckdb_copy_query e.copy c s.hooks)
utility_hook_body e postgres is_top_level stmt s = run_ddl e postgres is_top_level stmt s

-- DuckdbShouldCallDDLHooks
unfoldable pub should_call_ddl_hooks : Env → Statement → M Bool
should_call_ddl_hooks e transaction_stmt = pure false
should_call_ddl_hooks e (variable_set_stmt is_multi name) =
    if is_multi && has_prefix name (lit "TRANSACTION") then pure false else registered e
should_call_ddl_hooks e stmt = registered e

-- DuckdbUtilityHook
unfoldable pub utility_hook : Env → (Statement → M (Unit {0})) → Bool → Statement → M (Unit {0})
unfolding should_call_ddl_hooks utility_hook_body
utility_hook e postgres is_top_level stmt = do
  ours ← should_call_ddl_hooks e stmt
  (if ours then utility_hook_body e postgres is_top_level stmt else postgres stmt)
