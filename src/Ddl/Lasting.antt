-- ===== src/Ddl/Lasting.antt =====
-- The type of the DDL beyond the statement that sets it.
use pg_duckdb.Common.{Bool, true, false, Option, ◌≡◌, ◌∙◌, sym, ap}
use pg_duckdb.Xact.{DdlType, refresh_materialized_view}
use pg_duckdb.Worker.Sync.{Text}
use pg_duckdb.Sql.{Result, ok, err, one_at_a_time}
use pg_duckdb.Ddl.{
  Env, State, M, CreateStmt, Statement, create_stmt, refresh_mat_view_stmt, ◌>>◌, when, modify,
  claim, set_ddl_type,
}
use pg_duckdb.Ddl.Keeps.{Keeps, continue-holds}
use pg_duckdb.Ddl.Tables.{schema_access_method, is_duckdb_access_method, start_table, handle_create}
use pg_duckdb.Ddl.Hook.{set_top_level, handle_ddl_pre, run_ddl}

abbrev pub ddl_type_of : State → DdlType
ddl_type_of s = s.hooks.xact.top_level_ddl_type

module _ (e : Env) (postgres : Statement → M (Unit {0})) where
  refresh_type :
      (top : Bool) (s : State)
      → Keeps ddl_type_of (postgres refresh_mat_view_stmt)
      → (run_ddl e postgres top refresh_mat_view_stmt s).1 ≡ ok tt
      → ddl_type_of (run_ddl e postgres top refresh_mat_view_stmt s).0 ≡ refresh_materialized_view
  unfolding run_ddl handle_ddl_pre
  refresh_type top s keeps h =
      let before : State = set_ddl_type refresh_materialized_view (set_top_level top s) in
      continue-holds (λ t. ddl_type_of t ≡ refresh_materialized_view)
        (λ u. when false (claim e true) >> modify (set_top_level s.hooks.xact.top_level_statement))
        (postgres refresh_mat_view_stmt before) h
        (λ u a eq k.
          ap (λ (r : State × Result (Unit {0})). ddl_type_of r.0) (sym eq) ∙ keeps.keeps before)

  refused_create :
      (top : Bool) (c : CreateStmt) {am : Option Text} (s : State)
      → ddl_type_of s ≡ refresh_materialized_view
      → schema_access_method e c.relation c.access_method ≡ ok am
      → is_duckdb_access_method e am ≡ true
      → (run_ddl e postgres top (create_stmt c) s).1 ≡ err one_at_a_time
  unfolding run_ddl handle_ddl_pre handle_create start_table
  refused_create top c s was method duckdb = simp (method, duckdb, was)

  -- After a REFRESH MATERIALIZED VIEW, with no end of a transaction in between, which would reset
  -- the type of the DDL, a CREATE TABLE that makes a DuckDB table is refused as if it were the
  -- second one of its statement: the type that the refresh has set is still there, if Postgres'
  -- own part of the refresh does not change it.
  pub create_after_refresh :
      (top later : Bool) (c : CreateStmt) {am : Option Text} (s : State)
      → Keeps ddl_type_of (postgres refresh_mat_view_stmt)
      → (run_ddl e postgres top refresh_mat_view_stmt s).1 ≡ ok tt
      → schema_access_method e c.relation c.access_method ≡ ok am
      → is_duckdb_access_method e am ≡ true
      → (run_ddl e postgres later
          (create_stmt c)
          (run_ddl e postgres top refresh_mat_view_stmt s).0).1
        ≡ err one_at_a_time
  create_after_refresh top later c s keeps h method duckdb =
      refused_create later c (run_ddl e postgres top refresh_mat_view_stmt s).0
        (refresh_type top s keeps h) method duckdb
