-- ===== src/Ddl/Servers.antt =====
-- The statements on foreign servers and user mappings, which pass the type or the OID of the server to
-- the validator of the options.
use pg_duckdb.Common.{Option, none, some, ◌==◌, if◌then◌else◌}
use pg_duckdb.Query.{invalid_oid}
use pg_duckdb.Worker.Sync.{Text}
use pg_duckdb.Worker.Sync.Loop.{eq_text}
use pg_duckdb.Ruleutils.{duckdb_am}
use pg_duckdb.Sql.{Result, ok, err, no_such_relation}
use pg_duckdb.Ddl.{Env, State, M, ◌>>=◌, ◌>>◌, lift, modify, when}

abbrev found {ℓ} : {A : Type ℓ} → Option A → Result A
found none = err no_such_relation
found (some a) = ok a

-- DuckdbHandleCreateForeignServerStmt
unfoldable pub handle_create_server : Text → Option Text → State → State
handle_create_server fdwname servertype s = record s {
  server_type = if eq_text fdwname duckdb_am then servertype else none;
}

-- DuckdbHandleAlterForeignServerStmt
unfoldable pub handle_alter_server : Env → Text → M (Unit {0})
handle_alter_server e servername = do
  modify (λ s. record s { server_type = none })
  server ← lift (found (e.foreign_server servername))
  wrapper ← lift (found e.duckdb_fdw_oid)
  when (server.fdwid == wrapper) (modify (λ s. record s { server_type = server.servertype }))

-- DuckdbHandleCreateUserMappingStmt
unfoldable pub handle_create_mapping : Env → Text → M (Unit {0})
handle_create_mapping e servername = do
  modify (λ s. record s { server_oid = invalid_oid })
  server ← lift (found (e.foreign_server servername))
  when (eq_text (e.fdw_name server.fdwid) duckdb_am)
      (modify (λ s. record s { server_oid = server.serverid }))

-- DuckdbHandleAlterUserMappingStmt
unfoldable pub handle_alter_mapping : Env → Text → M (Unit {0})
handle_alter_mapping e servername = do
  modify (λ s. record s { server_oid = invalid_oid })
  server ← lift (found (e.foreign_server servername))
  wrapper ← lift (found e.duckdb_fdw_oid)
  when (server.fdwid == wrapper) (modify (λ s. record s { server_oid = server.serverid }))
