-- ===== src/Ddl/Changes.antt =====
-- What the utility hook does before DROP, RENAME, ALTER, CREATE SCHEMA and the statements on foreign
-- servers: the later cases of `DuckdbHandleDDLPre`, with the functions that they call.
use pg_duckdb.Common.{
  ℕ, Bool, true, false, not, ◌&&◌, Option, none, some, List, [], ◌∷◌, ◌==◌, if◌then◌else◌,
}
use pg_duckdb.Xact.{alter_table, rename_view, no_ddl, mixed_writes_allowed}
use pg_duckdb.Query.{view_kind}
use pg_duckdb.Worker.Sync.{Text}
use pg_duckdb.Ruleutils.{is_duckdb_schema_name}
use pg_duckdb.Ruleutils.Definitions.{
  RangeVar, ObjectType, object_table, object_view, object_column, object_schema, other_object,
  RenameStmt, get_rename_relationdef,
}
use pg_duckdb.Sql.{
  one_at_a_time, mixed_drop, ddb_schema, rename_view_column, motherduck_view, change_schema,
}
use pg_duckdb.Ddl.{
  Env, M, AlterStmt, ◌>>=◌, ◌>>◌, pure, lift, modify, gets, refuse_if, when, set_ddl_type,
  is_no_ddl, claim, connect, duckdb_query, missing_ok_relid, get_relid, is_table_of_duckdb,
  is_motherduck_view,
}

-- Whether DuckDB's relations and Postgres' relations are dropped.
pub record Dropping : Type 0 where
  pub duckdb : Bool
  pub postgres : Bool

-- The first relation of DuckDB claims the command id.
unfoldable pub found_relation : Env → Dropping → Bool → M Dropping
found_relation e d true = do when (not d.duckdb) (claim e false); pure (record d { duckdb = true })
found_relation e d false = pure (record d { postgres = true })

-- One turn of the loops, on what RangeVarGetRelid gives; `next` are the later turns.
abbrev pub check_found :
    Env → (ℕ → M Bool) → Dropping → (Dropping → M Dropping) → Option ℕ → M Dropping
check_found e of_duckdb d next none = next d
check_found e of_duckdb d next (some o) = (of_duckdb o >>= found_relation e d) >>= next

-- The loops of DropTablePreCheck and DropViewPreCheck; `of_duckdb` is their test on a relation.
unfoldable pub check_dropped : Env → (ℕ → M Bool) → Dropping → List RangeVar → M Dropping
unfolding found_relation
check_dropped e of_duckdb d [] = pure d
check_dropped e of_duckdb d (rv ∷ rvs) =
    check_found e of_duckdb d (λ next. check_dropped e of_duckdb next rvs) (missing_ok_relid e rv)

unfoldable pub check_mixed_drop : Env → Dropping → M (Unit {0})
check_mixed_drop e d s =
    refuse_if (not (mixed_writes_allowed e.copy.hooks.xact s.hooks.xact) && d.duckdb && d.postgres)
      mixed_drop s

abbrev pub nothing_found : Dropping
nothing_found = record { duckdb = false; postgres = false }

unfoldable pub drop_pre_check : Env → (ℕ → M Bool) → List RangeVar → M (Unit {0})
unfolding check_dropped check_mixed_drop
drop_pre_check e of_duckdb objects =
    check_dropped e of_duckdb nothing_found objects >>= λ d. check_mixed_drop e d

abbrev pub test_table : Env → ℕ → M Bool
test_table e o = pure (is_table_of_duckdb e o)

unfoldable pub drop_table_pre_check : Env → List RangeVar → M (Unit {0})
unfolding drop_pre_check
drop_table_pre_check e objects = drop_pre_check e (test_table e) objects

unfoldable pub drop_view_pre_check : Env → List RangeVar → M (Unit {0})
unfolding drop_pre_check
drop_view_pre_check e objects = drop_pre_check e (is_motherduck_view e) objects

-- IsA(parsetree, DropStmt)
unfoldable pub handle_drop : Env → ObjectType → List RangeVar → M (Unit {0})
handle_drop e object_table objects = drop_table_pre_check e objects
handle_drop e object_view objects = drop_view_pre_check e objects
handle_drop e _ objects = pure tt

abbrev is_schema_name : Option Text → Bool
is_schema_name none = false
is_schema_name (some name) = is_duckdb_schema_name name

-- IsA(parsetree, CreateSchemaStmt), outside of a sync
unfoldable pub handle_create_schema : Option Text → Option Text → M (Unit {0})
handle_create_schema (some name) role_name = refuse_if (is_duckdb_schema_name name) ddb_schema
handle_create_schema none role_name = refuse_if (is_schema_name role_name) ddb_schema

abbrev is_column : ObjectType → Bool
is_column object_column = true
is_column _ = false

-- The rename of a view of MotherDuck, here and in Postgres.
unfoldable pub rename_motherduck_view : Env → ℕ → RenameStmt → M Bool
rename_motherduck_view e o stmt = do
  idle ← gets (λ s. is_no_ddl s.hooks.xact.top_level_ddl_type)
  refuse_if (not idle) one_at_a_time
  modify (set_ddl_type rename_view)
  refuse_if (is_column stmt.rename_type) rename_view_column
  claim e false
  connect e
  text ← lift (get_rename_relationdef e.copy.names o stmt)
  duckdb_query e text
  e.update_view_definition o stmt.newname
  modify (set_ddl_type no_ddl)
  pure true

-- DuckdbHandleRenameViewPre
unfoldable pub handle_rename_view : Env → RenameStmt → M Bool
unfolding rename_motherduck_view
handle_rename_view e stmt = elim (missing_ok_relid e stmt.relation) [
  | none ↦ pure false
  | some o ↦ do
    ours ← is_motherduck_view e o
    (if ours then rename_motherduck_view e o stmt else pure false)
]

-- The claim of ALTER TABLE and RENAME.
unfoldable pub start_alter : Env → M (Unit {0})
start_alter e = do modify (set_ddl_type alter_table); claim e false

unfoldable pub rename_table : Env → ℕ → M Bool
unfolding start_alter
rename_table e o = do
  idle ← gets (λ s. is_no_ddl s.hooks.xact.top_level_ddl_type)
  when (is_table_of_duckdb e o) (refuse_if (not idle) one_at_a_time)
  when (is_table_of_duckdb e o) (start_alter e)
  pure false

unfoldable pub handle_rename_relation : Env → RenameStmt → M Bool
handle_rename_relation e stmt = elim (missing_ok_relid e stmt.relation) [
  | none ↦ pure false
  | some o ↦
      if e.copy.hooks.relkind_of o == view_kind then handle_rename_view e stmt else rename_table e o
]

abbrev rename_schema : RenameStmt → M (Unit {0})
rename_schema stmt =
    refuse_if (is_schema_name stmt.subname) ddb_schema
    >> refuse_if (is_duckdb_schema_name stmt.newname) ddb_schema

abbrev rename_column : Env → RenameStmt → ObjectType → M Bool
rename_column e stmt object_table = handle_rename_relation e stmt
rename_column e stmt object_view = handle_rename_view e stmt
rename_column e stmt _ = pure false

-- IsA(parsetree, RenameStmt), by the type of what is renamed
unfoldable pub handle_rename : Env → RenameStmt → ObjectType → M Bool
unfolding handle_rename_relation handle_rename_view
handle_rename e stmt object_schema = rename_schema stmt >> pure false
handle_rename e stmt object_table = handle_rename_relation e stmt
handle_rename e stmt object_column = rename_column e stmt stmt.relation_type
handle_rename e stmt object_view = handle_rename_view e stmt
handle_rename e stmt other_object = pure false

-- IsA(parsetree, AlterTableStmt)
unfoldable pub handle_alter_table : Env → AlterStmt → M (Unit {0})
unfolding start_alter
handle_alter_table e stmt = do
  o ← get_relid e stmt.relation
  idle ← gets (λ s. is_no_ddl s.hooks.xact.top_level_ddl_type)
  when (is_table_of_duckdb e o && idle) (start_alter e)
  ours ← is_motherduck_view e o
  refuse_if ours motherduck_view

-- IsA(parsetree, AlterObjectSchemaStmt)
unfoldable pub handle_alter_schema : Env → RangeVar → ObjectType → M (Unit {0})
handle_alter_schema e rv object_table = do
  o ← get_relid e rv
  refuse_if (is_table_of_duckdb e o) change_schema
handle_alter_schema e rv _ = pure tt
