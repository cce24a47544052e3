-- ===== src/Ddl.antt =====
-- DDL, src/pgduckdb_ddl.cpp: the state of the utility hook and of the event triggers, the statements,
-- and the steps that they are made of. A step gives the state that it leaves, also where it raises an
-- error: the static variables of the source keep their values then. A query that runs through SPI goes
-- through the planner hook, which marks the statement as not at the top level.
pub mod Tables
pub mod Changes
pub mod Views
pub mod Servers
pub mod Hook
pub mod Drops
pub mod Lasting
pub mod Keeps
pub mod Triggers
use pg_duckdb.Common.{
  ℕ, ◌+◌, Bool, true, false, not, ◌&&◌, ◌||◌, Option, none, some, List, [], ◌∷◌, ◌==◌,
  if◌then◌else◌,
}
use pg_duckdb.Xact
use pg_duckdb.Xact.{
  Xact, DdlType, no_ddl, create_table, alter_table, refresh_materialized_view, rename_view,
  contains,
}
use pg_duckdb.Query.{Query, is_duckdb_table, view_kind}
use pg_duckdb.Hooks
use pg_duckdb.Metadata
use pg_duckdb.Hooks.{metadata_lookup, mark_statement_not_top_level}
use pg_duckdb.Worker.Sync.{Text}
use pg_duckdb.Ruleutils
use pg_duckdb.Ruleutils.Definitions.{RangeVar, ObjectType, RenameStmt, ViewStmt, TypeEnv, Table}
use pg_duckdb.Ruleutils.AlterTable.{Cooking}
use pg_duckdb.Sql.{Error, Result, ok, err, refused, not_planned_by_duckdb, query_failed}
use pg_duckdb.Copy
use pg_duckdb.Copy.{CopyStmt}

pub record State : Type 0 where
  pub hooks : Hooks.State
  -- ctas_skip_data
  pub skip_data : Bool
  -- CurrentServerType and CurrentServerOid
  pub server_type : Option Text
  pub server_oid : ℕ
  -- the relids of duckdb.tables
  pub tables : List ℕ
  -- the queries that DuckDB has run, the last one first
  pub sent : List Text

pub data OnCommit : Type 0 where
  noop preserve_rows delete_rows drop_table future_action : OnCommit

pub record CreateStmt : Type 0 where
  pub relation : RangeVar
  pub access_method : Option Text
  pub on_commit : OnCommit

-- The target of the statement is its IntoClause; `view_query` is that of a materialized view.
pub record CreateTableAsStmt : Type 0 where
  pub relation : RangeVar
  pub access_method : Option Text
  pub on_commit : OnCommit
  pub skip_data : Bool
  pub view_query : Option Query
  pub query : Query

pub record DropStmt : Type 0 where
  pub remove_type : ObjectType
  pub objects : List RangeVar

pub record AlterStmt : Type 0 where
  pub object_type : ObjectType
  pub relation : RangeVar
  pub missing_ok : Bool

-- `role_name` is the name in AUTHORIZATION, where it is a name.
pub data Statement : Type 0 where
  copy_stmt : CopyStmt → Statement
  create_stmt : CreateStmt → Statement
  create_table_as_stmt : CreateTableAsStmt → Statement
  refresh_mat_view_stmt : Statement
  create_schema_stmt : (schemaname role_name : Option Text) → Statement
  view_stmt : ViewStmt → Statement
  rename_stmt : RenameStmt → Statement
  drop_stmt : DropStmt → Statement
  alter_table_stmt alter_object_schema_stmt : AlterStmt → Statement
  create_foreign_server_stmt : (fdwname : Text) (servertype : Option Text) → Statement
  alter_foreign_server_stmt create_user_mapping_stmt : (servername : Text) → Statement
  alter_user_mapping_stmt : (servername : Text) → Statement
  transaction_stmt : Statement
  variable_set_stmt : (is_multi : Bool) (name : Text) → Statement
  other_stmt : Statement

pub record ForeignServer : Type 0 where
  pub serverid : ℕ
  pub fdwid : ℕ
  pub servertype : Option Text

pub record Env : Type 0 where
  -- the hooks' settings and catalog, the names of relations, and RangeVarGetRelid
  pub copy : Copy.Env
  pub types : TypeEnv
  pub table : ℕ → Table
  pub cooking : Cooking
  -- the name of RangeVarGetCreationNamespace
  pub creation_schema : RangeVar → Text
  pub default_table_access_method : Text
  pub force_motherduck_views : Bool
  -- QueryRewrite, and parse analysis of a text
  pub query_rewrite : Query → List Query
  pub parse_analyze : Text → Query
  -- whether the text is that of a SELECT INTO, and the RangeVars in its parse tree
  pub is_select_into : Text → Bool
  pub range_vars : Text → List RangeVar
  pub format_type : Ruleutils.Definitions.TypeEnv → Hooks.TargetEntry → Text
  -- `none` is the error of a server or wrapper that is not there
  pub foreign_server : Text → Option ForeignServer
  pub duckdb_fdw_oid : Option ℕ
  pub fdw_name : ℕ → Text
  -- UpdateDuckdbViewDefinition
  pub update_view_definition : ℕ → Text → State → State × Result (Unit {0})
  -- whether DuckDB runs the query, after the earlier ones
  pub query_succeeds : List Text → Text → Bool
  -- how many command ids Postgres takes for the rows of pg_depend and the owner of a relation
  pub owner_commands : ℕ

abbrev pub M : Type 0 → Type 0
M A = State → State × Result A

abbrev pub continue : {A B : Type 0} → (A → M B) → State × Result A → State × Result B
continue f (s, ok a) = f a s
continue f (s, err e) = (s, err e)

infixl 5 ◌>>=◌ ◌>>◌
abbrev pub ◌>>=◌ : {A B : Type 0} → M A → (A → M B) → M B
◌>>=◌ m f s = continue f (m s)

abbrev pub ◌>>◌ : {B : Type 0} → M (Unit {0}) → M B → M B
m >> k = m >>= λ _. k

abbrev pub pure : {A : Type 0} → A → M A
pure a s = (s, ok a)

abbrev pub raise : {A : Type 0} → Error → M A
raise e s = (s, err e)

abbrev pub lift : {A : Type 0} → Result A → M A
lift r s = (s, r)

abbrev pub modify : (State → State) → M (Unit {0})
modify f s = (f s, ok tt)

abbrev pub gets : {A : Type 0} → (State → A) → M A
gets f s = (s, ok (f s))

-- ereport(ERROR) where the test holds
abbrev pub refuse_if : Bool → Error → M (Unit {0})
refuse_if test e s = if test then (s, err e) else (s, ok tt)

abbrev pub when : Bool → M (Unit {0}) → M (Unit {0})
when test m s = if test then m s else (s, ok tt)

abbrev pub with_xact : Xact → State → State
with_xact x s = record s { hooks = record s.hooks { xact = x } }

abbrev pub set_ddl_type : DdlType → State → State
set_ddl_type t s = with_xact (record s.hooks.xact { top_level_ddl_type = t }) s

abbrev pub is_no_ddl : DdlType → Bool
is_no_ddl no_ddl = true
is_no_ddl _ = false

abbrev pub xact_result : State → Xact × Option Xact.Error → State × Result (Unit {0})
xact_result s (x, none) = (with_xact x s, ok tt)
xact_result s (x, some e) = (with_xact x s, err (refused e))

-- ClaimCurrentCommandId(force)
unfoldable pub claim : Env → Bool → M (Unit {0})
claim e force s = xact_result s (Xact.claim_current_command_id e.copy.hooks.xact force s.hooks.xact)

-- DuckDBManager::GetConnection(true)
unfoldable pub connect : Env → M (Unit {0})
connect e s = xact_result s (Xact.get_connection e.copy.hooks.xact true s.hooks.xact)

-- DuckDBManager::GetConnection()
unfoldable pub connect_once : Env → M (Unit {0})
connect_once e s = xact_result s (Xact.get_connection e.copy.hooks.xact false s.hooks.xact)

-- DuckDBQueryOrThrow
unfoldable pub duckdb_query : Env → Text → M (Unit {0})
duckdb_query e text s =
    if e.query_succeeds s.sent text
    then (record s { sent = text ∷ s.sent }, ok tt)
    else (s, err query_failed)

abbrev pub registered_result : State → Metadata.Cache × Option Bool → State × Result Bool
registered_result s (c, none) = (s, err (not_planned_by_duckdb metadata_lookup))
registered_result s (c, some b) = (record s { hooks = record s.hooks { metadata = c } }, ok b)

-- IsExtensionRegistered
unfoldable pub registered : Env → M Bool
registered e s =
    registered_result s
      (Metadata.is_extension_registered e.copy.hooks.catalog e.copy.hooks.session s.hooks.metadata)

-- A SELECT through SPI.
unfoldable pub spi_select : State → State
spi_select s = with_xact (mark_statement_not_top_level s.hooks.xact) s

-- A statement through SPI that writes to duckdb.tables, with SetForceAllowWrites around it.
unfoldable pub spi_write : List ℕ → State → State
unfolding spi_select
spi_write tables s =
    let t = spi_select s in
    let x = record t.hooks.xact {
      command_id = t.hooks.xact.command_id + 1;
      force_allow_writes = false;
    } in
    record (with_xact x t) { tables = tables }

abbrev pub missing_ok_relid : Env → RangeVar → Option ℕ
missing_ok_relid e rv = e.copy.open_relation rv

abbrev pub get_relid : Env → RangeVar → M ℕ
get_relid e rv = lift (Copy.open_rv e.copy rv)

-- IsDuckdbTable
unfoldable pub is_table_of_duckdb : Env → ℕ → Bool
is_table_of_duckdb e o = if o == 0 then false else e.copy.hooks.has_duckdb_am o

-- IsMotherDuckView: a query on duckdb.tables, for a view
unfoldable pub is_motherduck_view : Env → ℕ → M Bool
unfolding spi_select
is_motherduck_view e o s =
    if e.copy.hooks.relkind_of o == view_kind
    then (spi_select s, ok (contains o s.tables))
    else (s, ok false)
