-- ===== src/Ddl/Triggers/Alter.antt =====
-- `duckdb_alter_table_trigger`. Its query gives the relations of the command, each with the flag that
-- the set of temporary tables is to be asked.
use pg_duckdb.Common.{ℕ, Bool, true, false, not, ◌&&◌, List, [], ◌∷◌}
use pg_duckdb.Xact.{DdlType, no_ddl, alter_table, is_duckdb_temp_table}
use pg_duckdb.Worker.Sync.{Text}
use pg_duckdb.Ruleutils.Definitions.{RenameStmt, get_rename_relationdef}
use pg_duckdb.Ruleutils.AlterTable.{AlterTableCmd, get_alter_tabledef}
use pg_duckdb.Sql.{Result, err, wrong_statement, not_alter_table}
use pg_duckdb.Ddl.{
  Env, M, ◌>>=◌, ◌>>◌, pure, lift, modify, gets, refuse_if, when, set_ddl_type, claim, connect,
  duckdb_query, registered, spi_select,
}

-- The parse tree of the command.
pub data AlterTree : Type 0 where
  alter_tree : List AlterTableCmd → AlterTree
  rename_tree : RenameStmt → AlterTree
  other_tree : AlterTree

unfoldable pub alter_text : Env → AlterTree → ℕ → Result Text
alter_text e (alter_tree cmds) o = get_alter_tabledef e.copy.names e.cooking e.table o cmds
alter_text e (rename_tree stmt) o = get_rename_relationdef e.copy.names o stmt
alter_text e other_tree o = err wrong_statement

abbrev pub is_alter_table : DdlType → Bool
is_alter_table alter_table = true
is_alter_table _ = false

unfoldable pub alter_in_duckdb : Env → AlterTree → DdlType → ℕ → M (Unit {0})
unfolding alter_text
alter_in_duckdb e tree original o = do
  refuse_if (not (is_alter_table original)) not_alter_table
  claim e true
  connect e
  text ← lift (alter_text e tree o)
  duckdb_query e text

-- The trigger, once it has its rows, of which it reads the first.
unfoldable pub altered_rows : Env → AlterTree → DdlType → List (ℕ × Bool) → M (Unit {0})
unfolding alter_in_duckdb
altered_rows e tree original [] = pure tt
altered_rows e tree original ((o, check_temporary) ∷ rows) = do
  temporary ← gets (λ s. is_duckdb_temp_table o s.hooks.xact)
  when (not e.copy.hooks.xact.motherduck_sync && not (check_temporary && not temporary))
      (alter_in_duckdb e tree original o)

unfoldable pub alter_table_trigger : Env → AlterTree → List (ℕ × Bool) → M (Unit {0})
unfolding altered_rows
alter_table_trigger e tree rows = do
  ours ← registered e
  original ← gets (λ s. s.hooks.xact.top_level_ddl_type)
  when ours (modify (set_ddl_type no_ddl) >> modify spi_select >> altered_rows e tree original rows)
