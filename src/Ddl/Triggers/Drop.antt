-- ===== src/Ddl/Triggers/Drop.antt =====
-- `duckdb_drop_trigger`, on the objects that Postgres has dropped.
use pg_duckdb.Common.{
  ℕ, ◌+◌, Bool, true, false, not, ◌&&◌, ◌||◌, some, List, [], ◌∷◌, ◌++◌, ltb, if◌then◌else◌,
}
use pg_duckdb.Xact.{
  contains, erase, mixed_writes_allowed, unregister_temp_table, is_duckdb_temp_table,
}
use pg_duckdb.Worker.Sync.{Text}
use pg_duckdb.Worker.Sync.Loop.{eq_text}
use pg_duckdb.Ruleutils.{pg_temp, duckdb_am, dot, db_and_schema_string, is_duckdb_schema_name}
use pg_duckdb.Sql.{lit, Result, ok, err, mixed_drop, ddb_schema}
use pg_duckdb.Ddl.{
  Env, State, M, ◌>>=◌, ◌>>◌, pure, lift, modify, refuse_if, when, with_xact, claim, connect,
  duckdb_query, registered, spi_select, spi_write,
}

-- `attached` are the types of objects that the count leaves out, standalone ones and those of
-- views included: types, sequences, table constraints, indexes, default values, triggers, toast
-- tables and rules.
pub data Kind : Type 0 where
  table view schema attached other_kind : Kind

pub record Dropped : Type 0 where
  pub objid : ℕ
  pub kind : Kind
  pub schema_name : Text
  pub object_name : Text

abbrev pub is_relation : Kind → Bool
is_relation table = true
is_relation view = true
is_relation _ = false

abbrev is_schema : Kind → Bool
is_schema schema = true
is_schema _ = false

abbrev pub is_attached : Kind → Bool
is_attached attached = true
is_attached _ = false

abbrev pub is_table : Kind → Bool
is_table table = true
is_table _ = false

unfoldable pub count : (Dropped → Bool) → List Dropped → ℕ
count test [] = 0
count test (d ∷ ds) = (if test d then 1 else 0) + count test ds

unfoldable pub select : (Dropped → Bool) → List Dropped → List Dropped
select test [] = []
select test (d ∷ ds) = let rest = select test ds in if test d then d ∷ rest else rest

abbrev pub drops_relation : Dropped → Bool
drops_relation d = is_relation d.kind

abbrev pub drops_object : Dropped → Bool
drops_object d = not (is_attached d.kind)

abbrev pub drops_ddb_schema : Dropped → Bool
drops_ddb_schema d = is_schema d.kind && is_duckdb_schema_name d.object_name

abbrev pub drops_tracked : List ℕ → Dropped → Bool
drops_tracked tables d = is_relation d.kind && contains d.objid tables

abbrev pub drops_temporary : Dropped → Bool
drops_temporary d = is_table d.kind && eq_text pg_temp d.schema_name

-- DELETE FROM duckdb.tables
unfoldable pub untrack : List Dropped → List ℕ → List ℕ
untrack [] tables = tables
untrack (d ∷ ds) tables =
    if is_relation d.kind then untrack ds (erase d.objid tables) else untrack ds tables

-- How many relations of DuckDB the trigger has dropped, and whether it has a connection.
pub record Progress : Type 0 where
  pub deleted : ℕ
  pub connected : Bool

abbrev pub kind_word : Kind → Text
kind_word view = lit "view"
kind_word _ = lit "table"

abbrev pub one_more : Progress → Progress
one_more p = record { deleted = p.deleted + 1; connected = true }

-- One DROP for DuckDB, with the connection if there is none yet.
unfoldable pub send_drop : Env → Progress → Result Text → M Progress
send_drop e p text = do
  when (not p.connected) (connect e)
  t ← lift text
  duckdb_query e t
  pure (one_more p)

abbrev tracked_text : Env → Dropped → Result Text → Result Text
tracked_text e d (err error) = err error
tracked_text e d (ok name) = ok (
    lit "DROP "
    ++ kind_word d.kind
    ++ lit " IF EXISTS "
    ++ name
    ++ dot
    ++ e.copy.names.quote_identifier d.object_name)

unfoldable pub drop_text : Env → Dropped → Result Text
drop_text e d = tracked_text e d (db_and_schema_string e.copy.names d.schema_name (some duckdb_am))

-- The rows of duckdb.tables that were deleted.
unfoldable pub drop_tracked : Env → Progress → List Dropped → M Progress
unfolding send_drop drop_text
drop_tracked e p [] = pure p
drop_tracked e p (d ∷ ds) = send_drop e p (drop_text e d) >>= λ q. drop_tracked e q ds

-- UnregisterDuckdbTempTable
unfoldable pub forget_table : ℕ → Progress → M Progress
forget_table o q s = (with_xact (unregister_temp_table o s.hooks.xact) s, ok q)

abbrev pub temporary_text : Env → Dropped → Result Text
temporary_text e d =
    ok (lit "DROP TABLE pg_temp.main." ++ e.copy.names.quote_identifier d.object_name)

-- A temporary table of DuckDB.
unfoldable pub drop_temporary : Env → Progress → Dropped → M Progress
unfolding send_drop forget_table
drop_temporary e p d = send_drop e p (temporary_text e d) >>= λ q. forget_table d.objid q

-- One turn of the loop: a regular temporary table is left alone.
unfoldable pub drop_if_duckdb : Env → Progress → Dropped → M Progress
unfolding drop_temporary
drop_if_duckdb e p d s =
    (if is_duckdb_temp_table d.objid s.hooks.xact then drop_temporary e p d else pure p) s

unfoldable pub drop_temporaries : Env → Progress → List Dropped → M Progress
unfolding drop_if_duckdb
drop_temporaries e p [] = pure p
drop_temporaries e p (d ∷ ds) = drop_if_duckdb e p d >>= λ q. drop_temporaries e q ds

-- The last tests, with the counts of the dropped relations and objects.
unfoldable pub check_counts : Env → ℕ → ℕ → ℕ → M (Unit {0})
check_counts e deleted relations total s =
    refuse_if
      (not (mixed_writes_allowed e.copy.hooks.xact s.hooks.xact)
        && (ltb 0 deleted && (ltb deleted relations || ltb deleted total)))
      mixed_drop s

abbrev pub nothing_dropped : Progress
nothing_dropped = record { deleted = 0; connected = false }

-- The top level is restored, which the queries through SPI have taken the statement from.
unfoldable pub restore_top_level : Bool → State → State
restore_top_level b s = with_xact (record s.hooks.xact { top_level_statement = b }) s

unfoldable pub finish_drops : Env → Bool → List Dropped → Progress → M (Unit {0})
unfolding restore_top_level check_counts
finish_drops e is_top_level objects q =
    modify (restore_top_level is_top_level)
    >> check_counts e q.deleted (count drops_relation objects) (count drops_object objects)
    >> when (ltb 0 q.deleted) (claim e true)

unfoldable pub drop_in_pg_temp : Env → List Dropped → Progress → M Progress
unfolding drop_temporaries
drop_in_pg_temp e objects p =
    modify spi_select >> drop_temporaries e p (select drops_temporary objects)

-- The rows for which the DROP is forwarded: none without MotherDuck or in a sync.
abbrev pub forwarded : Env → List Dropped → List Dropped
forwarded e rows =
    if e.copy.names.motherduck_enabled && not e.copy.hooks.xact.motherduck_sync then rows else []

-- What follows the deletion of the rows of duckdb.tables.
unfoldable pub forward_drops : Env → Bool → List Dropped → List Dropped → M (Unit {0})
unfolding drop_tracked drop_in_pg_temp finish_drops
forward_drops e is_top_level objects deleted_rows = do
  p ← drop_tracked e nothing_dropped (forwarded e deleted_rows)
  q ← drop_in_pg_temp e objects p
  finish_drops e is_top_level objects q

unfoldable pub drop_relations : Env → Bool → List Dropped → M (Unit {0})
unfolding forward_drops untrack
drop_relations e is_top_level objects s =
    (modify (spi_write (untrack objects s.tables))
        >> forward_drops e is_top_level objects (select (drops_tracked s.tables) objects))
      s

-- Outside of a sync no ddb$ schema can be dropped.
unfoldable pub check_schemas : Env → List Dropped → M (Unit {0})
check_schemas e objects =
    when (not e.copy.hooks.xact.motherduck_sync)
      (modify spi_select >> refuse_if (ltb 0 (count drops_ddb_schema objects)) ddb_schema)

-- Nothing is to be done where no relation was dropped.
unfoldable pub drop_counted : Env → Bool → List Dropped → M (Unit {0})
unfolding drop_relations
drop_counted e is_top_level objects =
    modify spi_select
    >> when (ltb 0 (count drops_relation objects)) (drop_relations e is_top_level objects)

unfoldable pub handle_dropped : Env → List Dropped → M (Unit {0})
unfolding check_schemas drop_counted
handle_dropped e objects s =
    (check_schemas e objects >> drop_counted e s.hooks.xact.top_level_statement objects) s

-- duckdb_drop_trigger
unfoldable pub drop_trigger : Env → List Dropped → M (Unit {0})
unfolding handle_dropped
drop_trigger e objects = do ours ← registered e; when ours (handle_dropped e objects)
