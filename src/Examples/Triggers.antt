-- ===== src/Examples/Triggers.antt =====
-- DDL in concrete states: the checks before a statement, the utility hook and the event triggers.
use pg_duckdb.Common.{
  ◌+◌, ◌≤◌, true, false, not, ◌==◌, ◌&&◌, none, some, List, [], ◌∷◌, ◌≡◌, ◌⊎◌, refl, length,
  if◌then◌else◌,
}
use pg_duckdb.Xact
use pg_duckdb.Xact.{create_table, refresh_materialized_view}
use pg_duckdb.Hooks
use pg_duckdb.Ruleutils
use pg_duckdb.Ruleutils.{
  dollar, duckdb_am, pg_temp, relation_name, db_and_schema, db_and_schema_string,
}
use pg_duckdb.Ruleutils.Definitions.{RangeVar, get_tabledef}
use pg_duckdb.Sql.{Result, ok, err, mixed_drop, one_at_a_time}
use pg_duckdb.Copy
use pg_duckdb.Copy.{CopyStmt, acl_select}
use pg_duckdb.Ddl
use pg_duckdb.Ddl.{Env, State, Statement, CreateStmt, create_stmt, refresh_mat_view_stmt, noop}
use pg_duckdb.Ddl.{is_table_of_duckdb, with_xact}
use pg_duckdb.Ddl.Changes.{drop_table_pre_check, drop_view_pre_check}
use pg_duckdb.Ddl.Drops.{any_relation, drop_table_pre_check_lem, drop_view_pre_check_mixed}
use pg_duckdb.Ddl.Hook.{run_ddl}
use pg_duckdb.Ddl.Lasting.{create_after_refresh}
use pg_duckdb.Ddl.Triggers.{create_table_trigger}
use pg_duckdb.Ddl.Triggers.Created.{Remembered, create_table_trigger-Remembered}
use pg_duckdb.Ddl.Triggers.Drop.{Dropped, table, select, count, drops_object, drop_trigger}
use pg_duckdb.Ddl.Triggers.Dropped.{Untracked, drop_trigger-Untracked}
use pg_duckdb.Ddl.Triggers.Mixed.{drop_trigger-SentWhole}
use pg_duckdb.Ddl.Triggers.Syncing.{drop_trigger-syncing}
use pg_duckdb.Examples.Planning
use pg_duckdb.Examples.Statements.{types, temporary_table, copying, relation_t}

-- Relation 5 is a table or view of Postgres, and relation 6 one of DuckDB.
abbrev both_kinds : Copy.Env
both_kinds = record copying {
  hooks = record Planning.env {
    has_duckdb_am = λ o. o == 6;
    relkind_of = λ o. 118;
    xact = record Planning.env.xact { in_transaction_block = λ top. not top };
  };
  open_relation = λ rv. elim rv.schemaname [ none ↦ some 5 | some t ↦ some 6 ];
}

abbrev relation_d : RangeVar
relation_d = record { schemaname = some (115 ∷ []); relname = 116 ∷ [] }

abbrev defining : Env
defining = record {
  copy = both_kinds;
  types = types;
  table = λ o. temporary_table;
  cooking = record {
    cook_default = λ name raw. none;
    cook_constraint = λ raw. none;
    quote_literal = λ t. t;
    format_type = λ o m. [];
  };
  creation_schema = λ rv. 115 ∷ [];
  default_table_access_method = 104 ∷ [];
  force_motherduck_views = false;
  query_rewrite = λ q. q ∷ [];
  parse_analyze = λ t. Planning.asks_7;
  is_select_into = λ t. false;
  range_vars = λ t. [];
  format_type = λ t target. [];
  foreign_server = λ t. none;
  duckdb_fdw_oid = none;
  fdw_name = λ o. [];
  update_view_definition = λ o t s. (s, ok tt);
  query_succeeds = λ sent t. true;
  owner_commands = 2;
}

abbrev idle : State
idle = record {
  hooks = Planning.state;
  skip_data = false;
  server_type = none;
  server_oid = 0;
  tables = 6 ∷ [];
  sent = [];
}

-- The same in a transaction block.
abbrev in_block : Env
in_block = record defining {
  copy = record both_kinds {
    hooks = record both_kinds.hooks {
      xact = record both_kinds.hooks.xact { in_transaction_block = λ top. true };
    };
  };
}

abbrev both : List RangeVar
both = relation_t ∷ relation_d ∷ []

drop_table_pre_check_lem_example : drop_table_pre_check in_block both idle ≡ (
  (if any_relation in_block (λ o. is_table_of_duckdb in_block o) both
      then with_xact
          (record Planning.state.xact { command_id = 1; next_expected_command_id = 1 })
          idle
      else idle),
  (if any_relation in_block (λ o. is_table_of_duckdb in_block o) both
        && any_relation in_block (λ o. not (is_table_of_duckdb in_block o)) both
      then err mixed_drop
      else ok tt),
)
unfolding Xact.mixed_writes_allowed
drop_table_pre_check_lem_example = drop_table_pre_check_lem in_block idle refl both refl

drop_view_pre_check_mixed_example : (drop_view_pre_check defining both idle).1 ≡ err mixed_drop
drop_view_pre_check_mixed_example =
    drop_view_pre_check_mixed defining relation_d relation_t idle refl refl refl refl refl refl refl
      refl refl refl refl

abbrev dropped_6 : List Dropped
dropped_6 = record { objid = 6; kind = table; schema_name = 115 ∷ []; object_name = 116 ∷ [] } ∷ []

abbrev dropped : State × Result (Unit {0})
dropped = drop_trigger in_block dropped_6 idle

drop_trigger-Untracked_example : Untracked dropped_6 dropped.0.tables
unfolding drop_trigger Xact.mixed_writes_allowed Ddl.registered
    pg_duckdb.Metadata.is_extension_registered count select Ddl.spi_select Ddl.connect
    Xact.get_connection Ddl.spi_write Hooks.mark_statement_not_top_level db_and_schema_string
    db_and_schema Ddl.duckdb_query Ddl.claim Xact.claim_current_command_id
drop_trigger-Untracked_example = drop_trigger-Untracked in_block dropped_6 idle refl refl

drop_trigger-SentWhole_example :
    (length dropped.0.sent ≡ length idle.sent)
    ⊎ (length idle.sent + count drops_object dropped_6 ≤ length dropped.0.sent)
unfolding drop_trigger Xact.mixed_writes_allowed Ddl.registered
    pg_duckdb.Metadata.is_extension_registered count select Ddl.spi_select Ddl.connect
    Xact.get_connection Ddl.spi_write Hooks.mark_statement_not_top_level db_and_schema_string
    db_and_schema Ddl.duckdb_query Ddl.claim Xact.claim_current_command_id
drop_trigger-SentWhole_example = drop_trigger-SentWhole in_block dropped_6 idle refl refl

abbrev syncing : Env
syncing = record defining {
  copy = record both_kinds {
    hooks = record both_kinds.hooks {
      xact = record both_kinds.hooks.xact { motherduck_sync = true };
    };
  };
}

drop_trigger-syncing_example : (drop_trigger syncing dropped_6 idle).0.sent ≡ []
unfolding select
drop_trigger-syncing_example = drop_trigger-syncing syncing refl dropped_6 refl idle

abbrev creates_t : CreateStmt
creates_t = record { relation = relation_t; access_method = some duckdb_am; on_commit = noop }

abbrev creating : State
creating = record idle {
  hooks = record Planning.state {
    xact = record Planning.state.xact { top_level_ddl_type = create_table };
  };
}

abbrev created : State × Result (Unit {0})
created = create_table_trigger defining (create_stmt creates_t) ((7, true) ∷ []) creating

create_table_trigger-Remembered_example :
    Remembered 7 true created.0 × (creating.hooks.xact.top_level_ddl_type ≡ create_table)
unfolding create_table_trigger Ddl.registered pg_duckdb.Metadata.is_extension_registered Ddl.claim
    Xact.claim_current_command_id Xact.register_temp_table Hooks.mark_statement_not_top_level
    get_tabledef relation_name db_and_schema Ddl.connect Xact.get_connection Ddl.duckdb_query
create_table_trigger-Remembered_example =
    create_table_trigger-Remembered defining 7 true (create_stmt creates_t) creating refl refl

abbrev postgres : Statement → State → State × Result (Unit {0})
postgres stmt s = (s, ok tt)

create_after_refresh_example :
    (run_ddl defining postgres false
      (create_stmt creates_t)
      (run_ddl defining postgres false refresh_mat_view_stmt idle).0).1
    ≡ err one_at_a_time
unfolding run_ddl pg_duckdb.Ddl.Tables.schema_access_method Ruleutils.is_duckdb_schema_name
    pg_duckdb.Ddl.Tables.is_duckdb_access_method
create_after_refresh_example =
    create_after_refresh defining postgres false false creates_t idle (record { keeps = λ s. refl })
      refl refl refl
