-- ===== src/Examples/Planning.antt =====
-- The metadata cache, the planner hook and the executor hooks in concrete states.
use pg_duckdb.Common.{
  ◌≡◌, ◌≢◌, refl, true, false, not, ◌||◌, none, some, [], ◌∷◌, ◌==◌, if◌then◌else◌, ◌⊎◌, arith,
}
use pg_duckdb.UserData
use pg_duckdb.Metadata
use pg_duckdb.Metadata.{ready}
use pg_duckdb.Metadata.Versions.{World, here}
use pg_duckdb.Metadata.Answers.{Tells, is_extension_registered-Tells}
use pg_duckdb.Metadata.Stuck.{failed-never_registered}
use pg_duckdb.Xact
use pg_duckdb.Types.{integer}
use pg_duckdb.Query.{
  Query, Relations, select, query, info, entry, no_rtes, no_ctes, no_nodes, func_expr,
  is_duckdb_table, is_postgres_relation, contains_duckdb_items, contains_postgres_table,
}
use pg_duckdb.Query.Reasons.{any, relations, functions, contains-any}
use pg_duckdb.Hooks.{Env, State, planner_hook, is_allowed_statement}
use pg_duckdb.Hooks.Planned.{IsHandled, planner_hook-needed}
use pg_duckdb.Hooks.Executor.{
  Execution, QueryDesc, idle, executor_start, started, is_duckdb_plan, started-not_allowed,
}

abbrev catalog : Metadata.Catalog
catalog = record {
  extension_oid = 9000;
  functions_named = λ name. 7 ∷ 8 ∷ [];
  extension_of = λ o. if o == 7 then 9000 else 1;
  table_am_oid = 9001;
  schema_oid = some 9002;
  type_named = λ name schema. 9003;
  configured_role = none;
  schema_hash = 77;
  user_data = record {
    server_oid = 0;
    owner = 0;
    postgres_role_oid = 0;
    user_mapping_oid = λ user. 0;
  };
  who = record { is_background_worker = false; user_id = 10 };
}

abbrev no_user_data : UserData.Cache
no_user_data = record {
  valid = false;
  version = 0;
  motherduck_foreign_server_oid = 0;
  motherduck_postgres_role_oid = 0;
  motherduck_user_mapping_oid = 0;
  callback_is_configured = false;
}

abbrev empty : Metadata.Cache
empty = record {
  valid = false;
  version = 0;
  installed = false;
  initializing = false;
  extension_oid = 0;
  schema_oid = 0;
  types = record {
    row_oid = 0;
    struct_oid = 0;
    unresolved_type_oid = 0;
    union_oid = 0;
    map_oid = 0;
    struct_array_oid = 0;
    union_array_oid = 0;
    map_array_oid = 0;
    json_oid = 0;
  };
  table_am_oid = 0;
  postgres_role_oid = 0;
  duckdb_only_functions = [];
  callback_is_configured = false;
  schema_hash_value = 0;
  user_data = no_user_data;
  duckdb_runs = false;
}

abbrev begun : World
begun = record { catalog = catalog; cache = empty }

is_extension_registered-Tells_example :
    ((Metadata.is_extension_registered catalog ready empty).1
      ≡ some (not (catalog.extension_oid == 0)))
    × ((catalog.extension_oid ≡ 0)
        ⊎ Tells catalog (Metadata.is_extension_registered catalog ready empty).0)
unfolding Metadata.is_extension_registered
is_extension_registered-Tells_example =
    is_extension_registered-Tells begun begun ready
      (record {
        hooked = λ h. cc;
        hash_is = λ h. cc;
        installed_is = λ h. cc;
        functions_are = λ h k. cc;
        table_am_is = λ h k. cc;
        role_is = λ h k. cc;
      })
      here refl

-- The schema of the extension has been renamed.
abbrev renamed : Metadata.Catalog
renamed = record catalog { schema_oid = none }

abbrev failed : Metadata.Cache
failed = (Metadata.is_extension_registered renamed ready empty).0

failed-never_registered_example :
    Metadata.is_extension_registered renamed ready failed ≡ (failed, some false)
unfolding Metadata.is_extension_registered
failed-never_registered_example =
    failed-never_registered renamed empty (record { catalog = renamed; cache = failed }) refl here

-- A query on relation 5 that calls function 7.
abbrev pub asks_7 : Query
asks_7 =
    query
      (record {
        command_type = select;
        result_relation = 0;
        has_modifying_cte = false;
        has_returning = false;
      })
      (entry (record { relid = 5; relkind = 114; has_perminfo = true; permitted = true }) no_nodes
        no_rtes)
      no_ctes (func_expr 7 no_nodes no_nodes)

-- A query on relation 5.
abbrev pub reads_5 : Query
reads_5 =
    query (info asks_7)
      (entry (record { relid = 5; relkind = 114; has_perminfo = true; permitted = true }) no_nodes
        no_rtes)
      no_ctes no_nodes

abbrev tables : Relations
tables = record {
  has_duckdb_am = λ o. false;
  relkind_of = λ o. 114;
  namespace_of = λ o. 2200;
  is_duckdb_only_function = λ o. o == 7;
}

contains-any_example :
    (contains_duckdb_items tables asks_7 ≡ (
      any (is_duckdb_table tables) (relations asks_7)
      || any tables.is_duckdb_only_function (functions asks_7)))
    × (contains_postgres_table tables asks_7 ≡ any (is_postgres_relation tables) (relations asks_7))
contains-any_example = contains-any tables asks_7

abbrev pub env : Env
env = record {
  catalog = catalog;
  session = ready;
  xact = record {
    in_transaction_block = λ top. false;
    unsafe_allow_mixed = false;
    motherduck_sync = false;
    initialized = true;
    in_subtransaction = false;
    execution_allowed = true;
    commit_succeeds = true;
  };
  has_duckdb_am = λ o. false;
  relkind_of = λ o. 114;
  namespace_of = λ o. 2200;
  force_execution = false;
  allow_execution_inside_functions = false;
  is_background_worker = false;
  motherduck_enabled = false;
  prepare = λ q. some (("n", integer) ∷ []);
  type_known = λ o. some true;
}

abbrev pub state : State
state = record {
  metadata = record empty {
    valid = true;
    installed = true;
    extension_oid = 9000;
    duckdb_only_functions = 7 ∷ [];
  };
  xact = record {
    next_expected_command_id = 0;
    top_level_statement = true;
    force_allow_writes = false;
    modified_temporary = false;
    temporary = [];
    temporary_old = [];
    executor_nest_level = 0;
    top_level_ddl_type = Xact.no_ddl;
    command_id = 0;
    duckdb_did_writes = false;
    active_transaction = false;
  };
  shared = none;
}

planner_hook-needed_example : IsHandled (planner_hook env asks_7 false state).1
unfolding Metadata.is_extension_registered contains_duckdb_items Metadata.is_duckdb_only_function
planner_hook-needed_example =
    planner_hook-needed env asks_7 false state (λ oid. ground arith) refl refl

abbrev execution : Execution
execution = record { state = state; immediate = false }

abbrev by_postgres : QueryDesc
by_postgres = record { plan_tree = none; operation = select }

abbrev within : Execution
within = (executor_start env (λ s. s) by_postgres execution).0

started-not_allowed_example : is_allowed_statement env within.state asks_7 ≢ none
unfolding executor_start Metadata.is_extension_registered started is_duckdb_plan
started-not_allowed_example =
    started-not_allowed env (λ s. s) by_postgres execution within within asks_7
      (record { keeps = λ s. refl }) refl refl idle
