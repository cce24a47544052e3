-- ===== src/Examples/Statements.antt =====
-- Names, definitions and COPY in concrete states.
use pg_duckdb.Common.{ℕ, true, false, none, some, [], ◌∷◌, ◌≡◌, refl}
use pg_duckdb.Worker.Sync.{Postgres}
use pg_duckdb.Worker.Sync.Loop.{pg_schema_name, main_name}
use pg_duckdb.Ruleutils
use pg_duckdb.Ruleutils.{
  dollar, duckdb_am, pg_temp, relation_name, db_and_schema, db_and_schema_string,
}
use pg_duckdb.Ruleutils.SchemaNames.{
  double_dollars, db_and_schema-pg_schema_name, pg_schema_name-dollar,
}
use pg_duckdb.Ruleutils.Definitions.{RangeVar, Table, TypeEnv, regular, temporary}
use pg_duckdb.Sql.{ok, lit}
use pg_duckdb.Copy
use pg_duckdb.Copy.{original, CopyStmt, acl_select}
use pg_duckdb.Copy.Make.{rewritten, make_duckdb_copy_query}
use pg_duckdb.Copy.Rewritten.{Passed, make_duckdb_copy_query-Passed}
use pg_duckdb.Examples.Planning
use pg_duckdb.Examples.Syncs.{small_postgres}

abbrev pub names : Ruleutils.Env
names = record {
  motherduck_enabled = true;
  default_db_name = 109 ∷ [];
  quote_identifier = λ t. t;
  relation = λ o. some (record {
    relname = 116 ∷ [];
    schema = 115 ∷ [];
    table_am_name = some duckdb_am;
    is_view = false;
  });
}

-- "a" and "b", of a worker whose quotes are escaped
abbrev escaping : Postgres ℕ
escaping = record small_postgres { escape_quotes = double_dollars }

db_and_schema-pg_schema_name_example :
    db_and_schema names (pg_schema_name escaping (97 ∷ []) (98 ∷ []) false) (some duckdb_am)
    ≡ ok (97 ∷ [], 98 ∷ [])
db_and_schema-pg_schema_name_example =
    db_and_schema-pg_schema_name names refl escaping (λ t. refl) (97 ∷ []) (98 ∷ []) (refl, tt)
      (refl, tt) (λ h. cc)

-- The database "a$b".
pg_schema_name-dollar_example :
    db_and_schema names
      (pg_schema_name escaping (97 ∷ dollar ∷ 98 ∷ []) main_name false)
      (some duckdb_am)
    ≡ ok (97 ∷ dollar ∷ [], 98 ∷ [])
pg_schema_name-dollar_example =
    pg_schema_name-dollar names refl escaping (λ t. refl) (97 ∷ []) (98 ∷ []) (refl, tt) (refl, tt)
      (λ h. cc)

abbrev pub types : TypeEnv
types = record {
  catalog = record {
    is_domain = λ o. false;
    base_type = λ o. o;
    base_typmod = λ o m. m;
    element_type = λ o. none;
    base_element_type = λ o. none;
    array_type = λ o. o;
  };
  as_double = false;
  format_type = λ o m. [];
}

abbrev pub temporary_table : Table
temporary_table = record {
  relation_schema = pg_temp;
  table_am_name = some duckdb_am;
  relkind = regular;
  is_partition = false;
  persistence = temporary;
  owned_by_motherduck = false;
  has_foreign_keys = false;
  columns = [];
  checks = [];
  is_duckdb = true;
  has_options = false;
}

abbrev pub copying : Copy.Env
copying = record {
  hooks = Planning.env;
  names = names;
  force_execution = true;
  is_alpha = λ c. true;
  is_alnum = λ c. false;
  is_absolute_path = λ t. true;
  ends_with = λ t s. false;
  quote_literal = λ t. t;
  open_relation = λ rv. some 5;
  rewrite = λ t. some ((original, Planning.reads_5) ∷ []);
  get_querydef = λ q. [];
  plan_relids = λ q. 5 ∷ [];
  plan_permitted = λ q. true;
  permitted = λ o acl. true;
  rls_enabled = λ o. false;
}

abbrev pub relation_t : RangeVar
relation_t = record { schemaname = none; relname = 116 ∷ [] }

-- COPY (...) TO '/', whose query Postgres plans.
abbrev copy_to : CopyStmt
copy_to = record {
  relation = none;
  attlist = [];
  query = some (113 ∷ []);
  is_from = false;
  is_program = false;
  filename = some (47 ∷ []);
  options = [];
}

make_duckdb_copy_query-Passed_example : Passed copying Planning.state copy_to
unfolding make_duckdb_copy_query Copy.needs_duckdb_execution Copy.remote_prefixes lit
    Copy.duckdb_suffixes Copy.copy_refused pg_duckdb.Query.is_catalog_table
    pg_duckdb.Copy.Make.relation_copy_string relation_name db_and_schema
    pg_duckdb.Copy.Make.copy_options pg_duckdb.Copy.Make.check_rewritten
    pg_duckdb.Hooks.is_allowed_statement pg_duckdb.Query.contains_catalog_table
    pg_duckdb.Copy.Make.check_query_permissions pg_duckdb.Copy.Make.plan_refused
    pg_duckdb.Hooks.planner_hook pg_duckdb.Metadata.is_extension_registered
    pg_duckdb.Hooks.plan_registered pg_duckdb.Query.contains_duckdb_items
    pg_duckdb.Hooks.should_try_to_use_duckdb_execution pg_duckdb.Hooks.check_writes
make_duckdb_copy_query-Passed_example =
    make_duckdb_copy_query-Passed copying Planning.state copy_to refl
