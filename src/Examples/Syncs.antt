-- ===== src/Examples/Syncs.antt =====
-- The sync against a small Postgres: its catalog is a number that each command raises, schemas are
-- there once it has reached 5, and an empty query fails.
use pg_duckdb.Common.{
  ℕ, ◌+◌, ◌≡◌, ◌≢◌, refl, true, false, Option, none, some, [], ◌∷◌, ltb, if◌then◌else◌, arith,
}
use pg_duckdb.Worker.Sync.{
  table, Query, create_relation, Postgres, Session, done, run_utility_command, create_table,
  create_after_drop, commit_session, create_schema_if_not_exists, create_new_schema, grant_access,
  finish_schema, drop_qualified_relation,
}
use pg_duckdb.Worker.Sync.Atomic.{
  AllOrNothing, create_table-AllOrNothing, create_table-replaced, replaced, is_foreign,
}
use pg_duckdb.Worker.Sync.Schemas.{create_schema_if_not_exists-AllOrNothing}
use pg_duckdb.Worker.Sync.Loop.{
  Database, Memory, main_name, drop_each, drop_batches, sync_databases, visit_database,
  sync_database, sync_schemas, sync_schema, open_schema, sync_relations, sync_entries, sync_entry,
  drop_stale, pg_schema_name,
}
use pg_duckdb.Worker.Sync.Loop.Batches.{drop_batches-drop_each}
use pg_duckdb.Worker.Sync.Loop.Databases.{sync_databases_twice}

abbrev raise_catalog : Query → ℕ → Option ℕ
raise_catalog (create_relation []) c = none
raise_catalog _ c = some (c + 10)

abbrev pub small_postgres : Postgres ℕ
small_postgres = record {
  exec = λ user q c. raise_catalog q c;
  relation = λ c schema name. some (record { kind = table; motherduck = true });
  namespace_oid = λ c schema. if ltb c 5 then none else some 1;
  has_create_access = λ c oid user. true;
  record_dependency = λ oid c. c + 10;
  max_name = 63;
  motherduck_user = 10;
  other_role = none;
  same_cache_version = λ c. true;
  stale_relations = λ c db version default_db. (1 ∷ [], table) ∷ [];
  escape_quotes = λ text. text;
}

abbrev session_at : ℕ → Session ℕ
session_at c = record { catalog = c; saved = []; user = 7; commits = 0 }

-- The old table is dropped, the new one cannot be created, and the old one is back.
create_table-AllOrNothing_example :
    AllOrNothing
      (session_at 5)
      (create_table small_postgres (1 ∷ []) (2 ∷ []) [] false (session_at 5))
create_table-AllOrNothing_example =
    create_table-AllOrNothing small_postgres (1 ∷ []) (2 ∷ []) [] false (session_at 5)

-- The new table is there, in the place of the old one.
create_table-replaced_example :
    (replaced small_postgres (1 ∷ []) (2 ∷ []) (3 ∷ []) false (session_at 5) ≡ some 25)
    × (small_postgres.namespace_oid 5 (1 ∷ []) ≢ none)
    × (is_foreign (small_postgres.relation 5 (1 ∷ []) (2 ∷ [])) ≡ false)
unfolding create_table create_after_drop commit_session run_utility_command
create_table-replaced_example =
    create_table-replaced small_postgres (1 ∷ []) (2 ∷ []) (3 ∷ []) false (session_at 5)
      (record { catalog = 25; saved = []; user = 7; commits = 1 }) refl

create_schema_if_not_exists-AllOrNothing_example :
    AllOrNothing
      (session_at 0)
      (create_schema_if_not_exists small_postgres (1 ∷ []) false (session_at 0))
create_schema_if_not_exists-AllOrNothing_example =
    create_schema_if_not_exists-AllOrNothing small_postgres (1 ∷ []) false (session_at 0) refl

drop_batches-drop_each_example :
    drop_batches small_postgres 2 false ((1 ∷ [], table) ∷ []) (session_at 5)
    ≡ some (drop_each small_postgres false ((1 ∷ [], table) ∷ []) (session_at 5))
drop_batches-drop_each_example =
    drop_batches-drop_each small_postgres false 2 ((1 ∷ [], table) ∷ []) (session_at 5)
      (omega arith)

abbrev my_db : Database
my_db = record {
  alias = 109 ∷ [];
  version = 49 ∷ [];
  schemas =
      record {
        name = main_name;
        tables = record { name = 116 ∷ []; create_query = 67 ∷ [] } ∷ [];
        views = [];
      }
      ∷ [];
}

abbrev no_memory : Memory
no_memory = record { known = []; current_version = none }

abbrev synced : Session ℕ
synced = record { catalog = 50; saved = []; user = 7; commits = 3 }

abbrev remembered : Memory
remembered = record { known = (109 ∷ [], 49 ∷ []) ∷ []; current_version = none }

sync_databases_twice_example :
    sync_databases small_postgres (109 ∷ []) false (my_db ∷ []) remembered synced
    ≡ (done true synced, remembered)
unfolding sync_databases visit_database sync_database sync_schemas sync_schema open_schema
    sync_relations sync_entries sync_entry drop_stale create_table create_after_drop commit_session
    create_schema_if_not_exists create_new_schema grant_access finish_schema run_utility_command
    drop_batches drop_each drop_qualified_relation pg_schema_name
sync_databases_twice_example =
    sync_databases_twice small_postgres (109 ∷ []) false (my_db ∷ []) no_memory remembered
      (session_at 0) synced true (tt, tt) refl
