-- ===== src/Metadata.antt =====
-- The cache of the extension's metadata, src/pgduckdb_metadata_cache.cpp. What the Postgres catalog
-- says is a record of answers. The names of the cached types and functions are the source's; the
-- assertions are left out.
use Prim.Native.String.{String}
use pg_duckdb.Common.{
  ℕ, ◌+◌, ◌%◌, ◌^◌, Bool, true, false, not, ◌&&◌, ◌||◌, Option, none, some, List, [], ◌∷◌, ◌++◌,
  ◌==◌, if◌then◌else◌,
}
use pg_duckdb.UserData
pub mod Functions
pub mod Versions
pub mod Answers
pub mod Stuck

abbrev pub invalid_oid : ℕ
invalid_oid = 0

-- BOOTSTRAP_SUPERUSERID
abbrev pub bootstrap_superuser : ℕ
bootstrap_superuser = 10

-- What Postgres answers. `schema_oid` is `none` where get_namespace_oid raises its error, and
-- `configured_role` is `none` where duckdb.postgres_role is empty.
pub record Catalog : Type 0 where
  pub extension_oid : ℕ
  pub functions_named : String → List ℕ
  pub extension_of : ℕ → ℕ
  pub table_am_oid : ℕ
  pub schema_oid : Option ℕ
  pub type_named : String → ℕ → ℕ
  pub configured_role : Option ℕ
  pub schema_hash : ℕ
  pub user_data : UserData.Catalog
  pub who : UserData.Who

-- The state of the session that IsExtensionRegistered asks Postgres about.
pub data Session : Type 0 where
  aborted no_transaction no_snapshot ready : Session

pub record TypeOids : Type 0 where
  pub row_oid : ℕ
  pub struct_oid : ℕ
  pub unresolved_type_oid : ℕ
  pub union_oid : ℕ
  pub map_oid : ℕ
  pub struct_array_oid : ℕ
  pub union_array_oid : ℕ
  pub map_array_oid : ℕ
  pub json_oid : ℕ

-- `cache`, callback_is_configured and schema_hash_value, and beside them the cache of the user's data
-- and whether the DuckDB instance runs.
pub record Cache : Type 0 where
  pub valid : Bool
  pub version : ℕ
  pub installed : Bool
  pub initializing : Bool
  pub extension_oid : ℕ
  pub schema_oid : ℕ
  pub types : TypeOids
  pub table_am_oid : ℕ
  pub postgres_role_oid : ℕ
  pub duckdb_only_functions : List ℕ
  pub callback_is_configured : Bool
  pub schema_hash_value : ℕ
  pub user_data : UserData.Cache
  pub duckdb_runs : Bool

unfoldable pub invalidate_caches : ℕ → Cache → Cache
invalidate_caches hash_value c =
    let stale : Cache = record c { initializing = false; valid = false } in
    if not (hash_value == c.schema_hash_value)
    then c
    else if not c.valid
    then c
    else if c.installed
    then record stale {
      duckdb_only_functions = [];
      extension_oid = invalid_oid;
      table_am_oid = invalid_oid;
      postgres_role_oid = invalid_oid;
    }
    else stale

abbrev pub function_names : List String
function_names =
    "read_parquet" ∷ "read_csv" ∷ "iceberg_scan" ∷ "iceberg_metadata" ∷ "iceberg_snapshots"
    ∷ "delta_scan" ∷ "read_json" ∷ "approx_count_distinct" ∷ "query" ∷ "view" ∷ "json_exists"
    ∷ "json_extract" ∷ "json_extract_string" ∷ "json_array_length" ∷ "json_contains" ∷ "json_keys"
    ∷ "json_structure" ∷ "json_type" ∷ "json_valid" ∷ "json" ∷ "json_group_array"
    ∷ "json_group_object" ∷ "json_group_structure" ∷ "json_transform" ∷ "from_json"
    ∷ "json_transform_strict" ∷ "from_json_strict" ∷ "json_value" ∷ "strftime" ∷ "strptime"
    ∷ "epoch" ∷ "epoch_ms" ∷ "epoch_us" ∷ "epoch_ns" ∷ "make_timestamp" ∷ "make_timestamptz"
    ∷ "time_bucket" ∷ "union_extract" ∷ "union_tag" ∷ "cardinality" ∷ "element_at" ∷ "map_concat"
    ∷ "map_contains" ∷ "map_contains_entry" ∷ "map_contains_value" ∷ "map_entries" ∷ "map_extract"
    ∷ "map_extract_value" ∷ "map_from_entries" ∷ "map_keys" ∷ "map_values" ∷ []

-- the members of one SearchSysCacheList1 that belong to the extension
unfoldable pub members : Catalog → ℕ → List ℕ → List ℕ
members pg extension [] = []
members pg extension (o ∷ os) =
    let rest = members pg extension os in
    if not (pg.extension_of o == extension) then rest else o ∷ rest

unfoldable pub build_duckdb_only_functions : Catalog → ℕ → List String → List ℕ
unfolding members
build_duckdb_only_functions pg extension [] = []
build_duckdb_only_functions pg extension (name ∷ names) =
    members pg extension (pg.functions_named name) ++ build_duckdb_only_functions pg extension names

abbrev pub type_oids : Catalog → ℕ → TypeOids
type_oids pg schema = record {
  row_oid = pg.type_named "row" schema;
  struct_oid = pg.type_named "struct" schema;
  unresolved_type_oid = pg.type_named "unresolved_type" schema;
  union_oid = pg.type_named "union" schema;
  map_oid = pg.type_named "map" schema;
  struct_array_oid = pg.type_named "_struct" schema;
  union_array_oid = pg.type_named "_union" schema;
  map_array_oid = pg.type_named "_map" schema;
  json_oid = pg.type_named "json" schema;
}

-- duckdb.postgres_role, or the superuser that stands in for it
unfoldable pub postgres_role : Option ℕ → ℕ
postgres_role none = bootstrap_superuser
postgres_role (some role) = if role == invalid_oid then bootstrap_superuser else role

-- The first time, the callback is registered.
abbrev pub register_callback : Catalog → Cache → Cache
register_callback pg c =
    if not c.callback_is_configured
    then record c { callback_is_configured = true; schema_hash_value = pg.schema_hash }
    else c

-- What follows once the extension is known to be installed, up to the error of get_namespace_oid;
-- `none` is that error.
abbrev pub finish_installed : Catalog → Option ℕ → Cache → Cache × Option Bool
finish_installed pg none c = (c, none)
finish_installed pg (some schema) c = (
  record c {
    schema_oid = schema;
    types = type_oids pg schema;
    postgres_role_oid = postgres_role pg.configured_role;
    valid = true;
    initializing = false;
  },
  some true,
)

unfoldable pub initialize : Catalog → Cache → Cache × Option Bool
initialize pg c =
    let begun : Cache = record (register_callback pg (record c { initializing = true })) {
      extension_oid = pg.extension_oid;
      installed = not (pg.extension_oid == invalid_oid);
      version = (c.version + 1) % 2 ^ 64;
    } in
    if pg.extension_oid == invalid_oid
    then (record begun { duckdb_runs = false; valid = true; initializing = false }, some false)
    else finish_installed pg pg.schema_oid (record begun {
      user_data = UserData.init_user_data_cache pg.user_data pg.who c.user_data;
      duckdb_only_functions = build_duckdb_only_functions pg pg.extension_oid function_names;
      table_am_oid = pg.table_am_oid;
    })

-- The cache, and the answer; `none` where Postgres raised an error.
unfoldable pub is_extension_registered : Catalog → Session → Cache → Cache × Option Bool
unfolding initialize
is_extension_registered pg aborted c = if c.valid then (c, some c.installed) else (c, some false)
is_extension_registered pg no_transaction c =
    if c.valid then (c, some c.installed) else (c, some false)
is_extension_registered pg no_snapshot c =
    if c.valid
    then (c, some c.installed)
    else if c.initializing
    then (c, some false)
    else (c, some (not (pg.extension_oid == invalid_oid)))
is_extension_registered pg ready c =
    if c.valid
    then (c, some c.installed)
    else if c.initializing
    then (c, some false)
    else initialize pg c

abbrev pub contains_oid : ℕ → List ℕ → Bool
contains_oid o [] = false
contains_oid o (p ∷ ps) = (p == o) || contains_oid o ps

unfoldable pub is_duckdb_only_function : ℕ → Cache → Bool
is_duckdb_only_function function_oid c = contains_oid function_oid c.duckdb_only_functions

-- Form_pg_class
pub record Relation : Type 0 where
  pub relam : ℕ
  pub relpersistence : ℕ

-- RELPERSISTENCE_PERMANENT, 'p'
abbrev pub permanent : ℕ
permanent = 112

unfoldable pub is_duckdb_table : Relation → Cache → Bool
is_duckdb_table relation c = relation.relam == c.table_am_oid

unfoldable pub is_motherduck_table : Relation → Cache → Bool
unfolding is_duckdb_table
is_motherduck_table relation c =
    is_duckdb_table relation c && (relation.relpersistence == permanent)

-- `has_privs_of_role user role` is Postgres' answer.
unfoldable pub is_duckdb_execution_allowed : (ℕ → ℕ → Bool) → ℕ → Cache → Bool
is_duckdb_execution_allowed has_privs_of_role user c = has_privs_of_role user c.postgres_role_oid
