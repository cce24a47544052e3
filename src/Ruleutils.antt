-- ===== src/Ruleutils.antt =====
-- The names that Postgres' relations have in DuckDB, and the definitions sent to it:
-- `pgduckdb_db_and_schema`, `pgduckdb_relation_name`, `pgduckdb_get_tabledef`, `pgduckdb_get_viewdef`
-- and `pgduckdb_get_rename_relationdef` of src/pgduckdb_ruleutils.cpp.
use pg_duckdb.Common.{
  ℕ, Bool, true, false, not, ◌&&◌, ◌||◌, Option, none, some, List, [], ◌∷◌, ◌++◌, map, ◌==◌,
  if◌then◌else◌,
}
use pg_duckdb.Query.{invalid_oid}
use pg_duckdb.Worker.Sync.{Text}
use pg_duckdb.Worker.Sync.Loop.{eq_text, main_name, public_name, ddb_prefix}
use pg_duckdb.Sql.{
  lit, separate, fail_if, Result, ok, err, ◌>>=◌, no_credentials, invalid_schema_name,
  no_such_relation, wrong_rename,
}
pub mod Definitions
pub mod AlterTable
pub mod Operators
pub mod SchemaNames

-- '$'
abbrev pub dollar : ℕ
dollar = 36

-- "pg_temp"
abbrev pub pg_temp : Text
pg_temp = 112 ∷ 103 ∷ 95 ∷ 116 ∷ 101 ∷ 109 ∷ 112 ∷ []

-- "duckdb"
abbrev pub duckdb_am : Text
duckdb_am = 100 ∷ 117 ∷ 99 ∷ 107 ∷ 100 ∷ 98 ∷ []

-- StringHasPrefix
abbrev pub has_prefix : Text → Text → Bool
has_prefix cs [] = true
has_prefix [] (p ∷ ps) = false
has_prefix (c ∷ cs) (p ∷ ps) = (c == p) && has_prefix cs ps

unfoldable pub is_duckdb_schema_name : Text → Bool
is_duckdb_schema_name s = has_prefix s ddb_prefix

-- &name[4]
abbrev pub after_prefix : Text → Text
after_prefix (a ∷ b ∷ c ∷ d ∷ rest) = rest
after_prefix name = []

-- The first loop over a ddb$ name: the database's name alone, that and the rest at the schema's name,
-- or the error of a name that ends in a dollar.
pub data DbPart : Type 0 where
  only_db : Text → DbPart
  schema_at : Text → Text → DbPart
  ends_in_dollar : DbPart

-- `db_name` is what the buffer holds, and the second text stands at `saveptr`. A dollar in front of
-- another one is copied, and the loop goes on at that other one.
unfoldable pub db_part : Text → Text → DbPart
db_part db_name [] = only_db db_name
db_part db_name (c ∷ []) = if c == dollar then ends_in_dollar else only_db (db_name ++ c ∷ [])
db_part db_name (c ∷ d ∷ rest) =
    let later = db_part (db_name ++ c ∷ []) (d ∷ rest) in
    if (c == dollar) && not (d == dollar) then schema_at db_name (d ∷ rest) else later

-- The second loop, with the append behind it.
unfoldable pub schema_part : Text → Text → Text
schema_part schema_name [] = schema_name
schema_part schema_name (c ∷ []) = if c == dollar then schema_name else schema_name ++ c ∷ []
schema_part schema_name (c ∷ d ∷ rest) =
    let later = schema_part (schema_name ++ c ∷ []) (d ∷ rest) in
    if (c == dollar) && not (d == dollar) then schema_name ++ d ∷ rest else later

abbrev pub named_parts : DbPart → Result (Text × Text)
named_parts (only_db db) = ok (db, main_name)
named_parts (schema_at db rest) = ok (db, schema_part [] rest)
named_parts ends_in_dollar = err invalid_schema_name

-- A relation, as its definition reads it.
pub record Relation : Type 0 where
  pub relname : Text
  -- get_namespace_name_or_temp
  pub schema : Text
  -- DuckdbTableAmGetName
  pub table_am_name : Option Text
  pub is_view : Bool

pub record Env : Type 0 where
  pub motherduck_enabled : Bool
  -- GetDefaultDBName()
  pub default_db_name : Text
  pub quote_identifier : Text → Text
  pub relation : ℕ → Option Relation

-- pgduckdb_db_and_schema of a table of the "duckdb" access method
unfoldable pub duckdb_db_and_schema : Env → Text → Result (Text × Text)
unfolding is_duckdb_schema_name db_part
duckdb_db_and_schema e name =
    if eq_text pg_temp name
    then ok (pg_temp, main_name)
    else if eq_text public_name name
    then ok (e.default_db_name, main_name)
    else if not e.motherduck_enabled
    then err no_credentials
    else if not (is_duckdb_schema_name name)
    then ok (e.default_db_name, name)
    else named_parts (db_part [] (after_prefix name))

-- "pgduckdb"
abbrev pgduckdb_db : Text
pgduckdb_db = 112 ∷ 103 ∷ 100 ∷ 117 ∷ 99 ∷ 107 ∷ 100 ∷ 98 ∷ []

unfoldable pub db_and_schema : Env → Text → Option Text → Result (Text × Text)
unfolding duckdb_db_and_schema
db_and_schema e name none = ok (pgduckdb_db, name)
db_and_schema e name (some am) =
    if not (eq_text duckdb_am am) then ok (am, name) else duckdb_db_and_schema e name

abbrev pub dot : Text
dot = 46 ∷ []

abbrev pub qualified : Env → Text × Text → Text
qualified e (db, schema) = e.quote_identifier db ++ (dot ++ e.quote_identifier schema)

unfoldable pub db_and_schema_string : Env → Text → Option Text → Result Text
db_and_schema_string e name am = db_and_schema e name am >>= λ parts. ok (qualified e parts)

abbrev pub relation_of : Option Relation → Result Relation
relation_of none = err no_such_relation
relation_of (some r) = ok r

unfoldable pub relation_name : Env → ℕ → Result Text
unfolding db_and_schema_string
relation_name e oid = do
  r ← relation_of (e.relation oid)
  s ← db_and_schema_string e r.schema r.table_am_name
  ok (s ++ (dot ++ e.quote_identifier r.relname))
