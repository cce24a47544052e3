-- ===== src/Ruleutils/Definitions.antt =====
-- The statements that define a table or a view in DuckDB and rename a relation there:
-- `pgduckdb_get_tabledef`, `pgduckdb_get_viewdef` and `pgduckdb_get_rename_relationdef`. A relation is
-- what Postgres' relation cache says of it, with its expressions deparsed.
use pg_duckdb.Common.{
  ℕ, Bool, true, false, not, ◌&&◌, Option, none, some, List, [], ◌∷◌, ◌++◌, map, if◌then◌else◌,
}
use pg_duckdb.Common.Int.{ℤ}
use pg_duckdb.Types.{Oid}
use pg_duckdb.Types.Columns.{Catalog, Attribute, convert_column}
use pg_duckdb.Types.Oids.{get_postgres_type}
use pg_duckdb.Worker.Sync.{Text}
use pg_duckdb.Sql.{
  lit, separate, fail_if, Result, ok, err, ◌>>=◌, not_a_table, not_a_partition, unlogged_table,
  wrong_owner, foreign_keys, column_compression, identity_column, stored_column, column_collation,
  unsupported_column, not_duckdb, storage_options, wrong_rename, partitioned_table,
  unknown_generated,
}
use pg_duckdb.Ruleutils.{Env, dot, duckdb_am, relation_of, relation_name, db_and_schema_string}

pub data ObjectType : Type 0 where
  object_table object_view object_column object_schema other_object : ObjectType

-- A RangeVar, as it is written.
pub record RangeVar : Type 0 where
  pub schemaname : Option Text
  pub relname : Text

pub record RenameStmt : Type 0 where
  pub rename_type : ObjectType
  pub relation_type : ObjectType
  pub relation : RangeVar
  pub subname : Option Text
  pub newname : Text

abbrev renames_relation : ObjectType → Bool
renames_relation object_table = true
renames_relation object_view = true
renames_relation object_column = true
renames_relation _ = false

abbrev relation_word : Bool → Text
relation_word true = lit "VIEW"
relation_word false = lit "TABLE"

abbrev rename_text : Env → Text → RenameStmt → Option Text → Text
rename_text e old_name stmt (some column) =
    lit "ALTER "
    ++ old_name
    ++ lit " RENAME COLUMN "
    ++ e.quote_identifier column
    ++ lit " TO "
    ++ e.quote_identifier stmt.newname
    ++ lit ";"
rename_text e old_name stmt none =
    lit "ALTER " ++ old_name ++ lit " RENAME TO " ++ e.quote_identifier stmt.newname ++ lit ";"

-- pgduckdb_get_rename_relationdef
unfoldable pub get_rename_relationdef : Env → ℕ → RenameStmt → Result Text
get_rename_relationdef e oid stmt =
    if not (renames_relation stmt.rename_type) then err wrong_rename else do
      r ← relation_of (e.relation oid)
      s ← db_and_schema_string e r.schema (some duckdb_am)
      let old_name = s ++ dot ++ e.quote_identifier stmt.relation.relname
      ok (rename_text e (relation_word r.is_view ++ lit " " ++ old_name) stmt stmt.subname)

pub data Persistence : Type 0 where
  permanent temporary unlogged : Persistence

pub data CheckOption : Type 0 where
  no_check_option local_check_option cascaded_check_option : CheckOption

-- `query` is the text of the parse tree.
pub record ViewStmt : Type 0 where
  pub view : RangeVar
  pub persistence : Persistence
  pub replace : Bool
  pub aliases : List Text
  pub check_option : CheckOption
  pub has_options : Bool
  pub query : Text

abbrev alias_list : Env → List Text → Text
alias_list e [] = []
alias_list e (a ∷ as_names) =
    lit "(" ++ separate (lit ", ") (map e.quote_identifier (a ∷ as_names)) ++ lit ")"

-- pgduckdb_get_viewdef
unfoldable pub get_viewdef : Env → ViewStmt → Text → Text → Text → Result Text
get_viewdef e stmt schema_name view_name query_string = do
  s ← db_and_schema_string e schema_name (some duckdb_am)
  ok (
      lit "CREATE SCHEMA IF NOT EXISTS "
      ++ s
      ++ lit "; "
      ++ lit "CREATE "
      ++ (if stmt.replace then lit "OR REPLACE " else [])
      ++ lit "VIEW "
      ++ s
      ++ dot
      ++ e.quote_identifier view_name
      ++ alias_list e stmt.aliases
      ++ lit " AS "
      ++ query_string
      ++ lit ";")

pub data Generated : Type 0 where
  not_generated stored otherwise_generated : Generated

pub record Column : Type 0 where
  pub dropped : Bool
  pub attname : Text
  pub attribute : Attribute
  pub has_compression : Bool
  pub has_identity : Bool
  -- the deparsed default, where the column has one
  pub default_string : Option Text
  pub generated : Generated
  pub not_null : Bool
  -- a collation other than the default one, of a locale that is not C
  pub has_collation : Bool

pub data RelKind : Type 0 where
  regular partitioned other_kind : RelKind

pub record Table : Type 0 where
  pub relation_schema : Text
  pub table_am_name : Option Text
  pub relkind : RelKind
  pub is_partition : Bool
  pub persistence : Persistence
  -- owned by the role that MotherDuckPostgresUserOid gives
  pub owned_by_motherduck : Bool
  pub has_foreign_keys : Bool
  pub columns : List Column
  -- the names of the check constraints, and their deparsed conditions
  pub checks : List (Text × Text)
  pub is_duckdb : Bool
  pub has_options : Bool

-- The type system and format_type_with_typemod.
pub record TypeEnv : Type 0 where
  pub catalog : Catalog
  pub as_double : Bool
  pub format_type : Oid → ℤ → Text

-- ConvertPostgresToDuckColumnType, then GetPostgresDuckDBType, which throws
abbrev mapped_type : Option Oid → Result Oid
mapped_type none = err unsupported_column
mapped_type (some o) = ok o

abbrev check_type : TypeEnv → Attribute → Result Oid
check_type t a = mapped_type (get_postgres_type (convert_column t.catalog t.as_double a))

abbrev pub default_text : Generated → Option Text → Result Text
default_text g none = ok []
default_text not_generated (some d) = ok (lit " DEFAULT " ++ d)
default_text stored (some d) = err stored_column
default_text otherwise_generated (some d) = err unknown_generated

-- The body of the loop over the columns, for a column that is not dropped.
unfoldable pub column_text : Env → TypeEnv → Column → Result Text
column_text e t c = do
  o ← check_type t c.attribute
  fail_if c.has_compression column_compression (
      fail_if c.has_identity identity_column (do
        d ← default_text c.generated c.default_string
        fail_if c.has_collation column_collation (
            ok (
              e.quote_identifier c.attname
              ++ lit " "
              ++ t.format_type c.attribute.atttypid c.attribute.atttypmod
              ++ d
              ++ (if c.not_null then lit " NOT NULL" else [])))))

unfoldable pub column_texts : Env → TypeEnv → List Column → Result (List Text)
unfolding column_text
column_texts e t [] = ok []
column_texts e t (c ∷ cs) =
    let rest = column_texts e t cs in
    if c.dropped then rest else do text ← column_text e t c; texts ← rest; ok (text ∷ texts)

abbrev check_text : Env → Text × Text → Text
check_text e (name, condition) =
    lit "CONSTRAINT " ++ e.quote_identifier name ++ lit " CHECK " ++ lit "(" ++ condition ++ lit ")"

abbrev pub is_partitioned : RelKind → Bool
is_partitioned partitioned = true
is_partitioned _ = false

abbrev pub is_regular : RelKind → Bool
is_regular regular = true
is_regular _ = false

abbrev pub is_temporary : Persistence → Bool
is_temporary temporary = true
is_temporary _ = false

abbrev pub is_permanent : Persistence → Bool
is_permanent permanent = true
is_permanent _ = false

-- The body of the statement: the columns and the checks.
abbrev table_text : Env → TypeEnv → Text → Text → Table → Result Text
table_text e t schema name r = do
  columns ← column_texts e t r.columns
  let parts = columns ++ map (check_text e) r.checks
  ok (
      lit "CREATE SCHEMA IF NOT EXISTS "
      ++ schema
      ++ lit "; "
      ++ lit "CREATE "
      ++ lit "TABLE "
      ++ name
      ++ lit " ("
      ++ separate (lit ", ") parts
      ++ lit ")")

-- pgduckdb_get_tabledef
unfoldable pub get_tabledef : Env → TypeEnv → (ℕ → Table) → ℕ → Result Text
unfolding column_texts
get_tabledef e t table oid = do
  name ← relation_name e oid
  let r = table oid
  schema ← db_and_schema_string e r.relation_schema r.table_am_name
  fail_if (is_partitioned r.relkind) partitioned_table (
      fail_if (not (is_regular r.relkind)) not_a_table (
        fail_if r.is_partition not_a_partition (
          fail_if (not (is_temporary r.persistence) && not (is_permanent r.persistence))
            unlogged_table
            (fail_if (not (is_temporary r.persistence) && not r.owned_by_motherduck) wrong_owner (
              fail_if r.has_foreign_keys foreign_keys (do
                text ← table_text e t schema name r
                fail_if (not r.is_duckdb) not_duckdb
                    (fail_if r.has_options storage_options (ok text))))))))
