-- ===== src/Sql.antt =====
-- What the code that writes SQL shares, src/pgduckdb_ruleutils.cpp, src/utility/copy.cpp and
-- src/pgduckdb_ddl.cpp: texts as lists of bytes, and the errors that these files raise.
use Prim.Native.Char.{code}
use Prim.Native.String.{String}
use pg_duckdb.Common.{Bool, List, [], ◌∷◌, ◌++◌, if◌then◌else◌}
use pg_duckdb.Hooks
use pg_duckdb.Xact
use pg_duckdb.Worker.Sync.{Text}

-- A literal of the source.
unfoldable pub lit : String → Text
lit String.[] = []
lit (String.◌∷◌ c s) = code c ∷ lit s

pub data Error : Type 0 where
  -- names and definitions
  no_credentials invalid_schema_name no_such_relation not_a_table not_a_partition : Error
  unlogged_table wrong_owner foreign_keys column_compression identity_column : Error
  stored_column column_collation unsupported_column not_duckdb storage_options : Error
  wrong_rename partitioned_table unknown_generated : Error
  -- ALTER TABLE
  unsupported_alter unsupported_constraint missing_column option_value cook_failed : Error
  -- operators
  unexpected_like_function : Error
  -- COPY
  catalog_tables copy_from_postgres copy_stdio relative_path option_without_value : Error
  unexpected_option analysis_failed no_query conditional_rule also_rule many_queries : Error
  not_a_select not_planned permission_denied row_security : Error
  -- DDL
  other_access_method one_at_a_time mixed_drop ddb_schema view_check_option : Error
  view_options temporary_view select_into modifying_cte not_one_query : Error
  rename_view_column motherduck_view change_schema other_grant on_commit : Error
  no_motherduck wrong_statement query_failed several_tables : Error
  not_create_table not_alter_table : Error
  -- those of the transactions and of the planner
  refused : Xact.Error → Error
  not_planned_by_duckdb : Hooks.Error → Error

pub data Result {ℓ} (A : Type ℓ) : Type ℓ where
  ok : A → Result A
  err : Error → Result A

infixl 5 ◌>>=◌
abbrev pub ◌>>=◌ {ℓ κ} : {A : Type ℓ} {B : Type κ} → Result A → (A → Result B) → Result B
ok a >>= f = f a
err e >>= f = err e

-- `e` where the test holds, and `rest` otherwise
abbrev pub fail_if {ℓ} : {A : Type ℓ} → Bool → Error → Result A → Result A
fail_if test e rest = if test then err e else rest

-- The parts with ", " between them.
unfoldable pub separate : Text → List Text → Text
separate between [] = []
separate between (t ∷ []) = t
separate between (t ∷ u ∷ ts) = t ++ (between ++ separate between (u ∷ ts))
