-- ===== src/Ruleutils/AlterTable.antt =====
-- `pgduckdb_get_alter_tabledef`, the text of ALTER TABLE in DuckDB. The expressions of a
-- statement are raw ones, which Postgres cooks and pg_duckdb's copy of its deparser prints.
use pg_duckdb.Common.{
  ℕ, Bool, true, false, not, ◌||◌, Option, none, some, List, [], ◌∷◌, ◌++◌, map, if◌then◌else◌,
}
use pg_duckdb.Common.Int.{ℤ}
use pg_duckdb.Types.{Oid}
use pg_duckdb.Worker.Sync.{Text}
use pg_duckdb.Worker.Sync.Loop.{eq_text}
use pg_duckdb.Sql.{
  lit, separate, fail_if, Result, ok, err, ◌>>=◌, not_a_table, foreign_keys, column_collation,
  unsupported_alter, unsupported_constraint, missing_column, option_value, cook_failed,
}
use pg_duckdb.Ruleutils.{Env, relation_name}
use pg_duckdb.Ruleutils.Definitions.{Column, Table, is_regular}

-- An expression that Postgres has parsed and not analyzed.
pub record RawExpr : Type 0 where
  pub source : Text

pub data Constraint : Type 0 where
  null not_null primary unique : Constraint
  default : Option RawExpr → Constraint
  check : RawExpr → Constraint
  other_constraint : Constraint

-- A constraint of ADD CONSTRAINT, which may have a name and has its keys.
pub data TableConstraint : Type 0 where
  check : (name : Option Text) → RawExpr → TableConstraint
  primary unique : (keys : List Text) → TableConstraint
  other_constraint : TableConstraint

-- A ColumnDef, with the type and typmod that BuildDescForRelation gives it.
pub record ColumnDef : Type 0 where
  pub colname : Text
  pub atttypid : Oid
  pub atttypmod : ℤ
  pub constraints : List Constraint
  pub has_collation : Bool

pub data DropBehavior : Type 0 where
  restrict cascade : DropBehavior

-- The value of a storage option; an integer with its digits.
pub data OptionValue : Type 0 where
  string integer : Text → OptionValue
  other_value : OptionValue

pub record RelOption : Type 0 where
  pub defname : Text
  pub arg : Option OptionValue

pub data AlterTableCmd : Type 0 where
  add_column : ColumnDef → AlterTableCmd
  alter_column_type : (name : Text) → ColumnDef → AlterTableCmd
  drop_column drop_constraint : (name : Text) → DropBehavior → AlterTableCmd
  column_default : (name : Text) → Option RawExpr → AlterTableCmd
  drop_not_null set_not_null : (name : Text) → AlterTableCmd
  add_constraint : TableConstraint → AlterTableCmd
  set_rel_options reset_rel_options : List RelOption → AlterTableCmd
  other_command : AlterTableCmd

-- What Postgres makes of expressions, literals and types; `none` is an error of cookDefault, for a
-- column's name, or of cookConstraint.
pub record Cooking : Type 0 where
  pub cook_default : Text → RawExpr → Option Text
  pub cook_constraint : RawExpr → Option Text
  pub quote_literal : Text → Text
  pub format_type : Oid → ℤ → Text

abbrev cooked : Option Text → Result Text
cooked none = err cook_failed
cooked (some t) = ok t

abbrev default_of : Cooking → Text → Option RawExpr → Result Text
default_of k name none = ok []
default_of k name (some raw) = do t ← cooked (k.cook_default name raw); ok (lit " DEFAULT " ++ t)

-- A constraint of ADD COLUMN.
unfoldable pub constraint_text : Cooking → Text → Constraint → Result Text
constraint_text k name null = ok (lit " NULL")
constraint_text k name not_null = ok (lit " NOT NULL")
constraint_text k name (default raw) = default_of k name raw
constraint_text k name (check raw) = do
  t ← cooked (k.cook_constraint raw)
  ok (lit "CHECK " ++ (lit "(" ++ t ++ lit "); "))
constraint_text k name primary = ok (lit " PRIMARY KEY")
constraint_text k name unique = ok (lit " UNIQUE")
constraint_text k name other_constraint = err unsupported_alter

unfoldable pub constraint_texts : Cooking → Text → List Constraint → Result Text
unfolding constraint_text
constraint_texts k name [] = ok []
constraint_texts k name (c ∷ cs) =
    let rest = constraint_texts k name cs in
    do t ← constraint_text k name c; ts ← rest; ok (t ++ ts)

unfoldable pub add_column_text : Env → Cooking → ColumnDef → Result Text
unfolding constraint_texts
add_column_text e k c = do
  ts ← constraint_texts k c.colname c.constraints
  fail_if c.has_collation column_collation (
      ok (
        lit "ADD COLUMN "
        ++ e.quote_identifier c.colname
        ++ lit " "
        ++ k.format_type c.atttypid c.atttypmod
        ++ ts
        ++ lit "; "))

abbrev behavior_text : DropBehavior → Text
behavior_text cascade = lit " CASCADE; "
behavior_text restrict = lit " RESTRICT; "

-- pg::GetAttributeByName
unfoldable pub has_attribute : Text → List Column → Bool
has_attribute name [] = false
has_attribute name (c ∷ cs) = eq_text c.attname name || has_attribute name cs

abbrev set_default_text : Cooking → Text → Option RawExpr → Result Text
set_default_text k name none = ok (lit "DROP DEFAULT; ")
set_default_text k name (some raw) = do
  t ← cooked (k.cook_default name raw)
  ok (lit "SET DEFAULT " ++ t ++ lit "; ")

unfoldable pub column_default_text :
    Env → Cooking → List Column → Text → Option RawExpr → Result Text
unfolding has_attribute
column_default_text e k columns name raw =
    if not (has_attribute name columns) then err missing_column else do
      t ← set_default_text k name raw
      ok (lit "ALTER COLUMN " ++ e.quote_identifier name ++ lit " " ++ t)

abbrev key_list : Env → List Text → Text
key_list e keys = lit "(" ++ separate (lit ", ") (map e.quote_identifier keys) ++ lit "); "

abbrev name_or_empty : Option Text → Text
name_or_empty none = []
name_or_empty (some name) = name

unfoldable pub add_constraint_text : Env → Cooking → TableConstraint → Result Text
add_constraint_text e k (check name raw) = do
  t ← cooked (k.cook_constraint raw)
  ok (
      lit "ADD CONSTRAINT "
      ++ e.quote_identifier (name_or_empty name)
      ++ lit " CHECK ("
      ++ t
      ++ lit "); ")
add_constraint_text e k (primary keys) = ok (lit "ADD PRIMARY KEY " ++ key_list e keys)
add_constraint_text e k (unique keys) = ok (lit "ADD UNIQUE " ++ key_list e keys)
add_constraint_text e k other_constraint = err unsupported_constraint

abbrev value_text : Cooking → Option OptionValue → Result Text
value_text k none = ok []
value_text k (some (string t)) = ok (lit " = " ++ k.quote_literal t)
value_text k (some (integer t)) = ok (lit " = " ++ t)
value_text k (some other_value) = err option_value

-- One storage option; RESET takes no value.
unfoldable pub rel_option_text : Env → Cooking → Bool → RelOption → Result Text
rel_option_text e k is_set o = do
  t ← value_text k (if is_set then o.arg else none)
  ok (e.quote_identifier o.defname ++ t)

unfoldable pub rel_option_texts : Env → Cooking → Bool → List RelOption → Result (List Text)
unfolding rel_option_text
rel_option_texts e k is_set [] = ok []
rel_option_texts e k is_set (o ∷ os) =
    let rest = rel_option_texts e k is_set os in
    do t ← rel_option_text e k is_set o; ts ← rest; ok (t ∷ ts)

abbrev rel_options_text : Env → Cooking → Bool → List RelOption → Result Text
rel_options_text e k is_set os = do
  ts ← rel_option_texts e k is_set os
  ok ((if is_set then lit "SET (" else lit "RESET (") ++ separate (lit ", ") ts ++ lit "); ")

-- The text behind ALTER TABLE and the name.
unfoldable pub command_text : Env → Cooking → List Column → AlterTableCmd → Result Text
unfolding rel_option_texts add_column_text column_default_text add_constraint_text
command_text e k columns (add_column c) = add_column_text e k c
command_text e k columns (alter_column_type name c) = ok (
    lit "ALTER COLUMN "
    ++ e.quote_identifier name
    ++ lit " TYPE "
    ++ k.format_type c.atttypid c.atttypmod
    ++ lit "; ")
command_text e k columns (drop_column name b) =
    ok (lit "DROP COLUMN " ++ e.quote_identifier name ++ behavior_text b)
command_text e k columns (drop_constraint name b) =
    ok (lit "DROP CONSTRAINT " ++ e.quote_identifier name ++ behavior_text b)
command_text e k columns (column_default name raw) = column_default_text e k columns name raw
command_text e k columns (drop_not_null name) =
    ok (lit "ALTER COLUMN " ++ e.quote_identifier name ++ lit " DROP NOT NULL; ")
command_text e k columns (set_not_null name) =
    ok (lit "ALTER COLUMN " ++ e.quote_identifier name ++ lit " SET NOT NULL; ")
command_text e k columns (add_constraint c) = add_constraint_text e k c
command_text e k columns (set_rel_options os) = rel_options_text e k true os
command_text e k columns (reset_rel_options os) = rel_options_text e k false os
command_text e k columns other_command = err unsupported_alter

unfoldable pub command_texts : Env → Cooking → List Column → Text → List AlterTableCmd → Result Text
unfolding command_text
command_texts e k columns name [] = ok []
command_texts e k columns name (c ∷ cs) =
    let rest = command_texts e k columns name cs in
    do
      t ← command_text e k columns c
      ts ← rest
      ok (lit "ALTER TABLE " ++ name ++ lit " " ++ t ++ ts)

-- pgduckdb_get_alter_tabledef
unfoldable pub get_alter_tabledef :
    Env → Cooking → (ℕ → Table) → ℕ → List AlterTableCmd → Result Text
unfolding command_texts
get_alter_tabledef e k table oid cmds = do
  name ← relation_name e oid
  fail_if (not (is_regular (table oid).relkind)) not_a_table (
      fail_if (table oid).has_foreign_keys foreign_keys
        (command_texts e k (table oid).columns name cmds))
