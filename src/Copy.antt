-- ===== src/Copy.antt =====
-- COPY by DuckDB, src/utility/copy.cpp: whether a COPY is left to Postgres, refused, or rewritten to a
-- text for DuckDB. Postgres' parser, rewriter and permission checks are the fields of one record. A
-- parse tree of a query is the text that it comes from.
use pg_duckdb.Common.{
  ℕ, Bool, true, false, not, ◌&&◌, ◌||◌, Option, none, some, List, [], ◌∷◌, ◌++◌, map,
  if◌then◌else◌,
}
use pg_duckdb.Xact
use pg_duckdb.Query.{Query, info, is_duckdb_table, is_catalog_table}
use pg_duckdb.Hooks
use pg_duckdb.Hooks.{
  State, Outcome, by_duckdb, no_plan, by_postgres, relations_in, is_select, is_allowed_statement,
  planner_hook,
}
use pg_duckdb.Worker.Sync.{Text}
use pg_duckdb.Worker.Sync.Loop.{eq_text}
use pg_duckdb.Ruleutils
use pg_duckdb.Ruleutils.{has_prefix, relation_name}
use pg_duckdb.Ruleutils.Definitions.{RangeVar}
use pg_duckdb.Sql.{
  Error, lit, separate, Result, ok, err, ◌>>=◌, catalog_tables, copy_from_postgres, copy_stdio,
  relative_path, option_without_value, unexpected_option, analysis_failed, no_query,
  conditional_rule, also_rule, many_queries, not_a_select, not_planned, permission_denied,
  row_security, no_such_relation, not_planned_by_duckdb,
}
pub mod Make
pub mod Rewritten
pub mod Schemes

-- The argument of an option, with the text that defGetString gives for it.
pub data Arg : Type 0 where
  integer float boolean string type_name : Text → Arg
  list : List Text → Text → Arg
  star other_node : Arg

pub record DefElem : Type 0 where
  pub defname : Text
  pub arg : Option Arg

pub record CopyStmt : Type 0 where
  pub relation : Option RangeVar
  pub attlist : List Text
  pub query : Option Text
  pub is_from : Bool
  pub is_program : Bool
  pub filename : Option Text
  pub options : List DefElem

-- The querySource of a rewritten query.
pub data QuerySource : Type 0 where
  original qual_instead_rule non_instead_rule other_rule : QuerySource

abbrev pub Rewrite : Type 0
Rewrite = List (QuerySource × Query)

pub data Acl : Type 0 where
  acl_select acl_insert : Acl

pub record Env : Type 0 where
  pub hooks : Hooks.Env
  pub names : Ruleutils.Env
  pub force_execution : Bool
  pub is_alpha : ℕ → Bool
  pub is_alnum : ℕ → Bool
  pub is_absolute_path : Text → Bool
  -- pg_str_endswith
  pub ends_with : Text → Text → Bool
  pub quote_literal : Text → Text
  -- table_openrv; `none` is its error
  pub open_relation : RangeVar → Option ℕ
  -- pg_analyze_and_rewrite; `none` is an error
  pub rewrite : Text → Option Rewrite
  pub get_querydef : Query → Text
  -- the relations in the range table of the plan, and whether ExecCheckPermissions passes on it
  pub plan_relids : Query → List ℕ
  pub plan_permitted : Query → Bool
  pub permitted : ℕ → Acl → Bool
  -- check_enable_rls gives RLS_ENABLED
  pub rls_enabled : ℕ → Bool

abbrev pub open_rv : Env → RangeVar → Result ℕ
open_rv e rv = elim (e.open_relation rv) [ none ↦ err no_such_relation | some o ↦ ok o ]

-- while (*p && isalnum(*p)) p++
unfoldable pub skip_alnum : Env → Text → Text
skip_alnum e [] = []
skip_alnum e (c ∷ cs) = let rest = skip_alnum e cs in if e.is_alnum c then rest else c ∷ cs

-- "://"
abbrev pub scheme_end : Text
scheme_end = 58 ∷ 47 ∷ 47 ∷ []

abbrev pub scheme_of : Env → Text → Bool
scheme_of e [] = false
scheme_of e (c ∷ cs) = e.is_alpha c && has_prefix (skip_alnum e cs) scheme_end

unfoldable pub matches_uri_scheme : Env → Option Text → Bool
unfolding skip_alnum
matches_uri_scheme e none = false
matches_uri_scheme e (some str) = scheme_of e str

-- The tests of IsAllowedStatement on an opened relation.
abbrev pub relation_refused : Bool → Bool → Bool → Option Error
relation_refused is_from is_duckdb is_catalog =
    if is_catalog
    then some catalog_tables
    else if is_from && not is_duckdb
    then some copy_from_postgres
    else none

abbrev pub path_refused : Env → Bool → Option Text → Option Error
path_refused e is_from none = some copy_stdio
path_refused e is_from (some f) =
    if not is_from && (not (e.is_absolute_path f) && not (matches_uri_scheme e (some f)))
    then some relative_path
    else none

abbrev pub or_else : Option Error → Option Error → Option Error
or_else none later = later
or_else (some error) later = some error

abbrev opened_refused : Env → State → CopyStmt → ℕ → Option Error
opened_refused e s stmt o =
    or_else
      (relation_refused stmt.is_from (is_duckdb_table (relations_in e.hooks s) o)
        (is_catalog_table (relations_in e.hooks s) o))
      (path_refused e stmt.is_from stmt.filename)

abbrev target_refused : Env → State → CopyStmt → Option RangeVar → Result (Option Error)
target_refused e s stmt none = ok (path_refused e stmt.is_from stmt.filename)
target_refused e s stmt (some rv) = open_rv e rv >>= λ o. ok (opened_refused e s stmt o)

-- IsAllowedStatement of a COPY: what it raises or, below ERROR, only reports. A relation that is not
-- there is an error at any level.
unfoldable pub copy_refused : Env → State → CopyStmt → Result (Option Error)
copy_refused e s stmt = target_refused e s stmt stmt.relation

abbrev star_text : Text
star_text = 42 ∷ []

abbrev arg_text : Arg → Result Text
arg_text (integer t) = ok t
arg_text (float t) = ok t
arg_text (boolean t) = ok t
arg_text (string t) = ok t
arg_text (type_name t) = ok t
arg_text (list names t) = ok t
arg_text star = ok star_text
arg_text other_node = err unexpected_option

unfoldable pub def_get_string : Option Arg → Result Text
def_get_string none = err option_without_value
def_get_string (some a) = arg_text a

-- StringOneOf
unfoldable pub one_of : Text → List Text → Bool
one_of t [] = false
one_of t (u ∷ us) = eq_text t u || one_of t us

unfoldable pub duckdb_only_formats : List Text
duckdb_only_formats = map lit ("parquet" ∷ "json" ∷ [])

unfoldable pub duckdb_only_options : List Text
duckdb_only_options = map lit (
    "partition_by" ∷ "use_tmp_file" ∷ "overwrite_or_ignore" ∷ "overwrite" ∷ "append"
    ∷ "filename_pattern" ∷ "file_extension" ∷ "per_thread_output" ∷ "file_size_bytes"
    ∷ "write_partition_columns" ∷ "array" ∷ "compression" ∷ "dateformat" ∷ "timestampformat"
    ∷ "nullstr" ∷ "prefix" ∷ "suffix" ∷ "compression_level" ∷ "field_ids" ∷ "row_group_size_bytes"
    ∷ "row_group_size" ∷ "row_groups_per_file" ∷ [])

unfoldable pub contains_duckdb_copy_option : List DefElem → Result Bool
contains_duckdb_copy_option [] = ok false
contains_duckdb_copy_option (d ∷ ds) =
    let rest = contains_duckdb_copy_option ds in
    if eq_text d.defname (lit "format")
    then (def_get_string d.arg >>= λ f. if one_of f duckdb_only_formats then ok true else rest)
    else if one_of d.defname duckdb_only_options
    then ok true
    else rest

unfoldable pub remote_prefixes : List Text
remote_prefixes = map lit (
    "s3://" ∷ "r2://" ∷ "gcs://" ∷ "gs://" ∷ "http://" ∷ "https://" ∷ "az://" ∷ "azure://"
    ∷ "abfs://" ∷ "abfss://" ∷ [])

unfoldable pub duckdb_suffixes : List Text
duckdb_suffixes = map lit (".parquet" ∷ ".json" ∷ ".ndjson" ∷ ".jsonl" ∷ ".gz" ∷ ".zst" ∷ [])

abbrev pub any_of : (Text → Bool) → List Text → Bool
any_of test [] = false
any_of test (t ∷ ts) = test t || any_of test ts

-- The tests on the name of the file.
unfoldable pub duckdb_filename : Env → Option Text → Bool
duckdb_filename e none = false
duckdb_filename e (some f) =
    any_of (has_prefix f) remote_prefixes || any_of (e.ends_with f) duckdb_suffixes

abbrev pub from_duckdb_table : Env → State → Bool → Option RangeVar → Result Bool
from_duckdb_table e s is_from none = ok false
from_duckdb_table e s is_from (some rv) =
    if is_from
    then (open_rv e rv >>= λ o. ok (is_duckdb_table (relations_in e.hooks s) o))
    else ok false

-- NeedsDuckdbExecution
unfoldable pub needs_duckdb_execution : Env → State → CopyStmt → Result Bool
unfolding duckdb_filename contains_duckdb_copy_option
needs_duckdb_execution e s stmt =
    if duckdb_filename e stmt.filename
    then ok true
    else contains_duckdb_copy_option stmt.options >>= λ has_option.
        if has_option then ok true else from_duckdb_table e s stmt.is_from stmt.relation
